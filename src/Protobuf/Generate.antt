-- ===== src/Protobuf/Generate.antt =====
-- pkg/language/protobuf/generate.go and resolve.go: how the extension generates the rules of a
-- package, up to their providers, and passes rules on to the providers. The panic of a base name,
-- which Go meets when a plugin asks for it, comes before the choice of plugins here.
use rules_proto.Base.{Text, bytes, List, [], ◌∷◌, Option, none, some, text_eq}
use rules_proto.Base.{◌==◌, if◌then◌else◌}
use rules_proto.Base.Dict.{Dict, lookup}
use rules_proto.External.{External, Label}
use rules_proto.File.{ProtoFile}
use rules_proto.Gazelle.{BuildRule}
use rules_proto.Library.{ProtoLibrary, OtherProtoLibrary, proto_library}
use rules_proto.RuleIndex.{RuleIndex}
use rules_proto.Config.Rule.{Config}
use rules_proto.Config.Package.{PackageConfig}
use rules_proto.Registry.{Registry}
use rules_proto.Resolver.{Resolver}
use rules_proto.Generation.Choice.{FatalError, built, fatal, Plugin, LanguageRule, new_package}
use rules_proto.Protobuf.{get_or_create_package_config}
use rules_proto.Protobuf.Sources.{OtherGen, parse_files, other_rules}

-- What a package is generated to.
pub record Generated (P : Type 0) : Type 0 where
  pub index : RuleIndex
  pub resolver : Resolver
  pub config : PackageConfig
  pub libraries : List ProtoLibrary
  pub gen : List (P × ProtoLibrary)
  pub empty : List (P × ProtoLibrary)

-- The ends of `GenerateRules`: a source that is no label, a base name that panics, a fatal choice.
pub data Generation (P : Type 0) : Type 0 where
  bad_label panicked : Generation P
  failed : FatalError → Generation P
  generated : Generated P → Generation P

-- The libraries as the interface; `none` is the panic of a base name.
unfoldable pub proto_libraries : List OtherProtoLibrary → Option (List ProtoLibrary)
proto_libraries [] = some []
proto_libraries (s ∷ others) = elim (proto_library s) [
  | none ↦ none
  | some lib ↦ elim (proto_libraries others) [ none ↦ none | some libs ↦ some (lib ∷ libs) ]
]

module _ {P : Type 0} (ext : External) (config : Config)
    (registry : Registry (LanguageRule P) Plugin) (read : Text → Option ProtoFile)
    (kept : BuildRule → Text → Text) where
  -- `NewPackage` on the libraries of the package.
  unfoldable pub package_of : Text → PackageConfig → OtherGen → Generation P
  unfolding proto_libraries
  package_of rel c s = elim (proto_libraries s.libraries) [
    | none ↦ panicked
    | some libs ↦ elim (new_package registry rel c libs) [
      | fatal e ↦ failed e
      | built (c', gen, empty) ↦ generated (record {
        index = s.index;
        resolver = s.resolver;
        config = c';
        libraries = libs;
        gen = gen;
        empty = empty;
      })
    ]
  ]

  -- `GenerateRules` up to `NewPackage`, from the regular files and the rules of other extensions.
  unfoldable pub generate_rules :
      Text → Option PackageConfig → RuleIndex → Resolver → List Text → List BuildRule → Generation P
  unfolding package_of
  generate_rules rel existing index resolver regular other_gen =
      let c = get_or_create_package_config config existing in
      let (files, resolver') = parse_files read [] resolver regular in
      elim (other_rules ext rel kept files
        (record { index = index; resolver = resolver'; libraries = [] }) other_gen) [
          | none ↦ bad_label
          | some s ↦ package_of rel c s
        ]

-- The providers of the packages, by package and name of the rule.
abbrev pub Providers : Type 0 → Type 0
Providers P = Dict Text (Dict Text P)

-- `Imports`: the provider of a rule, if its package and the rule are known.
unfoldable pub provider_of : {P : Type 0} → Providers P → Text → BuildRule → Option P
provider_of packages pkg r = elim (lookup pkg packages) [
  | none ↦ none
  | some providers ↦ lookup r.name providers
]

-- What `Resolve` does with a rule: it is an override; its package is unknown, or its imports are
-- none, which is logged; it has no provider, which is a nil pointer; or it is passed on.
pub data Dispatch (P : Type 0) : Type 0 where
  override unknown_package no_imports nil_provider : Dispatch P
  passed_on : P → List Text → Dispatch P

-- `Resolve`, with the imports if they are a list of texts
unfoldable pub resolve :
    {P : Type 0} → Providers P → BuildRule → Option (List Text) → Label → Dispatch P
resolve packages r imports from =
    if r.kind == bytes "proto_library_override" then override else elim (lookup from.pkg packages) [
      | none ↦ unknown_package
      | some providers ↦ elim imports [
        | none ↦ no_imports
        | some imps ↦ elim (lookup r.name providers) [
          | none ↦ nil_provider
          | some provider ↦ passed_on provider imps
        ]
      ]
    ]
