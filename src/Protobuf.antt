-- ===== src/Protobuf.antt =====
-- pkg/language/protobuf/config.go and resolve.go: what the extension does when gazelle configures a
-- package. The maps and the singletons that Go writes to are states.
pub mod Sources
pub mod Override
pub mod Flags
pub mod Loads
pub mod Generate
use rules_proto.Base.{Text, bytes, Bool, true, false, List, [], ◌∷◌, ◌++◌, Option, none, some}
use rules_proto.Base.{◌==◌, text_eq, if◌then◌else◌, is_empty}
use rules_proto.External.{External, Label, new_label}
use rules_proto.Config.Errors.{Directive, Error, Outcome}
use rules_proto.Config.Rule.{Config}
use rules_proto.Config.Package as Package
use rules_proto.Config.Package.{PackageConfig, parse_directives}
use rules_proto.Resolver.{Resolver, provide}
use rules_proto.Resolver.Install.{OverrideSpec, install}

-- `getOrCreatePackageConfig`, from the configuration that the parent package left
unfoldable pub get_or_create_package_config : Config → Option PackageConfig → PackageConfig
get_or_create_package_config config none = Package.new config
get_or_create_package_config config (some existing) = Package.clone existing

-- The loop over the directives of the root: prefixes go to the resolver, as the package of a label.
unfoldable pub provide_prefixes : Resolver → List Directive → Resolver
provide_prefixes resolver [] = resolver
provide_prefixes resolver (d ∷ directives) =
    provide_prefixes
      (if d.key == bytes "prefix"
        then provide resolver (bytes "gazelle") (bytes "directive") (bytes "prefix")
            (new_label [] d.value (bytes "go"))
        else resolver)
      directives

-- What `Configure` reads and writes: the resolver, the overrides of gazelle, and the configuration
-- of the extension for the package.
pub record LangState : Type 0 where
  pub resolver : Resolver
  pub overrides : List OverrideSpec
  pub package_config : Option PackageConfig

-- How `Configure` ends: by a panic of the installation, by a fatal error, or with a state.
pub data Configured : Type 0 where
  panicked : Configured
  failed : Error → Configured
  configured : LangState → Configured

-- `if f == nil { return }`, and the directives of a build file otherwise.
unfoldable pub configure_file : External → Config → LangState → Option (List Directive) → Configured
unfolding get_or_create_package_config
configure_file ext config s none = configured s
configure_file ext config s (some directives) =
    let (c, failure) =
      parse_directives ext (get_or_create_package_config config s.package_config) directives in
    elim failure [ some e ↦ failed e | none ↦ configured (record s { package_config = some c }) ]

abbrev pub or_no_directives : Option (List Directive) → List Directive
or_no_directives none = []
or_no_directives (some directives) = directives

-- `Configure`, with the directives of the build file, if there is one
unfoldable pub configure :
    External → Config → LangState → Text → Option (List Directive) → Configured
unfolding configure_file provide_prefixes
configure ext config s (c ∷ rel) file = configure_file ext config s file
configure ext config s [] file = elim (install s.resolver s.overrides) [
  | none ↦ panicked
  | some overrides ↦
      configure_file ext config
        (record s {
          overrides = overrides;
          resolver = provide_prefixes s.resolver (or_no_directives file);
        })
        file
]

-- The table of `registerWellKnownProtos`; the labels are of com_google_protobuf.
abbrev pub well_known_protos : List (Text × Text)
well_known_protos =
    (bytes "google/protobuf/any.proto", bytes "any_proto")
    ∷ (bytes "google/protobuf/api.proto", bytes "api_proto")
    ∷ (bytes "google/protobuf/compiler/plugin.proto", bytes "compiler_plugin_proto")
    ∷ (bytes "google/protobuf/descriptor.proto", bytes "descriptor_proto")
    ∷ (bytes "google/protobuf/duration.proto", bytes "duration_proto")
    ∷ (bytes "google/protobuf/empty.proto", bytes "empty_proto")
    ∷ (bytes "google/protobuf/field_mask.proto", bytes "field_mask_proto")
    ∷ (bytes "google/protobuf/source_context.proto", bytes "source_context_proto")
    ∷ (bytes "google/protobuf/struct.proto", bytes "struct_proto")
    ∷ (bytes "google/protobuf/timestamp.proto", bytes "timestamp_proto")
    ∷ (bytes "google/protobuf/type.proto", bytes "type_proto")
    ∷ (bytes "google/protobuf/wrappers.proto", bytes "wrappers_proto")
    ∷ []

pub register_from : Resolver → List (Text × Text) → Resolver
register_from resolver [] = resolver
register_from resolver ((file, name) ∷ protos) =
    register_from
      (provide resolver (bytes "proto") (bytes "proto") file
        (new_label (bytes "com_google_protobuf") [] name))
      protos

-- `registerWellKnownProtos`
unfoldable pub register_well_known_protos : Resolver → Resolver
unfolding register_from
register_well_known_protos resolver = register_from resolver well_known_protos
