-- ===== src/GoPlugin.antt =====
-- pkg/plugin/golang/protobuf/protoc-gen-go.go: the import mappings of the Go plugins.
pub mod Options
pub mod Fuel
pub mod Closure
use rules_proto.Base.{ℕ, zero, suc, ◌+◌, Text, bytes, Bool, true, false, List, [], ◌∷◌, ◌++◌}
use rules_proto.Base.{Option, none, some, ◌==◌, text_eq, if◌then◌else◌, is_empty, map, length}
use rules_proto.Base.Dict.{Dict, lookup, insert, or_zero}
use rules_proto.Go.Strings.{strip_prefix, split_n}
use rules_proto.Go.Paths.{path_join}
use rules_proto.File.{ProtoFile, has_message_or_enum, go_package_path, go_package_option}
use rules_proto.External.{Label, new_label}
use rules_proto.Resolver.{Resolver, ImportLabels, known_for, provide}

-- `shouldApply`
unfoldable pub should_apply : List ProtoFile → Bool
unfolding has_message_or_enum
should_apply [] = false
should_apply (f ∷ files) = if has_message_or_enum f then true else should_apply files

-- `GetGoOutputBaseName`; the zero value of the map is the empty text.
unfoldable pub get_go_output_base_name : ProtoFile → Dict Text Text → Text
unfolding go_package_path go_package_option
get_go_output_base_name f import_mappings =
    let target = or_zero [] (lookup (path_join (f.dir ∷ f.basename ∷ [])) import_mappings) in
    if is_empty target
    then elim (go_package_option f.options) [
      | some parts ↦ path_join (parts.0 ∷ f.name ∷ [])
      | none ↦ if is_empty f.pkg then f.name else path_join (go_package_path f.pkg ∷ f.name ∷ [])
    ]
    else path_join (target ∷ f.name ∷ [])

-- `outputs`
unfoldable pub outputs : List ProtoFile → Dict Text Text → List Text
unfolding has_message_or_enum get_go_output_base_name
outputs [] import_mappings = []
outputs (f ∷ files) import_mappings =
    let rest = outputs files import_mappings in
    if has_message_or_enum f
    then (get_go_output_base_name f import_mappings ++ bytes ".pb.go") ∷ rest
    else rest

-- What an option is: another than `M`, or an association of an import.
pub data GoOption : Type 0 where
  plain : GoOption
  mapping : Text → Text → GoOption

mapping_of_parts : List Text → GoOption
mapping_of_parts (imp ∷ target ∷ []) = mapping imp target
mapping_of_parts parts = plain

-- The tests at the head of both loops over options: `HasPrefix(opt, "M")` and
-- `SplitN(opt[1:], "=", 2)`.
unfoldable pub classify : Text → GoOption
unfolding mapping_of_parts
classify opt = elim (strip_prefix opt (bytes "M")) [
  | none ↦ plain
  | some rest ↦ mapping_of_parts (split_n 2 61 rest)
]

import_mappings_from : Dict Text Text → List Text → List Text → Dict Text Text × List Text
import_mappings_from mappings rest [] = (mappings, rest)
import_mappings_from mappings rest (opt ∷ options) = elim (classify opt) [
  | plain ↦ import_mappings_from mappings (rest ++ opt ∷ []) options
  | mapping imp target ↦ import_mappings_from (insert imp target mappings) rest options
]

-- `GetImportMappings`
unfoldable pub get_import_mappings : List Text → Dict Text Text × List Text
unfolding import_mappings_from
get_import_mappings options = import_mappings_from [] [] options

-- The loop of `Configure` that records the mappings.
unfoldable pub provide_mappings : Resolver → Dict Text Text → Resolver
provide_mappings r [] = r
provide_mappings r ((k, v) ∷ mappings) =
    provide_mappings (provide r (bytes "proto") (bytes "M") k (new_label [] v (bytes "option")))
      mappings

-- `ResolvePluginOptionsTransitive`, from the transitive mappings
unfoldable pub resolve_plugin_options : Dict Text Text → List Text → List Text
resolve_plugin_options transitive [] = []
resolve_plugin_options transitive (opt ∷ options) =
    let rest = resolve_plugin_options transitive options in
    elim (classify opt) [
      | plain ↦ opt ∷ rest
      | mapping imp target ↦ elim (lookup imp transitive) [ none ↦ rest | some _ ↦ opt ∷ rest ]
    ]

-- The files that a file depends on: `Resolve("proto", "depends", f)`, each label as a path.
unfoldable pub depends_of : ImportLabels → Text → List Text
depends_of depends f = map (λ l. path_join (l.pkg ∷ l.name ∷ [])) (or_zero [] (lookup f depends))

-- The recorded mapping of a file: the package of the first label of `Resolve("proto", "M", f)`.
unfoldable pub mapped : ImportLabels → Text → Option Text
mapped m f = elim (or_zero [] (lookup f m)) [
  | [] ↦ none
  | first ∷ _ ↦ some (path_join (first.pkg ∷ []))
]

-- The files seen and the mappings made.
pub record Visited : Type 0 where
  pub seen : Dict Text Bool
  pub mappings : Dict Text Text

-- The body of the loop for a file that is not yet seen.
pub visit : ImportLabels → Text → Visited → Visited
visit m f s = record {
  seen = insert f true s.seen;
  mappings = elim (mapped m f) [ none ↦ s.mappings | some target ↦ insert f target s.mappings ];
}

-- The loop over the list of files still to process; `none` is the end of the fuel.
pub traverse : ImportLabels → ImportLabels → ℕ → Visited → List Text → Option Visited
traverse depends m fuel s [] = some s
traverse depends m zero s (f ∷ files) = none
traverse depends m (suc fuel) s (f ∷ files) = elim (or_zero false (lookup f s.seen)) [
  | true ↦ traverse depends m fuel s files
  | false ↦ traverse depends m fuel (visit m f s) (files ++ depends_of depends f)
]

-- The number of labels of a table.
pub label_count : ImportLabels → ℕ
label_count [] = 0
label_count ((f, labels) ∷ depends) = length labels + label_count depends

-- `ResolveTransitiveImportMappings` of a library that has no mappings yet, by its sources and the
-- package of the rule. Each source and each recorded dependency is taken from the list once.
unfoldable pub resolve_transitive_import_mappings :
    Resolver → Text → List Text → Option (Dict Text Text)
unfolding traverse visit label_count
resolve_transitive_import_mappings r pkg srcs =
    let depends = known_for r (bytes "proto") (bytes "depends") in
    let m = known_for r (bytes "proto") (bytes "M") in
    let files = map (λ src. path_join (pkg ∷ src ∷ [])) srcs in
    elim (traverse depends m (length files + label_count depends)
      (record { seen = []; mappings = [] }) files) [ none ↦ none | some s ↦ some s.mappings ]
