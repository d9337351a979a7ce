-- ===== src/Plugins/TsProto.antt =====
-- pkg/plugin/stephenh/ts-proto/protoc-gen-ts-proto.go
use rules_proto.Base.{Text, bytes, Bool, false, not, List, [], ◌∷◌, ◌++◌, Option, none, some}
use rules_proto.Base.{text_eq, if◌then◌else◌, contains}
use rules_proto.Base.Dict.{Dict, lookup, or_zero}
use rules_proto.Dedup.{deduplicate_and_sort}
use rules_proto.Go.Strings.{strip_prefix, split_n, has_prefix, trim_suffix}
use rules_proto.Go.Paths.{path_base}
use rules_proto.Config.Plugin.{get_options, get_flags}
use rules_proto.File.{ProtoFile}
use rules_proto.Sources.{PluginConfiguration}
use rules_proto.Generation.Choice.{PluginContext}
use rules_proto.Scala.{all_true}
use rules_proto.Plugins.{conf, own_label, join_unless_empty, parse_exclude}

-- The map of the imports of all files.
pub imported : Dict Text Bool → List ProtoFile → Dict Text Bool
imported imports [] = imports
imported imports (file ∷ files) = imported (all_true imports file.imports) files

abbrev pub first_part : List Text → Text
first_part [] = []
first_part (part ∷ parts) = part

-- Whether an option associates, by `M=`, a file that is not imported.
unfoldable pub irrelevant : Dict Text Bool → Text → Bool
irrelevant imports option = elim (strip_prefix option (bytes "M=")) [
  | none ↦ false
  | some key_val ↦ not (or_zero false (lookup (first_part (split_n 2 61 key_val)) imports))
]

-- The loop over the options.
unfoldable pub relevant_options : Dict Text Bool → List Text → List Text
unfolding irrelevant
relevant_options imports [] = []
relevant_options imports (option ∷ options) =
    let rest = relevant_options imports options in
    if irrelevant imports option then rest else option ∷ rest

-- The generated files of the well-known imports of a file.
unfoldable pub well_known_outputs : List Text → List Text
well_known_outputs [] = []
well_known_outputs (imp ∷ imports) =
    let rest = well_known_outputs imports in
    if has_prefix imp (bytes "google/protobuf")
    then (trim_suffix imp (bytes ".proto") ++ bytes ".ts") ∷ rest
    else rest

-- The loop over the files.
unfoldable pub ts_files : Bool → Dict Text Bool → Text → List ProtoFile → List Text
unfolding well_known_outputs
ts_files emit_imported exclude rel [] = []
ts_files emit_imported exclude rel (file ∷ files) =
    let rest = ts_files emit_imported exclude rel files in
    let ts_file = file.name ++ bytes ".ts" in
    let rest' =
      if or_zero false (lookup (path_base ts_file) exclude)
      then rest
      else join_unless_empty rel ts_file ∷ rest in
    if emit_imported then well_known_outputs file.imports ++ rest' else rest'

-- `ProtocGenTsProto.Configure`; `none` is the fatal end of the parser of flags.
unfoldable pub ts_proto : (List Text → Option Text) → PluginContext → Option PluginConfiguration
unfolding imported relevant_options ts_files
ts_proto parse ctx = elim (parse_exclude parse (get_flags ctx.plugin_config)) [
  | none ↦ none
  | some exclude ↦
      let files = ctx.library.files in
      let options = relevant_options (imported [] files) (get_options ctx.plugin_config) in
      let emit = contains options (bytes "emitImportedFiles=true") in
      some (
        conf ctx (own_label (bytes "plugin/stephenh/ts-proto") (bytes "protoc-gen-ts-proto"))
          (deduplicate_and_sort (ts_files emit exclude ctx.rel files)) []
          (deduplicate_and_sort options))
]
