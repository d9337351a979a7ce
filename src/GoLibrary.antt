-- ===== src/GoLibrary.antt =====
-- pkg/rule/rules_go/go_library.go: Go libraries of the generated sources. A rule that Go changes in
-- place is returned with its changes; the table of the libraries of a rule is a state.
pub mod Merge
pub mod Embed
use rules_proto.Base.{Text, bytes, Bool, true, false, not, List, [], ◌∷◌, ◌++◌, Option, none, some}
use rules_proto.Base.{◌==◌, text_eq, if◌then◌else◌, is_empty, ◌&&◌, map, ℕ, ◌=ℕ◌}
use rules_proto.Base.Dict.{Dict, lookup, insert, or_zero}
use rules_proto.Dedup.{deduplicate_and_sort}
use rules_proto.Go.Strings.{split_n, has_prefix, strip_prefix}
use rules_proto.Go.Paths.{path_ext, path_base, path_join}
use rules_proto.External.{External, Label, new_label, label_eq}
use rules_proto.Gazelle.{
  BuildRule, new_rule, set_attr, set_nonempty, attr_string, attr_strings, Value, texts_value,
  text_value, texts_of,
}
use rules_proto.Library.{ProtoLibrary}
use rules_proto.Rewrite.{resolve_library_rewrites}
use rules_proto.Config.Plugin
use rules_proto.Config.Rule
use rules_proto.Config.Rule.{LanguageRuleConfig}
use rules_proto.Resolver.{Resolver, resolve, provide}
use rules_proto.File.{ProtoFile, get_named_option}
use rules_proto.Sources.{PluginConfiguration, ProtocConfiguration}
use rules_proto.Deps.{Index, DepsRule, strip_rel, resolve_deps_attr}
use rules_proto.RuleIndex.{RuleIndex, get}

abbrev pub proto_go_library : Text
proto_go_library = bytes "proto_go_library"

-- `goLibraryRule`
pub record GoLibraryRule : Type 0 where
  pub id : Label
  pub kind_name : Text
  pub rule_name_suffix : Text
  pub outputs : List Text
  pub deps : List Text
  pub pc : ProtocConfiguration
  pub rule_config : LanguageRuleConfig

-- `protoLibrariesByRule`
abbrev pub Libraries : Type 0
Libraries = Dict Label (List ProtoLibrary)

-- The inner loop of `ProvideRule`: the `.go` outputs of a plugin, with its dependencies for each.
pub go_outputs : PluginConfiguration → List Text → List Text × List Text
go_outputs plugin [] = ([], [])
go_outputs plugin (out ∷ outputs) =
    let (outs, deps) = go_outputs plugin outputs in
    if path_ext out == bytes ".go"
    then (out ∷ outs, Plugin.get_deps plugin.config ++ deps)
    else (outs, deps)

-- The loop of `ProvideRule` over the plugins.
pub all_go_outputs : List PluginConfiguration → List Text × List Text
all_go_outputs [] = ([], [])
all_go_outputs (plugin ∷ plugins) =
    let (outs, deps) = go_outputs plugin plugin.outputs in
    let (outs', deps') = all_go_outputs plugins in (outs ++ outs', deps ++ deps')

-- The method `Name`
unfoldable pub rule_name : ProtocConfiguration → Text → Text
rule_name pc suffix = pc.library.base_name ++ suffix

-- `ProvideRule`; `none` is nil.
unfoldable pub provide_rule : Text → LanguageRuleConfig → ProtocConfiguration → Option GoLibraryRule
unfolding go_outputs all_go_outputs rule_name
provide_rule kind_name cfg pc =
    let (outputs, plugin_deps) = all_go_outputs pc.plugins in
    if is_empty outputs
    then none
    else some (record {
      id = new_label [] pc.rel (rule_name pc (bytes "_go_proto"));
      kind_name = kind_name;
      rule_name_suffix = bytes "_go_proto";
      outputs =
          deduplicate_and_sort (map (λ output. path_join (pc.rel ∷ path_base output ∷ [])) outputs);
      deps = deduplicate_and_sort plugin_deps;
      pc = pc;
      rule_config = cfg;
    })

-- `Srcs`
unfoldable pub srcs : GoLibraryRule → List Text
srcs s = map (strip_rel s.pc.rel) s.outputs

-- `configDeps`
unfoldable pub config_deps : External → GoLibraryRule → List Text
config_deps ext s =
    s.deps
    ++ (Rule.get_deps s.rule_config
        ++ resolve_library_rewrites ext (Rule.get_rewrites s.rule_config)
            (map (λ (f : ProtoFile). f.imports) s.pc.library.files))

-- `goPrefix`
unfoldable pub go_prefix : Resolver → Text
go_prefix resolver =
    elim (resolve resolver (bytes "gazelle") (bytes "directive") (bytes "prefix")) [
      | [] ↦ []
      | first ∷ _ ↦ first.pkg
    ]

-- `tryParseMapping`
pub parse_parts : Dict Text Text → List Text → Dict Text Text
parse_parts mappings (file ∷ path ∷ []) = insert file path mappings
parse_parts mappings _ = mappings

unfoldable pub try_parse_mapping : Dict Text Text → Text → Dict Text Text
unfolding parse_parts
try_parse_mapping mappings opt = elim (strip_prefix opt (bytes "M")) [
  | none ↦ mappings
  | some rest ↦ parse_parts mappings (split_n 2 61 rest)
]

pub parse_mappings : Dict Text Text → List Text → Dict Text Text
unfolding try_parse_mapping
parse_mappings mappings [] = mappings
parse_mappings mappings (opt ∷ opts) = parse_mappings (try_parse_mapping mappings opt) opts

pub plugin_mappings : Dict Text Text → List PluginConfiguration → Dict Text Text
unfolding parse_mappings
plugin_mappings mappings [] = mappings
plugin_mappings mappings (plugin ∷ plugins) =
    plugin_mappings (parse_mappings mappings plugin.options) plugins

-- The last loop of `getPluginImportMappingOption`; a missing mapping reads as the empty text.
pub mapping_for : Dict Text Text → List ProtoFile → Text
mapping_for mappings [] = []
mapping_for mappings (file ∷ files) =
    let mapping = or_zero [] (lookup (path_join (file.dir ∷ file.basename ∷ [])) mappings) in
    let rest = mapping_for mappings files in if is_empty mapping then rest else mapping

-- `getPluginImportMappingOption`
unfoldable pub get_plugin_import_mapping_option : GoLibraryRule → Text
unfolding plugin_mappings parse_mappings mapping_for
get_plugin_import_mapping_option s =
    mapping_for (parse_mappings (plugin_mappings [] s.pc.plugins) (Rule.get_options s.rule_config))
      s.pc.library.files

-- The text before the last byte `sep`, if there is one.
pub before_last : ℕ → Text → Option Text
before_last sep [] = none
before_last sep (c ∷ s) = elim (before_last sep s) [
  | some a ↦ some (c ∷ a)
  | none ↦ if c =ℕ sep then some [] else none
]

-- `value[:i]` where the value has a semicolon, the value otherwise; a value with no slash is passed.
pub path_of_value : Text → Option Text
unfolding before_last
path_of_value value = elim (before_last 47 value) [
  | none ↦ none
  | some _ ↦ elim (before_last 59 value) [ none ↦ some value | some path ↦ some path ]
]

-- The loop of `importPath` over the files.
pub go_package_of : List ProtoFile → Option Text
unfolding path_of_value
go_package_of [] = none
go_package_of (file ∷ files) =
    let rest = go_package_of files in
    let value = or_zero [] (get_named_option file.options (bytes "go_package")) in
    if is_empty value
    then rest
    else elim (path_of_value value) [ none ↦ rest | some path ↦ some path ]

-- `importPath`
unfoldable pub import_path : Resolver → GoLibraryRule → Text
unfolding get_plugin_import_mapping_option go_package_of go_prefix
import_path resolver s =
    let mapping = get_plugin_import_mapping_option s in
    if is_empty mapping
    then elim (go_package_of s.pc.library.files) [
      | some path ↦ path
      | none ↦
          let prefix = go_prefix resolver in
          if is_empty prefix
          then []
          else path_join (prefix ∷ s.pc.rel ∷ s.pc.library.base_name ∷ [])
    ]
    else mapping
