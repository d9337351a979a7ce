-- ===== src/Sources.antt =====
-- pkg/protoc: the configurations that plugins return
-- (plugin_configuration.go), and the sources of a compilation (protoc_configuration.go).
pub mod Merge
use rules_proto.Base.{Text, bytes, Bool, true, false, List, [], ◌∷◌, ◌++◌, Option, none, some, ◌&&◌}
use rules_proto.Base.{◌==◌, text_eq, text_beq, if◌then◌else◌, is_empty, map, not}
use rules_proto.Base.Dict.{Dict, lookup, insert, or_zero, copy_into}
use rules_proto.Base.Sort.{sort_strings}
use rules_proto.Go.Strings.{trim_prefix}
use rules_proto.Go.Paths.{path_dir, path_base}
use rules_proto.External.{External, Label}
use rules_proto.Config.Plugin.{LanguagePluginConfig}
use rules_proto.Config.Language.{LanguageConfig}
use rules_proto.Library.{ProtoLibrary}

-- `plugin` is the implementation that made the configuration, by its name.
pub record PluginConfiguration : Type 0 where
  pub config : LanguagePluginConfig
  pub label : Label
  pub mappings : Dict Text Text
  pub options : List Text
  pub out : Text
  pub outputs : List Text
  pub plugin : Text

-- `GetPluginLabels`
unfoldable pub get_plugin_labels : External → List PluginConfiguration → List Text
get_plugin_labels ext plugins = sort_strings (map (λ p. ext.label_string p.label) plugins)

-- `GetPluginOptions`; `resolver` is the method `ResolvePluginOptions` of the plugins that have it,
-- with its rule and its label.
module _ (ext : External) (resolver : PluginConfiguration → Option (List Text)) where
  options_of : PluginConfiguration → List Text
  options_of cfg = elim (resolver cfg) [ none ↦ cfg.options | some opts ↦ opts ]

  get_options_from : Dict Text (List Text) → List PluginConfiguration → Dict Text (List Text)
  get_options_from options [] = options
  get_options_from options (cfg ∷ plugins) =
      let opts = options_of cfg in
      get_options_from
        (if is_empty opts
          then options
          else insert (ext.label_string cfg.label) (sort_strings opts) options)
        plugins

  unfoldable pub get_plugin_options : List PluginConfiguration → Dict Text (List Text)
  unfolding get_options_from options_of
  get_plugin_options plugins = get_options_from [] plugins

get_outs_from : External → Dict Text Text → List PluginConfiguration → Dict Text Text
get_outs_from ext outs [] = outs
get_outs_from ext outs (plugin ∷ plugins) =
    get_outs_from ext
      (if is_empty plugin.out then outs else insert (ext.label_string plugin.label) plugin.out outs)
      plugins

-- `GetPluginOuts`
unfoldable pub get_plugin_outs : External → List PluginConfiguration → Dict Text Text
unfolding get_outs_from
get_plugin_outs ext plugins = get_outs_from ext [] plugins

-- The sources and the mappings that `mergeSources` has gathered.
pub record Merged : Type 0 where
  pub srcs : List Text
  pub mappings : Dict Text Text

-- The directory of an output: the workspace root is the empty text.
pub output_dir : Text → Text → Text
output_dir rel filename =
    let dir = path_dir filename in if dir == bytes "." && is_empty rel then rel else dir

merge_output : Text → Merged → Text → Merged
merge_output rel m filename =
    if output_dir rel filename == rel
    then record m { srcs = m.srcs ++ trim_prefix filename (rel ++ bytes "/") ∷ [] }
    else (let base = path_base filename in
        record { srcs = m.srcs ++ base ∷ []; mappings = insert base filename m.mappings })

merge_outputs : Text → Merged → List Text → Merged
merge_outputs rel m [] = m
merge_outputs rel m (filename ∷ outputs) = merge_outputs rel (merge_output rel m filename) outputs

merge_plugin : Text → Merged → PluginConfiguration → Merged
merge_plugin rel m plugin =
    if is_empty plugin.mappings
    then merge_outputs rel m plugin.outputs
    else record { srcs = m.srcs ++ plugin.outputs; mappings = copy_into m.mappings plugin.mappings }

merge_plugins : Text → Merged → List PluginConfiguration → Merged
merge_plugins rel m [] = m
merge_plugins rel m (plugin ∷ plugins) = merge_plugins rel (merge_plugin rel m plugin) plugins

-- `mergeSources`; the working directory is not read.
unfoldable pub merge_sources : Text → List PluginConfiguration → Merged
unfolding merge_plugins merge_plugin merge_outputs merge_output output_dir
merge_sources rel plugins = merge_plugins rel (record { srcs = []; mappings = [] }) plugins

-- What `newProtocConfiguration` returns, but for the package configuration that it points to.
pub record ProtocConfiguration : Type 0 where
  pub language_config : LanguageConfig
  pub rel : Text
  pub prefix : Text
  pub library : ProtoLibrary
  pub plugins : List PluginConfiguration
  pub outputs : List Text
  pub mappings : Dict Text Text

-- `newProtocConfiguration`
unfoldable pub new_protoc_configuration :
    LanguageConfig → Text → Text → ProtoLibrary → List PluginConfiguration → ProtocConfiguration
unfolding merge_sources
new_protoc_configuration lc rel prefix lib plugins =
    let merged = merge_sources rel plugins in
    record {
      language_config = lc;
      rel = rel;
      prefix = prefix;
      library = lib;
      plugins = plugins;
      outputs = merged.srcs;
      mappings = merged.mappings;
    }

find_plugin : Text → List PluginConfiguration → Option PluginConfiguration
find_plugin implementation_name [] = none
find_plugin implementation_name (plugin ∷ plugins) =
    let rest = find_plugin implementation_name plugins in
    if plugin.config.implementation == implementation_name then some plugin else rest

-- `GetPluginConfiguration`; `none` is nil.
unfoldable pub get_plugin_configuration : ProtocConfiguration → Text → Option PluginConfiguration
unfolding find_plugin
get_plugin_configuration c implementation_name = find_plugin implementation_name c.plugins

-- `GetPluginOutputs`; nil is the empty list.
unfoldable pub get_plugin_outputs : ProtocConfiguration → Text → List Text
unfolding get_plugin_configuration
get_plugin_outputs c implementation_name = elim (get_plugin_configuration c implementation_name) [
  | none ↦ []
  | some plugin ↦ plugin.outputs
]
