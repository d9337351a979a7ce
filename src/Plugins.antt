-- ===== src/Plugins.antt =====
-- pkg/plugin: what the plugins predict of the compiler's outputs. The parser of flags is a
-- parameter; nil is `none`.
pub mod Services
pub mod TsProto
use rules_proto.Base.{Text, bytes, Bool, true, false, List, [], ◌∷◌, ◌++◌, Option, none, some, ◌||◌}
use rules_proto.Base.{◌==◌, text_eq, if◌then◌else◌, is_empty, ◌&&◌, map, contains}
use rules_proto.Base.Dict.{Dict, lookup, or_zero}
use rules_proto.Go.Strings.{replace_byte, split, strip_prefix, trim_suffix}
use rules_proto.Go.Paths.{path_join, path_base, path_ext}
use rules_proto.Go.Case.{title, to_lower}
use rules_proto.External.{Label, new_label}
use rules_proto.Library.{ProtoLibrary}
use rules_proto.Config.Plugin
use rules_proto.Config.Plugin.{LanguagePluginConfig, get_options, get_flags}
use rules_proto.File.{
  ProtoFile, ProtoEnum, has_messages, has_enums, has_services, any_has_services, flat_map_files,
  relative_file_name_with_extensions, import_prefix_relative_file_name_with_extensions,
  get_named_option, go_package_option,
}
use rules_proto.File.Pascal.{to_pascal_case}
use rules_proto.Sources.{PluginConfiguration}
use rules_proto.Generation.Choice.{PluginContext}
use rules_proto.Scala.{all_true}

-- `label.New("build_stack_rules_proto", pkg, name)`
abbrev pub own_label : Text → Text → Label
own_label pkg name = new_label (bytes "build_stack_rules_proto") pkg name

-- A `PluginConfiguration`; generation sets the implementation and the configuration.
abbrev pub conf : PluginContext → Label → List Text → Text → List Text → PluginConfiguration
conf ctx l outputs out options = record {
  config = ctx.plugin_config;
  label = l;
  mappings = [];
  options = options;
  out = out;
  outputs = outputs;
  plugin = [];
}

-- `protoc.Always`
abbrev pub always : ProtoFile → Bool
always f = true

-- `if dir != "" { name = path.Join(dir, name) }`
abbrev pub join_unless_empty : Text → Text → Text
join_unless_empty [] name = name
join_unless_empty (c ∷ dir) name = path_join ((c ∷ dir) ∷ name ∷ [])

-- The generated file names of Python and of gRPC for Python, Node and the web, by the extension.
unfoldable pub underscored_file_name : Text → Text → ProtoFile → List Text
underscored_file_name ext reldir f =
    (join_unless_empty reldir (replace_byte 45 95 f.name) ++ ext) ∷ []

-- The map of `--exclude_output`.
unfoldable pub parse_exclude : (List Text → Option Text) → List Text → Option (Dict Text Bool)
parse_exclude parse args = elim (parse args) [
  | none ↦ none
  | some excludes ↦ some (all_true [] (split 44 excludes))
]

pub keep_outputs : Dict Text Bool → List Text → List Text
keep_outputs exclude [] = []
keep_outputs exclude (file ∷ files) =
    let rest = keep_outputs exclude files in
    if or_zero false (lookup (path_base file) exclude) then rest else file ∷ rest

-- `PythonPlugin.Configure`; `none` is the fatal end of the parser of flags.
unfoldable pub python : (List Text → Option Text) → PluginContext → Option PluginConfiguration
unfolding underscored_file_name parse_exclude keep_outputs
python parse ctx = elim (parse_exclude parse (get_flags ctx.plugin_config)) [
  | none ↦ none
  | some exclude ↦ some (
      conf ctx (own_label (bytes "plugin/builtin") (bytes "python"))
        (keep_outputs exclude (
          flat_map_files (underscored_file_name (bytes "_pb2.py") ctx.rel) always
            ctx.library.files))
        [] (get_options ctx.plugin_config))
]

-- `PyiPlugin.Configure`
unfoldable pub pyi : PluginContext → PluginConfiguration
unfolding underscored_file_name
pyi ctx =
    conf ctx (own_label (bytes "plugin/builtin") (bytes "pyi"))
      (flat_map_files (underscored_file_name (bytes "_pb2.pyi") ctx.rel) always ctx.library.files)
      [] (get_options ctx.plugin_config)

-- `RubyPlugin.Configure`
unfoldable pub ruby : PluginContext → PluginConfiguration
ruby ctx =
    conf ctx (own_label (bytes "plugin/builtin") (bytes "ruby"))
      (flat_map_files (relative_file_name_with_extensions ctx.rel (bytes "_pb.rb" ∷ [])) always
        ctx.library.files)
      [] (get_options ctx.plugin_config)

-- `CppPlugin.Configure`
unfoldable pub cpp : PluginContext → PluginConfiguration
cpp ctx =
    conf ctx (own_label (bytes "plugin/builtin") (bytes "cpp"))
      (flat_map_files
        (import_prefix_relative_file_name_with_extensions ctx.library.strip_import_prefix ctx.rel
          (bytes ".pb.cc" ∷ bytes ".pb.h" ∷ []))
        always ctx.library.files)
      [] (get_options ctx.plugin_config)

-- `JavaPlugin.Configure`
unfoldable pub java : PluginContext → PluginConfiguration
java ctx =
    let srcjar = path_join (ctx.rel ∷ (ctx.library.base_name ++ bytes ".srcjar") ∷ []) in
    conf ctx (own_label (bytes "plugin/builtin") (bytes "java")) (srcjar ∷ []) srcjar
      (get_options ctx.plugin_config)

-- `objcFileName`
unfoldable pub objc_file_name : Text → ProtoFile → List Text
objc_file_name rel f =
    let base = path_join (rel ∷ to_pascal_case f.name ∷ []) in
    (base ++ bytes ".pbobjc.h") ∷ (base ++ bytes ".pbobjc.m") ∷ []

-- `ObjcPlugin.Configure`
unfoldable pub objc : PluginContext → PluginConfiguration
unfolding objc_file_name
objc ctx =
    conf ctx (own_label (bytes "plugin/builtin") (bytes "objc"))
      (flat_map_files (objc_file_name ctx.rel) always ctx.library.files) []
      (get_options ctx.plugin_config)

-- The extension of an option, if it is wanted and gives one.
abbrev pub extension_of : Text → Bool → Option Text → Text
extension_of ext true (some e) = e
extension_of ext want found = ext

-- The loop of `csharpFileName` over the options: the last wanted extension in the iteration.
pub file_extension : Text → Dict Text Bool → Text
file_extension ext [] = ext
file_extension ext ((k, want) ∷ options) =
    file_extension (extension_of ext want (strip_prefix k (bytes "file_extension="))) options

-- `csharpFileName`
unfoldable pub csharp_file_name : Text → LanguagePluginConfig → ProtoFile → List Text
unfolding file_extension
csharp_file_name rel cfg f =
    (path_join (rel ∷ to_pascal_case f.name ∷ []) ++ file_extension (bytes ".cs") cfg.options) ∷ []

-- `CsharpPlugin.Configure`
unfoldable pub csharp : PluginContext → PluginConfiguration
unfolding csharp_file_name
csharp ctx =
    conf ctx (own_label (bytes "plugin/builtin") (bytes "csharp"))
      (flat_map_files (csharp_file_name ctx.rel ctx.plugin_config) always ctx.library.files) ctx.rel
      (get_options ctx.plugin_config)

-- The directory of `phpFileName`: the option php_namespace replaces that of the package.
unfoldable pub php_dir : ProtoFile → Text
php_dir f =
    let ns = or_zero [] (get_named_option f.options (bytes "php_namespace")) in
    if is_empty ns
    then (if is_empty f.pkg then [] else path_join (title (replace_byte 46 47 f.pkg) ∷ [] ∷ []))
    else ns

-- `phpFileName`
unfoldable pub php_file_name : Text → ProtoFile → List Text
unfolding php_dir
php_file_name rel f =
    let named = or_zero [] (get_named_option f.options (bytes "php_metadata_namespace")) in
    let mns = if is_empty named then bytes "GPBMetadata" else named in
    let out = λ (n : Text). path_join (php_dir f ∷ rel ∷ title n ∷ []) ++ bytes ".php" in
    (path_join (rel ∷ mns ∷ title rel ∷ title f.name ∷ []) ++ bytes ".php")
    ∷ (map (λ (e : ProtoEnum). out e.name) f.enums ++ map out f.messages)

-- `PhpPlugin.Configure`
unfoldable pub php : PluginContext → PluginConfiguration
unfolding php_file_name
php ctx =
    conf ctx (own_label (bytes "plugin/builtin") (bytes "php"))
      (flat_map_files (php_file_name ctx.rel) always ctx.library.files) ctx.rel
      (get_options ctx.plugin_config)

-- `JsCommonPlugin.Configure`
unfoldable pub js_common : PluginContext → PluginConfiguration
js_common ctx =
    let library = join_unless_empty ctx.rel (to_lower ctx.library.base_name ++ bytes "_pb.js") in
    conf ctx (own_label (bytes "plugin/builtin") (bytes "commonjs")) (library ∷ []) []
      (get_options ctx.plugin_config ++ bytes "import_style=commonjs" ∷ [])

-- `JsClosurePlugin.Configure`
unfoldable pub js_closure : PluginContext → PluginConfiguration
js_closure ctx =
    let library = path_join (ctx.rel ∷ (to_lower ctx.library.base_name ++ bytes ".js") ∷ []) in
    conf ctx (own_label (bytes "plugin/builtin") (bytes "closurejs")) (library ∷ []) [] (
      get_options ctx.plugin_config
      ++ bytes "import_style=closure"
        ∷ (bytes "library=" ++ trim_suffix library (path_ext library))
        ∷ [])

-- `ProtocGenScalaPlugin.Configure`
unfoldable pub scalapb : PluginContext → PluginConfiguration
scalapb ctx =
    let options = get_options ctx.plugin_config in
    let grpc = if contains options (bytes "grpc") then bytes "_grpc" else [] in
    let srcjar = ctx.library.base_name ++ (bytes "_scala" ++ (grpc ++ bytes ".srcjar")) in
    conf ctx (own_label (bytes "plugin/scalapb/scalapb") (bytes "protoc-gen-scala"))
      (join_unless_empty ctx.rel srcjar ∷ []) [] options

-- `GogoPlugin.shouldApply`
unfoldable pub gogo_should_apply : List ProtoFile → Bool
gogo_should_apply [] = false
gogo_should_apply (f ∷ files) =
    if has_messages f || has_enums f || has_services f then true else gogo_should_apply files

-- The base name of `GogoPlugin.outputs`.
unfoldable pub gogo_base : ProtoFile → Text
gogo_base f = elim (go_package_option f.options) [
  | some (go_package, alias) ↦ path_join (go_package ∷ f.name ∷ [])
  | none ↦ if is_empty f.pkg then f.name else path_join (replace_byte 46 47 f.pkg ∷ f.name ∷ [])
]

-- `GogoPlugin.grpcOptions`; a configured option that is not wanted comes first.
unfoldable pub gogo_grpc_options : LanguagePluginConfig → List ProtoFile → List Text
gogo_grpc_options cfg files = elim (lookup (bytes "plugins=grpc") cfg.options) [
  | some false ↦ []
  | _ ↦ if any_has_services files then bytes "plugins=grpc" ∷ [] else []
]

-- `GogoPlugin.Configure`, by the variant
unfoldable pub gogo : Text → PluginContext → Option PluginConfiguration
unfolding gogo_should_apply gogo_base gogo_grpc_options
gogo variant ctx =
    if gogo_should_apply ctx.library.files
    then some (
        conf ctx (own_label (bytes "plugin/gogo/protobuf") (bytes "protoc-gen-" ++ variant))
          (map (λ f. gogo_base f ++ bytes ".pb.go") ctx.library.files) []
          (gogo_grpc_options ctx.plugin_config ctx.library.files ++ get_options ctx.plugin_config))
    else none
