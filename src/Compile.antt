-- ===== src/Compile.antt =====
-- pkg/protoc/proto_compile.go, proto_compiled_sources.go, proto_descriptor_set.go and the
-- expressions of syntaxutil.go: the rules that run the compiler. A sort in place of a shared slice
-- is the sorted list here. Logging is left out.
pub mod Attrs
use rules_proto.Base.{Text, bytes, Bool, true, false, List, [], ◌∷◌, ◌++◌, Option, none, some, ◌||◌}
use rules_proto.Base.{◌==◌, text_eq, if◌then◌else◌, is_empty, map}
use rules_proto.Base.Dict.{Dict, keys, lookup, or_zero}
use rules_proto.Base.Sort.{sort_strings}
use rules_proto.Go.Paths.{path_join}
use rules_proto.External.{External, Label, new_label}
use rules_proto.Gazelle.{
  BuildRule, Value, new_rule, set_attr, set_nonempty, text_value, texts_value, bool_value,
  text_dict, texts_dict,
}
use rules_proto.Library.{ProtoLibrary}
use rules_proto.Config.Plugin
use rules_proto.Config.Rule
use rules_proto.Config.Rule.{LanguageRuleConfig, get_attr, get_attr_names, get_visibility}
use rules_proto.Sources.{
  PluginConfiguration, ProtocConfiguration, get_plugin_labels, get_plugin_outs, get_plugin_options,
}
use rules_proto.Generation.Choice.{PluginContext}

-- The second loops of `MakeStringDict` and `MakeStringListDict`, over the sorted keys.
pub text_items : Dict Text Text → List Text → List (Text × Text)
text_items d [] = []
text_items d (key ∷ ks) = (key, or_zero [] (lookup key d)) ∷ text_items d ks

pub texts_items : Dict Text (List Text) → List Text → List (Text × List Text)
texts_items d [] = []
texts_items d (key ∷ ks) = (key, sort_strings (or_zero [] (lookup key d))) ∷ texts_items d ks

-- `MakeStringDict`
unfoldable pub make_string_dict : Dict Text Text → List (Text × Text)
unfolding text_items
make_string_dict d = text_items d (sort_strings (keys d))

-- `MakeStringListDict`
unfoldable pub make_string_list_dict : Dict Text (List Text) → List (Text × List Text)
unfolding texts_items
make_string_list_dict d = texts_items d (sort_strings (keys d))

-- `protoCompileRule`
pub record ProtoCompileRule : Type 0 where
  pub kind : Text
  pub name_suffix : Text
  pub outputs_attr_name : Text
  pub config : ProtocConfiguration
  pub rule_config : LanguageRuleConfig

-- `ProvideRule` of proto_compile; `none` is nil.
unfoldable pub provide_compile : LanguageRuleConfig → ProtocConfiguration → Option ProtoCompileRule
provide_compile cfg config =
    if is_empty config.outputs
    then none
    else some (record {
      kind = bytes "proto_compile";
      name_suffix = bytes "compile";
      outputs_attr_name = bytes "outputs";
      config = config;
      rule_config = cfg;
    })

-- `ProvideRule` of proto_compiled_sources
unfoldable pub provide_compiled_sources :
    LanguageRuleConfig → ProtocConfiguration → ProtoCompileRule
provide_compiled_sources cfg config = record {
  kind = bytes "proto_compiled_sources";
  name_suffix = bytes "compiled_sources";
  outputs_attr_name = bytes "srcs";
  config = config;
  rule_config = cfg;
}

-- The method `Name`
unfoldable pub compile_name : ProtoCompileRule → Text
compile_name s =
    s.config.library.base_name ++ (bytes "_" ++ (s.config.prefix ++ (bytes "_" ++ s.name_suffix)))

-- `Outputs`
unfoldable pub outputs : ProtoCompileRule → List Text
outputs s = sort_strings s.config.outputs

-- `mappings[i] = k + "=" + v`
unfoldable pub render_mappings : Dict Text Text → List Text
render_mappings mappings = map (λ (k, v). k ++ (bytes "=" ++ v)) mappings

-- The attribute `verbose`: a value that is no Boolean is only logged.
unfoldable pub set_verbose : Text → BuildRule → BuildRule
set_verbose val r =
    if val == bytes "True" || val == bytes "true"
    then set_attr (bytes "verbose") (bool_value true) r
    else if val == bytes "False" || val == bytes "false"
    then set_attr (bytes "verbose") (bool_value false) r
    else r

-- The body of the loop over the attributes of the configuration.
unfoldable pub set_one : Text → List Text → BuildRule → BuildRule
unfolding set_verbose
set_one name [] r = r
set_one name (val ∷ vals) r =
    if name == bytes "verbose"
    then set_verbose val r
    else set_attr name (texts_value (val ∷ vals)) r

unfoldable pub set_attrs : LanguageRuleConfig → List Text → BuildRule → BuildRule
unfolding set_one
set_attrs cfg [] r = r
set_attrs cfg (name ∷ names) r = set_attrs cfg names (set_one name (get_attr cfg name) r)

-- `SetAttr` under a test that the value is there.
abbrev pub set_if : Bool → Text → Value → BuildRule → BuildRule
set_if true key v r = set_attr key v r
set_if false key v r = r

abbrev pub has_entries {ℓ} : {A : Type ℓ} → List A → Bool
has_entries [] = false
has_entries (x ∷ xs) = true

-- What `Rule` sets before it reads the attributes of the configuration.
unfoldable pub base_rule : External → ProtoCompileRule → BuildRule
unfolding compile_name outputs render_mappings
base_rule ext s =
    let config = s.config in
    let outs = get_plugin_outs ext config.plugins in
    let r = set_attr (bytes "proto") (text_value config.library.name) (
      set_attr (bytes "plugins") (texts_value (get_plugin_labels ext config.plugins)) (
        set_attr s.outputs_attr_name (texts_value (outputs s))
          (new_rule s.kind (compile_name s)))) in
    let protoc = config.language_config.protoc in
    let r' = set_if (has_entries protoc) (bytes "protoc") (text_value protoc) r in
    let r'' =
      set_if (has_entries config.mappings) (bytes "output_mappings")
        (texts_value (sort_strings (render_mappings config.mappings))) r' in
    set_nonempty (bytes "visibility") (get_visibility s.rule_config)
      (set_if (has_entries outs) (bytes "outs") (text_dict (make_string_dict outs)) r'')

-- `Rule`
unfoldable pub rule : External → ProtoCompileRule → BuildRule
unfolding base_rule set_attrs
rule ext s = set_attrs s.rule_config (get_attr_names s.rule_config) (base_rule ext s)

-- `Resolve`, over the method `ResolvePluginOptions` of the plugins
unfoldable pub resolve :
    External → (PluginConfiguration → Option (List Text)) → ProtoCompileRule → BuildRule → BuildRule
resolve ext resolver s r =
    let options = get_plugin_options ext resolver s.config.plugins in
    set_if (has_entries options) (bytes "options") (texts_dict (make_string_list_dict options)) r

-- `Rule` of rules_proto_descriptor_set
unfoldable pub descriptor_set_rule : LanguageRuleConfig → ProtocConfiguration → BuildRule
descriptor_set_rule cfg config = set_nonempty (bytes "visibility") (get_visibility cfg) (
    set_attr (bytes "deps") (texts_value (config.library.name ∷ [])) (
      new_rule (bytes "rules_proto_descriptor_set")
        (config.library.base_name ++ bytes "_descriptor")))

-- `Configure` of the descriptor set plugin; its implementation and its configuration are filled in
-- by package generation.
unfoldable pub descriptor_set_configure : PluginContext → PluginConfiguration
descriptor_set_configure ctx = record {
  config = ctx.plugin_config;
  label =
      new_label (bytes "build_stack_rules_proto") (bytes "bazelbuild/rules_proto")
        (bytes "proto_descriptor_set");
  mappings = [];
  options = Plugin.get_options ctx.plugin_config;
  out = ctx.rel;
  outputs = path_join (ctx.rel ∷ (ctx.library.base_name ++ bytes "_descriptor.pb") ∷ []) ∷ [];
  plugin = [];
}
