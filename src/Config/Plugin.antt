-- ===== src/Config/Plugin.antt =====
-- pkg/protoc/language_plugin_config.go
pub mod Laws
use rules_proto.Base.{Text, bytes, Bool, true, false, List, [], ◌∷◌, Option, none, some, ◌||◌}
use rules_proto.Base.{◌==◌, text_eq, if◌then◌else◌, is_empty}
use rules_proto.Base.Dict.{Dict, insert, copy_into}
use rules_proto.Go.Strconv.{parse_bool}
use rules_proto.External.{External, Label, no_label}
use rules_proto.Intent.{parse_intent, for_intent}
use rules_proto.Config.Errors.{
  Outcome, bad_bool, bad_label, unknown_parameter, yaml_mismatch, Section,
}
use rules_proto.Config.Signs.{want_all}

pub record LanguagePluginConfig : Type 0 where
  pub name : Text
  pub implementation : Text
  pub label : Label
  pub options : Dict Text Bool
  pub flags : Dict Text Bool
  pub deps : Dict Text Bool
  pub enabled : Bool

-- pkg/protoc/yconfig.go
pub record YPlugin : Type 0 where
  pub name : Text
  pub implementation : Text
  pub enabled : Option Bool
  pub option : List Text
  pub flag : List Text
  pub dep : List Text
  pub label : Text

-- `newLanguagePluginConfig`
unfoldable pub new : Text → LanguagePluginConfig
new name = record {
  name = name;
  implementation = [];
  label = no_label;
  options = [];
  flags = [];
  deps = [];
  enabled = true;
}

unfoldable pub get_options : LanguagePluginConfig → List Text
get_options c = for_intent c.options true

unfoldable pub get_deps : LanguagePluginConfig → List Text
get_deps c = for_intent c.deps true

unfoldable pub get_flags : LanguagePluginConfig → List Text
get_flags c = for_intent c.flags true

unfoldable pub clone : LanguagePluginConfig → LanguagePluginConfig
unfolding new
clone c = record (new c.name) {
  label = c.label;
  implementation = c.implementation;
  enabled = c.enabled;
  options = copy_into [] c.options;
  flags = copy_into [] c.flags;
  deps = copy_into [] c.deps;
}

abbrev enabled_or_true : Option Bool → Bool
enabled_or_true none = true
enabled_or_true (some b) = b

-- The lists of the YAML entry; its label and its flag follow.
set_lists : LanguagePluginConfig → YPlugin → LanguagePluginConfig
set_lists c y = record c {
  implementation = y.implementation;
  flags = want_all y.flag c.flags;
  options = want_all y.option c.options;
  deps = want_all y.dep c.deps;
}

finish_yaml : LanguagePluginConfig → YPlugin → Outcome LanguagePluginConfig
finish_yaml c y = (record c { enabled = enabled_or_true y.enabled }, none)

module _ (ext : External) where
  open ext use {parse_label}

  set_label : LanguagePluginConfig → Text → Outcome LanguagePluginConfig
  set_label c value = elim (parse_label value) [
    | none ↦ (c, some (bad_label value))
    | some l ↦ (record c { label = l }, none)
  ]

  set_enabled : LanguagePluginConfig → Text → Outcome LanguagePluginConfig
  set_enabled c value = elim (parse_bool value) [
    | none ↦ (c, some (bad_bool value))
    | some enabled ↦ (record c { enabled = enabled }, none)
  ]

  unfoldable pub parse_directive : LanguagePluginConfig → Text → Text → Outcome LanguagePluginConfig
  unfolding set_label set_enabled
  parse_directive c param value =
      let intent = parse_intent param in
      if intent.value == bytes "enabled" || intent.value == bytes "enable"
      then set_enabled c value
      else if intent.value == bytes "label"
      then set_label c value
      else if intent.value == bytes "implementation"
      then (record c { implementation = value }, none)
      else if intent.value == bytes "flag"
      then (record c { flags = insert value intent.want c.flags }, none)
      else if intent.value == bytes "option"
      then (record c { options = insert value intent.want c.options }, none)
      else if intent.value == bytes "deps" || intent.value == bytes "dep"
      then (record c { deps = insert value intent.want c.deps }, none)
      else (c, some (unknown_parameter intent.value))

  unfoldable pub from_yaml : LanguagePluginConfig → YPlugin → Outcome LanguagePluginConfig
  unfolding set_lists finish_yaml
  from_yaml c y =
      if c.name == y.name
      then (let c' = set_lists c y in
          if is_empty y.label then finish_yaml c' y else elim (parse_label y.label) [
            | none ↦ (c', some (bad_label y.name))
            | some l ↦ finish_yaml (record c' { label = l }) y
          ])
      else (c, some (yaml_mismatch Section.plugin c.name y.name))
