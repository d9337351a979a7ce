-- ===== src/Config/Language.antt =====
-- pkg/protoc/language_config.go
pub mod Laws
use rules_proto.Base.{Text, bytes, Bool, true, List, [], Option, none, some, ◌||◌}
use rules_proto.Base.{◌==◌, text_eq, if◌then◌else◌}
use rules_proto.Base.Dict.{Dict, insert, copy_into}
use rules_proto.Go.Strconv.{parse_bool}
use rules_proto.Intent.{parse_intent, for_intent}
use rules_proto.Config.Errors.{Outcome, bad_bool, unknown_parameter, yaml_mismatch, Section}
use rules_proto.Config.Signs.{want_all}

-- `protoc` is the field `Protoc`, a label.
pub record LanguageConfig : Type 0 where
  pub name : Text
  pub protoc : Text
  pub enabled : Bool
  pub plugins : Dict Text Bool
  pub rules : Dict Text Bool

-- pkg/protoc/yconfig.go
pub record YLanguage : Type 0 where
  pub name : Text
  pub implementation : Text
  pub enabled : Option Bool
  pub plugin : List Text
  pub rule : List Text

-- `newLanguageConfig`, with the names of its rules
unfoldable pub new : Text → List Text → LanguageConfig
new name rules = record {
  name = name;
  protoc = [];
  enabled = true;
  plugins = [];
  rules = want_all rules [];
}

unfoldable pub get_rules_by_intent : LanguageConfig → Bool → List Text
get_rules_by_intent c intent = for_intent c.rules intent

unfoldable pub clone : LanguageConfig → LanguageConfig
unfolding new want_all
clone c = record (new c.name []) {
  enabled = c.enabled;
  protoc = c.protoc;
  plugins = copy_into [] c.plugins;
  rules = copy_into [] c.rules;
}

set_enabled : LanguageConfig → Text → Outcome LanguageConfig
set_enabled c value = elim (parse_bool value) [
  | none ↦ (c, some (bad_bool value))
  | some enabled ↦ (record c { enabled = enabled }, none)
]

-- The last error names the value, not the parameter.
unfoldable pub parse_directive : LanguageConfig → Text → Text → Outcome LanguageConfig
unfolding set_enabled
parse_directive c param value =
    let intent = parse_intent param in
    if intent.value == bytes "enabled" || intent.value == bytes "enable"
    then set_enabled c value
    else if intent.value == bytes "plugin"
    then (record c { plugins = insert value intent.want c.plugins }, none)
    else if intent.value == bytes "protoc"
    then (record c { protoc = value }, none)
    else if intent.value == bytes "rule"
    then (record c { rules = insert value intent.want c.rules }, none)
    else (c, some (unknown_parameter value))

abbrev enabled_or_true : Option Bool → Bool
enabled_or_true none = true
enabled_or_true (some b) = b

unfoldable pub from_yaml : LanguageConfig → YLanguage → Outcome LanguageConfig
from_yaml c y =
    if c.name == y.name
    then (
      record c {
        plugins = want_all y.plugin c.plugins;
        rules = want_all y.rule c.rules;
        enabled = enabled_or_true y.enabled;
      },
      none,
    )
    else (c, some (yaml_mismatch Section.language c.name y.name))
