-- ===== src/Config/Rule.antt =====
-- pkg/protoc/language_rule_config.go
pub mod Laws
pub mod Yaml
use rules_proto.Base.{Text, bytes, Bool, true, false, List, [], ◌∷◌, ◌++◌, Option, none, some, ◌||◌}
use rules_proto.Base.{◌==◌, text_eq, if◌then◌else◌, map}
use rules_proto.Base.Dict.{Dict, keys, lookup, insert, erase, copy_into, or_zero}
use rules_proto.Base.Sort.{sort_strings}
use rules_proto.Go.Strings.{fields, join}
use rules_proto.Go.Strconv.{parse_bool}
use rules_proto.External.{External}
use rules_proto.Intent.{Intent, parse_intent, for_intent}
use rules_proto.Rewrite.{Rewrite, parsed, failed, parse_rewrite}
use rules_proto.Config.Errors.{
  Outcome, bad_bool, bad_rewrite, unknown_parameter, attr_name_missing, attr_value_missing,
  yaml_mismatch, Section,
}
use rules_proto.Config.Signs.{want_all}

-- The fields of gazelle's `config.Config` that this package reads.
pub record Config : Type 0 where
  pub work_dir : Text
  pub repo_name : Text

-- `impl` is the implementation that package generation attaches, by its registered name.
pub record LanguageRuleConfig : Type 0 where
  pub config : Config
  pub deps : Dict Text Bool
  pub attrs : Dict Text (Dict Text Bool)
  pub options : Dict Text Bool
  pub resolves : List Rewrite
  pub enabled : Bool
  pub implementation : Text
  pub impl : Option Text
  pub name : Text
  pub visibility : Dict Text Bool

-- pkg/protoc/yconfig.go
pub record YRule : Type 0 where
  pub name : Text
  pub implementation : Text
  pub enabled : Option Bool
  pub deps : List Text
  pub resolves : List Text
  pub option : List Text
  pub visibility : List Text

-- `NewLanguageRuleConfig`
unfoldable pub new : Config → Text → LanguageRuleConfig
new config name = record {
  config = config;
  deps = [];
  attrs = [];
  options = [];
  resolves = [];
  enabled = true;
  implementation = [];
  impl = none;
  name = name;
  visibility = [];
}

unfoldable pub get_deps : LanguageRuleConfig → List Text
get_deps c = for_intent c.deps true

unfoldable pub get_options : LanguageRuleConfig → List Text
get_options c = for_intent c.options true

unfoldable pub get_visibility : LanguageRuleConfig → List Text
get_visibility c = for_intent c.visibility true

unfoldable pub get_attr_names : LanguageRuleConfig → List Text
get_attr_names c = sort_strings (keys c.attrs)

-- A missing attribute reads as the nil map.
unfoldable pub get_attr : LanguageRuleConfig → Text → List Text
get_attr c name = for_intent (or_zero [] (lookup name c.attrs)) true

unfoldable pub get_rewrites : LanguageRuleConfig → List Rewrite
get_rewrites c = c.resolves

-- `for name, vals := range c.Attrs { clone.Attrs[name] = a copy of vals }`
copy_attrs : Dict Text (Dict Text Bool) → Dict Text (Dict Text Bool) → Dict Text (Dict Text Bool)
copy_attrs into [] = into
copy_attrs into ((name, vals) ∷ attrs) = copy_attrs (insert name (copy_into [] vals) into) attrs

unfoldable pub clone : LanguageRuleConfig → LanguageRuleConfig
unfolding new copy_attrs
clone c = record (new c.config c.name) {
  enabled = c.enabled;
  implementation = c.implementation;
  attrs = copy_attrs [] c.attrs;
  deps = copy_into [] c.deps;
  options = copy_into [] c.options;
  resolves = c.resolves;
  visibility = copy_into [] c.visibility;
}

-- `addRewrite`
unfoldable pub add_rewrite : LanguageRuleConfig → Rewrite → LanguageRuleConfig
add_rewrite c r = record c { resolves = r ∷ c.resolves }

-- `if intent.Want { m[value] = true } else { delete(m, value) }`
want_or_delete : Bool → Text → Dict Text Bool → Dict Text Bool
want_or_delete true value m = insert value true m
want_or_delete false value m = erase value m

-- `values[val] = want` in the map of an attribute, which is made if it is missing
set_attr : Text → Text → Bool → Dict Text (Dict Text Bool) → Dict Text (Dict Text Bool)
set_attr key val want attrs = insert key (insert val want (or_zero [] (lookup key attrs))) attrs

-- The `attr` parameter: the sign of the parameter says whether to set or to delete.
attr_directive : LanguageRuleConfig → Bool → Text → List Text → Outcome LanguageRuleConfig
attr_directive c want value [] = (c, some (attr_name_missing value))
attr_directive c true value (k ∷ []) = (c, some (attr_value_missing value))
attr_directive c false value (k ∷ []) =
    (record c { attrs = erase (parse_intent k).value c.attrs }, none)
attr_directive c true value (k ∷ v ∷ vs) =
    let key = parse_intent k in
    (record c { attrs = set_attr key.value (join (v ∷ vs) (bytes " ")) key.want c.attrs }, none)
attr_directive c false value (k ∷ v ∷ vs) =
    (record c { attrs = erase (parse_intent k).value c.attrs }, none)

set_enabled : LanguageRuleConfig → Text → Outcome LanguageRuleConfig
set_enabled c value = elim (parse_bool value) [
  | none ↦ (c, some (bad_bool value))
  | some enabled ↦ (record c { enabled = enabled }, none)
]

module _ (ext : External) where
  -- `c.Resolves = append(c.Resolves, *rw)`
  append_rewrite : LanguageRuleConfig → Text → Outcome LanguageRuleConfig
  append_rewrite c value = elim (parse_rewrite ext value) [
    | failed e ↦ (c, some (bad_rewrite value e))
    | parsed r ↦ (record c { resolves = c.resolves ++ r ∷ [] }, none)
  ]

  unfoldable pub parse_directive : LanguageRuleConfig → Text → Text → Outcome LanguageRuleConfig
  unfolding append_rewrite want_or_delete attr_directive set_attr set_enabled
  parse_directive c param value =
      let intent = parse_intent param in
      if intent.value == bytes "dep" || intent.value == bytes "deps"
      then (record c { deps = want_or_delete intent.want value c.deps }, none)
      else if intent.value == bytes "resolve"
      then append_rewrite c value
      else if intent.value == bytes "option"
      then (record c { options = want_or_delete intent.want value c.options }, none)
      else if intent.value == bytes "attr"
      then attr_directive c intent.want value (fields value)
      else if intent.value == bytes "visibility"
      then (record c { visibility = insert value intent.want c.visibility }, none)
      else if intent.value == bytes "implementation"
      then (record c { implementation = value }, none)
      else if intent.value == bytes "enabled"
      then set_enabled c value
      else (c, some (unknown_parameter intent.value))

  -- The loop over `y.Resolves`, which stops at the first error.
  add_rewrites : LanguageRuleConfig → List Text → Outcome LanguageRuleConfig
  add_rewrites c [] = (c, none)
  add_rewrites c (spec ∷ specs) = elim (parse_rewrite ext spec) [
    | failed e ↦ (c, some (bad_rewrite spec e))
    | parsed r ↦ add_rewrites (add_rewrite c r) specs
  ]

  -- What follows the loop.
  finish_yaml : YRule → Outcome LanguageRuleConfig → Outcome LanguageRuleConfig
  finish_yaml y (c, some e) = (c, some e)
  finish_yaml y (c, none) =
      let c' : LanguageRuleConfig = record c { visibility = want_all y.visibility c.visibility } in
      elim y.enabled [ none ↦ (c', none) | some b ↦ (record c' { enabled = b }, none) ]

  unfoldable pub from_yaml : LanguageRuleConfig → YRule → Outcome LanguageRuleConfig
  unfolding add_rewrites add_rewrite finish_yaml
  from_yaml c y =
      if c.name == y.name
      then finish_yaml y (
          add_rewrites
            (record c {
              implementation = y.implementation;
              deps = want_all y.deps c.deps;
              options = want_all y.option c.options;
            })
            y.resolves)
      else (c, some (yaml_mismatch Section.rule c.name y.name))
