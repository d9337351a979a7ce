-- ===== src/Config/Package.antt =====
-- pkg/protoc/package_config.go
pub mod Laws
pub mod Clone
pub mod Directives
pub mod Effects
pub mod Yaml
use rules_proto.Base.{Text, bytes, Bool, List, [], ◌∷◌, Option, none, some, ◌==◌, text_eq}
use rules_proto.Base.{if◌then◌else◌, is_empty, length, map}
use rules_proto.Base.Dict.{Dict, keys, lookup, insert}
use rules_proto.Base.Sort.{sort_strings}
use rules_proto.Go.Strings.{fields, join, trim_space}
use rules_proto.External.{External}
use rules_proto.Config.Errors.{
  Directive, Outcome, Error, Section, field_count, in_directive, yaml_name_missing,
}
use rules_proto.Config.Plugin
use rules_proto.Config.Plugin.{LanguagePluginConfig, YPlugin}
use rules_proto.Config.Rule
use rules_proto.Config.Rule.{Config, LanguageRuleConfig, YRule}
use rules_proto.Config.Language
use rules_proto.Config.Language.{LanguageConfig, YLanguage}

pub record PackageConfig : Type 0 where
  pub config : Config
  pub importpath_prefix : Text
  pub langs : Dict Text LanguageConfig
  pub plugins : Dict Text LanguagePluginConfig
  pub rules : Dict Text LanguageRuleConfig

-- pkg/protoc/yconfig.go
pub record YConfig : Type 0 where
  pub plugin : List YPlugin
  pub rule : List YRule
  pub language : List YLanguage

-- `NewPackageConfig`
unfoldable pub new : Config → PackageConfig
new config = record {
  config = config;
  importpath_prefix = [];
  langs = [];
  plugins = [];
  rules = [];
}

-- The method `Plugin`; `none` is the false of its second result.
unfoldable pub plugin : PackageConfig → Text → Option LanguagePluginConfig
plugin c name = lookup name c.plugins

-- `for k, v := range m { into[k] = v.clone() }`
unfoldable pub clone_into {ℓ} : {V : Type ℓ} → (V → V) → Dict Text V → Dict Text V → Dict Text V
clone_into copy into [] = into
clone_into copy into ((k, v) ∷ d) = clone_into copy (insert k (copy v) into) d

-- `Clone`
unfoldable pub clone : PackageConfig → PackageConfig
unfolding new
clone c = record (new c.config) {
  importpath_prefix = c.importpath_prefix;
  rules = clone_into Rule.clone [] c.rules;
  langs = clone_into Language.clone [] c.langs;
  plugins = clone_into Plugin.clone [] c.plugins;
}

-- The entry of a name, or a new one.
abbrev or_new {ℓ} : {V : Type ℓ} → Option V → V → V
or_new none v = v
or_new (some w) v = w

-- `getOrCreateLanguagePluginConfig`
pub get_or_create_plugin : PackageConfig → Text → LanguagePluginConfig
get_or_create_plugin c name = or_new (lookup name c.plugins) (Plugin.new name)

-- `getOrCreateLanguageRuleConfig`
pub get_or_create_rule : PackageConfig → Text → LanguageRuleConfig
get_or_create_rule c name =
    or_new (lookup name c.rules) (record (Rule.new c.config name) { implementation = name })

-- The lookup of a language in `parseLanguageDirective` and in `loadYLanguage`
pub get_or_create_lang : PackageConfig → Text → LanguageConfig
get_or_create_lang c name = or_new (lookup name c.langs) (Language.new name [])

-- An entry is shared with the map that holds it: what a method writes is written to the map, also
-- if the method fails, and a new entry stays in the map.
pub put_plugin : PackageConfig → Text → Outcome LanguagePluginConfig → Outcome PackageConfig
put_plugin c name (p, e) = (record c { plugins = insert name p c.plugins }, e)

pub put_rule : PackageConfig → Text → Outcome LanguageRuleConfig → Outcome PackageConfig
put_rule c name (r, e) = (record c { rules = insert name r c.rules }, e)

pub put_lang : PackageConfig → Text → Outcome LanguageConfig → Outcome PackageConfig
put_lang c name (l, e) = (record c { langs = insert name l c.langs }, e)

-- `parsePrefixDirective`
parse_prefix_directive : PackageConfig → Directive → Outcome PackageConfig
parse_prefix_directive c d = (record c { importpath_prefix = trim_space d.value }, none)

language_fields : PackageConfig → Directive → List Text → Outcome PackageConfig
language_fields c d (name ∷ param ∷ value ∷ []) =
    put_lang c name (Language.parse_directive (get_or_create_lang c name) param value)
language_fields c d fs = (c, some (field_count d (length fs)))

-- `parseLanguageDirective`
parse_language_directive : PackageConfig → Directive → Outcome PackageConfig
parse_language_directive c d = language_fields c d (fields d.value)

module _ (ext : External) where
  plugin_fields : PackageConfig → Directive → List Text → Outcome PackageConfig
  plugin_fields c d (name ∷ param ∷ value ∷ []) =
      put_plugin c name (Plugin.parse_directive ext (get_or_create_plugin c name) param value)
  plugin_fields c d fs = (c, some (field_count d (length fs)))

  -- `parsePluginDirective`
  parse_plugin_directive : PackageConfig → Directive → Outcome PackageConfig
  parse_plugin_directive c d = plugin_fields c d (fields d.value)

  rule_fields : PackageConfig → Directive → List Text → Outcome PackageConfig
  rule_fields c d (name ∷ param ∷ v ∷ vs) =
      put_rule c name
        (Rule.parse_directive ext (get_or_create_rule c name) param (join (v ∷ vs) (bytes " ")))
  rule_fields c d fs = (c, some (field_count d (length fs)))

  -- `parseRuleDirective`
  parse_rule_directive : PackageConfig → Directive → Outcome PackageConfig
  parse_rule_directive c d = rule_fields c d (fields d.value)

  -- The body of the loop of `ParseDirectives`
  unfoldable pub parse_one : PackageConfig → Directive → Outcome PackageConfig
  unfolding parse_prefix_directive parse_plugin_directive parse_rule_directive
      parse_language_directive plugin_fields rule_fields language_fields put_plugin put_rule
      put_lang get_or_create_plugin get_or_create_rule get_or_create_lang
  parse_one c d =
      if d.key == bytes "prefix"
      then parse_prefix_directive c d
      else if d.key == bytes "proto_plugin"
      then parse_plugin_directive c d
      else if d.key == bytes "proto_rule"
      then parse_rule_directive c d
      else if d.key == bytes "proto_language"
      then parse_language_directive c d
      else (c, none)

  -- `ParseDirectives`
  unfoldable pub parse_directives : PackageConfig → List Directive → Outcome PackageConfig
  parse_directives c [] = (c, none)
  parse_directives c (d ∷ ds) =
      let (c', failure) = parse_one c d in
      elim failure [ none ↦ parse_directives c' ds | some e ↦ (c', some (in_directive d e)) ]

  -- `loadYPlugin`
  unfoldable pub load_yplugin : PackageConfig → YPlugin → Outcome PackageConfig
  unfolding put_plugin get_or_create_plugin
  load_yplugin c y =
      if is_empty y.name
      then (c, some (yaml_name_missing Section.plugin))
      else put_plugin c y.name (Plugin.from_yaml ext (get_or_create_plugin c y.name) y)

  -- `loadYRule`
  unfoldable pub load_yrule : PackageConfig → YRule → Outcome PackageConfig
  unfolding put_rule get_or_create_rule
  load_yrule c y =
      if is_empty y.name
      then (c, some (yaml_name_missing Section.rule))
      else put_rule c y.name (Rule.from_yaml ext (get_or_create_rule c y.name) y)

-- `loadYLanguage`
unfoldable pub load_ylanguage : PackageConfig → YLanguage → Outcome PackageConfig
unfolding put_lang get_or_create_lang
load_ylanguage c y =
    if is_empty y.name
    then (c, some (yaml_name_missing Section.language))
    else put_lang c y.name (Language.from_yaml (get_or_create_lang c y.name) y)

-- A loop that stops at the first error: `for … { if err := f(x); err != nil { return err } }`
unfoldable pub each {ℓ} :
    {Y : Type ℓ}
    → (PackageConfig → Y → Outcome PackageConfig)
    → List Y
    → PackageConfig
    → Outcome PackageConfig
each f [] c = (c, none)
each f (y ∷ ys) c =
    let (c', failure) = f c y in elim failure [ none ↦ each f ys c' | some e ↦ (c', some e) ]

-- The next loop, if the last one did not fail.
pub and_then :
    Outcome PackageConfig → (PackageConfig → Outcome PackageConfig) → Outcome PackageConfig
and_then (c, none) k = k c
and_then (c, some e) k = (c, some e)

-- `LoadYConfig`
unfoldable pub load_yconfig : External → PackageConfig → YConfig → Outcome PackageConfig
unfolding each and_then
load_yconfig ext c y =
    and_then (each (load_yplugin ext) y.plugin c)
      λ c'. and_then (each (load_yrule ext) y.rule c') (each load_ylanguage y.language)

-- `configuredLangs`: the languages in the order of their names
pub langs_of : Dict Text LanguageConfig → List Text → List LanguageConfig
langs_of d [] = []
langs_of d (name ∷ names) =
    let rest = langs_of d names in elim (lookup name d) [ none ↦ rest | some l ↦ l ∷ rest ]

unfoldable pub configured_langs : PackageConfig → List LanguageConfig
unfolding langs_of
configured_langs c = langs_of c.langs (sort_strings (keys c.langs))
