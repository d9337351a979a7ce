-- ===== src/Generation/Choice.antt =====
-- pkg/protoc/package.go: the plugins and the rules that a package chooses for its libraries
-- (`NewPackage`, `generateRules`, `libraryRules`). The registered implementations are parameters;
-- what a plugin writes to the global resolver is left out. A fatal log ends the run, so it is a
-- result of its own. The package configuration is shared, so it is a state.
use rules_proto.Base.{Text, Bool, true, false, List, [], ◌∷◌, ◌++◌, Option, none, some, text_eq}
use rules_proto.Base.{if◌then◌else◌, is_empty}
use rules_proto.Base.Dict.{Dict, lookup, insert}
use rules_proto.Intent.{differs}
use rules_proto.Dedup.{deduplicate_and_sort}
use rules_proto.Library.{ProtoLibrary}
use rules_proto.Config.Plugin as PluginConfig
use rules_proto.Config.Plugin.{LanguagePluginConfig}
use rules_proto.Config.Rule.{LanguageRuleConfig}
use rules_proto.Config.Language.{LanguageConfig, get_rules_by_intent}
use rules_proto.Config.Package.{PackageConfig, configured_langs}
use rules_proto.Registry.{Registry, found, missing, lookup_plugin, lookup_rule}
use rules_proto.Sources.{PluginConfiguration, ProtocConfiguration, new_protoc_configuration}

-- The calls of `log.Fatalf`.
pub data FatalError : Type 0 where
  plugin_not_configured plugin_not_registered : Text → FatalError
  rule_not_configured rule_not_registered : Text → FatalError

pub data Built {ℓ} (A : Type ℓ) : Type ℓ where
  built : A → Built A
  fatal : FatalError → Built A

-- `PluginContext`, but for the implementation, which is set to the plugin itself.
pub record PluginContext : Type 0 where
  pub rel : Text
  pub library : ProtoLibrary
  pub package_config : PackageConfig
  pub plugin_config : LanguagePluginConfig

-- `Plugin`
pub record Plugin : Type 0 where
  pub name : Text
  pub configure : PluginContext → Option PluginConfiguration

-- `LanguageRule`, over the type of rule providers
pub record LanguageRule (P : Type 0) : Type 0 where
  pub name : Text
  pub provide_rule : LanguageRuleConfig → ProtocConfiguration → Option P

-- An empty implementation is the name of the plugin.
unfoldable pub with_implementation : LanguagePluginConfig → LanguagePluginConfig
with_implementation plugin =
    if is_empty plugin.implementation
    then record plugin { implementation = plugin.name }
    else plugin

-- What is written to the configuration that an implementation returns.
unfoldable pub complete : LanguagePluginConfig → Plugin → PluginConfiguration → PluginConfiguration
complete plugin impl config = record config {
  plugin = impl.name;
  config = PluginConfig.clone plugin;
  options = deduplicate_and_sort config.options;
  label = if is_empty plugin.label.name then config.label else plugin.label;
}

-- `append(xs, x)`, where there is an x
abbrev pub prepend_some {ℓ} : {A : Type ℓ} → Option A → List A → List A
prepend_some none xs = xs
prepend_some (some x) xs = x ∷ xs

-- What a state and the results of the rest of a loop come to.
abbrev pub prepend {ℓ} :
    {A : Type ℓ} → Option A → Built (PackageConfig × List A) → Built (PackageConfig × List A)
prepend x (fatal e) = fatal e
prepend x (built (c, xs)) = built (c, prepend_some x xs)

-- The results of an iteration before those of the rest of a loop.
abbrev pub append_built {ℓ} :
    {A : Type ℓ} → List A → Built (PackageConfig × List A) → Built (PackageConfig × List A)
append_built rules (fatal e) = fatal e
append_built rules (built (c, rest)) = built (c, rules ++ rest)

module _ {P : Type 0} (registry : Registry (LanguageRule P) Plugin) (rel : Text) where
  -- The context of a call: the configuration of the plugin is that from before the default.
  abbrev pub context_of : PackageConfig → ProtoLibrary → LanguagePluginConfig → PluginContext
  context_of c lib plugin = record {
    rel = rel;
    library = lib;
    package_config = c;
    plugin_config = plugin;
  }

  -- The body of the first loop of `libraryRules`, for a plugin that is wanted and enabled.
  unfoldable pub run_plugin :
      PackageConfig
      → ProtoLibrary
      → Text
      → LanguagePluginConfig
      → Built (PackageConfig × Option PluginConfiguration)
  unfolding with_implementation complete
  run_plugin c lib name plugin =
      let plugin' = with_implementation plugin in
      let c' : PackageConfig = record c { plugins = insert name plugin' c.plugins } in
      elim (lookup_plugin registry plugin'.implementation) [
        | missing _ ↦ fatal (plugin_not_registered plugin'.implementation)
        | found impl ↦ elim (impl.configure (context_of c' lib plugin)) [
          | none ↦ built (c', none)
          | some cfg ↦ built (c', some (complete plugin' impl cfg))
        ]
      ]

  -- The first loop of `libraryRules`.
  unfoldable pub plugin_configs :
      PackageConfig
      → ProtoLibrary
      → Dict Text Bool
      → Built (PackageConfig × List PluginConfiguration)
  unfolding run_plugin
  plugin_configs c lib [] = built (c, [])
  plugin_configs c lib ((name, false) ∷ plugins) = plugin_configs c lib plugins
  plugin_configs c lib ((name, true) ∷ plugins) = elim (lookup name c.plugins) [
    | none ↦ fatal (plugin_not_configured name)
    | some plugin ↦ elim plugin.enabled [
      | false ↦ plugin_configs c lib plugins
      | true ↦ elim (run_plugin c lib name plugin) [
        | fatal e ↦ fatal e
        | built (c', config) ↦ prepend config (plugin_configs c' lib plugins)
      ]
    ]
  ]

  -- A provider with its library, as `ruleLibs` records it.
  abbrev pub with_library : ProtoLibrary → Option P → Option (P × ProtoLibrary)
  with_library lib none = none
  with_library lib (some rule) = some (rule, lib)

  -- The second loop of `libraryRules`; the implementation stays with the configuration of a rule.
  unfoldable pub named_rules :
      PackageConfig
      → ProtocConfiguration
      → List Text
      → Built (PackageConfig × List (P × ProtoLibrary))
  named_rules c pc [] = built (c, [])
  named_rules c pc (name ∷ names) = elim (lookup name c.rules) [
    | none ↦ fatal (rule_not_configured name)
    | some cfg ↦ elim cfg.enabled [
      | false ↦ named_rules c pc names
      | true ↦ elim (lookup_rule registry cfg.implementation) [
        | missing _ ↦ fatal (rule_not_registered cfg.implementation)
        | found impl ↦
            let cfg' : LanguageRuleConfig = record cfg { impl = some impl.name } in
            prepend (with_library pc.library (impl.provide_rule cfg' pc))
              (named_rules (record c { rules = insert name cfg' c.rules }) pc names)
      ]
    ]
  ]

  -- `libraryRules`
  unfoldable pub library_rules :
      PackageConfig
      → LanguageConfig
      → ProtoLibrary
      → Built (PackageConfig × List (P × ProtoLibrary))
  unfolding plugin_configs named_rules
  library_rules c p lib = elim (plugin_configs c lib p.plugins) [
    | fatal e ↦ fatal e
    | built (c', []) ↦ built (c', [])
    | built (c', cfg ∷ configs) ↦
        named_rules c' (new_protoc_configuration p rel p.name lib (cfg ∷ configs))
          (get_rules_by_intent p true)
  ]

  -- The inner loop of `generateRules`: the rules of a language for each library.
  unfoldable pub language_rules :
      PackageConfig
      → LanguageConfig
      → List ProtoLibrary
      → Built (PackageConfig × List (P × ProtoLibrary))
  unfolding library_rules
  language_rules c lang [] = built (c, [])
  language_rules c lang (lib ∷ libs) = elim (library_rules c lang lib) [
    | fatal e ↦ fatal e
    | built (c', rules) ↦ append_built rules (language_rules c' lang libs)
  ]

  -- The loop of `generateRules`.
  unfoldable pub rules_from :
      Bool
      → PackageConfig
      → List ProtoLibrary
      → List LanguageConfig
      → Built (PackageConfig × List (P × ProtoLibrary))
  unfolding language_rules
  rules_from enabled c libs [] = built (c, [])
  rules_from enabled c libs (lang ∷ langs) = elim (differs lang.enabled enabled) [
    | true ↦ rules_from enabled c libs langs
    | false ↦ elim (language_rules c lang libs) [
      | fatal e ↦ fatal e
      | built (c', rules) ↦ append_built rules (rules_from enabled c' libs langs)
    ]
  ]

  -- `generateRules`
  unfoldable pub generate_rules :
      Bool → PackageConfig → List ProtoLibrary → Built (PackageConfig × List (P × ProtoLibrary))
  unfolding rules_from
  generate_rules enabled c libs = rules_from enabled c libs (configured_langs c)

  -- `NewPackage`: the configuration, and the providers of the rules to write and to delete.
  unfoldable pub new_package :
      PackageConfig
      → List ProtoLibrary
      → Built (PackageConfig × List (P × ProtoLibrary) × List (P × ProtoLibrary))
  unfolding generate_rules
  new_package c libs = elim (generate_rules true c libs) [
    | fatal e ↦ fatal e
    | built (c', gen) ↦ elim (generate_rules false c' libs) [
      | fatal e ↦ fatal e
      | built (c'', empty) ↦ built (c'', gen, empty)
    ]
  ]
