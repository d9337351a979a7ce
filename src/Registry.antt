-- ===== src/Registry.antt =====
-- pkg/protoc/registry.go: implementations of rules and plugins by name.
pub mod Laws
use rules_proto.Base.{Text, List, [], Option, none, some, text_eq}
use rules_proto.Base.Dict.{Dict, keys, lookup, insert}
use rules_proto.Base.Sort.{sort_strings}

pub data RegistryError : Type 0 where
  unknown_rule unknown_plugin : RegistryError

pub data Found {ℓ} (A : Type ℓ) : Type ℓ where
  found : A → Found A
  missing : RegistryError → Found A

-- The registry over the types of rule and plugin implementations.
pub record Registry {ℓ} (Rule Plugin : Type ℓ) : Type ℓ where
  pub rules : Dict Text Rule
  pub plugins : Dict Text Plugin

module _ {ℓ} {Rule Plugin : Type ℓ} where
  -- `RuleNames`
  unfoldable pub rule_names : Registry Rule Plugin → List Text
  rule_names p = sort_strings (keys p.rules)

  -- `MustRegisterRule`; `none` is the panic on a second registration.
  unfoldable pub must_register_rule :
      Registry Rule Plugin → Text → Rule → Option (Registry Rule Plugin)
  must_register_rule p name rule = elim (lookup name p.rules) [
    | some _ ↦ none
    | none ↦ some (record { rules = insert name rule p.rules; plugins = p.plugins })
  ]

  -- `LookupRule`
  unfoldable pub lookup_rule : Registry Rule Plugin → Text → Found Rule
  lookup_rule p name = elim (lookup name p.rules) [
    | none ↦ missing unknown_rule
    | some rule ↦ found rule
  ]

  -- `PluginNames`
  unfoldable pub plugin_names : Registry Rule Plugin → List Text
  plugin_names p = sort_strings (keys p.plugins)

  -- `RegisterPlugin`
  unfoldable pub register_plugin :
      Registry Rule Plugin → Text → Plugin → Option (Registry Rule Plugin)
  register_plugin p name plugin = elim (lookup name p.plugins) [
    | some _ ↦ none
    | none ↦ some (record { rules = p.rules; plugins = insert name plugin p.plugins })
  ]

  -- `MustRegisterPlugin`, over the method `Name` of plugins
  unfoldable pub must_register_plugin :
      (Plugin → Text) → Registry Rule Plugin → Plugin → Option (Registry Rule Plugin)
  unfolding register_plugin
  must_register_plugin plugin_name p plugin = register_plugin p (plugin_name plugin) plugin

  -- `LookupPlugin`
  unfoldable pub lookup_plugin : Registry Rule Plugin → Text → Found Plugin
  lookup_plugin p name = elim (lookup name p.plugins) [
    | none ↦ missing unknown_plugin
    | some plugin ↦ found plugin
  ]
