-- ===== src/Generation/Chosen.antt =====
-- What holds of the plugin configurations that a library is compiled with.
use rules_proto.Base.{Text, Bool, true, false, List, [], ◌∷◌, Option, none, some, ◌≡◌, refl, ◌∙◌}
use rules_proto.Base.{◌⊎◌, inl, inr, text_eq, Option-cases, Bool-cases, is_empty, subst}
use rules_proto.Base.{All, Distinct}
use rules_proto.Base.Dict.{Dict, lookup, insert}
use rules_proto.Base.Sort.{IsSorted}
use rules_proto.Dedup.Laws.{deduplicate_and_sort-IsSorted, deduplicate_and_sort-Distinct}
use rules_proto.Library.{ProtoLibrary}
use rules_proto.Config.Plugin.{LanguagePluginConfig}
use rules_proto.Config.Plugin as PluginConfig
use rules_proto.Config.Package.{PackageConfig}
use rules_proto.Registry.{Registry, found, lookup_plugin}
use rules_proto.Sources.{PluginConfiguration}
use rules_proto.Generation.Choice.{
  Built, built, fatal, FatalError, Plugin, LanguageRule, with_implementation, complete, prepend,
  context_of, run_plugin, plugin_configs,
}
use rules_proto.Generation.Ready.{Found-cases}

module _ {P : Type 0} (registry : Registry (LanguageRule P) Plugin) where
  -- A configuration of an enabled plugin, with ordered options, each once, the label that the
  -- plugin is configured with, if any, and the registered implementation.
  pub record IsChosen (cfg : PluginConfiguration) : Type 0 where
    pub enabled : cfg.config.enabled ≡ true
    pub sorted : IsSorted cfg.options
    pub distinct : Distinct cfg.options
    pub label : (is_empty cfg.config.label.name ≡ true) ⊎ (cfg.label ≡ cfg.config.label)
    pub registered :
        (impl : Plugin) × (lookup_plugin registry cfg.config.implementation ≡ found impl)
        × (cfg.plugin ≡ impl.name)

  with_implementation-enabled :
      (p : LanguagePluginConfig) → (with_implementation p).enabled ≡ p.enabled
  unfolding with_implementation
  with_implementation-enabled p = elim (Bool-cases (is_empty p.implementation)) [
    | inl e ↦ rw e
    | inr e ↦ rw e
  ]

  complete-IsChosen :
      (p : LanguagePluginConfig) (impl : Plugin) (cfg : PluginConfiguration)
      → p.enabled ≡ true
      → lookup_plugin registry p.implementation ≡ found impl
      → IsChosen (complete p impl cfg)
  unfolding complete PluginConfig.clone
  complete-IsChosen p impl cfg e f = record {
    enabled = e;
    sorted = deduplicate_and_sort-IsSorted cfg.options;
    distinct = deduplicate_and_sort-Distinct cfg.options;
    label = elim (Bool-cases (is_empty p.label.name)) [ inl h ↦ inl h | inr h ↦ inr (rw h) ];
    registered = (impl, f, refl);
  }

  -- All configurations of a result.
  abbrev pub AllChosen : Built (PackageConfig × List PluginConfiguration) → Type 0
  AllChosen (fatal e) = Unit
  AllChosen (built (c, configs)) = All IsChosen configs

  abbrev SomeChosen : Built (PackageConfig × Option PluginConfiguration) → Type 0
  SomeChosen (built (c, some cfg)) = IsChosen cfg
  SomeChosen _ = Unit

  prepend-AllChosen :
      (c : PackageConfig) (x : Option PluginConfiguration)
      (rest : Built (PackageConfig × List PluginConfiguration))
      → SomeChosen (built (c, x))
      → AllChosen rest
      → AllChosen (prepend x rest)
  prepend-AllChosen c x (fatal e) h k = tt
  prepend-AllChosen c none (built (c', xs)) h k = k
  prepend-AllChosen c (some x) (built (c', xs)) h k = (h, k)

  module _ (rel : Text) where
    run_plugin-SomeChosen :
        (c : PackageConfig) (lib : ProtoLibrary) (name : Text) (p : LanguagePluginConfig)
        → p.enabled ≡ true
        → SomeChosen (run_plugin registry rel c lib name p)
    unfolding run_plugin
    run_plugin-SomeChosen c lib name p e =
        let p' = with_implementation p in
        let c' : PackageConfig = record c { plugins = insert name p' c.plugins } in
        elim (Found-cases (lookup_plugin registry p'.implementation)) [
          | inl (err, m) ↦ rw (m, run_plugin) tt
          | inr (impl, m) ↦
              elim (Option-cases (impl.configure (context_of registry rel c' lib p))) [
                | inl n ↦ rw (m, run_plugin, n) tt
                | inr (cfg, n) ↦
                    rw (m, run_plugin, n)
                      (complete-IsChosen p' impl cfg (with_implementation-enabled p ∙ e) m)
              ]
        ]

    run_plugin-cases :
        (r : Built (PackageConfig × Option PluginConfiguration))
        → ((e : FatalError) × (r ≡ fatal e))
          ⊎ ((c : PackageConfig) × (x : Option PluginConfiguration) × (r ≡ built (c, x)))
    run_plugin-cases (fatal e) = inl (e, refl)
    run_plugin-cases (built (c, x)) = inr (c, x, refl)

    -- The configurations that a library is compiled with are those of enabled plugins, by their
    -- registered implementations, with ordered options, none of them twice, and with the label of
    -- the plugin's configuration, where it names one.
    pub plugin_configs-AllChosen :
        (c : PackageConfig) (lib : ProtoLibrary) (d : Dict Text Bool)
        → AllChosen (plugin_configs registry rel c lib d)
    unfolding plugin_configs
    plugin_configs-AllChosen c lib [] = tt
    plugin_configs-AllChosen c lib ((name, false) ∷ d) = plugin_configs-AllChosen c lib d
    plugin_configs-AllChosen c lib ((name, true) ∷ d) =
        elim (Option-cases (lookup name c.plugins)) [
          | inl m ↦ rw (m, plugin_configs) tt
          | inr (p, m) ↦ elim (Bool-cases p.enabled) [
            | inr e ↦ rw (m, plugin_configs, e) (plugin_configs-AllChosen c lib d)
            | inl e ↦ elim (run_plugin-cases (run_plugin registry rel c lib name p)) [
              | inl (err, run) ↦ rw (m, plugin_configs, e, run) tt
              | inr (c', x, run) ↦
                  rw (m, plugin_configs, e, run)
                    (prepend-AllChosen c' x _
                      (subst SomeChosen run (run_plugin-SomeChosen c lib name p e))
                      (plugin_configs-AllChosen c' lib d))
            ]
          ]
        ]
