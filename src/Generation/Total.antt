-- ===== src/Generation/Total.antt =====
-- When the choice of plugins and rules does not end in a fatal error.
use rules_proto.Base.{Text, Bool, true, false, List, [], ◌∷◌, some}
use rules_proto.Base.{text_eq, ◌≡◌, refl, ◌∙◌, inl, inr, arith}
use rules_proto.Base.{Option-cases, Bool-cases, ap}
use rules_proto.Base.Dict.{Dict, keys, lookup, insert}
use rules_proto.Intent.{differs}
use rules_proto.Library.{ProtoLibrary}
use rules_proto.Config.Plugin.{LanguagePluginConfig}
use rules_proto.Config.Rule.{LanguageRuleConfig}
use rules_proto.Config.Language.{LanguageConfig, get_rules_by_intent}
use rules_proto.Config.Package.{PackageConfig, configured_langs, langs_of}
use rules_proto.Registry.{Registry, lookup_plugin, lookup_rule}
use rules_proto.Sources.{ProtocConfiguration, new_protoc_configuration}
use rules_proto.Generation.Choice.{
  built, Plugin, LanguageRule, with_implementation, context_of, run_plugin, plugin_configs,
  named_rules, library_rules, language_rules, rules_from, generate_rules, new_package,
}
use rules_proto.Base.Sort.{sort_strings}
use rules_proto.Generation.Ready.{
  is_found, Found-cases, plugin_ready, plugins_ready, rule_ready, rules_ready, langs_ready,
  Keeps-refl, Keeps-trans, Keeps-plugins, Keeps-rules, Keeps-langs, Done, prepend-Done,
  append_built-Done, Keeps-insert_plugin, Keeps-insert_rule,
}

module _ {P : Type 0} (registry : Registry (LanguageRule P) Plugin) (rel : Text) where
  run_plugin_total :
      (c : PackageConfig) (lib : ProtoLibrary) (name : Text) (p : LanguagePluginConfig)
      → lookup name c.plugins ≡ some p
      → is_found (lookup_plugin registry (with_implementation p).implementation) ≡ true
      → Done registry c (run_plugin registry rel c lib name p)
  unfolding run_plugin
  run_plugin_total c lib name p h r =
      let ctx =
        context_of registry rel
          (record c { plugins = insert name (with_implementation p) c.plugins }) lib p in
      elim (Found-cases (lookup_plugin registry (with_implementation p).implementation)) [
        | inl (e, m) ↦ absurd (ground (arith, r, ap is_found m))
        | inr (impl, m) ↦
            rw (m, run_plugin)
              (elim (Option-cases (impl.configure ctx)) [
                | inl n ↦ rw (n, run_plugin) (_, _, refl, Keeps-insert_plugin registry c name p h)
                | inr (cfg, n) ↦
                    rw (n, run_plugin) (_, _, refl, Keeps-insert_plugin registry c name p h)
              ])
      ]

  plugin_configs_total :
      (c : PackageConfig) (lib : ProtoLibrary) (d : Dict Text Bool)
      → plugins_ready registry c d ≡ true
      → Done registry c (plugin_configs registry rel c lib d)
  unfolding plugin_configs
  plugin_configs_total c lib [] h = (c, [], refl, Keeps-refl registry c)
  plugin_configs_total c lib ((name, false) ∷ d) h = plugin_configs_total c lib d h
  plugin_configs_total c lib ((name, true) ∷ d) h = elim (Option-cases (lookup name c.plugins)) [
    | inl m ↦ absurd (ground (arith, h, ap (plugin_ready registry) m))
    | inr (p, m) ↦ elim (Bool-cases p.enabled) [
      | inl e ↦
          let (c', cfg, run, k) = run_plugin_total c lib name p m (ground (arith, h, m, e)) in
          rw (m, plugin_configs, e, run)
            (prepend-Done registry c c' cfg _ k
              (plugin_configs_total c' lib d (Keeps-plugins registry c c' d k ∙ ground (arith, h))))
      | inr e ↦ rw (m, plugin_configs, e) (plugin_configs_total c lib d (ground (arith, h)))
    ]
  ]

  named_rules_total :
      (c : PackageConfig) (pc : ProtocConfiguration) (names : List Text)
      → rules_ready registry c names ≡ true
      → Done registry c (named_rules registry rel c pc names)
  unfolding named_rules
  named_rules_total c pc [] h = (c, [], refl, Keeps-refl registry c)
  named_rules_total c pc (name ∷ names) h = elim (Option-cases (lookup name c.rules)) [
    | inl m ↦ absurd (ground (arith, h, ap (rule_ready registry) m))
    | inr (cfg, m) ↦ elim (Bool-cases cfg.enabled) [
      | inr e ↦ rw (m, named_rules, e) (named_rules_total c pc names (ground (arith, h)))
      | inl e ↦ elim (Found-cases (lookup_rule registry cfg.implementation)) [
        | inl (err, f) ↦ absurd (ground (arith, h, m, e, ap is_found f))
        | inr (impl, f) ↦
            let cfg' : LanguageRuleConfig = record cfg { impl = some impl.name } in
            let k = Keeps-insert_rule registry c name cfg cfg' m refl in
            let c' : PackageConfig = record c { rules = insert name cfg' c.rules } in
            rw (m, named_rules, e, f)
              (prepend-Done registry c c' _ _ k (
                named_rules_total c' pc names
                  (Keeps-rules registry c c' names k ∙ ground (arith, h))))
      ]
    ]
  ]

  library_rules_after :
      (c : PackageConfig) (p : LanguageConfig) (lib : ProtoLibrary)
      → Done registry c (plugin_configs registry rel c lib p.plugins)
      → rules_ready registry c (get_rules_by_intent p true) ≡ true
      → Done registry c (library_rules registry rel c p lib)
  unfolding library_rules
  library_rules_after c p lib (c', [], e, k) r = rw (e, library_rules) (c', [], refl, k)
  library_rules_after c p lib (c', cfg ∷ configs, e, k) r =
      let pc = new_protoc_configuration p rel p.name lib (cfg ∷ configs) in
      let names = get_rules_by_intent p true in
      let (c'', xs, run, k') =
        named_rules_total c' pc names (Keeps-rules registry c c' names k ∙ r) in
      rw (e, library_rules) (c'', xs, run, Keeps-trans registry c c' c'' k k')

  library_rules_total :
      (c : PackageConfig) (p : LanguageConfig) (lib : ProtoLibrary)
      → plugins_ready registry c p.plugins ≡ true
      → rules_ready registry c (get_rules_by_intent p true) ≡ true
      → Done registry c (library_rules registry rel c p lib)
  library_rules_total c p lib h r =
      library_rules_after c p lib (plugin_configs_total c lib p.plugins h) r

  language_rules_total :
      (c : PackageConfig) (l : LanguageConfig) (libs : List ProtoLibrary)
      → plugins_ready registry c l.plugins ≡ true
      → rules_ready registry c (get_rules_by_intent l true) ≡ true
      → Done registry c (language_rules registry rel c l libs)
  unfolding language_rules
  language_rules_total c l [] h r = (c, [], refl, Keeps-refl registry c)
  language_rules_total c l (lib ∷ libs) h r =
      let (c', xs, run, k) = library_rules_total c l lib h r in
      rw (run, language_rules)
        (append_built-Done registry c c' xs _ k (
          language_rules_total c' l libs (Keeps-plugins registry c c' l.plugins k ∙ h)
            (Keeps-rules registry c c' (get_rules_by_intent l true) k ∙ r)))

  rules_from_total :
      (enabled : Bool) (c : PackageConfig) (libs : List ProtoLibrary) (langs : List LanguageConfig)
      → langs_ready registry c langs ≡ true
      → Done registry c (rules_from registry rel enabled c libs langs)
  unfolding rules_from
  rules_from_total enabled c libs [] h = (c, [], refl, Keeps-refl registry c)
  rules_from_total enabled c libs (l ∷ langs) h = elim (Bool-cases (differs l.enabled enabled)) [
    | inl d ↦ rw (d, rules_from) (rules_from_total enabled c libs langs (ground (arith, h)))
    | inr d ↦
        let (c', xs, run, k) =
          language_rules_total c l libs (ground (arith, h)) (ground (arith, h)) in
        rw (d, rules_from, run)
          (append_built-Done registry c c' xs _ k (
            rules_from_total enabled c' libs langs
              (Keeps-langs registry c c' langs k ∙ ground (arith, h))))
  ]

  -- Where the plugins and the rules that the languages of a package want are configured and, if
  -- enabled, registered, the package is built, without a fatal error, and its languages stay.
  pub new_package_total :
      (c : PackageConfig) (libs : List ProtoLibrary)
      → langs_ready registry c (configured_langs c) ≡ true
      → (c' : PackageConfig) × (gen : List (P × ProtoLibrary)) × (empty : List (P × ProtoLibrary))
        × (new_package registry rel c libs ≡ built (c', gen, empty))
        × (c'.langs ≡ c.langs)
  unfolding new_package generate_rules configured_langs
  new_package_total c libs h =
      let (c', gen, first, k) = rules_from_total true c libs (configured_langs c) h in
      let again =
        Keeps-langs registry c c' (configured_langs c') k
        ∙ ap (λ ls. langs_ready registry c (langs_of ls (sort_strings (keys ls)))) k.langs
        ∙ h in
      let (c'', empty, second, k') = rules_from_total false c' libs (configured_langs c') again in
      rw (first, new_package, second) (c'', gen, empty, refl, k'.langs ∙ k.langs)
