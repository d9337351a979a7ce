-- ===== src/Generation/Ready.antt =====
-- What the choice of plugins and rules needs of a package configuration, and keeps of it.
use rules_proto.Base.{Text, Bool, true, false, not, List, [], ◌∷◌, ◌++◌, Option, none, some}
use rules_proto.Base.{text_eq, ◌&&◌, ◌||◌, ◌==◌, eq_iff, ◌≡◌, refl, sym, ◌∙◌, ◌⊎◌, inl, inr}
use rules_proto.Base.{Bool-cases, is_empty, ap}
use rules_proto.Base.Dict.{Dict, lookup, insert, lookup-insert}
use rules_proto.Config.Plugin.{LanguagePluginConfig}
use rules_proto.Config.Rule.{LanguageRuleConfig}
use rules_proto.Config.Language.{LanguageConfig, get_rules_by_intent}
use rules_proto.Config.Package.{PackageConfig}
use rules_proto.Registry.{
  Registry, Found, found, missing, RegistryError, lookup_plugin, lookup_rule,
}
use rules_proto.Generation.Choice.{
  Built, built, Plugin, LanguageRule, with_implementation, prepend, prepend_some, append_built,
}

abbrev pub is_found {ℓ} : {A : Type ℓ} → Found A → Bool
is_found (found _) = true
is_found (missing _) = false

pub Found-cases {ℓ} :
    {A : Type ℓ} (x : Found A) → ((e : RegistryError) × (x ≡ missing e)) ⊎ ((a : A) × (x ≡ found a))
Found-cases (missing e) = inl (e, refl)
Found-cases (found a) = inr (a, refl)

module _ {P : Type 0} (registry : Registry (LanguageRule P) Plugin) where
  -- A plugin that a language wants is configured and, if it is enabled, registered.
  abbrev pub plugin_ready : Option LanguagePluginConfig → Bool
  plugin_ready none = false
  plugin_ready (some plugin) =
      not plugin.enabled
      || is_found (lookup_plugin registry (with_implementation plugin).implementation)

  abbrev pub rule_ready : Option LanguageRuleConfig → Bool
  rule_ready none = false
  rule_ready (some cfg) = not cfg.enabled || is_found (lookup_rule registry cfg.implementation)

  abbrev pub plugins_ready : PackageConfig → Dict Text Bool → Bool
  plugins_ready c [] = true
  plugins_ready c ((name, want) ∷ plugins) =
      (not want || plugin_ready (lookup name c.plugins)) && plugins_ready c plugins

  abbrev pub rules_ready : PackageConfig → List Text → Bool
  rules_ready c [] = true
  rules_ready c (name ∷ names) = rule_ready (lookup name c.rules) && rules_ready c names

  abbrev pub langs_ready : PackageConfig → List LanguageConfig → Bool
  langs_ready c [] = true
  langs_ready c (l ∷ langs) =
      plugins_ready c l.plugins && rules_ready c (get_rules_by_intent l true) && langs_ready c langs

  -- What a run leaves as it was.
  pub record Keeps (c c' : PackageConfig) : Type 0 where
    pub plugin : (n : Text) → plugin_ready (lookup n c'.plugins) ≡ plugin_ready (lookup n c.plugins)
    pub rule : (n : Text) → rule_ready (lookup n c'.rules) ≡ rule_ready (lookup n c.rules)
    pub langs : c'.langs ≡ c.langs

  pub Keeps-refl : (c : PackageConfig) → Keeps c c
  Keeps-refl c = record { plugin = λ n. refl; rule = λ n. refl; langs = refl }

  pub Keeps-trans : (a b c : PackageConfig) → Keeps a b → Keeps b c → Keeps a c
  Keeps-trans a b c h k = record {
    plugin = λ n. k.plugin n ∙ h.plugin n;
    rule = λ n. k.rule n ∙ h.rule n;
    langs = k.langs ∙ h.langs;
  }

  pub Keeps-plugins :
      (c c' : PackageConfig) (d : Dict Text Bool)
      → Keeps c c'
      → plugins_ready c' d ≡ plugins_ready c d
  Keeps-plugins c c' [] k = refl
  Keeps-plugins c c' ((n, want) ∷ d) k = rw (k.plugin n, Keeps-plugins c c' d k)

  pub Keeps-rules :
      (c c' : PackageConfig) (names : List Text)
      → Keeps c c'
      → rules_ready c' names ≡ rules_ready c names
  Keeps-rules c c' [] k = refl
  Keeps-rules c c' (n ∷ names) k = rw (k.rule n, Keeps-rules c c' names k)

  pub Keeps-langs :
      (c c' : PackageConfig) (langs : List LanguageConfig)
      → Keeps c c'
      → langs_ready c' langs ≡ langs_ready c langs
  Keeps-langs c c' [] k = refl
  Keeps-langs c c' (l ∷ langs) k = rw (
    Keeps-plugins c c' l.plugins k,
    Keeps-rules c c' (get_rules_by_intent l true) k,
    Keeps-langs c c' langs k,
  )

  -- A loop comes to an end without a fatal error.
  abbrev pub Done {ℓ} : {A : Type ℓ} → PackageConfig → Built (PackageConfig × A) → Type ℓ
  Done {A = A} c result = (c' : PackageConfig) × (x : A) × (result ≡ built (c', x)) × Keeps c c'

  pub prepend-Done {ℓ} :
      {A : Type ℓ} (c c' : PackageConfig) (x : Option A) (rest : Built (PackageConfig × List A))
      → Keeps c c'
      → Done c' rest
      → Done c (prepend x rest)
  prepend-Done c c' x rest k (c'', xs, e, k') =
      (c'', prepend_some x xs, ap (prepend x) e, Keeps-trans c c' c'' k k')

  pub append_built-Done {ℓ} :
      {A : Type ℓ} (c c' : PackageConfig) (xs : List A) (rest : Built (PackageConfig × List A))
      → Keeps c c'
      → Done c' rest
      → Done c (append_built xs rest)
  append_built-Done c c' xs rest k (c'', ys, e, k') =
      (c'', xs ++ ys, ap (append_built xs) e, Keeps-trans c c' c'' k k')

  ready-with_implementation :
      (p : LanguagePluginConfig)
      → plugin_ready (some (with_implementation p)) ≡ plugin_ready (some p)
  unfolding with_implementation
  ready-with_implementation p = elim (Bool-cases (is_empty p.implementation)) [
    | inl e ↦ rw e (elim (Bool-cases (is_empty p.name)) [ inl f ↦ rw f | inr f ↦ rw f ])
    | inr e ↦ rw (e, e)
  ]

  pub Keeps-insert_plugin :
      (c : PackageConfig) (name : Text) (p : LanguagePluginConfig)
      → lookup name c.plugins ≡ some p
      → Keeps c (record c { plugins = insert name (with_implementation p) c.plugins })
  Keeps-insert_plugin c name p h = record {
    plugin = λ n.
        ap plugin_ready (lookup-insert name n (with_implementation p) c.plugins)
        ∙ elim (Bool-cases (name == n)) [
          | inl e ↦ rw e (
              ready-with_implementation p
              ∙ ap plugin_ready (sym h ∙ ap (λ m. lookup m c.plugins) ((eq_iff name n).0 e)))
          | inr e ↦ rw e
        ];
    rule = λ n. refl;
    langs = refl;
  }

  pub Keeps-insert_rule :
      (c : PackageConfig) (name : Text) (cfg cfg' : LanguageRuleConfig)
      → lookup name c.rules ≡ some cfg
      → rule_ready (some cfg') ≡ rule_ready (some cfg)
      → Keeps c (record c { rules = insert name cfg' c.rules })
  Keeps-insert_rule c name cfg cfg' h same = record {
    plugin = λ n. refl;
    rule = λ n. ap rule_ready (lookup-insert name n cfg' c.rules) ∙ elim (Bool-cases (name == n)) [
      | inl e ↦
          rw e (same ∙ ap rule_ready (sym h ∙ ap (λ m. lookup m c.rules) ((eq_iff name n).0 e)))
      | inr e ↦ rw e
    ];
    langs = refl;
  }
