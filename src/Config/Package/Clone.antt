-- ===== src/Config/Package/Clone.antt =====
-- Clones of package configurations (`Clone`, pkg/protoc/package_config.go).
use rules_proto.Base.{Text, [], ◌∷◌, ◌≡◌, refl, ◌∙◌, sym, subst, Distinct, text_eq, none}
use rules_proto.Base.Dict.{Dict, keys, insert, copy_into, copy_into-nil, Entries}
use rules_proto.Config.Plugin
use rules_proto.Config.Rule
use rules_proto.Config.Rule.{LanguageRuleConfig}
use rules_proto.Config.Language
use rules_proto.Config.Package.{PackageConfig, clone, clone_into}
use rules_proto.Config.Package.Laws.{IsValid, PluginEntry, RuleEntry, LangEntry}

module _ {ℓ} {V : Type ℓ} where
  abbrev pub map_values : (V → V) → Dict Text V → Dict Text V
  map_values g [] = []
  map_values g ((k, v) ∷ d) = (k, g v) ∷ map_values g d

  keys-map_values : (g : V → V) (d : Dict Text V) → keys (map_values g d) ≡ keys d
  unfolding keys
  keys-map_values g [] = refl
  keys-map_values g ((k, v) ∷ d) = rw (keys-map_values g d)

  map_values_id : (d : Dict Text V) → map_values (λ v. v) d ≡ d
  map_values_id [] = refl
  map_values_id ((k, v) ∷ d) = rw (map_values_id d)

  clone_into-copy_into :
      (copy g : V → V) (into d : Dict Text V)
      → Entries (λ _ v. copy v ≡ g v) d
      → clone_into copy into d ≡ copy_into into (map_values g d)
  unfolding clone_into copy_into
  clone_into-copy_into copy g into [] h = refl
  clone_into-copy_into copy g into ((k, v) ∷ d) h =
      rw h.0 (clone_into-copy_into copy g (insert k (g v) into) d h.1)

  -- Cloning the values of a map with distinct keys maps its values.
  clone_into-eq :
      (copy g : V → V) (d : Dict Text V)
      → Distinct (keys d)
      → Entries (λ _ v. copy v ≡ g v) d
      → clone_into copy [] d ≡ map_values g d
  clone_into-eq copy g d distinct h =
      clone_into-copy_into copy g [] d h
      ∙ copy_into-nil (map_values g d) (subst Distinct (sym (keys-map_values g d)) distinct)

  Entries-map {κ μ} :
      (P : Text → V → Type κ) (Q : Text → V → Type μ)
      → ((k : Text) (v : V) → P k v → Q k v)
      → (d : Dict Text V) → Entries P d
      → Entries Q d
  Entries-map P Q f [] h = tt
  Entries-map P Q f ((k, v) ∷ d) h = (f k v h.0, Entries-map P Q f d h.1)

abbrev pub without_impl : LanguageRuleConfig → LanguageRuleConfig
without_impl r = record r { impl = none }

-- The clone of a valid configuration has every field of it, at any depth, but the implementation
-- that is attached to a rule.
pub clone_copies :
    (c : PackageConfig) → IsValid c → clone c ≡ record c { rules = map_values without_impl c.rules }
unfolding clone
clone_copies c v = rw (
  clone_into-eq Rule.clone without_impl c.rules v.rules_distinct
      (Entries-map RuleEntry _ (λ _ r h. Rule.Laws.clone-eq r h.valid) c.rules v.rules),
  clone_into-eq Language.clone (λ l. l) c.langs v.langs_distinct
      (Entries-map LangEntry _ (λ _ l h. Language.Laws.clone-eq l h.valid) c.langs v.langs),
  clone_into-eq Plugin.clone (λ p. p) c.plugins v.plugins_distinct
      (Entries-map PluginEntry _ (λ _ p h. Plugin.Laws.clone-eq p h.valid) c.plugins v.plugins),
  map_values_id c.langs,
  map_values_id c.plugins,
)
