-- ===== src/Registry/Laws.antt =====
-- What registration and lookup guarantee together.
use rules_proto.Base.{Text, ◌≡◌, refl, ◌∙◌, text_eq, arith, none, some, ◌==◌}
use rules_proto.Base.{contains, ◌||◌, if◌then◌else◌, inl, inr, Option-cases}
use rules_proto.Base.Dict.{keys, lookup, insert, lookup-insert, contains-keys-insert}
use rules_proto.Base.Dict.{lookup-insert_self}
use rules_proto.Base.{sym, ap, subst}
use rules_proto.Base.Sort.{contains-sort_strings}
use rules_proto.Registry.{Registry, found, register_plugin, lookup_plugin, plugin_names}

module _ {ℓ} {Rule Plugin : Type ℓ} where
  register_plugin-fresh :
      (p : Registry Rule Plugin) (name other : Text) (plugin later : Plugin)
      → let q : Registry Rule Plugin = record {
        rules = p.rules;
        plugins = insert name plugin p.plugins;
      } in
        (lookup_plugin q other ≡ (if name == other then found plugin else lookup_plugin p other))
        × (register_plugin q name later ≡ none)
        × (contains (plugin_names q) other ≡ (other == name || contains (plugin_names p) other))
  unfolding register_plugin lookup_plugin plugin_names
  register_plugin-fresh p name other plugin later = (
    ground (arith, lookup-insert name other plugin p.plugins),
    ground (arith, lookup-insert_self name plugin p.plugins),
    contains-sort_strings _ other
        ∙ contains-keys-insert name other plugin p.plugins
        ∙ ap (λ b. other == name || b) (sym (contains-sort_strings (keys p.plugins) other)),
  )

  -- A successful registration makes the plugin found under its name, changes the result of no
  -- other lookup, and makes every further registration under the name panic; the names are the
  -- earlier names and the new one.
  pub register_plugin_effect :
      (p q : Registry Rule Plugin) (name other : Text) (plugin later : Plugin)
      → register_plugin p name plugin ≡ some q
      → (lookup_plugin q other ≡ (if name == other then found plugin else lookup_plugin p other))
        × (register_plugin q name later ≡ none)
        × (contains (plugin_names q) other ≡ (other == name || contains (plugin_names p) other))
        × (q.rules ≡ p.rules)
  unfolding register_plugin
  register_plugin_effect p q name other plugin later h =
      elim (Option-cases (lookup name p.plugins)) [
        | inl free ↦
            let e : record { rules = p.rules; plugins = insert name plugin p.plugins } ≡ q =
              ground arith in
            let fresh = register_plugin-fresh p name other plugin later in
            subst
              (λ q.
                (lookup_plugin q other
                  ≡ (if name == other then found plugin else lookup_plugin p other))
                × (register_plugin q name later ≡ none)
                × (contains (plugin_names q) other
                    ≡ (other == name || contains (plugin_names p) other))
                × (q.rules ≡ p.rules))
              e (fresh.0, fresh.1, fresh.2, refl)
        | inr (old, taken) ↦ absurd (ground arith)
      ]
