-- ===== src/Protobuf/Flags/Kept.antt =====
-- What a run of `CheckFlags` keeps, however it ends.
use rules_proto.Base.{Text, List, [], ◌∷◌, ◌≡◌, text_eq, Option, none, some, arith}
use rules_proto.Base.{Option-cases, inl, inr, eq_iff}
use rules_proto.Base.Dict.{lookup, insert, lookup-insert}
use rules_proto.Go.Strings.{split}
use rules_proto.External.{External}
use rules_proto.Config.Rule.{Config}
use rules_proto.Config.Package as Package
use rules_proto.Config.Package.{PackageConfig, YConfig, load_yconfig}
use rules_proto.Config.Errors.{Error}
use rules_proto.Config.Package.Laws.{IsValid, new-IsValid}
use rules_proto.Config.Package.Yaml.{load_yconfig-Loads}
use rules_proto.Registry.{Registry, found, lookup_plugin, lookup_rule}
use rules_proto.Registry.{register_plugin, must_register_rule}
use rules_proto.Resolver.{Resolver}
use rules_proto.Resolver.Csv as Csv
use rules_proto.Protobuf.Flags.{
  FlagState, Checked, checked, refused, panicked, then_check, check_each, comma_values,
  config_loaded, load_config_file, imports_loaded, load_imports_file, registered, with_parts,
  register_starlark_plugin, register_starlark_rule, check_flags,
}

-- A property of the state that a run leaves; a panic leaves none.
pub Ends {ℓ κ} : {S : Type ℓ} → (S → Type κ) → Checked S → Type κ
Ends P (checked s) = P s
Ends P (refused e s) = P s
Ends P panicked = Unit

module _ {ℓ κ} {S : Type ℓ} (P : S → Type κ) where
  then_check-Ends :
      (c : Checked S) (next : S → Checked S)
      → Ends P c
      → ((s : S) → P s → Ends P (next s))
      → Ends P (then_check c next)
  unfolding Ends
  then_check-Ends (checked s) next h step = step s h
  then_check-Ends (refused e s) next h step = h
  then_check-Ends panicked next h step = tt

module _ {ℓ} {Rule Plugin : Type ℓ} where
  -- The configuration is valid, and two names are looked up to the plugin and the rule.
  pub record Kept (k j : Text) (plugin : Plugin) (rule : Rule) (s : FlagState Rule Plugin)
      : Type ℓ where
    pub valid : IsValid s.config
    pub plugin_kept : lookup_plugin s.registry k ≡ found plugin
    pub rule_kept : lookup_rule s.registry j ≡ found rule

  module _ {κ} (P : FlagState Rule Plugin → Type κ) where
    check_each-Ends :
        (step : Text → FlagState Rule Plugin → Checked (FlagState Rule Plugin))
        → ((v : Text) (s : FlagState Rule Plugin) → P s → Ends P (step v s))
        → (values : List Text) (s : FlagState Rule Plugin) → P s
        → Ends P (check_each step values s)
    unfolding check_each Ends
    check_each-Ends step h [] s p = p
    check_each-Ends step h (v ∷ values) s p =
        then_check-Ends P (step v s) (λ s'. check_each step values s') (h v s p)
          (λ s' p'. check_each-Ends step h values s' p')

  register_plugin-found :
      (r : Registry Rule Plugin) (name k : Text) (new p : Plugin)
      → lookup name r.plugins ≡ none
      → lookup_plugin r k ≡ found p
      → lookup_plugin (record r { plugins = insert name new r.plugins }) k ≡ found p
  unfolding lookup_plugin
  register_plugin-found r name k new p free h =
      ground (arith, eq_iff name k, lookup-insert name k new r.plugins)

  must_register_rule-found :
      (r : Registry Rule Plugin) (name k : Text) (new p : Rule)
      → lookup name r.rules ≡ none
      → lookup_rule r k ≡ found p
      → lookup_rule (record r { rules = insert name new r.rules }) k ≡ found p
  unfolding lookup_rule
  must_register_rule-found r name k new p free h =
      ground (arith, eq_iff name k, lookup-insert name k new r.rules)

  module _ {k j : Text} {plugin : Plugin} {rule : Rule} where
    config_loaded-Kept :
        (filename : Text) (s : FlagState Rule Plugin) (o : PackageConfig × Option Error)
        → IsValid o.0
        → Kept k j plugin rule s
        → Ends (Kept k j plugin rule) (config_loaded filename s o)
    unfolding Ends
    config_loaded-Kept filename s (c, none) v h = record {
      valid = v;
      plugin_kept = h.plugin_kept;
      rule_kept = h.rule_kept;
    }
    config_loaded-Kept filename s (c, some e) v h = record {
      valid = v;
      plugin_kept = h.plugin_kept;
      rule_kept = h.rule_kept;
    }

    load_config_file-Kept :
        (ext : External) (read : Text → Option YConfig) (filename : Text)
        → (s : FlagState Rule Plugin) → Kept k j plugin rule s
        → Ends (Kept k j plugin rule) (load_config_file ext read filename s)
    unfolding load_config_file Ends
    load_config_file-Kept ext read filename s h = elim (Option-cases (read filename)) [
      | inl unread ↦ rw (unread, Ends) h
      | inr (y, is_read) ↦
          rw (is_read, Ends)
            (config_loaded-Kept filename s (load_yconfig ext s.config y)
              (load_yconfig-Loads ext s.config y h.valid).valid h)
    ]

    imports_loaded-Kept :
        (filename : Text) (s : FlagState Rule Plugin) (o : Resolver × Option Text)
        → Kept k j plugin rule s
        → Ends (Kept k j plugin rule) (imports_loaded filename s o)
    unfolding Ends
    imports_loaded-Kept filename s (r, none) h = record {
      valid = h.valid;
      plugin_kept = h.plugin_kept;
      rule_kept = h.rule_kept;
    }
    imports_loaded-Kept filename s (r, some line) h = record {
      valid = h.valid;
      plugin_kept = h.plugin_kept;
      rule_kept = h.rule_kept;
    }

    load_imports_file-Kept :
        (ext : External) (open_file : Text → Option Text) (filename : Text)
        → (s : FlagState Rule Plugin) → Kept k j plugin rule s
        → Ends (Kept k j plugin rule) (load_imports_file ext open_file filename s)
    unfolding load_imports_file Ends
    load_imports_file-Kept ext open_file filename s h = elim (Option-cases (open_file filename)) [
      | inl unread ↦ rw (unread, Ends) h
      | inr (text, is_read) ↦
          rw (is_read, Ends) (imports_loaded-Kept filename s (Csv.load ext s.resolver text) h)
    ]

    register_plugin-Kept :
        (name : Text) (new : Plugin) (s : FlagState Rule Plugin)
        → Kept k j plugin rule s
        → Ends (Kept k j plugin rule) (registered s (register_plugin s.registry name new))
    unfolding register_plugin Ends lookup_rule
    register_plugin-Kept name new s h = elim (Option-cases (lookup name s.registry.plugins)) [
      | inl free ↦
          rw (free, Ends)
            (record {
              valid = h.valid;
              plugin_kept = register_plugin-found s.registry name k new plugin free h.plugin_kept;
              rule_kept = h.rule_kept;
            })
      | inr (old, taken) ↦ rw (taken, Ends) tt
    ]

    must_register_rule-Kept :
        (name : Text) (new : Rule) (s : FlagState Rule Plugin)
        → Kept k j plugin rule s
        → Ends (Kept k j plugin rule) (registered s (must_register_rule s.registry name new))
    unfolding must_register_rule Ends lookup_plugin
    must_register_rule-Kept name new s h = elim (Option-cases (lookup name s.registry.rules)) [
      | inl free ↦
          rw (free, Ends)
            (record {
              valid = h.valid;
              plugin_kept = h.plugin_kept;
              rule_kept = must_register_rule-found s.registry name j new rule free h.rule_kept;
            })
      | inr (old, taken) ↦ rw (taken, Ends) tt
    ]

    register_starlark_plugin-Kept :
        (load : Text → Text → Option Plugin) (name : Text) (s : FlagState Rule Plugin)
        → Kept k j plugin rule s
        → Ends (Kept k j plugin rule) (register_starlark_plugin load name s)
    unfolding register_starlark_plugin Ends
    register_starlark_plugin-Kept load name s h =
        elim (Option-cases (with_parts (split 37 name) load)) [
          | inl bad ↦ rw (bad, Ends) h
          | inr (none, failed) ↦ rw (failed, Ends) h
          | inr (some new, loaded) ↦ rw (loaded, Ends) (register_plugin-Kept name new s h)
        ]

    register_starlark_rule-Kept :
        (load : Text → Text → Option Rule) (name : Text) (s : FlagState Rule Plugin)
        → Kept k j plugin rule s
        → Ends (Kept k j plugin rule) (register_starlark_rule load name s)
    unfolding register_starlark_rule Ends
    register_starlark_rule-Kept load name s h =
        elim (Option-cases (with_parts (split 37 name) load)) [
          | inl bad ↦ rw (bad, Ends) h
          | inr (none, failed) ↦ rw (failed, Ends) h
          | inr (some new, loaded) ↦ rw (loaded, Ends) (must_register_rule-Kept name new s h)
        ]

  -- Where `CheckFlags` succeeds or ends with an error, it leaves a valid configuration, and a plugin
  -- and a rule that were registered before are still found under their names; nothing is stated of
  -- a panic.
  pub check_flags-Kept :
      (ext : External) (read : Text → Option YConfig)
      → (open_file : Text → Option Text)
      → (load_plugin : Text → Text → Option Plugin) (load_rule : Text → Text → Option Rule)
      → (config : Config) (config_files imports_in : Text) (plugins rules : List Text)
      → (s : FlagState Rule Plugin) (k j : Text) (plugin : Plugin) (rule : Rule)
      → lookup_plugin s.registry k ≡ found plugin
      → lookup_rule s.registry j ≡ found rule
      → Ends (Kept k j plugin rule) (
          check_flags ext read open_file load_plugin load_rule config config_files imports_in
            plugins rules s)
  unfolding check_flags
  check_flags-Kept ext read open_file load_plugin load_rule config files imports plugins rules s k j
        plugin rule hp hr =
      let K = Kept k j plugin rule in
      let start : Kept k j plugin rule (record s { config = Package.new config }) = record {
        valid = new-IsValid config;
        plugin_kept = hp;
        rule_kept = hr;
      } in
      then_check-Ends K _ _
        (check_each-Ends K (load_config_file ext read) (load_config_file-Kept ext read)
          (comma_values files) _ start)
        λ s1 h1.
          then_check-Ends K _ _
            (check_each-Ends K (load_imports_file ext open_file)
              (load_imports_file-Kept ext open_file) (comma_values imports) s1 h1)
            λ s2 h2.
              then_check-Ends K _ _
                (check_each-Ends K (register_starlark_plugin load_plugin)
                  (register_starlark_plugin-Kept load_plugin) plugins s2 h2)
                (check_each-Ends K (register_starlark_rule load_rule)
                  (register_starlark_rule-Kept load_rule) rules)
