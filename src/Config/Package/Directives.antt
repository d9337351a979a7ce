-- ===== src/Config/Package/Directives.antt =====
-- What a list of directives does to a package configuration.
use rules_proto.Base.{Text, List, [], ◌∷◌, ◌++◌, ◌≡◌, refl, ◌∙◌, text_eq, arith, none, some}
use rules_proto.Base.{inl, inr, Option-cases, bytes}
use rules_proto.Go.Strings.{fields, join}
use rules_proto.External.{External}
use rules_proto.Config.Errors.{Directive, Outcome, Error, in_directive}
use rules_proto.Config.Plugin
use rules_proto.Config.Rule
use rules_proto.Config.Language
use rules_proto.Config.Package.{
  PackageConfig, plugin_fields, rule_fields, language_fields, parse_one, parse_directives,
  parse_prefix_directive,
}
use rules_proto.Config.Package.Laws.{
  IsValid, get_or_create_plugin-fits, get_or_create_rule-fits, get_or_create_lang-fits,
  put_plugin-IsValid, put_rule-IsValid, put_lang-IsValid,
}

language_fields-IsValid :
    (c : PackageConfig) (d : Directive) (fs : List Text)
    → IsValid c
    → IsValid (language_fields c d fs).0
unfolding language_fields
language_fields-IsValid c d (name ∷ param ∷ value ∷ []) v =
    let fits = get_or_create_lang-fits c name v in
    put_lang-IsValid c name _ v (record {
      named = Language.Laws.name-parse_directive _ param value ∙ fits.named;
      valid = Language.Laws.parse_directive-IsValid _ param value fits.valid;
    })
language_fields-IsValid c d _ v = v

prefix-IsValid :
    (c : PackageConfig) (d : Directive) → IsValid c → IsValid (parse_prefix_directive c d).0
unfolding parse_prefix_directive
prefix-IsValid c d v = record {
  langs_distinct = v.langs_distinct;
  plugins_distinct = v.plugins_distinct;
  rules_distinct = v.rules_distinct;
  langs = v.langs;
  plugins = v.plugins;
  rules = v.rules;
}

-- What follows a step that did not fail.
abbrev continue :
    Outcome PackageConfig → (PackageConfig → Outcome PackageConfig) → Outcome PackageConfig
continue (c, none) k = k c
continue (c, some e) k = (c, some e)

module _ (ext : External) where
  plugin_fields-IsValid :
      (c : PackageConfig) (d : Directive) (fs : List Text)
      → IsValid c
      → IsValid (plugin_fields ext c d fs).0
  unfolding plugin_fields
  plugin_fields-IsValid c d (name ∷ param ∷ value ∷ []) v =
      let fits = get_or_create_plugin-fits c name v in
      put_plugin-IsValid c name _ v (record {
        named = Plugin.Laws.name-parse_directive ext _ param value ∙ fits.named;
        valid = Plugin.Laws.parse_directive-IsValid ext _ param value fits.valid;
      })
  plugin_fields-IsValid c d _ v = v

  rule_fields-IsValid :
      (c : PackageConfig) (d : Directive) (fs : List Text)
      → IsValid c
      → IsValid (rule_fields ext c d fs).0
  unfolding rule_fields
  rule_fields-IsValid c d (name ∷ param ∷ w ∷ ws) v =
      let fits = get_or_create_rule-fits c name v in
      let value = join (w ∷ ws) (bytes " ") in
      put_rule-IsValid c name _ v (record {
        named = Rule.Laws.name-parse_directive ext _ param value ∙ fits.named;
        valid = Rule.Laws.parse_directive-IsValid ext _ param value fits.valid;
      })
  rule_fields-IsValid c d _ v = v

  pub parse_one-IsValid :
      (c : PackageConfig) (d : Directive) → IsValid c → IsValid (parse_one ext c d).0
  unfolding parse_one
  parse_one-IsValid c d v = ground (
    arith,
    prefix-IsValid c d v,
    plugin_fields-IsValid c d (fields d.value) v,
    rule_fields-IsValid c d (fields d.value) v,
    language_fields-IsValid c d (fields d.value) v,
  )

  -- Directives keep the invariant, also where one fails.
  pub parse_directives-IsValid :
      (c : PackageConfig) (ds : List Directive) → IsValid c → IsValid (parse_directives ext c ds).0
  unfolding parse_directives
  parse_directives-IsValid c [] v = v
  parse_directives-IsValid c (d ∷ ds) v = elim (Option-cases (parse_one ext c d).1) [
    | inl fine ↦
        rw (fine, parse_directives)
          (parse_directives-IsValid (parse_one ext c d).0 ds (parse_one-IsValid c d v))
    | inr (e, failed) ↦ rw (failed, parse_directives) (parse_one-IsValid c d v)
  ]

  -- The second of two lists starts from what the first leaves, and not after an error.
  parse_directives-append :
      (c : PackageConfig) (ds es : List Directive)
      → parse_directives ext c (ds ++ es)
        ≡ continue (parse_directives ext c ds) (λ c'. parse_directives ext c' es)
  unfolding parse_directives
  parse_directives-append c [] es = refl
  parse_directives-append c (d ∷ ds) es = elim (Option-cases (parse_one ext c d).1) [
    | inl fine ↦ rw (fine, parse_directives) (parse_directives-append (parse_one ext c d).0 ds es)
    | inr (e, failed) ↦ rw (failed, parse_directives)
  ]

  stops :
      (c' c'' : PackageConfig) (d : Directive) (e : Error) (es : List Directive)
      → parse_one ext c' d ≡ (c'', some e)
      → parse_directives ext c' (d ∷ es) ≡ (c'', some (in_directive d e))
  unfolding parse_directives
  stops c' c'' d e es k = ground (arith, k)

  -- Directives that succeed leave a configuration that the following ones start from; the first that
  -- fails is the last that is read, whatever follows it: the parse ends with its error, and with the
  -- configuration as it leaves it.
  pub parse_directives_first_error :
      (c c' c'' : PackageConfig) (ds : List Directive) (d : Directive) (e : Error)
      (es : List Directive)
      → parse_directives ext c ds ≡ (c', none)
      → parse_one ext c' d ≡ (c'', some e)
      → (parse_directives ext c (ds ++ es) ≡ parse_directives ext c' es)
        × (parse_directives ext c (ds ++ d ∷ es) ≡ (c'', some (in_directive d e)))
  parse_directives_first_error c c' c'' ds d e es h k = (
    parse_directives-append c ds es ∙ rw h refl,
    parse_directives-append c ds (d ∷ es) ∙ (rw h (stops c' c'' d e es k)),
  )
