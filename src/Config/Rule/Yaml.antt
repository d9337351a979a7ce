-- ===== src/Config/Rule/Yaml.antt =====
-- A YAML entry keeps the name and the validity of a rule configuration, also where it fails.
use rules_proto.Base.{Text, List, [], ◌∷◌, ◌≡◌, refl, ◌∙◌, text_eq, arith, none, some}
use rules_proto.Base.{inl, inr, Bool-cases, ◌==◌, eq_iff, ◌⊎◌}
use rules_proto.External.{External}
use rules_proto.Rewrite.{Rewrite, ParsedRewrite, RewriteError, parsed, failed, parse_rewrite}
use rules_proto.Config.Errors.{Outcome, IsMatched}
use rules_proto.Config.Signs.{want_all-Distinct}
use rules_proto.Config.Rule.Laws.{IsValid}
use rules_proto.Config.Rule.{
  LanguageRuleConfig, YRule, from_yaml, add_rewrites, add_rewrite, finish_yaml,
}

ParsedRewrite-cases :
    (p : ParsedRewrite) → ((r : Rewrite) × (p ≡ parsed r)) ⊎ ((e : RewriteError) × (p ≡ failed e))
ParsedRewrite-cases (parsed r) = inl (r, refl)
ParsedRewrite-cases (failed e) = inr (e, refl)

module _ (ext : External) where
  name-add_rewrites :
      (c : LanguageRuleConfig) (specs : List Text) → (add_rewrites ext c specs).0.name ≡ c.name
  unfolding add_rewrites add_rewrite
  name-add_rewrites c [] = refl
  name-add_rewrites c (spec ∷ specs) = elim (ParsedRewrite-cases (parse_rewrite ext spec)) [
    | inl (r, e) ↦ rw (e, add_rewrites) (name-add_rewrites (add_rewrite c r) specs)
    | inr (x, e) ↦ rw (e, add_rewrites)
  ]

  add_rewrites-IsValid :
      (c : LanguageRuleConfig) (specs : List Text)
      → IsValid c
      → IsValid (add_rewrites ext c specs).0
  unfolding add_rewrites add_rewrite
  add_rewrites-IsValid c [] v = v
  add_rewrites-IsValid c (spec ∷ specs) v = elim (ParsedRewrite-cases (parse_rewrite ext spec)) [
    | inl (r, e) ↦
        rw (e, add_rewrites)
          (add_rewrites-IsValid (add_rewrite c r) specs (record {
            deps = v.deps;
            attrs = v.attrs;
            vals = v.vals;
            options = v.options;
            visibility = v.visibility;
          }))
    | inr (x, e) ↦ rw (e, add_rewrites) v
  ]

  name-finish_yaml :
      (y : YRule) (o : Outcome LanguageRuleConfig) → (finish_yaml ext y o).0.name ≡ o.0.name
  unfolding finish_yaml
  name-finish_yaml y (c, some e) = refl
  name-finish_yaml y (c, none) = ground arith

  finish_yaml-IsValid :
      (y : YRule) (o : Outcome LanguageRuleConfig) → IsValid o.0 → IsValid (finish_yaml ext y o).0
  unfolding finish_yaml
  finish_yaml-IsValid y (c, some e) v = v
  finish_yaml-IsValid y (c, none) v =
      ground (arith, want_all-Distinct y.visibility c.visibility v.visibility)

  pub name-from_yaml : (c : LanguageRuleConfig) (y : YRule) → (from_yaml ext c y).0.name ≡ c.name
  unfolding from_yaml
  name-from_yaml c y = elim (Bool-cases (c.name == y.name)) [
    | inl same ↦ rw same (name-finish_yaml y _ ∙ name-add_rewrites _ y.resolves)
    | inr other ↦ rw other
  ]

  pub from_yaml-IsValid :
      (c : LanguageRuleConfig) (y : YRule) → IsValid c → IsValid (from_yaml ext c y).0
  unfolding from_yaml
  from_yaml-IsValid c y v = elim (Bool-cases (c.name == y.name)) [
    | inl same ↦ rw same (
        finish_yaml-IsValid y _ (
          add_rewrites-IsValid _ y.resolves (record {
            deps = want_all-Distinct y.deps c.deps v.deps;
            attrs = v.attrs;
            vals = v.vals;
            options = want_all-Distinct y.option c.options v.options;
            visibility = v.visibility;
          })))
    | inr other ↦ rw other v
  ]

  add_rewrites-IsMatched :
      (c : LanguageRuleConfig) (specs : List Text) → IsMatched (add_rewrites ext c specs).1
  unfolding add_rewrites
  add_rewrites-IsMatched c [] = tt
  add_rewrites-IsMatched c (spec ∷ specs) = elim (ParsedRewrite-cases (parse_rewrite ext spec)) [
    | inl (r, e) ↦ rw (e, add_rewrites) (add_rewrites-IsMatched (add_rewrite c r) specs)
    | inr (x, e) ↦ rw (e, add_rewrites) tt
  ]

  finish_yaml-IsMatched :
      (y : YRule) (o : Outcome LanguageRuleConfig)
      → IsMatched o.1
      → IsMatched (finish_yaml ext y o).1
  unfolding finish_yaml
  finish_yaml-IsMatched y (c, some e) h = h
  finish_yaml-IsMatched y (c, none) h = ground arith

  pub from_yaml-IsMatched :
      (c : LanguageRuleConfig) (y : YRule) → c.name ≡ y.name → IsMatched (from_yaml ext c y).1
  unfolding from_yaml
  from_yaml-IsMatched c y same =
      rw ((eq_iff c.name y.name).1 same)
        (finish_yaml-IsMatched y _ (add_rewrites-IsMatched _ y.resolves))
