-- ===== src/Generation/Names.antt =====
-- The names of the rules of a package.
use rules_proto.Base.{
  ℕ, zero, suc, Text, Bool, true, false, List, [], ◌∷◌, ◌++◌, Option, none, some, text_eq, arith,
}
use rules_proto.Base.{
  length, if◌then◌else◌, map, ◌≡◌, refl, ◌∙◌, sym, ap, subst, eq_iff, eq_refl, ◌==◌,
}
use rules_proto.Base.{contains, contains-append, Distinct, Option-cases, Bool-cases, inl, inr}
use rules_proto.Base.Dict.{Dict, lookup, lookup-insert, is_some}
use mathlib.Core.List.{map-append}
use rules_proto.External.{new_label, label_eq}
use rules_proto.Resolver.{Resolver}
use rules_proto.Generation.{
  GenRule, RuleProvider, ProvidedRules, set_at, put_rule, attach, provide_rules, provide_all,
  get_provided_rules,
}

abbrev next : Option ℕ → Option ℕ
next none = none
next (some i) = some (suc i)

-- The place of a name.
pub place : Text → List Text → Option ℕ
place n [] = none
place n (x ∷ xs) = if x == n then some 0 else next (place n xs)

abbrev pub names : List GenRule → List Text
names rules = map (λ (r : GenRule). r.name) rules

contains-place : (n : Text) (xs : List Text) → contains xs n ≡ is_some (place n xs)
unfolding place contains
contains-place n [] = refl
contains-place n (x ∷ xs) = ground (arith, contains-place n xs, eq_iff x n, eq_iff n x)

place-append :
    (n m : Text) (xs : List Text)
    → place n xs ≡ none
    → place m (xs ++ n ∷ []) ≡ (if n == m then some (length xs) else place m xs)
unfolding place
place-append n m [] h = refl
place-append n m (x ∷ xs) h =
    ground (arith, place-append n m xs, eq_iff x n, eq_iff n m, eq_iff x m)

names-set_at :
    (r : GenRule) (rules : List GenRule) (i : ℕ)
    → place r.name (names rules) ≡ some i
    → names (set_at i r rules) ≡ names rules
unfolding place set_at
names-set_at r [] i h = absurd (ground arith)
names-set_at r (x ∷ rules) zero h = ground (arith, eq_iff x.name r.name)
names-set_at r (x ∷ rules) (suc i) h =
    ap (λ l. x.name ∷ l) (names-set_at r rules i (ground (arith, eq_iff x.name r.name)))

length-names : (rules : List GenRule) → length (names rules) ≡ length rules
length-names [] = refl
length-names (x ∷ rules) = ap suc (length-names rules)

Distinct-concat :
    (xs : List Text) (n : Text) → Distinct xs → contains xs n ≡ false → Distinct (xs ++ n ∷ [])
unfolding contains
Distinct-concat [] n d h = (refl, tt)
Distinct-concat (x ∷ xs) n d h = (
  contains-append xs (n ∷ []) x ∙ ground (arith, d.0, eq_iff x n, eq_iff n x),
  Distinct-concat xs n d.1 (ground arith),
)

-- The index holds the place of each name, no name stands twice, and each has its provider.
record Tracks (rel : Text) (s : ProvidedRules) : Type 0 where
  indexed : (n : Text) → lookup (new_label [] rel n) s.indexes ≡ place n (names s.rules)
  distinct : Distinct (names s.rules)
  known : (n : Text) → contains (names s.rules) n ≡ true → is_some (lookup n s.providers) ≡ true

same_label : (rel n m : Text) → (new_label [] rel n == new_label [] rel m) ≡ (n == m)
same_label rel n m = ground (
  arith,
  eq_iff (new_label [] rel n) (new_label [] rel m),
  eq_iff n m,
  λ (e : n ≡ m). ap (new_label [] rel) e,
  λ (e : new_label [] rel n ≡ new_label [] rel m). ap (λ l. l.name) e,
)

put_rule-Tracks :
    (rel : Text) (p : RuleProvider) (r : GenRule) (s : ProvidedRules)
    → Tracks rel s
    → Tracks rel (put_rule rel p r s)
unfolding put_rule contains
put_rule-Tracks rel p r s t = elim (Option-cases (lookup (new_label [] rel r.name) s.indexes)) [
  | inl fresh ↦
      let absent : place r.name (names s.rules) ≡ none = sym (t.indexed r.name) ∙ fresh in
      let lacks : contains (names s.rules) r.name ≡ false =
        contains-place r.name (names s.rules) ∙ ap is_some absent in
      let grown = map-append (λ (x : GenRule). x.name) s.rules (r ∷ []) in
      rw (fresh, put_rule)
        (record {
          indexed = λ n. rw grown (
              lookup-insert (new_label [] rel r.name) (new_label [] rel n) (length s.rules)
                s.indexes
              ∙ ground (
                arith,
                same_label rel r.name n,
                t.indexed n,
                place-append r.name n (names s.rules) absent,
                length-names s.rules,
              ));
          distinct = rw grown (Distinct-concat (names s.rules) r.name t.distinct lacks);
          known = λ n h. ground (
            arith,
            t.known n,
            h,
            ap (λ l. contains l n) grown,
            contains-append (names s.rules) (r.name ∷ []) n,
            lookup-insert r.name n p s.providers,
            eq_iff r.name n,
            eq_iff n r.name,
          );
        })
  | inr (i, old) ↦
      let same = names-set_at r s.rules i (sym (t.indexed r.name) ∙ old) in
      rw (old, put_rule)
        (record {
          indexed = λ n. t.indexed n ∙ ap (place n) (sym same);
          distinct = subst Distinct (sym same) t.distinct;
          known = λ n h. t.known n (ap (λ l. contains l n) (sym same) ∙ h);
        })
]

provide_rules-Tracks :
    (rel : Text) (should_resolve : Bool) (providers : List RuleProvider) (s : ProvidedRules)
    → Tracks rel s
    → Tracks rel (provide_rules rel should_resolve s providers)
unfolding provide_rules
provide_rules-Tracks rel should_resolve [] s t = t
provide_rules-Tracks rel should_resolve (p ∷ providers) s t = elim (Option-cases (p.rule s.rules)) [
  | inl nil ↦ rw (nil, provide_rules) (provide_rules-Tracks rel should_resolve providers s t)
  | inr (r, made) ↦
      rw (made, provide_rules)
        (provide_rules-Tracks rel should_resolve providers _
          (put_rule-Tracks rel p (attach should_resolve p r) s t))
]

provide_all_total :
    (rel : Text) (providers : Dict Text RuleProvider) (rules : List GenRule) (resolver : Resolver)
    → ((n : Text) → contains (names rules) n ≡ true → is_some (lookup n providers) ≡ true)
    → (resolver' : Resolver) × (provide_all rel providers resolver rules ≡ some resolver')
unfolding provide_all
provide_all_total rel providers [] resolver h = (resolver, refl)
provide_all_total rel providers (r ∷ rules) resolver h =
    elim (Option-cases (lookup r.name providers)) [
      | inl absent ↦ absurd (unfold contains in ground (arith, absent, h r.name, eq_refl r.name))
      | inr (p, present) ↦
          rw (present, provide_all)
            (provide_all_total rel providers rules _
              (λ n m. unfold contains in h n (ground (arith, m))))
    ]

-- The rules of a package are generated without a panic, and no two of them have the same name; the
-- place of a name among them is the one that is recorded for its label.
pub get_provided_rules_lem :
    (rel : Text) (known : Dict Text RuleProvider) (resolver : Resolver)
    (providers : List RuleProvider) (should_resolve : Bool) (n : Text)
    → (s : ProvidedRules) × (resolver' : Resolver) × (get_provided_rules rel known resolver
          providers should_resolve
        ≡ some (s, resolver'))
      × Distinct (names s.rules)
      × (lookup (new_label [] rel n) s.indexes ≡ place n (names s.rules))
unfolding get_provided_rules
get_provided_rules_lem rel known resolver providers should_resolve n =
    let start : ProvidedRules = record { rules = []; indexes = []; providers = known } in
    let t = provide_rules-Tracks rel should_resolve providers start (record {
      indexed = λ n. unfold lookup place in refl;
      distinct = tt;
      known = λ n h. absurd (unfold contains in ground (arith, h));
    }) in
    let s = provide_rules rel should_resolve start providers in
    let (resolver', all) = provide_all_total rel s.providers s.rules resolver t.known in
    elim (Bool-cases should_resolve) [
      | inl on ↦ (s, resolver', ground (arith, on, all), t.distinct, t.indexed n)
      | inr off ↦ (s, resolver, ground (arith, off), t.distinct, t.indexed n)
    ]
