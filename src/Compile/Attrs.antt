-- ===== src/Compile/Attrs.antt =====
-- The attributes of compile rules.
use rules_proto.Base.{Text, bytes, Bool, true, false, List, [], ◌∷◌, Option, none, some, ◌≡◌, refl}
use rules_proto.Base.{◌==◌, text_eq, ◌||◌, contains, ◌∙◌, ap, sym, arith}
use rules_proto.Base.{eq_refl, if◌then◌else◌, Bool-cases, Option-cases, inl, inr, eq_iff}
use rules_proto.Base.Dict.{Dict, keys, lookup, or_zero, is_some, contains-keys}
use rules_proto.Base.Sort.{sort_strings, contains-sort_strings}
use rules_proto.Intent.{for_intent, vals_for_intent}
use rules_proto.External.{External}
use rules_proto.Gazelle.{
  BuildRule, set_attr, attr_strings, texts_value, attr_strings-set_attr, attr_strings-set_other,
}
use rules_proto.Config.Rule.{LanguageRuleConfig, get_attr, get_attr_names}
use rules_proto.Compile.{
  ProtoCompileRule, text_items, make_string_dict, set_verbose, set_one, set_attrs, base_rule, rule,
}

text_items-keys : (d : Dict Text Text) (ks : List Text) → keys (text_items d ks) ≡ ks
unfolding keys text_items
text_items-keys d [] = refl
text_items-keys d (k ∷ ks) = ap (λ l. k ∷ l) (text_items-keys d ks)

lookup-text_items :
    (d : Dict Text Text) (ks : List Text) (k : Text)
    → lookup k (text_items d ks) ≡ (if contains ks k then some (or_zero [] (lookup k d)) else none)
unfolding lookup text_items contains
lookup-text_items d [] k = refl
lookup-text_items d (j ∷ ks) k = elim (Bool-cases (j == k)) [
  | inl e ↦ rw e (
      ground (
        arith,
        e,
        eq_iff k j,
        eq_iff j k,
        λ (q : j ≡ k). ap (λ i. some (or_zero [] (lookup i d))) q,
      ))
  | inr e ↦ rw e (lookup-text_items d ks k ∙ ground (arith, e, eq_iff k j, eq_iff j k))
]

same_lookup :
    (found : Option Text) → (if is_some found then some (or_zero [] found) else none) ≡ found
same_lookup none = refl
same_lookup (some v) = refl

-- The dictionary that is written for a map has the keys in order, whatever the order of iteration,
-- and at each key the value of the map.
pub make_string_dict_lem :
    (d : Dict Text Text) (k : Text)
    → (keys (make_string_dict d) ≡ sort_strings (keys d))
      × (lookup k (make_string_dict d) ≡ lookup k d)
unfolding make_string_dict
make_string_dict_lem d k = (
  text_items-keys d (sort_strings (keys d)),
  lookup-text_items d (sort_strings (keys d)) k
      ∙ ap (λ b. if b then some (or_zero [] (lookup k d)) else none)
          (contains-sort_strings (keys d) k ∙ contains-keys d k)
      ∙ same_lookup (lookup k d),
)

set_verbose-other :
    (name val : Text) (r : BuildRule)
    → (bytes "verbose" == name) ≡ false
    → attr_strings name (set_verbose val r) ≡ attr_strings name r
unfolding set_verbose
set_verbose-other name val r h = elim (Bool-cases (val == bytes "True" || val == bytes "true")) [
  | inl e ↦ rw e (attr_strings-set_other name (bytes "verbose") _ r h)
  | inr e ↦ elim (Bool-cases (val == bytes "False" || val == bytes "false")) [
    | inl f ↦ rw (e, f) (attr_strings-set_other name (bytes "verbose") _ r h)
    | inr f ↦ rw (e, f) refl
  ]
]

ite_same {ℓ} : {A : Type ℓ} (b : Bool) (a : A) → (if b then a else a) ≡ a
ite_same true a = refl
ite_same false a = refl

abbrev pub or_values : List Text → List Text → List Text
or_values [] old = old
or_values (v ∷ vs) old = v ∷ vs

set_one-strings :
    (n name : Text) (vals : List Text) (r : BuildRule)
    → (bytes "verbose" == name) ≡ false
    → attr_strings name (set_one n vals r)
      ≡ (if n == name then or_values vals (attr_strings name r) else attr_strings name r)
unfolding set_one
set_one-strings n name [] r h = elim (Bool-cases (n == name)) [
  | inl e ↦ rw e refl
  | inr e ↦ rw e refl
]
set_one-strings n name (v ∷ vals) r h = elim (Bool-cases (n == bytes "verbose")) [
  | inl e ↦
      let other : (n == name) ≡ false =
        ap (λ m. m == name) ((eq_iff n (bytes "verbose")).0 e) ∙ h in
      rw (e, other) (set_verbose-other name v r h)
  | inr e ↦ elim (Bool-cases (n == name)) [
    | inl f ↦
        rw (e, f)
          (ap (λ k. attr_strings k (set_attr n (texts_value (v ∷ vals)) r))
              (sym ((eq_iff n name).0 f))
            ∙ attr_strings-set_attr n (v ∷ vals) r)
    | inr f ↦ rw (e, f) (attr_strings-set_other name n _ r f)
  ]
]

or_values_idem : (vals old : List Text) → or_values vals (or_values vals old) ≡ or_values vals old
or_values_idem [] old = refl
or_values_idem (v ∷ vals) old = refl

set_attrs-strings :
    (cfg : LanguageRuleConfig) (names : List Text) (name : Text) (r : BuildRule)
    → (bytes "verbose" == name) ≡ false
    → attr_strings name (set_attrs cfg names r) ≡ (
        if contains names name
        then or_values (get_attr cfg name) (attr_strings name r)
        else attr_strings name r)
unfolding set_attrs contains
set_attrs-strings cfg [] name r h = refl
set_attrs-strings cfg (n ∷ names) name r h =
    let rest = set_attrs-strings cfg names name (set_one n (get_attr cfg n) r) h in
    let one = set_one-strings n name (get_attr cfg n) r h in
    let old = attr_strings name r in
    elim (Bool-cases (n == name)) [
      | inl e ↦
          let q = (eq_iff n name).0 e in
          let set : attr_strings name (set_one n (get_attr cfg n) r)
              ≡ or_values (get_attr cfg name) old =
            one ∙ rw e (ap (λ m. or_values (get_attr cfg m) old) q) in
          rest
          ∙ rw set (
              rw (ap (λ m. m == n) (sym q) ∙ eq_refl n, or_values_idem)
                (ite_same (contains names name) _))
      | inr e ↦ rest ∙ rw (one, e) (ground (arith, e, eq_iff n name, eq_iff name n))
    ]

no_values :
    (cfg : LanguageRuleConfig) (name : Text) → lookup name cfg.attrs ≡ none → get_attr cfg name ≡ []
unfolding get_attr for_intent vals_for_intent sort_strings
no_values cfg name h = ap (λ o. for_intent (or_zero [] o) true) h

-- An attribute that the configuration of a rule names with values is written with these values,
-- whatever the rule held before; an attribute without values stays. The attribute `verbose`, which
-- holds a Boolean, is apart.
pub rule-attrs :
    (ext : External) (s : ProtoCompileRule) (name : Text)
    → (bytes "verbose" == name) ≡ false
    → attr_strings name (rule ext s)
      ≡ or_values (get_attr s.rule_config name) (attr_strings name (base_rule ext s))
unfolding rule get_attr_names
rule-attrs ext s name h =
    let cfg = s.rule_config in
    set_attrs-strings cfg (get_attr_names cfg) name (base_rule ext s) h
    ∙ rw (contains-sort_strings (keys cfg.attrs) name, contains-keys cfg.attrs name)
        (elim (Option-cases (lookup name cfg.attrs)) [
          | inl n ↦ rw (n, no_values cfg name n) refl
          | inr (vals, n) ↦ rw n refl
        ])
