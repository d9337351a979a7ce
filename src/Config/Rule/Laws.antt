-- ===== src/Config/Rule/Laws.antt =====
-- The rule configuration keeps its name and proper maps; a clone copies all but the attached
-- implementation, which package generation attaches anew.
use rules_proto.Base.{Text, Bool, true, false, List, [], ◌∷◌, ◌≡◌, refl, Distinct, text_eq}
use rules_proto.Base.{arith, none, inl, inr, Option-cases}
use rules_proto.Base.Dict.{Dict, keys, lookup, insert, copy_into, copy_into-nil, or_zero}
use rules_proto.Base.Dict.{Distinct-keys-insert, Distinct-keys-erase}
use rules_proto.Base.Dict.{Entries, Entries-insert, Entries-erase, Entries-lookup}
use rules_proto.External.{External}
use rules_proto.Go.Strings.{fields}
use rules_proto.Intent.{parse_intent}
use rules_proto.Config.Rule.{
  Config, LanguageRuleConfig, new, clone, parse_directive, copy_attrs, want_or_delete, set_attr,
  attr_directive,
}

abbrev Proper : Text → Dict Text Bool → Type 0
Proper k m = Distinct (keys m)

-- No map holds a key twice, those of the attributes included.
pub record IsValid (c : LanguageRuleConfig) : Type 0 where
  pub deps : Distinct (keys c.deps)
  pub attrs : Distinct (keys c.attrs)
  pub vals : Entries Proper c.attrs
  pub options : Distinct (keys c.options)
  pub visibility : Distinct (keys c.visibility)

pub new-IsValid : (config : Config) (name : Text) → IsValid (new config name)
unfolding new keys
new-IsValid config name = record { deps = tt; attrs = tt; vals = tt; options = tt; visibility = tt }

pub name-new : (config : Config) (name : Text) → (new config name).name ≡ name
unfolding new
name-new config name = refl

copy_attrs-eq :
    (into attrs : Dict Text (Dict Text Bool))
    → Entries Proper attrs
    → copy_attrs into attrs ≡ copy_into into attrs
unfolding copy_attrs copy_into
copy_attrs-eq into [] h = refl
copy_attrs-eq into ((name, vals) ∷ attrs) h =
    rw (copy_into-nil vals h.0) (copy_attrs-eq (insert name vals into) attrs h.1)

-- Every field but `impl` is copied.
pub clone-eq : (c : LanguageRuleConfig) → IsValid c → clone c ≡ record c { impl = none }
unfolding clone
clone-eq c v = rw (
  copy_attrs-eq [] c.attrs v.vals,
  copy_into-nil c.attrs v.attrs,
  copy_into-nil c.deps v.deps,
  copy_into-nil c.options v.options,
  copy_into-nil c.visibility v.visibility,
)

want_or_delete-Distinct :
    (want : Bool) (value : Text) (m : Dict Text Bool)
    → Distinct (keys m)
    → Distinct (keys (want_or_delete want value m))
unfolding want_or_delete
want_or_delete-Distinct true value m h = Distinct-keys-insert value true m h
want_or_delete-Distinct false value m h = Distinct-keys-erase value m h

or_zero-Distinct :
    (attrs : Dict Text (Dict Text Bool)) (key : Text)
    → Entries Proper attrs
    → Distinct (keys (or_zero [] (lookup key attrs)))
or_zero-Distinct attrs key h = elim (Option-cases (lookup key attrs)) [
  | inl absent ↦ rw absent (unfold keys in tt)
  | inr (vals, present) ↦ rw present (Entries-lookup Proper key vals attrs h present)
]

set_attr-Entries :
    (key val : Text) (want : Bool) (attrs : Dict Text (Dict Text Bool))
    → Entries Proper attrs
    → Entries Proper (set_attr key val want attrs)
unfolding set_attr
set_attr-Entries key val want attrs h =
    Entries-insert Proper key _ attrs
      (Distinct-keys-insert val want _ (or_zero-Distinct attrs key h)) h

attr_directive-IsValid :
    (c : LanguageRuleConfig) (want : Bool) (value : Text) (kv : List Text)
    → IsValid c
    → IsValid (attr_directive c want value kv).0
unfolding attr_directive
attr_directive-IsValid c want value [] v = v
attr_directive-IsValid c true value (k ∷ []) v = v
attr_directive-IsValid c false value (k ∷ []) v = record {
  deps = v.deps;
  attrs = Distinct-keys-erase (parse_intent k).value c.attrs v.attrs;
  vals = Entries-erase Proper (parse_intent k).value c.attrs v.vals;
  options = v.options;
  visibility = v.visibility;
}
attr_directive-IsValid c true value (k ∷ w ∷ ws) v = record {
  deps = v.deps;
  attrs = unfold set_attr in Distinct-keys-insert (parse_intent k).value _ c.attrs v.attrs;
  vals = set_attr-Entries (parse_intent k).value _ (parse_intent k).want c.attrs v.vals;
  options = v.options;
  visibility = v.visibility;
}
attr_directive-IsValid c false value (k ∷ w ∷ ws) v = record {
  deps = v.deps;
  attrs = Distinct-keys-erase (parse_intent k).value c.attrs v.attrs;
  vals = Entries-erase Proper (parse_intent k).value c.attrs v.vals;
  options = v.options;
  visibility = v.visibility;
}

name-attr_directive :
    (c : LanguageRuleConfig) (want : Bool) (value : Text) (kv : List Text)
    → (attr_directive c want value kv).0.name ≡ c.name
unfolding attr_directive
name-attr_directive c want value [] = refl
name-attr_directive c true value (k ∷ []) = refl
name-attr_directive c false value (k ∷ []) = refl
name-attr_directive c true value (k ∷ w ∷ ws) = refl
name-attr_directive c false value (k ∷ w ∷ ws) = refl

module _ (ext : External) where
  pub name-parse_directive :
      (c : LanguageRuleConfig) (param value : Text)
      → (parse_directive ext c param value).0.name ≡ c.name
  unfolding parse_directive
  name-parse_directive c param value =
      ground (arith, name-attr_directive c (parse_intent param).want value (fields value))

  pub parse_directive-IsValid :
      (c : LanguageRuleConfig) (param value : Text)
      → IsValid c
      → IsValid (parse_directive ext c param value).0
  unfolding parse_directive
  parse_directive-IsValid c param value v =
      let want = (parse_intent param).want in
      ground (
        arith,
        attr_directive-IsValid c want value (fields value) v,
        want_or_delete-Distinct want value c.deps v.deps,
        want_or_delete-Distinct want value c.options v.options,
        Distinct-keys-insert value want c.visibility v.visibility,
      )
