-- ===== src/Intent/Selection.antt =====
-- What a selection by intent returns.
use rules_proto.Base.{
  Text, Bool, true, false, [], ◌∷◌, ◌≡◌, ◌∙◌, refl, ap, sym, some, arith, Distinct,
}
use rules_proto.Base.{contains, text_eq, eq_iff, if◌then◌else◌, Option, none}
use rules_proto.Base.Dict.{Dict, keys, lookup}
use rules_proto.Base.Sort.{IsSorted, sort_strings-IsSorted, sort_strings-Distinct}
use rules_proto.Base.Sort.{contains-sort_strings, sorted_ext}
use rules_proto.Intent.{differs, vals_for_intent, for_intent}

-- Whether a map's entry for a key has the wanted sign.
abbrev pub has_intent : Bool → Option Bool → Bool
has_intent want none = false
has_intent want (some b) = if differs b want then false else true

contains-vals_of_absent :
    (d : Dict Text Bool) (want : Bool) (k : Text)
    → contains (keys d) k ≡ false
    → contains (vals_for_intent d want) k ≡ false
unfolding vals_for_intent contains keys
contains-vals_of_absent [] want k h = refl
contains-vals_of_absent ((j, b) ∷ d) want k h = ground (arith, contains-vals_of_absent d want k)

contains-vals_for_intent :
    (d : Dict Text Bool) (want : Bool) (k : Text)
    → Distinct (keys d)
    → contains (vals_for_intent d want) k ≡ has_intent want (lookup k d)
unfolding vals_for_intent contains keys lookup
contains-vals_for_intent [] want k h = refl
contains-vals_for_intent ((j, b) ∷ d) want k h = ground (
  arith,
  eq_iff j k,
  eq_iff k j,
  contains-vals_for_intent d want k h.1,
  contains-vals_of_absent d want j h.0,
)

vals_for_intent-Distinct :
    (d : Dict Text Bool) (want : Bool) → Distinct (keys d) → Distinct (vals_for_intent d want)
unfolding vals_for_intent keys
vals_for_intent-Distinct [] want h = tt
vals_for_intent-Distinct ((j, b) ∷ d) want h =
    ground (arith, contains-vals_of_absent d want j h.0, vals_for_intent-Distinct d want h.1)

-- A selection holds a key exactly when the map binds the key to the wanted sign.
pub contains-for_intent :
    (d : Dict Text Bool) (want : Bool) (k : Text)
    → Distinct (keys d)
    → contains (for_intent d want) k ≡ has_intent want (lookup k d)
unfolding for_intent
contains-for_intent d want k h =
    contains-sort_strings (vals_for_intent d want) k ∙ contains-vals_for_intent d want k h

pub for_intent-IsSorted : (d : Dict Text Bool) (want : Bool) → IsSorted (for_intent d want)
unfolding for_intent
for_intent-IsSorted d want = sort_strings-IsSorted (vals_for_intent d want)

pub for_intent-Distinct :
    (d : Dict Text Bool) (want : Bool) → Distinct (keys d) → Distinct (for_intent d want)
unfolding for_intent
for_intent-Distinct d want h = sort_strings-Distinct _ (vals_for_intent-Distinct d want h)

-- The selection is sorted, has no repetitions, and does not depend on the order in which the map
-- is iterated: two maps with the same bindings have the same selection.
pub for_intent_canonical :
    (d d' : Dict Text Bool) (want : Bool)
    → Distinct (keys d)
    → Distinct (keys d')
    → ((k : Text) → lookup k d ≡ lookup k d')
    → IsSorted (for_intent d want)
      × Distinct (for_intent d want)
      × (for_intent d want ≡ for_intent d' want)
for_intent_canonical d d' want h h' same = (
  for_intent-IsSorted d want,
  for_intent-Distinct d want h,
  sorted_ext (for_intent d want) (for_intent d' want) (for_intent-IsSorted d want)
      (for_intent-Distinct d want h) (for_intent-IsSorted d' want) (for_intent-Distinct d' want h')
      λ k.
        contains-for_intent d want k h
        ∙ (ap (has_intent want) (same k) ∙ sym (contains-for_intent d' want k h')),
)
