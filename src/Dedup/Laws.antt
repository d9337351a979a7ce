-- ===== src/Dedup/Laws.antt =====
-- The contract of `DeduplicateAndSort`.
use rules_proto.Base.{
  Text, List, [], ◌∷◌, ◌≡◌, refl, ◌∙◌, text_eq, arith, Bool, true, false, sym, subst, ◌↔◌,
}
use rules_proto.Base.{contains, ◌&&◌, not, eq_iff, inl, inr, Bool-cases, Distinct}
use rules_proto.Base.Dict.{Dict, lookup, insert, or_zero, lookup-insert, lookup-insert_self}
use rules_proto.Base.Sort.{contains-sort_strings, sort_strings-IsSorted, sort_strings-Distinct}
use rules_proto.Base.Sort.{IsSorted, sorted_ext}
use rules_proto.Dedup.{dedup, deduplicate_and_sort}

contains-dedup :
    (seen : Dict Text Bool) (xs : List Text) (a : Text)
    → contains (dedup seen xs) a ≡ (contains xs a && not (or_zero false (lookup a seen)))
unfolding dedup contains
contains-dedup seen [] a = refl
contains-dedup seen (x ∷ xs) a = elim (Bool-cases (or_zero false (lookup x seen))) [
  | inl e ↦ rw (e, dedup, contains) (ground (arith, contains-dedup seen xs a, eq_iff a x))
  | inr e ↦
      rw (e, dedup, contains)
        (ground (
          arith,
          contains-dedup (insert x true seen) xs a,
          eq_iff a x,
          eq_iff x a,
          lookup-insert x a true seen,
        ))
]

dedup-Distinct : (seen : Dict Text Bool) (xs : List Text) → Distinct (dedup seen xs)
unfolding dedup
dedup-Distinct seen [] = tt
dedup-Distinct seen (x ∷ xs) = elim (Bool-cases (or_zero false (lookup x seen))) [
  | inl e ↦ rw (e, dedup) (dedup-Distinct seen xs)
  | inr e ↦
      rw (e, dedup)
        (
          contains-dedup (insert x true seen) xs x ∙ ground (arith, lookup-insert_self x true seen),
          dedup-Distinct (insert x true seen) xs,
        )
]

-- The result has exactly the members of the input.
pub contains-deduplicate_and_sort :
    (xs : List Text) (a : Text) → contains (deduplicate_and_sort xs) a ≡ contains xs a
unfolding deduplicate_and_sort
contains-deduplicate_and_sort [] a = refl
contains-deduplicate_and_sort (x ∷ xs) a =
    contains-sort_strings (dedup [] (x ∷ xs)) a
    ∙ contains-dedup [] (x ∷ xs) a
    ∙ unfold lookup in ground arith

pub deduplicate_and_sort-IsSorted : (xs : List Text) → IsSorted (deduplicate_and_sort xs)
unfolding deduplicate_and_sort
deduplicate_and_sort-IsSorted [] = tt
deduplicate_and_sort-IsSorted (x ∷ xs) = sort_strings-IsSorted (dedup [] (x ∷ xs))

pub deduplicate_and_sort-Distinct : (xs : List Text) → Distinct (deduplicate_and_sort xs)
unfolding deduplicate_and_sort
deduplicate_and_sort-Distinct [] = tt
deduplicate_and_sort-Distinct (x ∷ xs) =
    sort_strings-Distinct (dedup [] (x ∷ xs)) (dedup-Distinct [] (x ∷ xs))

-- A list is the result exactly when it is ordered, repeats nothing and has the members of the
-- input.
pub deduplicate_and_sort_lem :
    (xs ys : List Text)
    → (ys ≡ deduplicate_and_sort xs)
      ↔ (IsSorted ys × Distinct ys × ((a : Text) → contains ys a ≡ contains xs a))
deduplicate_and_sort_lem xs ys = (
  λ e.
      subst (λ zs. IsSorted zs × Distinct zs × ((a : Text) → contains zs a ≡ contains xs a)) (sym e)
        (
          deduplicate_and_sort-IsSorted xs,
          deduplicate_and_sort-Distinct xs,
          contains-deduplicate_and_sort xs,
        ),
  λ h.
      sorted_ext ys (deduplicate_and_sort xs) h.0 h.1 (deduplicate_and_sort-IsSorted xs)
        (deduplicate_and_sort-Distinct xs) (λ a. h.2 a ∙ sym (contains-deduplicate_and_sort xs a)),
)
