-- ===== src/Base/Sort.antt =====
-- `sort.Strings`, as an insertion sort. A sorted permutation is unique, so any algorithm gives
-- this list; what the sort is used for is proved here.
use rules_proto.Base.Tests.{if◌then◌else◌, Bool-cases}
mod Unique
pub use Unique.*
pub use rules_proto.Base.Order.{IsSorted}
use rules_proto.Base.Equality.{Text, ◌==◌, text_eq, eq_iff}
use rules_proto.Base.Lists.{All, contains, Distinct}
use rules_proto.Base.Order.{text_le, text_le_total, text_le_trans}
use mathlib.Core.Path.{◌≡◌, refl, ap, ◌∙◌}
use mathlib.Core.Logic.{inl, inr}
use mathlib.Core.Bool.{true, false, ◌||◌}
use mathlib.Core.List.{List, [], ◌∷◌}
use native.Mathlib.Omega.{arith}

pub sort_insert : Text → List Text → List Text
sort_insert x [] = x ∷ []
sort_insert x (y ∷ ys) = if text_le x y then x ∷ y ∷ ys else y ∷ sort_insert x ys

unfoldable pub sort_strings : List Text → List Text
unfolding sort_insert
sort_strings [] = []
sort_strings (x ∷ xs) = sort_insert x (sort_strings xs)

All-sort_insert {ℓ} :
    (P : Text → Type ℓ) (x : Text) (ys : List Text) → P x → All P ys → All P (sort_insert x ys)
unfolding sort_insert
All-sort_insert P x [] hx h = (hx, tt)
All-sort_insert P x (y ∷ ys) hx h = elim (Bool-cases (text_le x y)) [
  | inl e ↦ rw e (hx, h)
  | inr e ↦ rw e (h.0, All-sort_insert P x ys hx h.1)
]

pub All-sort_strings {ℓ} : (P : Text → Type ℓ) (xs : List Text) → All P xs → All P (sort_strings xs)
unfolding sort_strings
All-sort_strings P [] h = tt
All-sort_strings P (x ∷ xs) h =
    All-sort_insert P x (sort_strings xs) h.0 (All-sort_strings P xs h.1)

All-le_trans :
    (x y : Text) (ys : List Text)
    → text_le x y ≡ true
    → All (λ z. text_le y z ≡ true) ys
    → All (λ z. text_le x z ≡ true) ys
All-le_trans x y [] h a = tt
All-le_trans x y (z ∷ ys) h a = (text_le_trans x y z h a.0, All-le_trans x y ys h a.1)

sort_insert-IsSorted : (x : Text) (ys : List Text) → IsSorted ys → IsSorted (sort_insert x ys)
unfolding sort_insert
sort_insert-IsSorted x [] h = (tt, tt)
sort_insert-IsSorted x (y ∷ ys) h = elim (Bool-cases (text_le x y)) [
  | inl e ↦ rw e ((e, All-le_trans x y ys e h.0), h)
  | inr e ↦ rw e (All-sort_insert _ x ys (text_le_total x y e) h.0, sort_insert-IsSorted x ys h.1)
]

pub sort_strings-IsSorted : (xs : List Text) → IsSorted (sort_strings xs)
unfolding sort_strings
sort_strings-IsSorted [] = tt
sort_strings-IsSorted (x ∷ xs) = sort_insert-IsSorted x _ (sort_strings-IsSorted xs)

contains-sort_insert :
    (x : Text) (ys : List Text) (a : Text)
    → contains (sort_insert x ys) a ≡ (a == x || contains ys a)
unfolding sort_insert contains
contains-sort_insert x [] a = refl
contains-sort_insert x (y ∷ ys) a = ground (arith, contains-sort_insert x ys a)

-- Sorting keeps the members.
pub contains-sort_strings :
    (xs : List Text) (a : Text) → contains (sort_strings xs) a ≡ contains xs a
unfolding sort_strings contains
contains-sort_strings [] a = refl
contains-sort_strings (x ∷ xs) a =
    contains-sort_insert x (sort_strings xs) a ∙ ap (λ b. a == x || b) (contains-sort_strings xs a)

sort_insert-Distinct :
    (x : Text) (ys : List Text) → contains ys x ≡ false → Distinct ys → Distinct (sort_insert x ys)
unfolding sort_insert contains
sort_insert-Distinct x [] h d = (refl, tt)
sort_insert-Distinct x (y ∷ ys) h d = elim (Bool-cases (text_le x y)) [
  | inl e ↦ rw e (h, d)
  | inr e ↦ rw e (
    contains-sort_insert x ys y ∙ ground (arith, eq_iff y x, eq_iff x y, d.0),
    sort_insert-Distinct x ys (ground arith) d.1,
  )
]

pub sort_strings-Distinct : (xs : List Text) → Distinct xs → Distinct (sort_strings xs)
unfolding sort_strings
sort_strings-Distinct [] d = tt
sort_strings-Distinct (x ∷ xs) d =
    sort_insert-Distinct x _ (contains-sort_strings xs x ∙ d.0) (sort_strings-Distinct xs d.1)
