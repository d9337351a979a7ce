-- ===== src/Base/Lists.antt =====
-- Lists measured by native numbers, Boolean membership, and predicates over all members.
use Prim.Native.Nat.{ℕ, suc, ◌+◌}
use mathlib.Core.Path.{◌≡◌, refl, sym, subst}
use mathlib.Core.Logic.{inl, inr}
use mathlib.Core.Bool.{Bool, true, false, ◌||◌}
use mathlib.Core.List.{List, [], ◌∷◌, ◌++◌}
use native.Mathlib.Omega.{arith}
use rules_proto.Base.Tests.{Bool-cases}
use rules_proto.Base.Equality.{Eq, ◌==◌, eq_iff}

module _ {ℓ} {A : Type ℓ} where
  abbrev pub length : List A → ℕ
  length [] = 0
  length (x ∷ xs) = suc (length xs)

  pub length-append : (xs ys : List A) → length (xs ++ ys) ≡ length xs + length ys
  length-append [] ys = omega arith
  length-append (x ∷ xs) ys = omega (arith, length-append xs ys)

  -- `len(xs) == 0`
  abbrev pub is_empty : List A → Bool
  is_empty [] = true
  is_empty (_ ∷ _) = false

-- A predicate of every member, as nested pairs.
abbrev pub All {κ ℓ} : {K : Type κ} (P : K → Type ℓ) → List K → Type ℓ
All P [] = Unit
All P (k ∷ ks) = P k × All P ks

-- The members of a concatenation are those of its parts.
pub All-append {κ ℓ} :
    {K : Type κ} (P : K → Type ℓ) (ks ls : List K) → All P ks → All P ls → All P (ks ++ ls)
All-append P [] ls first second = second
All-append P (k ∷ ks) ls (head, first) second = (head, All-append P ks ls first second)

module _ {ℓ} {A : Type ℓ} ⦃e : Eq A⦄ where
  -- Whether a list has a member.
  unfoldable pub contains : (members : List A) → A → Bool
  contains [] a = false
  contains (member ∷ members) a = a == member || contains members a

  pub contains-append :
      (xs ys : List A) (a : A) → contains (xs ++ ys) a ≡ (contains xs a || contains ys a)
  unfolding contains
  contains-append [] ys a = refl
  contains-append (x ∷ xs) ys a = ground (arith, contains-append xs ys a)

  -- No member stands twice.
  abbrev pub Distinct : List A → Type 0
  Distinct [] = Unit
  Distinct (x ∷ xs) = (contains xs x ≡ false) × Distinct xs

  -- A predicate of all members holds at each.
  pub All-contains {κ} :
      (P : A → Type κ) (xs : List A) (a : A) → All P xs → contains xs a ≡ true → P a
  unfolding contains
  All-contains P [] a h m = absurd (ground arith)
  All-contains P (x ∷ xs) a h m = elim (Bool-cases (a == x)) [
    | inl e ↦ subst P (sym ((eq_iff a x).0 e)) h.0
    | inr e ↦ All-contains P xs a h.1 (ground arith)
  ]
