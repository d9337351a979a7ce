-- ===== src/Base/Sort/Unique.antt =====
-- A sorted list without repetitions is determined by its members.
use rules_proto.Base.Tests.{Bool-cases}
use rules_proto.Base.Equality.{Text, ◌==◌, text_eq, eq_iff, eq_refl}
use rules_proto.Base.Lists.{All, All-contains, contains, Distinct}
use rules_proto.Base.Order.{IsSorted, text_le, text_le_refl, text_le_antisymm}
use mathlib.Core.Path.{◌≡◌, refl, sym, subst, ap₂}
use mathlib.Core.Logic.{inl, inr}
use mathlib.Core.Bool.{true}
use mathlib.Core.List.{List, [], ◌∷◌}
use native.Mathlib.Omega.{arith}

head_le :
    (y a : Text) (ys : List Text)
    → All (λ z. text_le y z ≡ true) ys
    → contains (y ∷ ys) a ≡ true
    → text_le y a ≡ true
unfolding contains
head_le y a ys h m = elim (Bool-cases (a == y)) [
  | inl e ↦ subst (λ b. text_le y b ≡ true) (sym ((eq_iff a y).0 e)) (text_le_refl y)
  | inr e ↦ All-contains _ ys a h (ground arith)
]

heads :
    (x y : Text) (xs ys : List Text)
    → IsSorted (x ∷ xs)
    → IsSorted (y ∷ ys)
    → ((a : Text) → contains (x ∷ xs) a ≡ contains (y ∷ ys) a)
    → x ≡ y
heads x y xs ys hx hy same =
    text_le_antisymm x y (head_le x y xs hx.0 (rw (same y) (unfold contains in rw (eq_refl y))))
      (head_le y x ys hy.0 (rw (← same x) (unfold contains in rw (eq_refl x))))

tails :
    (x y : Text) (xs ys : List Text)
    → x ≡ y
    → Distinct (x ∷ xs)
    → Distinct (y ∷ ys)
    → ((a : Text) → contains (x ∷ xs) a ≡ contains (y ∷ ys) a)
    → (a : Text) → contains xs a ≡ contains ys a
unfolding contains
tails x y xs ys e dx dy same a = ground (arith, same a, eq_iff a x, eq_iff a y)

pub sorted_ext :
    (xs ys : List Text)
    → IsSorted xs
    → Distinct xs
    → IsSorted ys
    → Distinct ys
    → ((a : Text) → contains xs a ≡ contains ys a)
    → xs ≡ ys
sorted_ext [] [] sx dx sy dy same = refl
sorted_ext [] (y ∷ ys) sx dx sy dy same =
    absurd (unfold contains in ground (arith, same y, eq_refl y))
sorted_ext (x ∷ xs) [] sx dx sy dy same =
    absurd (unfold contains in ground (arith, same x, eq_refl x))
sorted_ext (x ∷ xs) (y ∷ ys) sx dx sy dy same =
    let e = heads x y xs ys sx sy same in
    ap₂ ◌∷◌ e (sorted_ext xs ys sx.1 dx.1 sy.1 dy.1 (tails x y xs ys e dx dy same))
