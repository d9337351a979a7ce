-- ===== src/GoPlugin/Fuel.antt =====
-- How long the traversal of dependencies runs.
use rules_proto.Base.{
  ℕ, suc, zero, ◌+◌, ◌≤◌, Text, Bool, true, false, List, [], ◌∷◌, ◌++◌, ◌≡◌, refl, arith,
}
use rules_proto.Base.{some, ◌==◌, text_eq, if◌then◌else◌, length, length-append, eq_iff}
use rules_proto.Base.{ap, inl, inr, Bool-cases, map, eq_refl}
use rules_proto.Base.Dict.{Dict, lookup, insert, or_zero, lookup-insert}
use rules_proto.Resolver.{ImportLabels}
use rules_proto.GoPlugin.{Visited, traverse, visit, depends_of, label_count}

-- The labels of the files that are not yet seen.
pub pending : Dict Text Bool → ImportLabels → ℕ
pending seen [] = 0
pending seen ((f, labels) ∷ depends) =
    (if or_zero false (lookup f seen) then 0 else length labels) + pending seen depends

length-map {ℓ κ} :
    {A : Type ℓ} {B : Type κ} (f : A → B) (xs : List A) → length (map f xs) ≡ length xs
length-map f [] = refl
length-map f (x ∷ xs) = omega (arith, length-map f xs)

length-depends_of :
    (depends : ImportLabels) (f : Text)
    → length (depends_of depends f) ≡ length (or_zero [] (lookup f depends))
unfolding depends_of
length-depends_of depends f = length-map _ (or_zero [] (lookup f depends))

pending-insert_le :
    (f : Text) (seen : Dict Text Bool) (depends : ImportLabels)
    → pending (insert f true seen) depends ≤ pending seen depends
unfolding pending
pending-insert_le f seen [] = omega arith
pending-insert_le f seen ((g, labels) ∷ depends) =
    grind (arith, pending-insert_le f seen depends, lookup-insert f g true seen)

-- To see a file takes its labels from what is pending.
pending-insert :
    (f : Text) (seen : Dict Text Bool) (depends : ImportLabels)
    → or_zero false (lookup f seen) ≡ false
    → length (or_zero [] (lookup f depends)) + pending (insert f true seen) depends
      ≤ pending seen depends
unfolding pending lookup
pending-insert f seen [] h = omega arith
pending-insert f seen ((g, labels) ∷ depends) h = elim (Bool-cases (g == f)) [
  | inl same ↦
      let e = (eq_iff g f).0 same in
      ground (
        arith,
        same,
        lookup-insert f g true seen,
        eq_refl f,
        eq_iff f g,
        ap (λ i. lookup i seen) e,
        pending-insert_le f seen depends,
      )
  | inr other ↦
      ground (
        arith,
        lookup-insert f g true seen,
        eq_iff f g,
        eq_iff g f,
        pending-insert f seen depends h,
      )
]

pub pending_nil : (depends : ImportLabels) → pending [] depends ≡ label_count depends
unfolding pending label_count lookup
pending_nil [] = refl
pending_nil ((f, labels) ∷ depends) = omega (arith, pending_nil depends)

-- The traversal returns when the fuel covers the list and what is pending.
pub traverse_total :
    (depends m : ImportLabels) (fuel : ℕ) (s : Visited) (files : List Text)
    → length files + pending s.seen depends ≤ fuel
    → (t : Visited) × (traverse depends m fuel s files ≡ some t)
unfolding traverse visit
traverse_total depends m fuel s [] h = (s, refl)
traverse_total depends m zero s (f ∷ files) h = absurd (omega arith)
traverse_total depends m (suc fuel) s (f ∷ files) h =
    elim (Bool-cases (or_zero false (lookup f s.seen))) [
      | inl old ↦ rw (old, traverse) (traverse_total depends m fuel s files (omega arith))
      | inr fresh ↦
          rw (fresh, traverse)
            (traverse_total depends m fuel (visit m f s) (files ++ depends_of depends f) (
              omega (
                arith,
                length-append files (depends_of depends f),
                length-depends_of depends f,
                pending-insert f s.seen depends fresh,
              )))
    ]
