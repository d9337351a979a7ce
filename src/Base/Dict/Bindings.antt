-- ===== src/Base/Dict/Bindings.antt =====
-- Predicates of all entries of a map.
use rules_proto.Base.Tests.{Bool-cases}
use rules_proto.Base.Equality.{Eq, ◌==◌, eq_iff}
use rules_proto.Base.Lists.{All}
use rules_proto.Base.Dict.Defs.{Dict, lookup, insert, erase}
use mathlib.Core.Path.{◌≡◌, sym, subst, subst₂}
use mathlib.Core.Logic.{inl, inr}
use mathlib.Core.Option.{some}
use mathlib.Core.List.{[], ◌∷◌}
use native.Mathlib.Omega.{arith}

module _ {ℓ κ μ} {K : Type ℓ} ⦃e : Eq K⦄ {V : Type κ} (P : K → V → Type μ) where
  abbrev pub Entries : Dict K V → Type μ
  Entries = All (λ (x : K × V). P x.0 x.1)

  pub Entries-insert : (k : K) (v : V) (d : Dict K V) → P k v → Entries d → Entries (insert k v d)
  unfolding insert
  Entries-insert k v [] p h = (p, tt)
  Entries-insert k v ((j, w) ∷ d) p h = elim (Bool-cases (j == k)) [
    | inl same ↦ rw same (subst (λ i. P i v) (sym ((eq_iff j k).0 same)) p, h.1)
    | inr other ↦ rw other (h.0, Entries-insert k v d p h.1)
  ]

  pub Entries-erase : (k : K) (d : Dict K V) → Entries d → Entries (erase k d)
  unfolding erase
  Entries-erase k [] h = tt
  Entries-erase k ((j, w) ∷ d) h = elim (Bool-cases (j == k)) [
    | inl same ↦ rw same (Entries-erase k d h.1)
    | inr other ↦ rw other (h.0, Entries-erase k d h.1)
  ]

  pub Entries-lookup : (k : K) (v : V) (d : Dict K V) → Entries d → lookup k d ≡ some v → P k v
  unfolding lookup
  Entries-lookup k v [] h l = cc
  Entries-lookup k v ((j, w) ∷ d) h l = elim (Bool-cases (j == k)) [
    | inl same ↦ let e : w ≡ v = ground arith in subst₂ P ((eq_iff j k).0 same) e h.0
    | inr other ↦ Entries-lookup k v d h.1 (rw other at l)
  ]
