-- ===== src/Base/Dict/Laws.antt =====
-- The laws of the operations on maps.
use rules_proto.Base.Tests.{if◌then◌else◌}
use rules_proto.Base.Equality.{Eq, ◌==◌, eq_iff, eq_refl}
use rules_proto.Base.Lists.{contains, contains-append, Distinct}
use rules_proto.Base.Dict.Defs.{Dict, keys, lookup, insert, erase, copy_into}
use mathlib.Core.Path.{◌≡◌, refl, ◌∙◌, sym, subst}
use mathlib.Core.Bool.{Bool, true, false, ◌||◌, not, ◌&&◌}
use mathlib.Core.Option.{Option, none, some}
use mathlib.Core.List.{List, [], ◌∷◌, ◌++◌, append_assoc, append-nil, map-append}
use native.Mathlib.Omega.{arith}

abbrev pub is_some {ℓ} : {V : Type ℓ} → Option V → Bool
is_some none = false
is_some (some _) = true

Distinct-middle {ℓ} :
    {K : Type ℓ} ⦃e : Eq K⦄ (xs : List K) (x : K) (ys : List K)
    → Distinct (xs ++ x ∷ ys)
    → contains xs x ≡ false
unfolding contains
Distinct-middle [] x ys h = refl
Distinct-middle (y ∷ xs) x ys h = ground (
  arith,
  eq_iff x y,
  eq_iff y x,
  eq_refl y,
  contains-append xs (x ∷ ys) y,
  Distinct-middle xs x ys h.1,
)

module _ {ℓ κ} {K : Type ℓ} ⦃e : Eq K⦄ {V : Type κ} where
  pub lookup-insert :
      (k j : K) (v : V) (d : Dict K V)
      → lookup j (insert k v d) ≡ (if k == j then some v else lookup j d)
  unfolding lookup insert
  lookup-insert k j v [] = refl
  lookup-insert k j v ((i, w) ∷ d) =
      ground (arith, eq_iff k j, eq_iff i k, eq_iff i j, lookup-insert k j v d)

  pub lookup-insert_self : (k : K) (v : V) (d : Dict K V) → lookup k (insert k v d) ≡ some v
  lookup-insert_self k v d = rw lookup-insert (rw (eq_refl k))

  pub lookup-erase :
      (k j : K) (d : Dict K V) → lookup j (erase k d) ≡ (if k == j then none else lookup j d)
  unfolding lookup erase
  lookup-erase k j [] = ground arith
  lookup-erase k j ((i, w) ∷ d) =
      ground (arith, eq_iff k j, eq_iff i k, eq_iff i j, lookup-erase k j d)

  -- The keys are those at which a lookup succeeds.
  pub contains-keys : (d : Dict K V) (k : K) → contains (keys d) k ≡ is_some (lookup k d)
  unfolding lookup keys contains
  contains-keys [] k = refl
  contains-keys ((j, v) ∷ d) k = ground (arith, eq_iff j k, eq_iff k j, contains-keys d k)

  pub contains-keys-insert :
      (k j : K) (v : V) (d : Dict K V)
      → contains (keys (insert k v d)) j ≡ (j == k || contains (keys d) j)
  contains-keys-insert k j v d =
      rw (contains-keys (insert k v d), contains-keys d, lookup-insert)
        (ground (arith, eq_iff j k, eq_iff k j))

  pub Distinct-keys-insert :
      (k : K) (v : V) (d : Dict K V) → Distinct (keys d) → Distinct (keys (insert k v d))
  unfolding insert keys contains
  Distinct-keys-insert k v [] h = (refl, tt)
  Distinct-keys-insert k v ((j, w) ∷ d) h =
      ground (arith, eq_iff j k, contains-keys-insert k j v d, Distinct-keys-insert k v d h.1)

  contains-keys-erase :
      (k j : K) (d : Dict K V)
      → contains (keys (erase k d)) j ≡ (not (j == k) && contains (keys d) j)
  contains-keys-erase k j d =
      rw (contains-keys (erase k d), contains-keys d, lookup-erase)
        (ground (arith, eq_iff j k, eq_iff k j))

  pub Distinct-keys-erase : (k : K) (d : Dict K V) → Distinct (keys d) → Distinct (keys (erase k d))
  unfolding erase keys
  Distinct-keys-erase k [] h = tt
  Distinct-keys-erase k ((j, w) ∷ d) h =
      ground (arith, contains-keys-erase k j d, Distinct-keys-erase k d h.1)

  insert-absent :
      (k : K) (v : V) (d : Dict K V) → contains (keys d) k ≡ false → insert k v d ≡ d ++ (k, v) ∷ []
  unfolding insert keys contains
  insert-absent k v [] h = refl
  insert-absent k v ((j, w) ∷ d) h = ground (arith, eq_iff k j, eq_iff j k, insert-absent k v d)

  keys-append : (a d : Dict K V) → keys (a ++ d) ≡ keys a ++ keys d
  unfolding keys
  keys-append a d = map-append _ a d

  -- Copying a map entry by entry behind other keys.
  copy_into-append : (a d : Dict K V) → Distinct (keys (a ++ d)) → copy_into a d ≡ a ++ d
  unfolding copy_into keys
  copy_into-append a [] h = rw append-nil
  copy_into-append a ((k, v) ∷ d) h =
      let fresh =
        Distinct-middle (keys a) k (keys d) (subst Distinct (keys-append a ((k, v) ∷ d)) h) in
      let joined = append_assoc a ((k, v) ∷ []) d in
      let distinct = subst (λ c. Distinct (keys c)) (sym joined) h in
      rw (insert-absent k v a fresh) (copy_into-append (a ++ (k, v) ∷ []) d distinct ∙ joined)

  -- A copy into an empty map is the map.
  pub copy_into-nil : (d : Dict K V) → Distinct (keys d) → copy_into [] d ≡ d
  copy_into-nil d h = copy_into-append [] d h
