-- ===== src/GoPlugin/Closure.antt =====
-- Which files the traversal of dependencies sees, and the mappings it makes.
use rules_proto.Base.{
  ℕ, suc, zero, ◌+◌, Text, bytes, Bool, true, false, List, [], ◌∷◌, ◌++◌, ◌≡◌, refl, arith,
}
use rules_proto.Base.{
  Option, none, some, ◌==◌, text_eq, if◌then◌else◌, length, contains-append, eq_iff, ◌||◌, ◌⊎◌,
}
use rules_proto.Base.{inl, inr, Bool-cases, map, Option-cases, eq_refl, contains, ◌∙◌, ap, subst}
use rules_proto.Base.Dict.{Dict, lookup, or_zero, lookup-insert}
use rules_proto.Go.Paths.{path_join}
use rules_proto.Resolver.{Resolver, ImportLabels, known_for}
use rules_proto.GoPlugin.{
  Visited, traverse, visit, depends_of, mapped, label_count, resolve_transitive_import_mappings,
}
use rules_proto.GoPlugin.Fuel.{traverse_total, pending_nil}

-- The files that sources depend on, in any number of steps.
pub data Reach (depends : ImportLabels) (files : List Text) : Text → Type 0 where
  start : {p : Text} → contains files p ≡ true → Reach depends files p
  step :
      {f p : Text}
      → Reach depends files f
      → contains (depends_of depends f) p ≡ true
      → Reach depends files p

abbrev is_seen : Visited → Text → Bool
is_seen s p = or_zero false (lookup p s.seen)

abbrev or_old : Option Text → Option Text → Option Text
or_old none v = v
or_old (some w) v = some w

or_old-none : (v : Option Text) → or_old v none ≡ v
or_old-none none = refl
or_old-none (some w) = refl

same_seen : (s : Visited) (p f : Text) → (p == f) ≡ true → is_seen s p ≡ is_seen s f
same_seen s p f e = ap (is_seen s) ((eq_iff p f).0 e)

module _ (depends m : ImportLabels) where
  -- What holds of the state and the list at each step holds at the end.
  traverse_ind {ℓ} :
      (P : Visited → List Text → Type ℓ)
      → ((s : Visited) (f : Text) (files : List Text)
          → is_seen s f ≡ true
          → P s (f ∷ files)
          → P s files)
      → ((s : Visited) (f : Text) (files : List Text)
          → is_seen s f ≡ false
          → P s (f ∷ files)
          → P (visit m f s) (files ++ depends_of depends f))
      → (fuel : ℕ) (s t : Visited) (files : List Text) → traverse depends m fuel s files ≡ some t
      → P s files
      → P t []
  unfolding traverse
  traverse_ind P skip next fuel s t [] h p = let e : s ≡ t = ground arith in subst (λ s. P s []) e p
  traverse_ind P skip next zero s t (f ∷ files) h p = absurd (ground arith)
  traverse_ind P skip next (suc fuel) s t (f ∷ files) h p =
      elim (Bool-cases (or_zero false (lookup f s.seen))) [
        | inl old ↦
            traverse_ind P skip next fuel s t files (ground (arith, old)) (skip s f files old p)
        | inr fresh ↦
            traverse_ind P skip next fuel (visit m f s) t (files ++ depends_of depends f)
              (ground (arith, fresh)) (next s f files fresh p)
      ]

  is_seen-visit :
      (f : Text) (s : Visited) (p : Text) → is_seen (visit m f s) p ≡ (f == p || is_seen s p)
  unfolding visit
  is_seen-visit f s p = ground (arith, lookup-insert f p true s.seen)

  mappings-visit :
      (f : Text) (s : Visited) (p : Text)
      → lookup p (visit m f s).mappings
        ≡ (if f == p then or_old (mapped m f) (lookup p s.mappings) else lookup p s.mappings)
  unfolding visit
  mappings-visit f s p = elim (Option-cases (mapped m f)) [
    | inl e ↦ ground (arith, e)
    | inr (v, e) ↦ ground (arith, e, lookup-insert f p v s.mappings)
  ]

  -- What holds between the files of the start and a state with the list of files to process.
  record Tracks (files0 : List Text) (s : Visited) (files : List Text) : Type 0 where
    made : (p : Text) → lookup p s.mappings ≡ (if is_seen s p then mapped m p else none)
    reached : (p : Text) → (is_seen s p || contains files p) ≡ true → Reach depends files0 p
    started : (p : Text) → contains files0 p ≡ true → (is_seen s p || contains files p) ≡ true
    closed :
        (p q : Text)
        → is_seen s p ≡ true
        → contains (depends_of depends p) q ≡ true
        → (is_seen s q || contains files q) ≡ true

  skip-Tracks :
      (files0 : List Text) (s : Visited) (f : Text) (files : List Text)
      → is_seen s f ≡ true
      → Tracks files0 s (f ∷ files)
      → Tracks files0 s files
  unfolding contains
  skip-Tracks files0 s f files old t = record {
    made = t.made;
    reached = λ p h. t.reached p (ground arith);
    started = λ p h. ground (arith, t.started p h, same_seen s p f);
    closed = λ p q h d. ground (arith, t.closed p q h d, same_seen s q f);
  }

  visit-Tracks :
      (files0 : List Text) (s : Visited) (f : Text) (files : List Text)
      → is_seen s f ≡ false
      → Tracks files0 s (f ∷ files)
      → Tracks files0 (visit m f s) (files ++ depends_of depends f)
  unfolding contains
  visit-Tracks files0 s f files fresh t = record {
    made = λ p. made_at p;
    reached = λ p h. elim (Bool-cases (contains (depends_of depends f) p)) [
      | inl e ↦ step (t.reached f (ground (arith, eq_refl f))) e
      | inr e ↦ t.reached p (
          ground (
            arith,
            is_seen-visit f s p,
            contains-append files (depends_of depends f) p,
            eq_iff f p,
            eq_iff p f,
          ))
    ];
    started = λ p h. ground (
      arith,
      t.started p h,
      is_seen-visit f s p,
      contains-append files (depends_of depends f) p,
      eq_iff f p,
      eq_iff p f,
    );
    closed = λ p q h d. elim (Bool-cases (f == p)) [
      | inl e ↦
          let own = ap (λ g. contains (depends_of depends g) q) ((eq_iff f p).0 e) ∙ d in
          ground (arith, own, contains-append files (depends_of depends f) q)
      | inr e ↦ ground (
        arith,
        t.closed p q (ground (arith, is_seen-visit f s p)) d,
        is_seen-visit f s q,
        contains-append files (depends_of depends f) q,
        eq_iff f q,
        eq_iff q f,
      )
    ];
  }
    where
      made_at :
          (p : Text)
          → lookup p (visit m f s).mappings ≡ (if is_seen (visit m f s) p then mapped m p else none)
      made_at p = elim (Bool-cases (f == p)) [
        | inl e ↦
            mappings-visit f s p
            ∙ ground (
              arith,
              e,
              t.made p,
              is_seen-visit f s p,
              same_seen s f p e,
              ap (mapped m) ((eq_iff f p).0 e),
              or_old-none (mapped m p),
            )
        | inr e ↦ ground (arith, mappings-visit f s p, t.made p, is_seen-visit f s p)
      ]

unseen : Visited
unseen = record { seen = []; mappings = [] }

traverse-Tracks :
    (depends m : ImportLabels) (files : List Text)
    → (t : Visited) × (traverse depends m (length files + label_count depends) unseen files
        ≡ some t)
      × Tracks depends m files t []
unfolding unseen lookup
traverse-Tracks depends m files =
    let (t, e) =
      traverse_total depends m (length files + label_count depends) unseen files
        (omega (arith, pending_nil depends)) in
    (
      t,
      e,
      traverse_ind depends m (Tracks depends m files) (skip-Tracks depends m files)
          (visit-Tracks depends m files) (length files + label_count depends) unseen t files e
          (record {
            made = λ p. refl;
            reached = λ p h. start h;
            started = λ p h. h;
            closed = λ p q h d. absurd (ground arith);
          }),
    )

Reach-seen :
    (depends m : ImportLabels) (files : List Text) (t : Visited)
    → Tracks depends m files t []
    → (p : Text) → Reach depends files p
    → is_seen t p ≡ true
unfolding contains
Reach-seen depends m files t k p (start h) = ground (arith, k.started p h)
Reach-seen depends m files t k p (step {f = f} r h) =
    ground (arith, k.closed f p (Reach-seen depends m files t k f r) h)

-- The traversal from the sources of a library returns; a file that is reached from the sources has
-- the mapping that is recorded for it, if any, and a file that is not reached has none.
pub resolve_transitive_import_mappings_lem :
    (r : Resolver) (pkg : Text) (srcs : List Text) (p : Text)
    → let depends = known_for r (bytes "proto") (bytes "depends") in
      let m = known_for r (bytes "proto") (bytes "M") in
      let files = map (λ src. path_join (pkg ∷ src ∷ [])) srcs in
      (mappings : Dict Text Text) × (resolve_transitive_import_mappings r pkg srcs ≡ some mappings)
      × ((Reach depends files p × (lookup p mappings ≡ mapped m p))
          ⊎ ((¬ Reach depends files p) × (lookup p mappings ≡ none)))
unfolding resolve_transitive_import_mappings
resolve_transitive_import_mappings_lem r pkg srcs p =
    let depends = known_for r (bytes "proto") (bytes "depends") in
    let m = known_for r (bytes "proto") (bytes "M") in
    let files = map (λ src. path_join (pkg ∷ src ∷ [])) srcs in
    let (t, e, k) = traverse-Tracks depends m files in
    (
      t.mappings,
      unfold unseen in ground (arith, e),
      elim (Bool-cases (is_seen t p)) [
        | inl seen ↦ inl (k.reached p (ground (arith, seen)), k.made p ∙ rw seen refl)
        | inr not_seen ↦ inr (
          λ h. absurd (ground (arith, not_seen, Reach-seen depends m files t k p h)),
          k.made p ∙ rw not_seen refl,
        )
      ],
    )
