-- ===== src/Deps/Attr.antt =====
-- What the attribute of a rule holds after its imports are resolved.
use rules_proto.Base.{Text, List, [], ◌∷◌, ◌++◌, ◌≡◌, ◌≢◌, refl, ◌∙◌, sym, ap, arith, Bool, true}
use rules_proto.Base.{bytes, ◌&&◌, not}
use rules_proto.Base.{
  Option, none, some, inl, inr, Bool-cases, text_eq, ◌||◌, ◌==◌, eq_iff, eq_refl,
}
use rules_proto.Base.{contains, contains-append, subst, Distinct, if◌then◌else◌}
use rules_proto.Base.Dict.{Dict, keys, lookup, insert, or_zero, contains-keys-insert, lookup-insert}
use rules_proto.Base.Dict.{Distinct-keys-insert}
use rules_proto.Base.Sort.{
  IsSorted, sort_strings, sort_strings-IsSorted, sort_strings-Distinct, contains-sort_strings,
}
use rules_proto.Go.Strings.{has_prefix}
use rules_proto.External.{External, Label, label_eq, no_label}
use rules_proto.Deps.{
  Index, DepsRule, ImportOutcome, skipped, unresolved, dependency, import_outcome, gather, set_of,
  finish, resolve_deps_attr, ResolveError, record_outcome, Gathered, Resolution, failed, resolved,
  skip_import, not_found, no_label_found, multiple_rules, outcome_of, resolve_any_kind,
}

abbrev or_else : {A : Type 0} → Option A → Option A → Option A
or_else none b = b
or_else (some a) b = some a

-- The dependency, or the error of an import, that an outcome gives.
abbrev deps_of : ImportOutcome → List Text
deps_of (dependency d) = d ∷ []
deps_of _ = []

abbrev pub error_of : ImportOutcome → Option ResolveError
error_of (unresolved e) = some e
error_of _ = none

or_else-none : (o : Option ResolveError) → or_else o none ≡ o
or_else-none none = refl
or_else-none (some e) = refl

contains-record_outcome :
    (imp : Text) (o : ImportOutcome) (g : Gathered) (d : Text)
    → contains (keys (record_outcome imp o g).0) d
      ≡ (contains (keys g.0) d || contains (deps_of o) d)
unfolding record_outcome contains
contains-record_outcome imp skipped g d = ground arith
contains-record_outcome imp (unresolved e) g d = ground arith
contains-record_outcome imp (dependency x) g d = ground (arith, contains-keys-insert x d true g.0)

Distinct-record_outcome :
    (imp : Text) (o : ImportOutcome) (g : Gathered)
    → Distinct (keys g.0)
    → Distinct (keys (record_outcome imp o g).0)
unfolding record_outcome
Distinct-record_outcome imp skipped g h = h
Distinct-record_outcome imp (unresolved e) g h = h
Distinct-record_outcome imp (dependency x) g h = Distinct-keys-insert x true g.0 h

lookup-record_outcome :
    (imp : Text) (o : ImportOutcome) (g : Gathered) (i : Text)
    → lookup i (record_outcome imp o g).1
      ≡ (if imp == i then or_else (error_of o) (lookup i g.1) else lookup i g.1)
unfolding record_outcome
lookup-record_outcome imp skipped g i = ground arith
lookup-record_outcome imp (unresolved e) g i = lookup-insert imp i e g.1
lookup-record_outcome imp (dependency x) g i = ground arith

contains-set_of :
    (existing : List Text) (s : Dict Text Bool) (d : Text)
    → contains (keys (set_of s existing)) d ≡ (contains (keys s) d || contains existing d)
unfolding set_of contains
contains-set_of [] s d = ground arith
contains-set_of (x ∷ existing) s d =
    ground (arith, contains-set_of existing (insert x true s) d, contains-keys-insert x d true s)

Distinct-set_of :
    (existing : List Text) (s : Dict Text Bool)
    → Distinct (keys s)
    → Distinct (keys (set_of s existing))
unfolding set_of
Distinct-set_of [] s h = h
Distinct-set_of (x ∷ existing) s h =
    Distinct-set_of existing (insert x true s) (Distinct-keys-insert x true s h)

module _ (ext : External) (ix : Index) (exclude_wkt : Bool) (r : DepsRule) (from : Label) where
  -- The labels of the imports that are resolved.
  abbrev pub resolved_deps : List Text → List Text
  resolved_deps [] = []
  resolved_deps (imp ∷ imports) =
      deps_of (import_outcome ext ix exclude_wkt r from imp) ++ resolved_deps imports

  contains-gather :
      (imports : List Text) (g : Gathered) (d : Text)
      → contains (keys (gather ext ix exclude_wkt r from g imports).0) d
        ≡ (contains (keys g.0) d || contains (resolved_deps imports) d)
  unfolding gather contains
  contains-gather [] g d = ground arith
  contains-gather (imp ∷ imports) g d =
      let o = import_outcome ext ix exclude_wkt r from imp in
      ground (
        arith,
        contains-gather imports (record_outcome imp o g) d,
        contains-record_outcome imp o g d,
        contains-append (deps_of o) (resolved_deps imports) d,
      )

  Distinct-gather :
      (imports : List Text) (g : Gathered)
      → Distinct (keys g.0)
      → Distinct (keys (gather ext ix exclude_wkt r from g imports).0)
  unfolding gather
  Distinct-gather [] g h = h
  Distinct-gather (imp ∷ imports) g h =
      Distinct-gather imports _ (Distinct-record_outcome imp _ g h)

  -- An import is recorded with the error of its resolution, which is the same at each occurrence.
  lookup-gather :
      (imports : List Text) (g : Gathered) (i : Text)
      → lookup i (gather ext ix exclude_wkt r from g imports).1 ≡ (
          if contains imports i
          then or_else (error_of (import_outcome ext ix exclude_wkt r from i)) (lookup i g.1)
          else lookup i g.1)
  unfolding gather contains
  lookup-gather [] g i = refl
  lookup-gather (imp ∷ imports) g i =
      let o = import_outcome ext ix exclude_wkt r from imp in
      elim (Bool-cases (i == imp)) [
        | inl e ↦
            let same = (eq_iff i imp).0 e in
            ground (
              arith,
              lookup-gather imports (record_outcome imp o g) i,
              lookup-record_outcome imp o g i,
              eq_iff imp i,
              same,
              ap (λ j. error_of (import_outcome ext ix exclude_wkt r from j)) same,
            )
        | inr e ↦ ground (
          arith,
          lookup-gather imports (record_outcome imp o g) i,
          lookup-record_outcome imp o g i,
          eq_iff imp i,
          eq_iff i imp,
        )
      ]

attr-finish : (r : DepsRule) (g : Gathered) → or_zero [] (finish r g).attr ≡ sort_strings (keys g.0)
unfolding finish keys sort_strings
attr-finish r ([], errors) = refl
attr-finish r (x ∷ s, errors) = refl

attr-finish-ne : (r : DepsRule) (g : Gathered) → (finish r g).attr ≢ some []
unfolding finish
attr-finish-ne r ([], errors) h = absurd (ground arith)
attr-finish-ne r ((k, v) ∷ s, errors) h =
    unfold keys contains in ground (arith, contains-sort_strings (keys ((k, v) ∷ s)) k, eq_refl k)

unresolved-finish :
    (r : DepsRule) (g : Gathered) (i : Text)
    → r.unresolved ≡ none
    → lookup i (or_zero [] (finish r g).unresolved) ≡ lookup i g.1
unfolding finish lookup
unresolved-finish r (s, []) i h = ground (arith, h)
unresolved-finish r (s, x ∷ errors) i h = refl

-- The attribute becomes the ordered list, without repetition, of the dependencies it held and of
-- those the imports resolve to; no empty list is written.
pub attr-resolve_deps_attr :
    (ext : External) (ix : Index) (exclude_wkt : Bool) (r : DepsRule) (imports : List Text)
    (from : Label)
    → let r' = resolve_deps_attr ext ix exclude_wkt r imports from in
      ((d : Text)
        → contains (or_zero [] r'.attr) d ≡ (
            contains (or_zero [] r.attr) d
            || contains (resolved_deps ext ix exclude_wkt r from imports) d))
      × IsSorted (or_zero [] r'.attr)
      × Distinct (or_zero [] r'.attr)
      × (r'.attr ≢ some [])
unfolding resolve_deps_attr keys contains
attr-resolve_deps_attr ext ix exclude_wkt r imports from =
    let start = set_of [] (or_zero [] r.attr) in
    let g = gather ext ix exclude_wkt r from (start, []) imports in
    let e = attr-finish r g in
    (
      λ d.
          ap (λ l. contains l d) e
          ∙ contains-sort_strings (keys g.0) d
          ∙ contains-gather ext ix exclude_wkt r from imports (start, []) d
          ∙ ap (λ b. b || contains (resolved_deps ext ix exclude_wkt r from imports) d)
              (contains-set_of (or_zero [] r.attr) [] d),
      subst IsSorted (sym e) (sort_strings-IsSorted (keys g.0)),
      subst Distinct (sym e) (
          sort_strings-Distinct (keys g.0) (
            Distinct-gather ext ix exclude_wkt r from imports (start, [])
              (Distinct-set_of (or_zero [] r.attr) [] tt))),
      attr-finish-ne r g,
    )

-- The error of a resolution that is to be recorded: not that of an import of the rule itself, and
-- also that a resolution succeeds without a label.
abbrev pub recorded_error : Resolution → Option ResolveError
recorded_error (failed skip_import) = none
recorded_error (failed not_found) = some not_found
recorded_error (failed no_label_found) = some no_label_found
recorded_error (failed (multiple_rules l m imp at)) = some (multiple_rules l m imp at)
recorded_error (resolved l) = if l == no_label then some no_label_found else none

error_of-outcome_of :
    (ext : External) (ix : Index) (exclude_wkt : Bool) (r : DepsRule) (from : Label)
    (o : Resolution)
    → error_of (outcome_of ext ix exclude_wkt r from o) ≡ recorded_error o
unfolding outcome_of
error_of-outcome_of ext ix exclude_wkt r from (failed skip_import) = refl
error_of-outcome_of ext ix exclude_wkt r from (failed not_found) = refl
error_of-outcome_of ext ix exclude_wkt r from (failed no_label_found) = refl
error_of-outcome_of ext ix exclude_wkt r from (failed (multiple_rules l m imp at)) = refl
error_of-outcome_of ext ix exclude_wkt r from (resolved l) = elim (Bool-cases (l == no_label)) [
  | inl e ↦ rw (e, outcome_of) refl
  | inr e ↦ rw (e, outcome_of) refl
]

error_of-import_outcome :
    (ext : External) (ix : Index) (exclude_wkt : Bool) (r : DepsRule) (from : Label) (imp : Text)
    → error_of (import_outcome ext ix exclude_wkt r from imp) ≡ (
        if exclude_wkt && has_prefix imp (bytes "google/protobuf/")
        then none
        else recorded_error
            (resolve_any_kind ix (bytes "protobuf") (or_zero r.kind r.imp_lang) imp from))
unfolding import_outcome
error_of-import_outcome ext ix exclude_wkt r from imp = ground (
  arith,
  error_of-outcome_of ext ix exclude_wkt r from
      (resolve_any_kind ix (bytes "protobuf") (or_zero r.kind r.imp_lang) imp from),
)

-- Of a rule without unresolved imports, the imports that are recorded as unresolved are those whose
-- resolution fails, each with its error, and those that resolve to no label. An import of the rule
-- itself is not recorded, and one of the well-known types is not if these are excluded.
pub unresolved-resolve_deps_attr :
    (ext : External) (ix : Index) (exclude_wkt : Bool) (r : DepsRule) (imports : List Text)
    (from : Label) (i : Text)
    → r.unresolved ≡ none
    → lookup i (or_zero [] (resolve_deps_attr ext ix exclude_wkt r imports from).unresolved) ≡ (
        if contains imports i && not (exclude_wkt && has_prefix i (bytes "google/protobuf/"))
        then recorded_error
            (resolve_any_kind ix (bytes "protobuf") (or_zero r.kind r.imp_lang) i from)
        else none)
unfolding resolve_deps_attr lookup
unresolved-resolve_deps_attr ext ix exclude_wkt r imports from i h =
    let g0 : Gathered = (set_of [] (or_zero [] r.attr), []) in
    unresolved-finish r (gather ext ix exclude_wkt r from g0 imports) i h
    ∙ lookup-gather ext ix exclude_wkt r from imports g0 i
    ∙ rw or_else-none (ground (arith, error_of-import_outcome ext ix exclude_wkt r from i))
