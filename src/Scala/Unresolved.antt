-- ===== src/Scala/Unresolved.antt =====
-- pkg/rule/rules_scala/scala_library.go: the methods `Imports` and `Resolve`, and
-- `resolveScalaDeps`, the second attempt at the imports that did not resolve. A map from imports to
-- errors holds nil, here `none`, for an import that this attempt resolved.
use rules_proto.Base.{
  Text, bytes, Bool, true, false, List, [], ◌∷◌, ◌++◌, Option, none, some, ◌≡◌, refl,
}
use rules_proto.Base.{text_eq, ◌||◌, contains, contains-append, ◌∙◌, ap, arith}
use rules_proto.Base.{if◌then◌else◌, Option-cases, Bool-cases, inl, inr}
use rules_proto.Base.Dict.{Dict, is_some}
use rules_proto.Dedup.{deduplicate_and_sort}
use rules_proto.Dedup.Laws.{contains-deduplicate_and_sort}
use rules_proto.External.{External, Label}
use rules_proto.Gazelle.{BuildRule, set_attr, attr_strings, texts_value, attr_strings-set_attr}
use rules_proto.Resolver.{Resolver}
use rules_proto.Deps.{Index, FindResult, ResolveError, no_label_found}
use rules_proto.Deps.OnRule.{resolve_deps}
use rules_proto.Deps.Specs.{proto_files_import_specs_for_kind}
use rules_proto.Scala.{ScalaLibraryRule, filter_imports}
use rules_proto.Scala.Provide.{scala, provide_scala_imports}

-- `Imports`: the names go to the resolver, and the specifications to gazelle.
unfoldable pub imports : Resolver → Label → ScalaLibraryRule → Resolver × List (Text × Text)
imports resolver from s =
    (provide_scala_imports resolver from s.files, proto_files_import_specs_for_kind scala s.files)

-- The only result of a search.
abbrev pub only_label : List FindResult → Option Label
only_label (result ∷ []) = some result.label
only_label results = none

-- What the body of the loop finds for an import whose error is that no label was found.
unfoldable pub scala_label : Index → Text → Option Label
scala_label ix imp = elim (ix.find_override scala scala imp) [
  | some l ↦ some l
  | none ↦ only_label (ix.find_rules scala scala imp)
]

abbrev pub is_no_label : Option ResolveError → Bool
is_no_label (some no_label_found) = true
is_no_label _ = false

-- The dependencies and the errors, entry by entry.
abbrev pub Attempt : Type 0
Attempt = List Text × Dict Text (Option ResolveError)

-- `append(r.AttrStrings("deps"), resolvedDeps...)`, ordered, if there are any
unfoldable pub add_deps : List Text → BuildRule → BuildRule
add_deps [] r = r
add_deps (d ∷ deps) r =
    set_attr (bytes "deps")
      (texts_value (deduplicate_and_sort (attr_strings (bytes "deps") r ++ d ∷ deps))) r

module _ (ext : External) (ix : Index) where
  -- The body of the loop of `resolveScalaDeps`.
  unfoldable pub attempt : Text → Option ResolveError → Attempt → Attempt
  unfolding scala_label
  attempt imp err (deps, errors) =
      if is_no_label err
      then elim (scala_label ix imp) [
        | some l ↦ (ext.label_string l ∷ deps, (imp, none) ∷ errors)
        | none ↦ (deps, (imp, err) ∷ errors)
      ]
      else (deps, (imp, err) ∷ errors)

  unfoldable pub attempts : Dict Text (Option ResolveError) → Attempt
  unfolding attempt
  attempts [] = ([], [])
  attempts ((imp, err) ∷ errors) = attempt imp err (attempts errors)

  -- `resolveScalaDeps`, with the errors that it leaves.
  unfoldable pub resolve_scala_deps :
      BuildRule → Dict Text (Option ResolveError) → BuildRule × Dict Text (Option ResolveError)
  unfolding attempts add_deps
  resolve_scala_deps r unresolved =
      let (deps, errors) = attempts unresolved in (add_deps deps r, errors)

-- The errors as the map that the attempt changes.
abbrev pub pending : Dict Text ResolveError → Dict Text (Option ResolveError)
pending [] = []
pending ((imp, e) ∷ errors) = (imp, some e) ∷ pending errors

-- `Resolve`, with the errors that are left; the language of the imports is Scala.
unfoldable pub resolve :
    External
    → Index
    → ScalaLibraryRule
    → BuildRule
    → List Text
    → Label
    → BuildRule × Dict Text (Option ResolveError)
unfolding resolve_scala_deps
resolve ext ix s r imports from =
    let (r', unresolved) =
      resolve_deps ext ix true (some scala) r (filter_imports s.options imports) from in
    elim unresolved [
      | none ↦ (r', [])
      | some errors ↦ resolve_scala_deps ext ix r' (pending errors)
    ]

-- The error of an import after the attempt.
abbrev pub after : Index → Text → Option ResolveError → Option ResolveError
after ix imp err =
    if is_no_label err then (if is_some (scala_label ix imp) then none else err) else err

-- The dependency that the attempt at an import gives.
abbrev pub gained : External → Index → Text → Option ResolveError → List Text
gained ext ix imp err =
    if is_no_label err
    then elim (scala_label ix imp) [ some l ↦ ext.label_string l ∷ [] | none ↦ [] ]
    else []

attempt_lem :
    (ext : External) (ix : Index) (imp : Text) (err : Option ResolveError) (rest : Attempt)
    → attempt ext ix imp err rest
      ≡ (gained ext ix imp err ++ rest.0, (imp, after ix imp err) ∷ rest.1)
unfolding attempt
attempt_lem ext ix imp err rest = elim (Bool-cases (is_no_label err)) [
  | inr e ↦ rw e refl
  | inl e ↦ elim (Option-cases (scala_label ix imp)) [
    | inl n ↦ rw (e, n) refl
    | inr (l, n) ↦ rw (e, n) refl
  ]
]

-- All of them, in the order of the map.
abbrev pub all_gained : External → Index → Dict Text (Option ResolveError) → List Text
all_gained ext ix [] = []
all_gained ext ix ((imp, err) ∷ errors) = gained ext ix imp err ++ all_gained ext ix errors

abbrev pub all_after : Index → Dict Text (Option ResolveError) → Dict Text (Option ResolveError)
all_after ix [] = []
all_after ix ((imp, err) ∷ errors) = (imp, after ix imp err) ∷ all_after ix errors

attempts_lem :
    (ext : External) (ix : Index) (errors : Dict Text (Option ResolveError))
    → attempts ext ix errors ≡ (all_gained ext ix errors, all_after ix errors)
unfolding attempts
attempts_lem ext ix [] = refl
attempts_lem ext ix ((imp, err) ∷ errors) =
    attempt_lem ext ix imp err (attempts ext ix errors)
    ∙ ap (λ (a : Attempt). (gained ext ix imp err ++ a.0, (imp, after ix imp err) ∷ a.1))
        (attempts_lem ext ix errors)

add_deps-contains :
    (deps : List Text) (r : BuildRule) (x : Text)
    → contains (attr_strings (bytes "deps") (add_deps deps r)) x
      ≡ (contains (attr_strings (bytes "deps") r) x || contains deps x)
unfolding add_deps contains
add_deps-contains [] r x = ground arith
add_deps-contains (d ∷ deps) r x = rw attr_strings-set_attr (
    contains-deduplicate_and_sort (attr_strings (bytes "deps") r ++ d ∷ deps) x
    ∙ contains-append (attr_strings (bytes "deps") r) (d ∷ deps) x)

-- The second attempt adds to the dependencies the labels that it finds for imports without one, and
-- the errors of just these imports are cleared.
pub resolve_scala_deps_lem :
    (ext : External) (ix : Index) (r : BuildRule) (errors : Dict Text (Option ResolveError))
    (x : Text)
    → let (r', errors') = resolve_scala_deps ext ix r errors in
      (contains (attr_strings (bytes "deps") r') x
        ≡ (contains (attr_strings (bytes "deps") r) x || contains (all_gained ext ix errors) x))
      × (errors' ≡ all_after ix errors)
unfolding resolve_scala_deps
resolve_scala_deps_lem ext ix r errors x =
    rw (attempts_lem ext ix errors) (add_deps-contains (all_gained ext ix errors) r x, refl)
