-- ===== src/Rewrite/First.antt =====
-- Which rewrite applies, and what the rewrites of a library are.
use rules_proto.Base.{Text, List, [], ◌∷◌, ◌++◌, ◌≡◌, refl, ◌∙◌, sym, arith, inl, inr}
use rules_proto.Base.{
  text_eq, some, none, is_empty, contains, contains-append, ◌&&◌, not, All, eq_refl,
}
use rules_proto.Base.{eq_iff, ◌==◌, false, map, Distinct, Option-cases, Option}
use mathlib.Core.List.{map-append}
use rules_proto.Base.Sort.{IsSorted}
use rules_proto.Dedup.Laws.{
  contains-deduplicate_and_sort, deduplicate_and_sort-IsSorted, deduplicate_and_sort-Distinct,
}
use rules_proto.External.{External}
use rules_proto.Rewrite.{
  Rewrite, replace_all, resolve_rewrites, resolve_imports, resolve_file_rewrites, resolve_files,
  resolve_library_rewrites,
}

-- Whether a rewrite leaves a text as it is: it has no expression, or replaces nothing.
abbrev pub Leaves : External → Text → Rewrite → Type 0
Leaves ext input r = elim r.match [
  | none ↦ Unit
  | some p ↦ ext.replace_all_string p input r.replace ≡ input
]

replace_all-Leaves :
    (ext : External) (match : Option Text) (to input : Text)
    → Leaves ext input (record { match = match; replace = to })
    → replace_all ext (record { match = match; replace = to }) input ≡ []
unfolding replace_all
replace_all-Leaves ext none to input h = refl
replace_all-Leaves ext (some p) to input h = rw (h, eq_refl input) refl

-- Rewrites are tried in order: those that leave a text unchanged give nothing, and the first that
-- changes it, to a text that is not empty, gives the result, whatever follows it.
pub resolve_rewrites_first :
    (ext : External) (xs : List Rewrite) (p to : Text) (ys : List Rewrite) (input : Text)
    → All (Leaves ext input) xs
    → (input == ext.replace_all_string p input to) ≡ false
    → is_empty (ext.replace_all_string p input to) ≡ false
    → (resolve_rewrites ext xs input ≡ [])
      × (resolve_rewrites ext (xs ++ record { match = some p; replace = to } ∷ ys) input
          ≡ ext.replace_all_string p input to)
unfolding resolve_rewrites
resolve_rewrites_first ext [] p to ys input h changed given =
    (refl, unfold replace_all in rw (changed, given) refl)
resolve_rewrites_first ext (x ∷ xs) p to ys input h changed given =
    let rest = resolve_rewrites_first ext xs p to ys input h.1 changed given in
    rw (replace_all-Leaves ext x.match x.replace input h.0) rest

replace_all_fixed :
    (ext : External) (r : Rewrite) (input : Text) → replace_all ext r input ≡ input → input ≡ []
unfolding replace_all
replace_all_fixed ext r input e = elim (Option-cases r.match) [
  | inl nil ↦ ground arith
  | inr (p, given) ↦ ground (arith, eq_iff input (ext.replace_all_string p input r.replace))
]

resolve_rewrites_fixed :
    (ext : External) (xs : List Rewrite) (input : Text)
    → resolve_rewrites ext xs input ≡ input
    → input ≡ []
unfolding resolve_rewrites
resolve_rewrites_fixed ext [] input e = sym e
resolve_rewrites_fixed ext (x ∷ xs) input e =
    ground (arith, replace_all_fixed ext x input, resolve_rewrites_fixed ext xs input)

-- What the rewrites return for a text that is not empty differs from the text.
pub resolve_rewrites-ne :
    (ext : External) (xs : List Rewrite) (input : Text)
    → is_empty input ≡ false
    → (resolve_rewrites ext xs input == input) ≡ false
resolve_rewrites-ne ext xs input h =
    ground
      (arith, eq_iff (resolve_rewrites ext xs input) input, resolve_rewrites_fixed ext xs input)

-- The imports of all files of a library.
abbrev pub library_imports : List (List Text) → List Text
library_imports [] = []
library_imports (file ∷ files) = file ++ library_imports files

contains-resolve_imports :
    (ext : External) (rewrites : List Rewrite) (imports : List Text) (m : Text)
    → contains (resolve_imports ext rewrites imports) m
      ≡ (not (is_empty m) && contains (map (resolve_rewrites ext rewrites) imports) m)
unfolding resolve_imports contains
contains-resolve_imports ext rewrites [] m = ground arith
contains-resolve_imports ext rewrites (i ∷ imports) m = ground (
  arith,
  contains-resolve_imports ext rewrites imports m,
  eq_iff m (resolve_rewrites ext rewrites i),
)

nothing_rewritten :
    (ext : External) (file : List Text) (m : Text)
    → (not (is_empty m) && contains (map (resolve_rewrites ext []) file) m) ≡ false
unfolding contains resolve_rewrites
nothing_rewritten ext [] m = ground arith
nothing_rewritten ext (i ∷ file) m = ground (arith, nothing_rewritten ext file m, eq_iff m [])

contains-resolve_file_rewrites :
    (ext : External) (rewrites : List Rewrite) (file : List Text) (m : Text)
    → contains (resolve_file_rewrites ext rewrites file) m
      ≡ (not (is_empty m) && contains (map (resolve_rewrites ext rewrites) file) m)
unfolding resolve_file_rewrites contains
contains-resolve_file_rewrites ext [] file m = sym (nothing_rewritten ext file m)
contains-resolve_file_rewrites ext (r ∷ rewrites) file m =
    contains-resolve_imports ext (r ∷ rewrites) file m

contains-resolve_files :
    (ext : External) (rewrites : List Rewrite) (files : List (List Text)) (m : Text)
    → contains (resolve_files ext rewrites files) m ≡ (
        not (is_empty m)
        && contains (map (resolve_rewrites ext rewrites) (library_imports files)) m)
unfolding resolve_files
contains-resolve_files ext rewrites [] m = unfold contains in ground arith
contains-resolve_files ext rewrites (file ∷ files) m =
    contains-append (resolve_file_rewrites ext rewrites file) _ m
    ∙ rw map-append (
        ground (
          arith,
          contains-resolve_file_rewrites ext rewrites file m,
          contains-resolve_files ext rewrites files m,
          contains-append (map (resolve_rewrites ext rewrites) file)
              (map (resolve_rewrites ext rewrites) (library_imports files)) m,
        ))

-- The rewrites of a library are the results, other than the empty text, of rewriting the imports
-- of its files; they are ordered and distinct.
pub resolve_library_rewrites_lem :
    (ext : External) (rewrites : List Rewrite) (files : List (List Text))
    → ((m : Text)
        → contains (resolve_library_rewrites ext rewrites files) m ≡ (
            not (is_empty m)
            && contains (map (resolve_rewrites ext rewrites) (library_imports files)) m))
      × IsSorted (resolve_library_rewrites ext rewrites files)
      × Distinct (resolve_library_rewrites ext rewrites files)
unfolding resolve_library_rewrites
resolve_library_rewrites_lem ext [] files =
    (λ m. unfold contains in sym (nothing_rewritten ext (library_imports files) m), tt, tt)
resolve_library_rewrites_lem ext (r ∷ rewrites) files = (
  λ m. contains-deduplicate_and_sort _ m ∙ contains-resolve_files ext (r ∷ rewrites) files m,
  deduplicate_and_sort-IsSorted _,
  deduplicate_and_sort-Distinct _,
)
