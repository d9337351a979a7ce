-- ===== src/GoLibrary/Merge/Union.antt =====
-- What a Go library that is merged into a rule with its import path leaves of both.
use rules_proto.Base.{Text, bytes, false, List, [], ◌∷◌, ◌++◌, Option, none, some}
use rules_proto.Base.{◌==◌, text_eq, ◌||◌, contains, contains-append, ◌≡◌, refl, ◌∙◌, ap}
use rules_proto.Base.{
  if◌then◌else◌, Option-cases, sym, text_beq, eq_iff, arith, Bool-cases, inl, inr,
}
use rules_proto.Base.Dict.{lookup, insert, or_zero, lookup-insert, lookup-insert_self}
use rules_proto.Dedup.Laws.{contains-deduplicate_and_sort}
use rules_proto.External.{External, Label, new_label, label_eq}
use rules_proto.Gazelle.{
  BuildRule, set_attr, set_nonempty, attr_string, attr_strings, text_value, text_of,
  attr_strings-set_attr, attr_strings-set_other, attr_string-set_other,
}
use rules_proto.Config.Rule
use rules_proto.Resolver.{Resolver}
use rules_proto.GoLibrary.{GoLibraryRule, Libraries, srcs, config_deps, import_path}
use rules_proto.GoLibrary.Merge.{
  same_import, find_other, extend_attr, merge_rule, set_import_path, bare_rule, own_rule,
  merged_libraries, rule,
}

extend_attr-contains :
    (key : Text) (values : List Text) (r : BuildRule) (x : Text)
    → contains (attr_strings key (extend_attr key values r)) x
      ≡ (contains (attr_strings key r) x || contains values x)
unfolding extend_attr
extend_attr-contains key values r x = rw attr_strings-set_attr (
    contains-deduplicate_and_sort (attr_strings key r ++ values) x
    ∙ contains-append (attr_strings key r) values x)

extend_attr-other :
    (key other : Text) (values : List Text) (r : BuildRule)
    → (other == key) ≡ false
    → attr_strings key (extend_attr other values r) ≡ attr_strings key r
unfolding extend_attr
extend_attr-other key other values r h = attr_strings-set_other key other _ r h

extend_attr-string :
    (key other : Text) (values : List Text) (r : BuildRule)
    → (other == key) ≡ false
    → attr_string key (extend_attr other values r) ≡ attr_string key r
unfolding extend_attr
extend_attr-string key other values r h = attr_string-set_other key other _ r h

-- What a rule merged from two says of itself: the identity is that of the other rule.
abbrev pub IsUnion : BuildRule → BuildRule → List Text → List Text → List Text → Text → Type 0
IsUnion r other ss ds vs x =
    (r.name ≡ other.name)
    × (r.kind ≡ other.kind)
    × (attr_string (bytes "importpath") r ≡ attr_string (bytes "importpath") other)
    × (contains (attr_strings (bytes "srcs") r) x
        ≡ (contains (attr_strings (bytes "srcs") other) x || contains ss x))
    × (contains (attr_strings (bytes "deps") r) x
        ≡ (contains (attr_strings (bytes "deps") other) x || contains ds x))
    × (contains (attr_strings (bytes "visibility") r) x
        ≡ (contains (attr_strings (bytes "visibility") other) x || contains vs x))

merge_rule-IsUnion :
    (ss ds vs is js : List Text) (other : BuildRule) (x : Text)
    → IsUnion (merge_rule ss ds vs is js other) other ss ds vs x
unfolding merge_rule attr_strings attr_string text_beq
merge_rule-IsUnion ss ds vs is js other x =
    let a = extend_attr (bytes "srcs") ss other in
    let b = extend_attr (bytes "deps") ds a in
    (
      unfold extend_attr set_attr in refl,
      unfold extend_attr set_attr in refl,
      extend_attr-string (bytes "importpath") (bytes "visibility") vs b refl
          ∙ extend_attr-string (bytes "importpath") (bytes "deps") ds a refl
          ∙ extend_attr-string (bytes "importpath") (bytes "srcs") ss other refl,
      ap (λ l. contains l x)
            (extend_attr-other (bytes "srcs") (bytes "visibility") vs b refl
              ∙ extend_attr-other (bytes "srcs") (bytes "deps") ds a refl)
          ∙ extend_attr-contains (bytes "srcs") ss other x,
      ap (λ l. contains l x) (extend_attr-other (bytes "deps") (bytes "visibility") vs b refl)
          ∙ extend_attr-contains (bytes "deps") ds a x
          ∙ ap (λ l. contains l x || contains ds x)
              (extend_attr-other (bytes "deps") (bytes "srcs") ss other refl),
      extend_attr-contains (bytes "visibility") vs b x
          ∙ ap (λ l. contains l x || contains vs x)
              (extend_attr-other (bytes "visibility") (bytes "deps") ds a refl
                ∙ extend_attr-other (bytes "visibility") (bytes "srcs") ss other refl),
    )

merge_rule-imports :
    (ss ds vs is js : List Text) (other : BuildRule) (x : Text)
    → contains (or_zero [] (merge_rule ss ds vs is js other).imports) x
      ≡ (contains js x || contains is x)
unfolding merge_rule
merge_rule-imports ss ds vs is js other x =
    contains-deduplicate_and_sort (js ++ is) x ∙ contains-append js is x

lookup-merged_libraries :
    (s : GoLibraryRule) (other : BuildRule) (libraries : Libraries) (at : Label)
    → lookup at (merged_libraries s other libraries) ≡ (
        if new_label [] s.pc.rel other.name == at
        then some (or_zero [] (lookup at libraries) ++ s.pc.library ∷ [])
        else lookup at libraries)
lookup-merged_libraries s other libraries at =
    let own = new_label [] s.pc.rel other.name in
    let all = or_zero [] (lookup own libraries) ++ s.pc.library ∷ [] in
    lookup-insert own at all libraries ∙ elim (Bool-cases (own == at)) [
      | inl e ↦ rw e (
          ap (λ l. some (or_zero [] (lookup l libraries) ++ s.pc.library ∷ []))
            ((eq_iff own at).0 e))
      | inr e ↦ rw e refl
    ]

-- Where an earlier rule has the import path of a new one, and the imports that generation gives to
-- rules, the new rule is merged into it: name, kind and import path stay, and the sources, the
-- dependencies, the visibility and the imports are those of both. In the table, the new library
-- stands behind those of the earlier rule, and no other entry changes.
pub rule_merges :
    (ext : External) (resolver : Resolver) (libraries : Libraries) (s : GoLibraryRule)
    (other_gen : List BuildRule) (other : BuildRule) (js : List Text) (x : Text) (at : Label)
    → find_other (import_path resolver s) other_gen ≡ some other
    → other.imports ≡ some js
    → (r : BuildRule) × (libraries' : Libraries) × (rule ext resolver libraries s other_gen
        ≡ some (r, libraries'))
      × IsUnion r other (srcs s) (config_deps ext s) (Rule.get_visibility s.rule_config) x
      × (contains (or_zero [] r.imports) x ≡ (contains js x || contains s.pc.library.imports x))
      × (lookup at libraries' ≡ (
          if new_label [] s.pc.rel other.name == at
          then some (or_zero [] (lookup at libraries) ++ s.pc.library ∷ [])
          else lookup at libraries))
unfolding rule attr_strings set_attr
rule_merges ext resolver libraries s other_gen other js x at h k =
    let vs = Rule.get_visibility s.rule_config in
    let ds = config_deps ext s in
    (
      merge_rule (srcs s) ds vs s.pc.library.imports js other,
      merged_libraries s other libraries,
      rw (h, rule, k) refl,
      merge_rule-IsUnion (srcs s) ds vs s.pc.library.imports js other x,
      merge_rule-imports (srcs s) ds vs s.pc.library.imports js other x,
      lookup-merged_libraries s other libraries at,
    )

find_other-import_path :
    (ip : Text) (rules : List BuildRule) (other : BuildRule)
    → find_other ip rules ≡ some other
    → attr_string (bytes "importpath") other ≡ ip
unfolding find_other same_import
find_other-import_path ip [] other h = absurd (ground arith)
find_other-import_path ip (r ∷ rules) other h = elim (Bool-cases (same_import ip r)) [
  | inl e ↦ ground (
    arith,
    e,
    h,
    eq_iff (attr_string (bytes "importpath") r) ip,
    λ (q : r ≡ other). ap (attr_string (bytes "importpath")) q,
  )
  | inr e ↦ find_other-import_path ip rules other (ground (arith, e, h))
]

set_nonempty-string :
    (key other : Text) (vs : List Text) (r : BuildRule)
    → (other == key) ≡ false
    → attr_string key (set_nonempty other vs r) ≡ attr_string key r
unfolding set_nonempty
set_nonempty-string key other [] r h = refl
set_nonempty-string key other (v ∷ vs) r h = attr_string-set_other key other _ r h

set_import_path-string :
    (ip : Text) (r : BuildRule)
    → attr_string (bytes "importpath") r ≡ []
    → attr_string (bytes "importpath") (set_import_path ip r) ≡ ip
unfolding set_import_path attr_string set_attr
set_import_path-string [] r h = h
set_import_path-string (c ∷ ip) r h =
    ap text_of (lookup-insert_self (bytes "importpath") (text_value (c ∷ ip)) r.attrs)

bare_rule-string :
    (ss : List Text) (s : GoLibraryRule) → attr_string (bytes "importpath") (bare_rule ss s) ≡ []
unfolding bare_rule attr_string set_attr insert lookup text_beq
bare_rule-string ss s = refl

own_rule-import_path :
    (ip : Text) (ss ds vs : List Text) (s : GoLibraryRule)
    → attr_string (bytes "importpath") (own_rule ip ss ds vs s) ≡ ip
unfolding own_rule text_beq
own_rule-import_path ip ss ds vs s =
    set_nonempty-string (bytes "importpath") (bytes "visibility") vs _ refl
    ∙ set_nonempty-string (bytes "importpath") (bytes "deps") ds _ refl
    ∙ set_import_path-string ip (bare_rule ss s) (bare_rule-string ss s)

-- The import path of the rule that is made; a panic has any.
abbrev path_or : Text → Option (BuildRule × Libraries) → Text
path_or ip none = ip
path_or ip (some (r, libraries)) = attr_string (bytes "importpath") r

path_or-rule :
    (ext : External) (resolver : Resolver) (libraries : Libraries) (s : GoLibraryRule)
    (other_gen : List BuildRule)
    → path_or (import_path resolver s) (rule ext resolver libraries s other_gen)
      ≡ import_path resolver s
unfolding rule
path_or-rule ext resolver libraries s other_gen =
    let ip = import_path resolver s in
    let vs = Rule.get_visibility s.rule_config in
    let ds = config_deps ext s in
    elim (Option-cases (find_other ip other_gen)) [
      | inl n ↦ rw (n, rule) (own_rule-import_path ip (srcs s) ds vs s)
      | inr (other, n) ↦ elim (Option-cases other.imports) [
        | inl m ↦ rw (n, rule, m) refl
        | inr (js, m) ↦
            let union = merge_rule-IsUnion (srcs s) ds vs s.pc.library.imports js other [] in
            rw (n, rule, m) (union.2 ∙ find_other-import_path ip other_gen other n)
      ]
    ]

-- The rule that is made has the import path of the library, whether it is new or merged.
pub rule-import_path :
    (ext : External) (resolver : Resolver) (libraries : Libraries) (s : GoLibraryRule)
    (other_gen : List BuildRule) (r : BuildRule) (libraries' : Libraries)
    → rule ext resolver libraries s other_gen ≡ some (r, libraries')
    → attr_string (bytes "importpath") r ≡ import_path resolver s
rule-import_path ext resolver libraries s other_gen r libraries' h =
    ap (path_or (import_path resolver s)) (sym h) ∙ path_or-rule ext resolver libraries s other_gen
