-- ===== src/Protobuf/Override.antt =====
-- pkg/language/protobuf/override.go: the dependencies of proto libraries without go_googleapis. A
-- dependency that does not parse is the empty label in Go, and so here.
use rules_proto.Base.{Text, bytes, Bool, not, List, [], ◌∷◌, ◌++◌, Option, none, some, ◌≡◌}
use rules_proto.Base.{◌==◌, ◌||◌, ◌&&◌, text_eq, if◌then◌else◌, contains, refl, ◌∙◌, arith, map}
use rules_proto.Base.{Bool-cases, inl, inr, eq_iff, ap, is_empty, contains-append}
use rules_proto.Base.Dict.{or_zero}
use rules_proto.Dedup.{deduplicate_and_sort}
use rules_proto.Dedup.Laws.{contains-deduplicate_and_sort}
use rules_proto.External.{External, Label, no_label, label_eq}
use rules_proto.Gazelle.{BuildRule, set_attr, attr_strings, texts_value, attr_strings-set_attr}
use rules_proto.Resolver.{Resolver, resolve}

-- `lbl, _ := label.Parse(dep)`
abbrev pub parsed_or_empty : Option Label → Label
parsed_or_empty none = no_label
parsed_or_empty (some l) = l

-- The loop over the dependencies.
unfoldable pub keep_deps : External → List Text → List Label
keep_deps ext [] = []
keep_deps ext (dep ∷ deps) =
    let keep = keep_deps ext deps in
    let lbl = parsed_or_empty (ext.parse_label dep) in
    if lbl.repo == bytes "go_googleapis" then keep else if lbl.relative then keep else lbl ∷ keep

-- The loop over the imports: the first label of each.
unfoldable pub first_labels : Resolver → List Text → List Label
first_labels resolver [] = []
first_labels resolver (imp ∷ imps) =
    let rest = first_labels resolver imps in
    elim (resolve resolver (bytes "proto") (bytes "proto") imp) [
      | [] ↦ rest
      | first ∷ _ ↦ first ∷ rest
    ]

-- `if len(keep) > 0 { ... r.SetAttr("deps", ...) }`
unfoldable pub set_deps : External → Text → List Label → BuildRule → BuildRule
set_deps ext rel [] r = r
set_deps ext rel (l ∷ keep) r =
    set_attr (bytes "deps")
      (texts_value (
        deduplicate_and_sort (map (λ lbl. ext.label_string (ext.label_rel lbl [] rel)) (l ∷ keep))))
      r

-- The body of the loop of `resolveOverrideRule`, on the rule of a library.
unfoldable pub override_library : External → Text → Resolver → BuildRule → BuildRule
unfolding keep_deps first_labels set_deps
override_library ext rel resolver r =
    set_deps ext rel
      (keep_deps ext (attr_strings (bytes "deps") r)
        ++ first_labels resolver (or_zero [] r.imports))
      r

-- `resolveOverrideRule`, on the rules of the libraries; the rule itself is then deleted.
unfoldable pub resolve_override_rule : External → Text → Resolver → List BuildRule → List BuildRule
unfolding override_library
resolve_override_rule ext rel resolver rules = map (override_library ext rel resolver) rules

-- Whether a label is kept: a parsed dependency, absolute and not of go_googleapis.
abbrev pub stays : Label → Bool
stays l = not (l.repo == bytes "go_googleapis") && not l.relative

-- The labels of dependencies, as they parse.
abbrev pub labels_of : External → List Text → List Label
labels_of ext deps = map (λ dep. parsed_or_empty (ext.parse_label dep)) deps

contains-keep_deps :
    (ext : External) (deps : List Text) (l : Label)
    → contains (keep_deps ext deps) l ≡ (contains (labels_of ext deps) l && stays l)
unfolding keep_deps contains
contains-keep_deps ext [] l = refl
contains-keep_deps ext (dep ∷ deps) l =
    let p = parsed_or_empty (ext.parse_label dep) in
    let rest = contains-keep_deps ext deps l in
    let same : l ≡ p → stays l ≡ stays p = λ e. ap stays e in
    elim (Bool-cases (p.repo == bytes "go_googleapis")) [
      | inl e ↦ rw e (rest ∙ ground (arith, e, same, eq_iff l p))
      | inr e ↦ elim (Bool-cases p.relative) [
        | inl f ↦ rw (e, f) (rest ∙ ground (arith, e, f, same, eq_iff l p))
        | inr f ↦ rw (e, f) (ground (arith, rest, e, f, same, eq_iff l p))
      ]
    ]

-- The labels that an override leaves a library with are its absolute dependencies outside of
-- go_googleapis, and the first labels that its imports resolve to.
abbrev pub kept_labels : External → Resolver → BuildRule → List Label
kept_labels ext resolver r =
    keep_deps ext (attr_strings (bytes "deps") r) ++ first_labels resolver (or_zero [] r.imports)

set_deps-contains :
    (ext : External) (rel : Text) (keep : List Label) (r : BuildRule) (x : Text)
    → contains (attr_strings (bytes "deps") (set_deps ext rel keep r)) x ≡ (
        if is_empty keep
        then contains (attr_strings (bytes "deps") r) x
        else contains (map (λ lbl. ext.label_string (ext.label_rel lbl [] rel)) keep) x)
unfolding set_deps
set_deps-contains ext rel [] r x = refl
set_deps-contains ext rel (l ∷ keep) r x =
    rw attr_strings-set_attr (contains-deduplicate_and_sort _ x)

-- An override keeps of the dependencies of a library those that are absolute and not of
-- go_googleapis, and adds the first label for each import; the attribute becomes their texts,
-- unless nothing is left, where it stays as it was.
pub override_library_lem :
    (ext : External) (rel : Text) (resolver : Resolver) (r : BuildRule) (l : Label) (x : Text)
    → let keep = kept_labels ext resolver r in
      let old = attr_strings (bytes "deps") r in
      (contains keep l ≡ (
        (contains (labels_of ext old) l && stays l)
        || contains (first_labels resolver (or_zero [] r.imports)) l))
      × (contains (attr_strings (bytes "deps") (override_library ext rel resolver r)) x ≡ (
          if is_empty keep
          then contains old x
          else contains (map (λ lbl. ext.label_string (ext.label_rel lbl [] rel)) keep) x))
unfolding override_library
override_library_lem ext rel resolver r l x =
    let old = attr_strings (bytes "deps") r in
    let firsts = first_labels resolver (or_zero [] r.imports) in
    (
      contains-append (keep_deps ext old) firsts l
          ∙ ap (λ b. b || contains firsts l) (contains-keep_deps ext old l),
      set_deps-contains ext rel (kept_labels ext resolver r) r x,
    )
