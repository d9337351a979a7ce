-- ===== src/Protobuf/Sources.antt =====
-- pkg/language/protobuf/generate.go: the files and the libraries of a package, and what the resolver
-- learns of them. Reading files is a parameter.
use rules_proto.Base.{Text, bytes, true, false, List, [], ◌∷◌, ◌++◌, Option, none, some, ◌≡◌}
use rules_proto.Base.{◌==◌, ◌||◌, text_eq, if◌then◌else◌, contains, refl, arith}
use rules_proto.Base.{Bool-cases, Option-cases, inl, inr, eq_refl, contains-append, subst, All}
use rules_proto.Base.Dict.{Dict, lookup, insert}
use rules_proto.Go.Strings.{Lacks}
use rules_proto.Go.Paths.{path_join, path_dir, path_base}
use rules_proto.External.{External, Label, new_label, label_eq}
use rules_proto.Gazelle.{BuildRule, attr_strings}
use rules_proto.File.{ProtoFile, is_proto_file}
use rules_proto.Library.{OtherProtoLibrary}
use rules_proto.RuleIndex.{RuleIndex, put}
use rules_proto.Resolver.{Resolver, provide, resolve}
use rules_proto.Resolver.Keys.{IsValid}
use rules_proto.Resolver.Provide.{provide-IsValid, resolve-provide}

-- The label that stands for an imported file.
abbrev pub import_label : Text → Label
import_label filename =
    let dir = path_dir filename in
    new_label [] (if dir == bytes "." then [] else dir) (path_base filename)

-- The inner loop over the imports of a file.
unfoldable pub provide_depends : Resolver → Text → List Text → Resolver
provide_depends resolver path [] = resolver
provide_depends resolver path (imp ∷ imports) =
    provide_depends (provide resolver (bytes "proto") (bytes "depends") path (import_label imp))
      path imports

-- The loop over the regular files; `read` is `NewFile` with `Parse`, `none` its error, which is only
-- logged.
unfoldable pub parse_files :
    (Text → Option ProtoFile)
    → Dict Text ProtoFile
    → Resolver
    → List Text
    → Dict Text ProtoFile × Resolver
unfolding provide_depends
parse_files read files resolver [] = (files, resolver)
parse_files read files resolver (f ∷ regular) = elim (is_proto_file f) [
  | false ↦ parse_files read files resolver regular
  | true ↦ elim (read f) [
    | none ↦ parse_files read files resolver regular
    | some file ↦
        parse_files read (insert f file files)
          (provide_depends resolver (path_join (file.dir ∷ file.basename ∷ [])) file.imports)
          regular
  ]
]

-- `matchingFiles`, over the names of the labels
unfoldable pub matching_files : Dict Text ProtoFile → List Label → List ProtoFile
matching_files files [] = []
matching_files files (src ∷ srcs) =
    let matching = matching_files files srcs in
    elim (lookup src.name files) [ none ↦ matching | some file ↦ file ∷ matching ]

-- `srcLabels[i] = srcLabel`
abbrev cons_label : Label → Option (List Label × Resolver) → Option (List Label × Resolver)
cons_label l none = none
cons_label l (some (labels, r)) = some (l ∷ labels, r)

-- The loop over the sources of a library; `none` is the fatal end of a label that does not parse.
unfoldable pub provide_srcs :
    External → Text → Label → Resolver → List Text → Option (List Label × Resolver)
provide_srcs ext rel at resolver [] = some ([], resolver)
provide_srcs ext rel at resolver (src ∷ srcs) = elim (ext.parse_label src) [
  | none ↦ none
  | some l ↦ cons_label l (
      provide_srcs ext rel at
        (provide resolver (bytes "proto") (bytes "proto") (path_join (rel ∷ src ∷ [])) at) srcs)
]

-- What the loop over the rules of other extensions changes.
pub record OtherGen : Type 0 where
  pub index : RuleIndex
  pub resolver : Resolver
  pub libraries : List OtherProtoLibrary

-- The loop over the rules of other extensions; `kept` reads the attributes of the build file.
unfoldable pub other_rules :
    External
    → Text
    → (BuildRule → Text → Text)
    → Dict Text ProtoFile
    → OtherGen
    → List BuildRule
    → Option OtherGen
unfolding provide_srcs matching_files
other_rules ext rel kept files s [] = some s
other_rules ext rel kept files s (r ∷ rules) =
    let at = new_label [] rel r.name in
    let index = put s.index at r in
    if r.kind == bytes "proto_library"
    then elim (provide_srcs ext rel at s.resolver (attr_strings (bytes "srcs") r)) [
      | none ↦ none
      | some (labels, resolver) ↦
          other_rules ext rel kept files
            (record {
              index = index;
              resolver = resolver;
              libraries =
                  s.libraries
                  ++ record { kept = kept r; rule = r; files = matching_files files labels } ∷ [];
            })
            rules
    ]
    else other_rules ext rel kept files (record s { index = index }) rules

-- The last loop over the rules: each stands in the index under its label.
unfoldable pub index_rules : Text → RuleIndex → List BuildRule → RuleIndex
index_rules rel index [] = index
index_rules rel index (r ∷ rules) = index_rules rel (put index (new_label [] rel r.name) r) rules

proto-Lacks : Lacks 32 (bytes "proto")
proto-Lacks = (refl, (refl, (refl, (refl, (refl, tt)))))

-- A label stays where it was found.
provide-keeps :
    (r : Resolver) (imp_lang path imp_lang' imp : Text) (l at : Label)
    → IsValid r
    → contains (resolve r (bytes "proto") imp_lang' imp) at ≡ true
    → contains
        (resolve (provide r (bytes "proto") imp_lang path l) (bytes "proto") imp_lang' imp)
        at
      ≡ true
unfolding contains
provide-keeps r imp_lang path imp_lang' imp l at v h =
    let labels = resolve r (bytes "proto") imp_lang' imp in
    rw
      (resolve-provide r (bytes "proto") imp_lang path l (bytes "proto") imp_lang' imp v proto-Lacks
        proto-Lacks)
      (ground (arith, h, contains-append labels (l ∷ []) at))

provide-found :
    (r : Resolver) (imp_lang path : Text) (l : Label)
    → IsValid r
    → contains (resolve (provide r (bytes "proto") imp_lang path l) (bytes "proto") imp_lang path) l
      ≡ true
unfolding contains
provide-found r imp_lang path l v =
    let labels = resolve r (bytes "proto") imp_lang path in
    rw
      (resolve-provide r (bytes "proto") imp_lang path l (bytes "proto") imp_lang path v proto-Lacks
        proto-Lacks)
      (rw (eq_refl (bytes "proto"), eq_refl imp_lang, eq_refl path)
        (ground (arith, contains-append labels (l ∷ []) l, eq_refl l)))

-- What the sources of a library leave in the resolver: all that was found before, and the label of
-- the library under each of them.
abbrev Keeps : Resolver → Resolver → Type 0
Keeps r r' =
    (imp_lang imp : Text) (x : Label)
    → contains (resolve r (bytes "proto") imp_lang imp) x ≡ true
    → contains (resolve r' (bytes "proto") imp_lang imp) x ≡ true

abbrev pub IsFound : Resolver → Text → Label → Text → Type 0
IsFound r rel at src =
    contains (resolve r (bytes "proto") (bytes "proto") (path_join (rel ∷ src ∷ []))) at ≡ true

abbrev AllFound : Resolver → Text → Label → List Text → Option (List Label × Resolver) → Type 0
AllFound r rel at srcs none = Unit
AllFound r rel at srcs (some (labels, r')) = IsValid r' × Keeps r r' × All (IsFound r' rel at) srcs

AllFound-cons :
    (ext : External) (r : Resolver) (rel src : Text) (at l : Label) (srcs : List Text)
    (rest : Option (List Label × Resolver))
    → IsValid r
    → (let r1 = provide r (bytes "proto") (bytes "proto") (path_join (rel ∷ src ∷ [])) at in
        AllFound r1 rel at srcs rest)
    → AllFound r rel at (src ∷ srcs) (cons_label l rest)
AllFound-cons ext r rel src at l srcs none v h = tt
AllFound-cons ext r rel src at l srcs (some (labels, r')) v (v', keeps, all) =
    let path = path_join (rel ∷ src ∷ []) in
    (
      v',
      λ imp_lang imp x h.
          keeps imp_lang imp x (provide-keeps r (bytes "proto") path imp_lang imp at x v h),
      (keeps (bytes "proto") path at (provide-found r (bytes "proto") path at v), all),
    )

provide_srcs-AllFound :
    (ext : External) (rel : Text) (at : Label) (r : Resolver) (srcs : List Text)
    → IsValid r
    → AllFound r rel at srcs (provide_srcs ext rel at r srcs)
unfolding provide_srcs
provide_srcs-AllFound ext rel at r [] v = (v, λ imp_lang imp x h. h, tt)
provide_srcs-AllFound ext rel at r (src ∷ srcs) v = elim (Option-cases (ext.parse_label src)) [
  | inl n ↦ rw (n, provide_srcs) tt
  | inr (l, n) ↦
      let path = path_join (rel ∷ src ∷ []) in
      let r1 = provide r (bytes "proto") (bytes "proto") path at in
      let v1 = provide-IsValid r (bytes "proto") (bytes "proto") path at v proto-Lacks in
      rw (n, provide_srcs)
        (AllFound-cons ext r rel src at l srcs (provide_srcs ext rel at r1 srcs) v
          (provide_srcs-AllFound ext rel at r1 srcs v1))
]

-- After a library is generated, each of its sources, as a path from the root, resolves to the label
-- of the library, and what the resolver found before it finds still.
pub provide_srcs_lem :
    (ext : External) (rel : Text) (at : Label) (r : Resolver) (srcs : List Text)
    (labels : List Label) (r' : Resolver) (imp_lang imp : Text) (x : Label)
    → IsValid r
    → provide_srcs ext rel at r srcs ≡ some (labels, r')
    → let before = contains (resolve r (bytes "proto") imp_lang imp) x in
      let after = contains (resolve r' (bytes "proto") imp_lang imp) x in
      (after ≡ (before || after)) × All (IsFound r' rel at) srcs
provide_srcs_lem ext rel at r srcs labels r' imp_lang imp x v h =
    let (valid, keeps, all) =
      subst (AllFound r rel at srcs) h (provide_srcs-AllFound ext rel at r srcs v) in
    (
      elim (Bool-cases (contains (resolve r (bytes "proto") imp_lang imp) x)) [
        | inl e ↦ ground (arith, e, keeps imp_lang imp x e)
        | inr e ↦ ground (arith, e)
      ],
      all,
    )
