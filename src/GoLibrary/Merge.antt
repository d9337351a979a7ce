-- ===== src/GoLibrary/Merge.antt =====
-- pkg/rule/rules_go/go_library.go: the method `Rule`, which merges into a rule with the same import
-- path.
pub mod Union
use rules_proto.Base.{Text, bytes, Bool, false, List, [], ◌∷◌, ◌++◌, Option, none, some}
use rules_proto.Base.{◌==◌, text_eq, ◌&&◌, ◌||◌, contains, contains-append, ◌≡◌, refl, ◌∙◌, ap}
use rules_proto.Base.{
  Option-cases, sym, text_beq, eq_iff, if◌then◌else◌, arith, Bool-cases, inl, inr,
}
use rules_proto.Base.Dict.{lookup, insert, or_zero, lookup-insert_self}
use rules_proto.Dedup.{deduplicate_and_sort}
use rules_proto.Dedup.Laws.{contains-deduplicate_and_sort}
use rules_proto.External.{External, new_label, label_eq}
use rules_proto.Gazelle.{
  BuildRule, new_rule, set_attr, set_nonempty, attr_string, attr_strings, texts_value, text_value,
  text_of, attr_strings-set_attr, attr_strings-set_other, attr_string-set_other,
}
use rules_proto.Config.Rule
use rules_proto.Resolver.{Resolver}
use rules_proto.GoLibrary.{
  GoLibraryRule, Libraries, proto_go_library, srcs, config_deps, import_path, rule_name,
}

-- The first rule of the kind with the import path.
unfoldable pub same_import : Text → BuildRule → Bool
same_import importpath other =
    other.kind == proto_go_library && attr_string (bytes "importpath") other == importpath

unfoldable pub find_other : Text → List BuildRule → Option BuildRule
unfolding same_import
find_other importpath [] = none
find_other importpath (other ∷ rules) =
    let rest = find_other importpath rules in
    if same_import importpath other then some other else rest

-- `SetAttr` of the values that a rule has and new ones, ordered, each once
unfoldable pub extend_attr : Text → List Text → BuildRule → BuildRule
extend_attr key values r =
    set_attr key (texts_value (deduplicate_and_sort (attr_strings key r ++ values))) r

-- The rule that a merge leaves, over the imports that the other rule had.
unfoldable pub merge_rule :
    List Text → List Text → List Text → List Text → List Text → BuildRule → BuildRule
unfolding extend_attr
merge_rule srcs deps visibility imports other_imports other =
    let other' =
      extend_attr (bytes "visibility") visibility
        (extend_attr (bytes "deps") deps (extend_attr (bytes "srcs") srcs other)) in
    record other' { imports = some (deduplicate_and_sort (other_imports ++ imports)) }

-- `if importpath != "" { newRule.SetAttr("importpath", importpath) }`
unfoldable pub set_import_path : Text → BuildRule → BuildRule
set_import_path [] r = r
set_import_path (c ∷ importpath) r = set_attr (bytes "importpath") (text_value (c ∷ importpath)) r

-- A new rule with its sources and its imports.
unfoldable pub bare_rule : List Text → GoLibraryRule → BuildRule
bare_rule srcs s =
    record (set_attr (bytes "srcs") (texts_value srcs)
      (new_rule s.kind_name (rule_name s.pc s.rule_name_suffix))) {
        imports = some s.pc.library.imports;
      }

-- A rule of its own.
unfoldable pub own_rule : Text → List Text → List Text → List Text → GoLibraryRule → BuildRule
unfolding set_import_path bare_rule
own_rule importpath srcs deps visibility s =
    set_nonempty (bytes "visibility") visibility
      (set_nonempty (bytes "deps") deps (set_import_path importpath (bare_rule srcs s)))

-- The library of a merged rule is appended to those of the other rule.
abbrev pub merged_libraries : GoLibraryRule → BuildRule → Libraries → Libraries
merged_libraries s other libraries =
    let at = new_label [] s.pc.rel other.name in
    insert at (or_zero [] (lookup at libraries) ++ s.pc.library ∷ []) libraries

-- `Rule`, with the table of libraries; `none` is the panic of a rule without imports.
unfoldable pub rule :
    External
    → Resolver
    → Libraries
    → GoLibraryRule
    → List BuildRule
    → Option (BuildRule × Libraries)
unfolding find_other merge_rule own_rule
rule ext resolver libraries s other_gen =
    let importpath = import_path resolver s in
    let visibility = Rule.get_visibility s.rule_config in
    let deps = config_deps ext s in
    elim (find_other importpath other_gen) [
      | none ↦ some (
        own_rule importpath (srcs s) deps visibility s,
        insert s.id (s.pc.library ∷ []) libraries,
      )
      | some other ↦ elim other.imports [
        | none ↦ none
        | some other_imports ↦ some (
          merge_rule (srcs s) deps visibility s.pc.library.imports other_imports other,
          merged_libraries s other libraries,
        )
      ]
    ]
