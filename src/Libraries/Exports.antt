-- ===== src/Libraries/Exports.antt =====
-- pkg/rule/rules_java/proto_java_library.go: the resolution of a Java library, which exports its
-- dependencies.
use rules_proto.Base.{Text, bytes, true, not, List, [], ◌∷◌, Option, none, some, ◌≡◌, refl}
use rules_proto.Base.{text_eq, is_empty, ◌∙◌, eq_refl}
use rules_proto.Base.Dict.{lookup, erase, or_zero, is_some, lookup-erase, lookup-insert_self}
use rules_proto.External.{External, Label}
use rules_proto.Gazelle.{
  BuildRule, set_attr, set_nonempty, attr_strings, texts_value, attr_strings-set_attr,
}
use rules_proto.Deps.{Index, resolve_deps_attr}
use rules_proto.Deps.OnRule.{deps_rule, with_deps, resolve_deps}
use rules_proto.Libraries.{export_deps, resolve_proto_java}

-- What a rule exports; a panic has any exports.
abbrev pub exports_or : List Text → Option BuildRule → List Text
exports_or deps none = deps
exports_or deps (some r) = attr_strings (bytes "exports") r

export_deps-missing :
    (r : BuildRule) (deps : List Text)
    → lookup (bytes "deps") r.attrs ≡ none
    → is_empty deps ≡ true
    → (is_some (export_deps r) ≡ not (is_empty deps)) × (exports_or deps (export_deps r) ≡ deps)
unfolding export_deps
export_deps-missing r deps h e = rw (h, export_deps, e) (refl, refl)

export_deps-set :
    (r : BuildRule) (d : Text) (deps : List Text)
    → let set = export_deps (set_attr (bytes "deps") (texts_value (d ∷ deps)) r) in
      (is_some set ≡ true) × (exports_or (d ∷ deps) set ≡ d ∷ deps)
unfolding export_deps set_attr
export_deps-set r d deps =
    let found = lookup-insert_self (bytes "deps") (texts_value (d ∷ deps)) r.attrs in
    let r' = set_attr (bytes "deps") (texts_value (d ∷ deps)) r in
    rw (found, export_deps)
      (refl, unfold set_attr in attr_strings-set_attr (bytes "exports") (d ∷ deps) r')

export_deps-with_deps :
    (r : BuildRule) (deps : List Text)
    → let result = export_deps (with_deps r (some deps)) in
      (is_some result ≡ not (is_empty deps)) × (exports_or deps result ≡ deps)
unfolding set_nonempty
export_deps-with_deps r [] =
    export_deps-missing (record r { attrs = erase (bytes "deps") r.attrs }) []
      (lookup-erase (bytes "deps") (bytes "deps") r.attrs ∙ rw (eq_refl (bytes "deps")) refl) refl
export_deps-with_deps r (d ∷ deps) =
    export_deps-set (record r { attrs = erase (bytes "deps") r.attrs }) d deps

-- The resolution of a Java library panics exactly where no dependency is resolved; otherwise the
-- exports are the resolved dependencies.
pub resolve_proto_java_lem :
    (ext : External) (ix : Index) (r : BuildRule) (imports : List Text) (from : Label)
    → let deps = or_zero [] (resolve_deps_attr ext ix true (deps_rule none r) imports from).attr in
      let result = resolve_proto_java ext ix r imports from in
      (is_some result ≡ not (is_empty deps)) × (exports_or deps result ≡ deps)
unfolding resolve_proto_java resolve_deps
resolve_proto_java_lem ext ix r imports from =
    export_deps-with_deps r
      (or_zero [] (resolve_deps_attr ext ix true (deps_rule none r) imports from).attr)
