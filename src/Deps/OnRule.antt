-- ===== src/Deps/OnRule.antt =====
-- pkg/protoc/depsresolver.go: the resolver of an attribute, on a rule of gazelle. The attribute is
-- deleted first, and set if there is a dependency.
use rules_proto.Base.{Text, bytes, Bool, List, [], Option, none, some, text_eq}
use rules_proto.Base.Dict.{Dict, erase, or_zero}
use rules_proto.External.{External, Label}
use rules_proto.Gazelle.{BuildRule, set_nonempty, attr_strings}
use rules_proto.Deps.{Index, DepsRule, ResolveError, resolve_deps_attr}

-- What `ResolveDepsAttr` reads of a rule, with the language of its imports, if that is set.
abbrev pub deps_rule : Option Text → BuildRule → DepsRule
deps_rule imp_lang r = record {
  kind = r.kind;
  imp_lang = imp_lang;
  attr = some (attr_strings (bytes "deps") r);
  unresolved = none;
}

-- The rule with the dependencies that were resolved.
abbrev pub with_deps : BuildRule → Option (List Text) → BuildRule
with_deps r deps =
    set_nonempty (bytes "deps") (or_zero [] deps)
      (record r { attrs = erase (bytes "deps") r.attrs })

-- `ResolveDepsAttr("deps", excludeWkt)`, with the unresolved imports
unfoldable pub resolve_deps :
    External
    → Index
    → Bool
    → Option Text
    → BuildRule
    → List Text
    → Label
    → BuildRule × Option (Dict Text ResolveError)
resolve_deps ext ix exclude_wkt imp_lang r imports from =
    let resolved = resolve_deps_attr ext ix exclude_wkt (deps_rule imp_lang r) imports from in
    (with_deps r resolved.attr, resolved.unresolved)
