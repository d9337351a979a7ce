-- ===== src/Deps.antt =====
-- pkg/protoc/depsresolver.go: the dependencies of a rule from the imports of its library. Gazelle's
-- index of rules and its overrides are parameters.
pub mod Found
pub mod Attr
pub mod Specs
pub mod OnRule
use rules_proto.Base.{Text, bytes, Bool, true, false, List, [], ◌∷◌, ◌++◌, Option, none, some}
use rules_proto.Base.{◌==◌, text_eq, if◌then◌else◌, is_empty, ◌||◌, ◌&&◌}
use rules_proto.Base.Dict.{Dict, keys, insert, or_zero}
use rules_proto.Base.Sort.{sort_strings}
use rules_proto.Go.Strings.{has_prefix, trim_prefix, strip_prefix}
use rules_proto.External.{External, Label, no_label, new_label, label_eq}

-- `resolve.FindResult`, with its method `IsSelfImport`
pub record FindResult : Type 0 where
  pub label : Label
  pub is_self_import : Label → Bool

-- What the resolver asks of gazelle, by language, language of the import, and import.
pub record Index : Type 0 where
  -- `resolve.FindRuleWithOverride`
  pub find_override : Text → Text → Text → Option Label
  -- `RuleIndex.FindRulesByImportWithConfig`
  pub find_rules : Text → Text → Text → List FindResult
  -- `config.RepoName`
  pub repo_name : Text

pub data ResolveError : Type 0 where
  skip_import not_found no_label_found : ResolveError
  multiple_rules : Label → Label → Text → Label → ResolveError

pub data Resolution : Type 0 where
  resolved : Label → Resolution
  failed : ResolveError → Resolution

-- `isSameImport`
unfoldable pub is_same_import : Text → Label → Label → Bool
is_same_import repo_name from to =
    if from == to
    then true
    else (if is_empty to.repo then from == new_label repo_name to.pkg to.name else false)

-- `StripRel`
unfoldable pub strip_rel : Text → Text → Text
strip_rel rel filename = elim (strip_prefix filename rel) [
  | none ↦ filename
  | some rest ↦ trim_prefix rest (bytes "/")
]

module _ (ix : Index) where
  resolve_matches : Text → Label → List FindResult → Resolution
  resolve_matches imp from [] = failed not_found
  resolve_matches imp from (m ∷ []) =
      if m.is_self_import from || is_same_import ix.repo_name from m.label
      then failed skip_import
      else resolved m.label
  resolve_matches imp from (m ∷ m' ∷ matches) = failed (multiple_rules m.label m'.label imp from)

  -- `resolveWithIndex`
  unfoldable pub resolve_with_index : Text → Text → Text → Label → Resolution
  unfolding resolve_matches is_same_import
  resolve_with_index lang imp_lang imp from =
      resolve_matches imp from (ix.find_rules lang imp_lang imp)

  missing_is_no_label : Resolution → Resolution
  missing_is_no_label (failed not_found) = resolved no_label
  missing_is_no_label resolution = resolution

  -- `resolveAnyKind`
  unfoldable pub resolve_any_kind : Text → Text → Text → Label → Resolution
  unfolding missing_is_no_label resolve_with_index
  resolve_any_kind lang imp_lang imp from = elim (ix.find_override lang imp_lang imp) [
    | some l ↦ resolved l
    | none ↦ missing_is_no_label (resolve_with_index lang imp_lang imp from)
  ]

-- What a rule holds that the resolver reads and writes: its kind, the language that its private
-- attribute gives, the attribute for the dependencies, and the unresolved imports.
pub record DepsRule : Type 0 where
  pub kind : Text
  pub imp_lang : Option Text
  pub attr : Option (List Text)
  pub unresolved : Option (Dict Text ResolveError)

-- What one import comes to.
pub data ImportOutcome : Type 0 where
  skipped : ImportOutcome
  unresolved : ResolveError → ImportOutcome
  dependency : Text → ImportOutcome

-- The set of dependencies and the unresolved imports.
abbrev Gathered : Type 0
Gathered = Dict Text Bool × Dict Text ResolveError

-- What the loop does with an outcome.
record_outcome : Text → ImportOutcome → Gathered → Gathered
record_outcome imp skipped g = g
record_outcome imp (unresolved e) (dep_set, errors) = (dep_set, insert imp e errors)
record_outcome imp (dependency d) (dep_set, errors) = (insert d true dep_set, errors)

module _ (ext : External) (ix : Index) (exclude_wkt : Bool) (r : DepsRule) (from : Label) where
  outcome_of : Resolution → ImportOutcome
  outcome_of (failed skip_import) = skipped
  outcome_of (failed e) = unresolved e
  outcome_of (resolved l) =
      if l == no_label
      then unresolved no_label_found
      else dependency (ext.label_string (ext.label_rel l from.repo from.pkg))

  -- The body of the loop over the imports.
  unfoldable pub import_outcome : Text → ImportOutcome
  unfolding outcome_of resolve_any_kind
  import_outcome imp =
      if exclude_wkt && has_prefix imp (bytes "google/protobuf/")
      then skipped
      else outcome_of (resolve_any_kind ix (bytes "protobuf") (or_zero r.kind r.imp_lang) imp from)

  -- The imports in order, from the dependencies and the errors so far.
  gather : Gathered → List Text → Gathered
  gather g [] = g
  gather g (imp ∷ imports) = gather (record_outcome imp (import_outcome imp) g) imports

-- The set that the loop starts from.
set_of : Dict Text Bool → List Text → Dict Text Bool
set_of dep_set [] = dep_set
set_of dep_set (d ∷ existing) = set_of (insert d true dep_set) existing

finish : DepsRule → Gathered → DepsRule
finish r (dep_set, errors) = record {
  kind = r.kind;
  imp_lang = r.imp_lang;
  attr = if is_empty dep_set then none else some (sort_strings (keys dep_set));
  unresolved = if is_empty errors then r.unresolved else some errors;
}

-- The resolver that `ResolveDepsAttr` returns for an attribute.
unfoldable pub resolve_deps_attr : External → Index → Bool → DepsRule → List Text → Label → DepsRule
unfolding set_of gather finish record_outcome import_outcome
resolve_deps_attr ext ix exclude_wkt r imports from =
    finish r (gather ext ix exclude_wkt r from (set_of [] (or_zero [] r.attr), []) imports)
