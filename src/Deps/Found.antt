-- ===== src/Deps/Found.antt =====
-- Which label an import resolves to.
use rules_proto.Base.{Text, List, [], ◌∷◌, ◌≡◌, refl, arith, false, none, some}
use rules_proto.Base.{inl, inr, ◌⊎◌, ◌==◌, text_eq, ◌&&◌, Option-cases}
use rules_proto.Base.{is_empty}
use rules_proto.External.{Label, label_eq, no_label, new_label}
use rules_proto.Deps.{
  Index, FindResult, resolved, is_same_import, resolve_with_index, resolve_any_kind,
  resolve_matches, missing_is_no_label,
}

-- A label that another label does not import itself by: another one, also with the name of the
-- repository in it.
pub record IsForeign (repo_name : Text) (from l : Label) : Type 0 where
  pub differs : (from == l) ≡ false
  pub differs_named : (is_empty l.repo && (from == new_label repo_name l.pkg l.name)) ≡ false

is_same_import-IsForeign :
    (repo_name : Text) (from l : Label)
    → is_same_import repo_name from l ≡ false
    → IsForeign repo_name from l
unfolding is_same_import
is_same_import-IsForeign repo_name from l h = record {
  differs = ground (arith, h);
  differs_named = ground (arith, h);
}

-- What stands behind a label that is found: the only rule, which is not the importing one.
pub record IsMatch (ix : Index) (matches : List FindResult) (from l : Label) : Type 0 where
  pub match : FindResult
  pub only : matches ≡ match ∷ []
  pub label : match.label ≡ l
  pub other : match.is_self_import from ≡ false
  pub foreign : IsForeign ix.repo_name from l

resolve_matches_found :
    (ix : Index) (imp : Text) (from l : Label) (matches : List FindResult)
    → resolve_matches ix imp from matches ≡ resolved l
    → IsMatch ix matches from l
unfolding resolve_matches
resolve_matches_found ix imp from l [] h = absurd (ground arith)
resolve_matches_found ix imp from l (m ∷ []) h = record {
  match = m;
  only = refl;
  label = ground arith;
  other = ground arith;
  foreign = is_same_import-IsForeign ix.repo_name from l (ground arith);
}
resolve_matches_found ix imp from l (m ∷ m' ∷ matches) h = absurd (ground arith)

missing_found :
    (ix : Index) (imp : Text) (from l : Label) (matches : List FindResult)
    → missing_is_no_label ix (resolve_matches ix imp from matches) ≡ resolved l
    → ((matches ≡ []) × (l ≡ no_label)) ⊎ IsMatch ix matches from l
unfolding resolve_matches missing_is_no_label
missing_found ix imp from l [] h = inl (refl, ground arith)
missing_found ix imp from l (m ∷ []) h =
    inr (resolve_matches_found ix imp from l (m ∷ []) (unfold resolve_matches in ground arith))
missing_found ix imp from l (m ∷ m' ∷ matches) h = absurd (ground arith)

-- A resolved label is that of the override, if there is one. Without an override it is that of the
-- only rule that the index has for the import, which is not the importing rule and has not its
-- label, also with the name of the repository in it; or else the index has no rule and the label is
-- the empty one.
pub resolve_any_kind_found :
    (ix : Index) (lang imp_lang imp : Text) (from l : Label)
    → resolve_any_kind ix lang imp_lang imp from ≡ resolved l
    → (ix.find_override lang imp_lang imp ≡ some l)
      ⊎ ((ix.find_override lang imp_lang imp ≡ none)
          × (((ix.find_rules lang imp_lang imp ≡ []) × (l ≡ no_label))
              ⊎ IsMatch ix (ix.find_rules lang imp_lang imp) from l))
unfolding resolve_any_kind resolve_with_index
resolve_any_kind_found ix lang imp_lang imp from l h =
    elim (Option-cases (ix.find_override lang imp_lang imp)) [
      | inl free ↦ inr (
        free,
        missing_found ix imp from l (ix.find_rules lang imp_lang imp) (ground (arith, free, h)),
      )
      | inr (o, given) ↦ inl (ground (arith, given, h))
    ]
