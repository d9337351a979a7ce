-- ===== src/GoPlugin/Options.antt =====
-- The `M` options: how they are read, and which of them a rule keeps.
use rules_proto.Base.{Text, bytes, List, [], ◌∷◌, ◌++◌, ◌≡◌, refl, arith, sym, ap, ◌∙◌}
use rules_proto.Base.{Option, none, some, ◌==◌, text_eq, if◌then◌else◌, eq_iff, ◌⊎◌, inl, inr}
use rules_proto.Base.{append-nil, append_assoc, Bool-cases}
use rules_proto.Base.Dict.{Dict, lookup, insert, lookup-insert, is_some}
use rules_proto.Go.Strings.{Lacks, strip_prefix-append, split_n_two}
use rules_proto.GoPlugin.{
  GoOption, plain, mapping, classify, mapping_of_parts, import_mappings_from, get_import_mappings,
  resolve_plugin_options,
}

-- `Mimp=target` is read as an association, when `imp` has no `=`.
pub classify_mapping :
    (imp target : Text)
    → Lacks 61 imp
    → classify (bytes "M" ++ (imp ++ (bytes "=" ++ target))) ≡ mapping imp target
unfolding classify mapping_of_parts
classify_mapping imp target h = ground (
  arith,
  split_n_two 61 imp target h,
  strip_prefix-append (bytes "M") (imp ++ (bytes "=" ++ target)),
)

option_cases : (o : GoOption) → (o ≡ plain) ⊎ ((i : Text) × (t : Text) × (o ≡ mapping i t))
option_cases plain = inl refl
option_cases (mapping i t) = inr (i, t, refl)

-- The options that are no associations.
abbrev plain_options : List Text → List Text
plain_options [] = []
plain_options (opt ∷ options) =
    let rest = plain_options options in
    elim (classify opt) [ plain ↦ opt ∷ rest | mapping i t ↦ rest ]

-- The target of the last association of an import, or else the given one.
abbrev last_target : Text → List Text → Option Text → Option Text
last_target imp [] v = v
last_target imp (opt ∷ options) v = elim (classify opt) [
  | plain ↦ last_target imp options v
  | mapping i t ↦ last_target imp options (if i == imp then some t else v)
]

rest-import_mappings_from :
    (options : List Text) (mappings : Dict Text Text) (rest : List Text)
    → (import_mappings_from mappings rest options).1 ≡ rest ++ plain_options options
unfolding import_mappings_from
rest-import_mappings_from [] mappings rest = sym (append-nil rest)
rest-import_mappings_from (opt ∷ options) mappings rest = elim (option_cases (classify opt)) [
  | inl e ↦
      rw (e, import_mappings_from, plain_options)
        (rest-import_mappings_from options mappings (rest ++ opt ∷ [])
          ∙ append_assoc rest (opt ∷ []) (plain_options options))
  | inr (i, t, e) ↦
      rw (e, import_mappings_from, plain_options)
        (rest-import_mappings_from options (insert i t mappings) rest)
]

lookup-import_mappings_from :
    (imp : Text) (options : List Text) (mappings : Dict Text Text) (rest : List Text)
    → lookup imp (import_mappings_from mappings rest options).0
      ≡ last_target imp options (lookup imp mappings)
unfolding import_mappings_from
lookup-import_mappings_from imp [] mappings rest = refl
lookup-import_mappings_from imp (opt ∷ options) mappings rest = elim (option_cases (classify opt)) [
  | inl e ↦
      rw (e, import_mappings_from, last_target)
        (lookup-import_mappings_from imp options mappings (rest ++ opt ∷ []))
  | inr (i, t, e) ↦
      rw (e, import_mappings_from, last_target)
        (lookup-import_mappings_from imp options (insert i t mappings) rest
          ∙ ap (last_target imp options) (lookup-insert i imp t mappings))
]

plain-resolve :
    (transitive : Dict Text Text) (options : List Text)
    → plain_options (resolve_plugin_options transitive options) ≡ plain_options options
unfolding resolve_plugin_options
plain-resolve transitive [] = refl
plain-resolve transitive (opt ∷ options) = elim (option_cases (classify opt)) [
  | inl e ↦ ground (arith, e, plain-resolve transitive options)
  | inr (i, t, e) ↦ ground (arith, e, plain-resolve transitive options)
]

last-resolve :
    (imp : Text) (transitive : Dict Text Text) (options : List Text) (v : Option Text)
    → last_target imp
        (resolve_plugin_options transitive options)
        (if is_some (lookup imp transitive) then v else none)
      ≡ (if is_some (lookup imp transitive) then last_target imp options v else none)
unfolding resolve_plugin_options
last-resolve imp transitive [] v = refl
last-resolve imp transitive (opt ∷ options) v = elim (option_cases (classify opt)) [
  | inl e ↦ ground (arith, e, last-resolve imp transitive options v)
  | inr (i, t, e) ↦ elim (Bool-cases (i == imp)) [
    | inl same ↦ ground (
      arith,
      e,
      same,
      ap (λ j. lookup j transitive) ((eq_iff i imp).0 same),
      last-resolve imp transitive options (some t),
      last-resolve imp transitive options v,
    )
    | inr other ↦ ground (arith, e, other, last-resolve imp transitive options v)
  ]
]

-- The options that a rule keeps: all that are no associations, and the associations of the files
-- that have a transitive mapping, so that the mappings read from them are restricted to those.
pub resolve_plugin_options_lem :
    (transitive : Dict Text Text) (options : List Text) (imp : Text)
    → let kept = get_import_mappings (resolve_plugin_options transitive options) in
      let all = get_import_mappings options in
      (kept.1 ≡ all.1)
      × (lookup imp kept.0 ≡ (if is_some (lookup imp transitive) then lookup imp all.0 else none))
unfolding get_import_mappings lookup
resolve_plugin_options_lem transitive options imp =
    let kept = resolve_plugin_options transitive options in
    (
      rest-import_mappings_from kept [] []
          ∙ plain-resolve transitive options
          ∙ sym (rest-import_mappings_from options [] []),
      lookup-import_mappings_from imp kept [] []
          ∙ ground (
            arith,
            last-resolve imp transitive options none,
            lookup-import_mappings_from imp options [] [],
          ),
    )
