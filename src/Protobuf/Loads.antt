-- ===== src/Protobuf/Loads.antt =====
-- pkg/language/protobuf/kinds.go: the kinds of rules and the files that they are loaded from. A
-- fatal log is `none`.
use rules_proto.Base.{Text, bytes, true, false, List, [], ◌∷◌, ◌++◌, Option, none, some, text_eq}
use rules_proto.Base.{is_empty}
use rules_proto.Base.Dict.{Dict, keys, lookup, insert, or_zero}
use rules_proto.Base.Sort.{sort_strings}
use rules_proto.Registry.{Registry, found, missing, lookup_rule, rule_names}

-- What the methods `Name`, `KindInfo` and `LoadInfo` of a rule return, over the type of kinds.
pub record RuleInfo (Kind : Type 0) : Type 0 where
  pub name : Text
  pub kind : Kind
  pub load_name : Text
  pub symbols : List Text

module _ {Kind : Type 0} {Plugin : Type 0} (registry : Registry (RuleInfo Kind) Plugin) where
  -- The loop of `Kinds`; `none` is a fatal end: an unknown name, or a second rule of a kind.
  unfoldable pub kinds_from : Dict Text Kind → List Text → Option (Dict Text Kind)
  kinds_from kinds [] = some kinds
  kinds_from kinds (name ∷ names) = elim (lookup_rule registry name) [
    | missing _ ↦ none
    | found rule ↦ elim (lookup rule.name kinds) [
      | some _ ↦ none
      | none ↦ kinds_from (insert rule.name rule.kind kinds) names
    ]
  ]

  -- `Kinds`, from the kind of the override rule
  unfoldable pub kinds : Kind → Option (Dict Text Kind)
  unfolding kinds_from
  kinds override_kind =
      kinds_from ((bytes "proto_library_override", override_kind) ∷ []) (rule_names registry)

  -- The first loop of `Loads`; `none` is a fatal end.
  unfoldable pub symbols_from : Dict Text (List Text) → List Text → Option (Dict Text (List Text))
  symbols_from by_name [] = some by_name
  symbols_from by_name (name ∷ names) = elim (lookup_rule registry name) [
    | missing _ ↦ none
    | found rule ↦ elim (is_empty rule.load_name) [
      | true ↦ none
      | false ↦
          symbols_from
            (insert rule.load_name (or_zero [] (lookup rule.load_name by_name) ++ rule.symbols)
              by_name)
            names
    ]
  ]

-- The last loop of `Loads`: the files in order, each with its symbols in order.
unfoldable pub loads_of : Dict Text (List Text) → List Text → List (Text × List Text)
loads_of by_name [] = []
loads_of by_name (name ∷ names) =
    (name, sort_strings (or_zero [] (lookup name by_name))) ∷ loads_of by_name names

-- `Loads`
unfoldable pub loads :
    {Kind Plugin : Type 0} → Registry (RuleInfo Kind) Plugin → Option (List (Text × List Text))
unfolding symbols_from loads_of
loads registry = elim (symbols_from registry [] (rule_names registry)) [
  | none ↦ none
  | some by_name ↦ some (loads_of by_name (sort_strings (keys by_name)))
]
