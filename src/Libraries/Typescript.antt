-- ===== src/Libraries/Typescript.antt =====
-- pkg/rule/rules_nodejs/proto_ts_library.go and pkg/rule/rules_scala/scala_proto_library.go. The
-- parser of flags is a parameter; its fatal end is `none`.
use rules_proto.Base.{Text, bytes, Bool, false, List, [], ◌∷◌, ◌++◌, Option, none, some, text_eq}
use rules_proto.Base.{if◌then◌else◌, is_empty}
use rules_proto.Go.Strings.{has_suffix}
use rules_proto.External.{External, Label}
use rules_proto.Gazelle.{BuildRule, new_rule, set_attr, set_nonempty, texts_value, text_value}
use rules_proto.Config.Rule.{LanguageRuleConfig, get_deps, get_visibility, get_attr, get_options}
use rules_proto.Sources.{ProtocConfiguration}
use rules_proto.Deps.{Index}
use rules_proto.Deps.OnRule.{resolve_deps}

-- `tsLibrary`; the flag is `includeProtoLibraryData`.
pub record TsLibrary : Type 0 where
  pub include_proto_library_data : Bool
  pub outputs : List Text
  pub config : ProtocConfiguration
  pub rule_config : LanguageRuleConfig

-- The loop of `ProvideRule`.
pub ts_outputs : List Text → List Text
ts_outputs [] = []
ts_outputs (out ∷ outputs) =
    let rest = ts_outputs outputs in if has_suffix out (bytes ".ts") then out ∷ rest else rest

-- `protoTsLibrary.ProvideRule`: the outer `none` is the fatal end, the inner one nil.
unfoldable pub provide_ts :
    (List Text → Option Bool) → LanguageRuleConfig → ProtocConfiguration → Option (Option TsLibrary)
unfolding ts_outputs
provide_ts parse cfg pc = elim (parse (get_options cfg)) [
  | none ↦ none
  | some data_flag ↦
      let outputs = ts_outputs pc.outputs in
      if is_empty outputs
      then some none
      else some (
          some (record {
            include_proto_library_data = data_flag;
            outputs = outputs;
            config = pc;
            rule_config = cfg;
          }))
]

-- The last entry of `tsc`, if there is one; a warning is left out.
unfoldable pub set_last : Text → List Text → BuildRule → BuildRule
set_last key [] r = r
set_last key (v ∷ []) r = set_attr key (text_value v) r
set_last key (v ∷ w ∷ vs) r = set_last key (w ∷ vs) r

-- `tsLibrary.Rule`
unfoldable pub ts_rule : TsLibrary → BuildRule
unfolding set_last
ts_rule s =
    let r = set_nonempty (bytes "args") (get_attr s.rule_config (bytes "args")) (
      set_last (bytes "tsc") (get_attr s.rule_config (bytes "tsc")) (
        set_nonempty (bytes "deps") (get_deps s.rule_config) (
          set_attr (bytes "srcs") (texts_value s.outputs) (
            new_rule (bytes "proto_ts_library")
              (s.config.library.base_name ++ bytes "_ts_proto"))))) in
    set_nonempty (bytes "visibility") (get_visibility s.rule_config) (
      if s.include_proto_library_data
      then set_attr (bytes "data") (texts_value (s.config.library.name ∷ [])) r
      else r)

-- `tsLibrary.Resolve`; well-known imports resolve too.
unfoldable pub resolve_ts : External → Index → BuildRule → List Text → Label → BuildRule
resolve_ts ext ix r imports from =
    let (r', unresolved) = resolve_deps ext ix false none r imports from in r'

-- `scalaProtoLibraryRule.Rule`
unfoldable pub scala_proto_rule : LanguageRuleConfig → ProtocConfiguration → BuildRule
scala_proto_rule cfg pc =
    set_nonempty (bytes "visibility") (get_visibility cfg)
      (new_rule (bytes "scala_proto_library") (pc.library.base_name ++ bytes "_scala_proto"))

-- `scalaProtoLibraryRule.Resolve`
unfoldable pub resolve_scala_proto : ProtocConfiguration → BuildRule → BuildRule
resolve_scala_proto pc r =
    set_attr (bytes "deps") (texts_value ((bytes ":" ++ pc.library.name) ∷ [])) r
