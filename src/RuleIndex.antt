-- ===== src/RuleIndex.antt =====
-- pkg/protoc/ruleindex.go: the rules of the run by their labels.
use rules_proto.Base.{Option, ◌≡◌, some, ◌==◌, if◌then◌else◌}
use rules_proto.Base.Dict.{Dict, lookup, insert, lookup-insert}
use rules_proto.External.{Label, label_eq}
use rules_proto.Gazelle.{BuildRule}

-- `ruleIndex`
pub record RuleIndex : Type 0 where
  pub rules : Dict Label BuildRule

-- `Put`
unfoldable pub put : RuleIndex → Label → BuildRule → RuleIndex
put r from rule = record { rules = insert from rule r.rules }

-- `Get`; `none` is nil.
unfoldable pub get : RuleIndex → Label → Option BuildRule
get r from = lookup from r.rules

-- A rule is found under the label that it was put under last, and no other label is affected.
pub get-put :
    (r : RuleIndex) (from at : Label) (rule : BuildRule)
    → get (put r from rule) at ≡ (if from == at then some rule else get r at)
unfolding get put
get-put r from at rule = lookup-insert from at rule r.rules
