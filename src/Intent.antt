-- ===== src/Intent.antt =====
-- pkg/protoc/intent.go: values with an optional sign, and maps from values to signs.
pub mod Selection
use rules_proto.Base.{Text, bytes, Bool, true, false, not, List, [], ◌∷◌, ◌||◌, if◌then◌else◌}
use rules_proto.Base.Dict.{Dict}
use rules_proto.Base.Sort.{sort_strings}
use rules_proto.Go.Strings.{trim_space, has_prefix}

pub record Intent : Type 0 where
  pub value : Text
  pub want : Bool

-- `value[1:]`, on texts that are known to have a first byte
abbrev pub behind_first : Text → Text
behind_first [] = []
behind_first (_ ∷ s) = s

-- `parseIntent`
unfoldable pub parse_intent : Text → Intent
parse_intent text =
    let value = trim_space text in
    let negative = has_prefix value (bytes "-") in
    let positive = has_prefix value (bytes "+") in
    record {
      value = if negative || positive then behind_first value else value;
      want = not negative;
    }

-- `if intent != want`
abbrev pub differs : Bool → Bool → Bool
differs true b = not b
differs false b = b

-- The loop of `ForIntent`, and that of `GetRulesByIntent`.
unfoldable pub vals_for_intent : Dict Text Bool → Bool → List Text
vals_for_intent [] want = []
vals_for_intent ((val, intent) ∷ d) want =
    let rest = vals_for_intent d want in if differs intent want then rest else val ∷ rest

-- `ForIntent`
unfoldable pub for_intent : Dict Text Bool → Bool → List Text
unfolding vals_for_intent
for_intent d want = sort_strings (vals_for_intent d want)
