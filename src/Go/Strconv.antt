-- ===== src/Go/Strconv.antt =====
-- Package `strconv`.
use rules_proto.Base.{Text, bytes, Bool, true, false, List, [], ◌∷◌, Option, none, some}
use rules_proto.Base.{contains, text_eq, text_beq, if◌then◌else◌}

abbrev trues : List Text
trues = bytes "1" ∷ bytes "t" ∷ bytes "T" ∷ bytes "true" ∷ bytes "TRUE" ∷ bytes "True" ∷ []

abbrev falses : List Text
falses = bytes "0" ∷ bytes "f" ∷ bytes "F" ∷ bytes "false" ∷ bytes "FALSE" ∷ bytes "False" ∷ []

-- `strconv.ParseBool(s)`; `none` is the syntax error.
unfoldable pub parse_bool : Text → Option Bool
unfolding contains text_beq
parse_bool s =
    if contains trues s then some true else if contains falses s then some false else none
