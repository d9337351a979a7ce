-- ===== src/Config/Signs.antt =====
-- Maps from values to signs, as the configuration code fills them.
use rules_proto.Base.{Text, Bool, true, List, [], ◌∷◌, Distinct, text_eq}
use rules_proto.Base.Dict.{Dict, keys, insert, Distinct-keys-insert}

-- `for _, v := range list { m[v] = true }`
unfoldable pub want_all : List Text → Dict Text Bool → Dict Text Bool
want_all [] m = m
want_all (v ∷ vs) m = want_all vs (insert v true m)

pub want_all-Distinct :
    (vs : List Text) (m : Dict Text Bool) → Distinct (keys m) → Distinct (keys (want_all vs m))
unfolding want_all
want_all-Distinct [] m h = h
want_all-Distinct (v ∷ vs) m h =
    want_all-Distinct vs (insert v true m) (Distinct-keys-insert v true m h)
