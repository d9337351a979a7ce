-- ===== src/Dedup.antt =====
-- pkg/protoc/package.go: `DeduplicateAndSort`.
pub mod Laws
use rules_proto.Base.{Text, Bool, true, false, List, [], ◌∷◌, text_eq}
use rules_proto.Base.Dict.{Dict, lookup, insert, or_zero}
use rules_proto.Base.Sort.{sort_strings}

-- The loop of `DeduplicateAndSort`
dedup : Dict Text Bool → List Text → List Text
dedup seen [] = []
dedup seen (v ∷ input) = elim (or_zero false (lookup v seen)) [
  | true ↦ dedup seen input
  | false ↦ v ∷ dedup (insert v true seen) input
]

unfoldable pub deduplicate_and_sort : List Text → List Text
unfolding dedup
deduplicate_and_sort [] = []
deduplicate_and_sort (v ∷ input) = sort_strings (dedup [] (v ∷ input))
