-- ===== src/Go/Strings/Defs.antt =====
-- The functions of package `strings`.
use mathlib.Core.List.{reverse}
use rules_proto.Base.{ℕ, zero, suc, Text, Bool, true, false, List, [], ◌∷◌, ◌++◌, ◌||◌}
use rules_proto.Base.{Option, none, some, ◌=ℕ◌, if◌then◌else◌, ltb, length}

-- ' ', '\t', '\n', '\v', '\f', '\r'
unfoldable pub is_space : ℕ → Bool
is_space c = c =ℕ 32 || c =ℕ 9 || c =ℕ 10 || c =ℕ 11 || c =ℕ 12 || c =ℕ 13

-- The rest of a text behind a prefix.
unfoldable pub strip_prefix : Text → Text → Option Text
strip_prefix s [] = some s
strip_prefix [] (_ ∷ _) = none
strip_prefix (x ∷ s) (p ∷ ps) = if x =ℕ p then strip_prefix s ps else none

abbrev pub found : Option Text → Bool
found none = false
found (some _) = true

-- `strings.HasPrefix(s, prefix)`
unfoldable pub has_prefix : Text → Text → Bool
unfolding strip_prefix
has_prefix s p = found (strip_prefix s p)

abbrev or_whole : Text → Option Text → Text
or_whole s none = s
or_whole s (some rest) = rest

-- `strings.TrimPrefix(s, prefix)`
unfoldable pub trim_prefix : Text → Text → Text
unfolding strip_prefix
trim_prefix s p = or_whole s (strip_prefix s p)

-- `strings.HasSuffix(s, suffix)`
unfoldable pub has_suffix : Text → Text → Bool
unfolding has_prefix
has_suffix s p = has_prefix (reverse s) (reverse p)

-- `strings.TrimSuffix(s, suffix)`
unfoldable pub trim_suffix : Text → Text → Text
unfolding trim_prefix
trim_suffix s p = reverse (trim_prefix (reverse s) (reverse p))

unfoldable pub trim_left : Text → Text
unfolding is_space
trim_left [] = []
trim_left (c ∷ s) = let rest = trim_left s in if is_space c then rest else c ∷ s

-- `strings.TrimSpace(s)`
unfoldable pub trim_space : Text → Text
unfolding trim_left
trim_space s = reverse (trim_left (reverse (trim_left s)))

abbrev flush : Text → List Text → List Text
flush [] out = out
flush (c ∷ cur) out = (c ∷ cur) ∷ out

-- The fields of a text whose first field begins with `cur`.
unfoldable pub fields_from : Text → Text → List Text
unfolding is_space
fields_from cur [] = flush cur []
fields_from cur (c ∷ s) = elim (is_space c) [
  | true ↦ flush cur (fields_from [] s)
  | false ↦ fields_from (cur ++ c ∷ []) s
]

-- `strings.Fields(s)`
unfoldable pub fields : Text → List Text
unfolding fields_from
fields s = fields_from [] s

-- `strings.Join(parts, sep)`
unfoldable pub join : List Text → Text → Text
join [] sep = []
join (p ∷ []) sep = p
join (p ∷ q ∷ ps) sep = p ++ (sep ++ join (q ∷ ps) sep)

abbrev behind : ℕ → Option (Text × Text) → Option (Text × Text)
behind c none = none
behind c (some (a, b)) = some (c ∷ a, b)

-- A text before and behind the first `sep`, a single byte.
unfoldable pub cut : ℕ → Text → Option (Text × Text)
cut sep [] = none
cut sep (c ∷ s) = let rest = cut sep s in if c =ℕ sep then some ([], s) else behind c rest

-- `strings.SplitN(s, sep, n)` for a single byte
unfoldable pub split_n : ℕ → ℕ → Text → List Text
unfolding cut
split_n zero sep s = []
split_n (suc zero) sep s = s ∷ []
split_n (suc (suc n)) sep s = elim (cut sep s) [
  | none ↦ s ∷ []
  | some (a, b) ↦ a ∷ split_n (suc n) sep b
]

abbrev onto_first : ℕ → List Text → List Text
onto_first c [] = (c ∷ []) ∷ []
onto_first c (p ∷ ps) = (c ∷ p) ∷ ps

-- `strings.Split(s, sep)` for a single byte
unfoldable pub split : ℕ → Text → List Text
split sep [] = [] ∷ []
split sep (c ∷ s) = let rest = split sep s in if c =ℕ sep then [] ∷ rest else onto_first c rest

-- `strings.ReplaceAll(s, from, to)` for single bytes
unfoldable pub replace_byte : ℕ → ℕ → Text → Text
replace_byte from to [] = []
replace_byte from to (c ∷ s) = (if c =ℕ from then to else c) ∷ replace_byte from to s

-- `dropCR`
abbrev pub drop_cr : Text → Text
drop_cr [] = []
drop_cr (c ∷ []) = if c =ℕ 13 then [] else c ∷ []
drop_cr (c ∷ d ∷ s) = c ∷ drop_cr (d ∷ s)

-- Whether a line fits in the buffer of a `bufio.Scanner`, of `MaxScanTokenSize` bytes, with a byte
-- to spare for the line break or for the read that meets the end.
abbrev pub fits : Text → Bool
fits line = ltb (length line) 65536

-- The rest of the input at its end is a line unless it is empty.
abbrev pub last_line : Text → List Text
last_line [] = []
last_line (c ∷ s) = if fits (c ∷ s) then drop_cr (c ∷ s) ∷ [] else []

-- The lines that a `bufio.Scanner` finds in a text, up to the first that does not fit, where it
-- stops for good; `line` is what the line holds so far.
unfoldable pub scan_from : Text → Text → List Text
scan_from line [] = last_line line
scan_from line (c ∷ s) = elim (c =ℕ 10) [
  | true ↦ elim (fits line) [ true ↦ drop_cr line ∷ scan_from [] s | false ↦ [] ]
  | false ↦ scan_from (line ++ c ∷ []) s
]

unfoldable pub scan_lines : Text → List Text
unfolding scan_from
scan_lines s = scan_from [] s
