-- ===== src/Go/Case.antt =====
-- The functions of packages `strings` and `unicode` on the case of letters, for ASCII.
use rules_proto.Base.{ℕ, Text, Bool, true, [], ◌∷◌, ◌&&◌, ◌||◌, not, ◌+◌, ◌-◌}
use rules_proto.Base.{◌=ℕ◌, leb, if◌then◌else◌}

-- `unicode.IsUpper(c)`
unfoldable pub is_upper : ℕ → Bool
is_upper c = leb 65 c && leb c 90

unfoldable pub is_lower : ℕ → Bool
is_lower c = leb 97 c && leb c 122

-- `unicode.ToUpper(c)`
unfoldable pub upper : ℕ → ℕ
unfolding is_lower
upper c = if is_lower c then c - 32 else c

-- `unicode.ToLower(c)`
unfoldable pub lower : ℕ → ℕ
unfolding is_upper
lower c = if is_upper c then c + 32 else c

-- `strings.ToLower(s)`
unfoldable pub to_lower : Text → Text
unfolding lower
to_lower [] = []
to_lower (c ∷ s) = lower c ∷ to_lower s

-- What does not end a word: letters, digits and '_'.
unfoldable pub in_word : ℕ → Bool
unfolding is_lower is_upper
in_word c = is_lower c || is_upper c || (leb 48 c && leb c 57) || c =ℕ 95

-- The rest of a text, behind a byte that ends a word or not.
pub title_from : Bool → Text → Text
unfolding upper in_word
title_from starts [] = []
title_from starts (c ∷ s) = (if starts then upper c else c) ∷ title_from (not (in_word c)) s

-- `strings.Title(s)`
unfoldable pub title : Text → Text
unfolding title_from
title s = title_from true s
