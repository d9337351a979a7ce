-- ===== src/File/Pascal.antt =====
-- pkg/protoc/file.go: `ToPascalCase`, for ASCII.
use rules_proto.Base.{
  ℕ, Text, Bool, true, false, [], ◌∷◌, ◌||◌, ◌=ℕ◌, if◌then◌else◌, All, ◌≡◌, arith,
}
use rules_proto.Base.{Bool-cases, inl, inr}
use rules_proto.Go.Strings.{trim_space}
use rules_proto.Go.Case.{upper, lower, is_upper, is_lower}

-- `isDelimiter`
unfoldable pub is_delimiter : ℕ → Bool
is_delimiter c = c =ℕ 46 || c =ℕ 45 || c =ℕ 95 || c =ℕ 32 || c =ℕ 9 || c =ℕ 10 || c =ℕ 13

-- The loop, behind the start of the text or a delimiter, or not.
unfoldable pub pascal_from : Bool → Text → Text
unfolding is_delimiter
pascal_from starts [] = []
pascal_from starts (c ∷ s) =
    let rest = pascal_from (is_delimiter c) s in
    if is_delimiter c then rest else (if starts || is_upper c then upper c else lower c) ∷ rest

-- `ToPascalCase`
unfoldable pub to_pascal_case : Text → Text
unfolding pascal_from
to_pascal_case s = pascal_from true (trim_space s)

upper_plain : (c : ℕ) → is_delimiter c ≡ false → is_delimiter (upper c) ≡ false
unfolding is_delimiter upper is_lower
upper_plain c h = ground (arith, h)

lower_plain : (c : ℕ) → is_delimiter c ≡ false → is_delimiter (lower c) ≡ false
unfolding is_delimiter lower is_upper
lower_plain c h = ground (arith, h)

pascal_from_plain :
    (starts : Bool) (s : Text) → All (λ c. is_delimiter c ≡ false) (pascal_from starts s)
unfolding pascal_from
pascal_from_plain starts [] = tt
pascal_from_plain starts (c ∷ s) = elim (Bool-cases (is_delimiter c)) [
  | inl e ↦ rw e (pascal_from_plain true s)
  | inr e ↦ elim (Bool-cases (starts || is_upper c)) [
    | inl u ↦ rw (e, u) (upper_plain c e, pascal_from_plain false s)
    | inr u ↦ rw (e, u) (lower_plain c e, pascal_from_plain false s)
  ]
]

-- A name in Pascal case has no delimiter: no '.', '-', '_', space, tab or end of a line.
pub to_pascal_case_lem : (s : Text) → All (λ c. is_delimiter c ≡ false) (to_pascal_case s)
unfolding to_pascal_case
to_pascal_case_lem s = pascal_from_plain true (trim_space s)
