-- ===== src/Scala/Filter.antt =====
-- The filters of Scala libraries.
use rules_proto.Base.{Text, Bool, false, not, List, [], ◌∷◌, Option, some, ◌+◌}
use rules_proto.Base.{text_eq, ◌&&◌, ◌||◌, contains, length, is_empty, ◌≡◌, refl, ap, arith}
use rules_proto.Base.{Bool-cases, inl, inr, eq_iff, All}
use rules_proto.File.{ProtoFile, has_services}
use rules_proto.Scala.{
  ScalaLibraryOptions, filter_files, message_files, service_files, any_match, keep_matches,
  filter_outputs,
}

-- Each file of a library is either a message file or a service file.
pub length-message_files :
    (files : List ProtoFile)
    → length (message_files files) + length (service_files files) ≡ length files
unfolding message_files service_files filter_files
length-message_files [] = refl
length-message_files (f ∷ files) = elim (Bool-cases (has_services f)) [
  | inl e ↦ rw e (omega (arith, length-message_files files))
  | inr e ↦ rw e (omega (arith, length-message_files files))
]

module _ (path_match : Text → Text → Option Bool) (test : Text → Text → Bool) where
  -- A pattern that is well formed: it is matched, without an error, as the test says.
  abbrev pub IsValid : Text → Type 0
  IsValid pattern = (value : Text) → path_match pattern value ≡ some (test pattern value)

  -- Whether a pattern of a list matches.
  abbrev pub any_test : List Text → Text → Bool
  any_test [] value = false
  any_test (p ∷ patterns) value = test p value || any_test patterns value

  any_match_lem :
      (patterns : List Text) (value : Text)
      → All IsValid patterns
      → any_match path_match patterns value ≡ some (any_test patterns value)
  unfolding any_match
  any_match_lem [] value valid = refl
  any_match_lem (p ∷ patterns) value valid = elim (Bool-cases (test p value)) [
    | inl e ↦ rw (valid.0 value, any_match, e) refl
    | inr e ↦ rw (valid.0 value, any_match, e) (any_match_lem patterns value valid.1)
  ]

  keep_matches_lem :
      (keep : Bool → Bool) (patterns values : List Text)
      → All IsValid patterns
      → (out : List Text) × (keep_matches path_match keep patterns values ≡ some out)
        × ((x : Text) → contains out x ≡ (contains values x && keep (any_test patterns x)))
  unfolding keep_matches contains
  keep_matches_lem keep patterns [] valid = ([], refl, λ x. refl)
  keep_matches_lem keep patterns (v ∷ values) valid =
      let (out, e, h) = keep_matches_lem keep patterns values valid in
      let same : (x : Text) → x ≡ v → keep (any_test patterns x) ≡ keep (any_test patterns v) =
        λ x q. ap (λ y. keep (any_test patterns y)) q in
      elim (Bool-cases (keep (any_test patterns v))) [
        | inl k ↦ (
          v ∷ out,
          rw (any_match_lem patterns v valid, keep_matches, k, e) refl,
          λ x. ground (arith, h x, k, same x, eq_iff x v),
        )
        | inr k ↦ (
          out,
          rw (any_match_lem patterns v valid, keep_matches, k, e) refl,
          λ x. ground (arith, h x, k, same x, eq_iff x v),
        )
      ]

  -- Where the patterns of the options are well formed, the filter does not fail, and keeps the outputs that an include
  -- pattern matches, if there is one, and that no exclude pattern matches.
  pub filter_outputs_lem :
      (o : ScalaLibraryOptions) (values : List Text)
      → All IsValid o.include
      → All IsValid o.exclude
      → (out : List Text) × (filter_outputs path_match o values ≡ some out)
        × ((x : Text)
            → contains out x ≡ (
                contains values x
                && (is_empty o.include || any_test o.include x)
                && not (any_test o.exclude x)))
  unfolding filter_outputs
  filter_outputs_lem o values include exclude = elim (Bool-cases (is_empty o.include)) [
    | inl e ↦
        let (out, run, h) = keep_matches_lem not o.exclude values exclude in
        (out, rw (e, filter_outputs) run, λ x. ground (arith, h x, e))
    | inr e ↦
        let (files, first, k) = keep_matches_lem (λ b. b) o.include values include in
        let (out, run, h) = keep_matches_lem not o.exclude files exclude in
        (out, rw (e, filter_outputs, first) run, λ x. ground (arith, h x, k x, e))
  ]
