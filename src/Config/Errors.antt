-- ===== src/Config/Errors.antt =====
-- The errors of the configuration code, by the place that makes them. An operation returns the
-- new state beside the error, since what was written before an error stays written.
use rules_proto.Base.{ℕ, Text, Option, some}
use rules_proto.Rewrite.{RewriteError}

-- A directive of a build file (`rule.Directive`).
pub record Directive : Type 0 where
  pub key : Text
  pub value : Text

pub data Section : Type 0 where
  plugin rule language : Section

pub data Error : Type 0 where
  bad_bool bad_label unknown_parameter : Text → Error
  bad_rewrite : Text → RewriteError → Error
  attr_name_missing attr_value_missing : Text → Error
  field_count : Directive → ℕ → Error
  in_directive : Directive → Error → Error
  yaml_name_missing : Section → Error
  yaml_mismatch : Section → Text → Text → Error

-- A state, and the error that a Go function returned, if any.
abbrev pub Outcome {ℓ} : Type ℓ → Type ℓ
Outcome S = S × Option Error

-- The error is not that of an entry whose name differs from its configuration's.
abbrev pub IsMatched : Option Error → Type 0
IsMatched (some (yaml_mismatch _ _ _)) = ⊥
IsMatched _ = Unit
