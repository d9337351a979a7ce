-- ===== src/External.antt =====
-- What the program calls of other libraries: the labels of bazel-gazelle
-- (github.com/bazelbuild/bazel-gazelle/label), whose fields the program reads and writes itself,
-- and regular expressions (package `regexp`). The calls are the fields of `External`.
use rules_proto.Base.{Text, Bool, true, false, ◌&&◌, Option, ◌≡◌, ◌↔◌, arith}
use rules_proto.Base.{Eq, ◌==◌, text_eq, eq_iff, []}

pub record Label : Type 0 where
  pub repo : Text
  pub pkg : Text
  pub name : Text
  pub relative : Bool

-- `label.New`
abbrev pub new_label : Text → Text → Text → Label
new_label repo pkg name = record { repo = repo; pkg = pkg; name = name; relative = false }

-- `label.NoLabel`
abbrev pub no_label : Label
no_label = record { repo = []; pkg = []; name = []; relative = false }

abbrev bool_beq : Bool → Bool → Bool
bool_beq true b = b
bool_beq false true = false
bool_beq false false = true

-- Go's `==` on label structs
unfoldable pub label_beq : Label → Label → Bool
label_beq a b =
    (a.repo == b.repo) && (a.pkg == b.pkg) && (a.name == b.name) && bool_beq a.relative b.relative

pub label_beq_iff : (a b : Label) → (label_beq a b ≡ true) ↔ (a ≡ b)
unfolding label_beq
label_beq_iff a b = ground (arith, eq_iff a.repo b.repo, eq_iff a.pkg b.pkg, eq_iff a.name b.name)

instance abbrev pub label_eq : Eq Label
label_eq = record { test = label_beq; test_iff = label_beq_iff }

pub record External : Type 0 where
  -- `label.Parse`, `none` for its error
  pub parse_label : Text → Option Label
  -- `Label.String`
  pub label_string : Label → Text
  -- `Label.Rel(repo, pkg)`
  pub label_rel : Label → Text → Text → Label
  -- whether `regexp.Compile` accepts a pattern; a compiled expression is kept as its pattern
  pub compiles : Text → Bool
  -- `ReplaceAllString(src, repl)` of the expression compiled from a pattern
  pub replace_all_string : Text → Text → Text → Text
