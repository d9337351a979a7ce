-- ===== src/GoLibrary/Embed.antt =====
-- pkg/rule/rules_go/go_library.go: the methods `Imports` and `Resolve`. A dependency on a rule with
-- the same import path is embedded.
use rules_proto.Base.{Text, bytes, Bool, true, false, not, List, [], ◌∷◌, Option, none, some}
use rules_proto.Base.{◌==◌, text_eq, ◌&&◌, contains, length, ◌+◌, is_empty, ◌≡◌, refl, ◌∙◌, ap}
use rules_proto.Base.{text_beq, if◌then◌else◌, arith, Bool-cases, inl, inr, eq_iff, ◌||◌}
use rules_proto.Dedup.{deduplicate_and_sort}
use rules_proto.Dedup.Laws.{contains-deduplicate_and_sort}
use rules_proto.External.{External, Label, new_label}
use rules_proto.Gazelle.{
  BuildRule, set_attr, attr_string, attr_strings, texts_value, attr_strings-set_attr,
  attr_strings-set_other,
}
use rules_proto.Deps.{Index}
use rules_proto.Deps.OnRule.{resolve_deps}
use rules_proto.RuleIndex.{RuleIndex, get}

-- A label that names no repository and no package is in the package of the rule.
unfoldable pub absolute : Text → Label → Label
absolute rel dl = if is_empty dl.repo && is_empty dl.pkg then new_label [] rel dl.name else dl

abbrev pub has_import_path : Text → Option BuildRule → Bool
has_import_path importpath none = false
has_import_path importpath (some dr) = attr_string (bytes "importpath") dr == importpath

module _ (ext : External) (rules : RuleIndex) (rel importpath : Text) where
  -- Whether the body of the loop of `Resolve` embeds a dependency.
  unfoldable pub embedded : Text → Bool
  unfolding absolute
  embedded dep = elim (ext.parse_label dep) [
    | none ↦ false
    | some dl ↦ has_import_path importpath (get rules (absolute rel dl))
  ]

  -- The loop of `Resolve`: the dependencies to keep, and those to embed.
  unfoldable pub partition : List Text → List Text × List Text
  unfolding embedded
  partition [] = ([], [])
  partition (dep ∷ all) =
      let (deps, embeds) = partition all in
      if embedded dep then (deps, dep ∷ embeds) else (dep ∷ deps, embeds)

-- `SetAttr` of an ordered list under `if len(values) > 0`
unfoldable pub set_sorted : Text → List Text → BuildRule → BuildRule
set_sorted key [] r = r
set_sorted key (v ∷ values) r = set_attr key (texts_value (deduplicate_and_sort (v ∷ values))) r

-- What follows `ResolveDepsAttr` in `Resolve`.
unfoldable pub move_embeds : External → RuleIndex → Text → BuildRule → BuildRule
unfolding partition set_sorted
move_embeds ext rules rel r =
    let (deps, embeds) =
      partition ext rules rel (attr_string (bytes "importpath") r)
        (attr_strings (bytes "deps") r) in
    set_sorted (bytes "embed") embeds (set_sorted (bytes "deps") deps r)

-- `Resolve`
unfoldable pub resolve :
    External → Index → RuleIndex → Text → BuildRule → List Text → Label → BuildRule
unfolding move_embeds
resolve ext ix rules rel r imports from =
    let (r', unresolved) = resolve_deps ext ix true none r imports from in
    move_embeds ext rules rel r'

module _ (ext : External) (rules : RuleIndex) (rel importpath : Text) where
  -- The dependencies of a rule are kept or embedded: none is lost, and none is counted twice.
  pub length-partition :
      (all : List Text)
      → let (deps, embeds) = partition ext rules rel importpath all in
        length deps + length embeds ≡ length all
  unfolding partition
  length-partition [] = refl
  length-partition (dep ∷ all) = elim (Bool-cases (embedded ext rules rel importpath dep)) [
    | inl e ↦ rw (e, partition) (omega (arith, length-partition all))
    | inr e ↦ rw (e, partition) (omega (arith, length-partition all))
  ]

  contains-partition :
      (all : List Text) (x : Text)
      → let (deps, embeds) = partition ext rules rel importpath all in
        (contains deps x ≡ (contains all x && not (embedded ext rules rel importpath x)))
        × (contains embeds x ≡ (contains all x && embedded ext rules rel importpath x))
  unfolding partition contains
  contains-partition [] x = (refl, refl)
  contains-partition (dep ∷ all) x =
      let (h, k) = contains-partition all x in
      let same : dep ≡ x
          → embedded ext rules rel importpath dep ≡ embedded ext rules rel importpath x =
        λ e. ap (embedded ext rules rel importpath) e in
      elim (Bool-cases (embedded ext rules rel importpath dep)) [
        | inl e ↦
            rw (e, partition)
              (
                ground (arith, h, k, e, eq_iff x dep, same),
                ground (arith, h, k, e, eq_iff x dep, same),
              )
        | inr e ↦
            rw (e, partition)
              (
                ground (arith, h, k, e, eq_iff x dep, same),
                ground (arith, h, k, e, eq_iff x dep, same),
              )
      ]

set_sorted-contains :
    (key : Text) (vs : List Text) (r : BuildRule) (x : Text)
    → contains (attr_strings key (set_sorted key vs r)) x
      ≡ (if is_empty vs then contains (attr_strings key r) x else contains vs x)
unfolding set_sorted
set_sorted-contains key [] r x = refl
set_sorted-contains key (v ∷ vs) r x =
    rw attr_strings-set_attr (contains-deduplicate_and_sort (v ∷ vs) x)

set_sorted-other :
    (key other : Text) (vs : List Text) (r : BuildRule)
    → (other == key) ≡ false
    → attr_strings key (set_sorted other vs r) ≡ attr_strings key r
unfolding set_sorted
set_sorted-other key other [] r h = refl
set_sorted-other key other (v ∷ vs) r h = attr_strings-set_other key other _ r h

kept :
    (none_left was moved stays : Bool)
    → stays ≡ (was && not moved)
    → (if none_left then was else stays) ≡ (was && (not moved || none_left))
kept none_left was moved stays h = ground (arith, h)

-- The dependencies that are embedded are those on rules with the import path of the rule, and the
-- others are kept as dependencies; but where all of them are embedded, they also all stay.
pub move_embeds_lem :
    (ext : External) (rules : RuleIndex) (rel : Text) (r : BuildRule) (x : Text)
    → let r' = move_embeds ext rules rel r in
      let ip = attr_string (bytes "importpath") r in
      let all = attr_strings (bytes "deps") r in
      let (deps, embeds) = partition ext rules rel ip all in
      let was = contains (attr_strings (bytes "embed") r) x in
      (contains (attr_strings (bytes "deps") r') x
        ≡ (contains all x && (not (embedded ext rules rel ip x) || is_empty deps)))
      × (contains (attr_strings (bytes "embed") r') x
          ≡ (if is_empty embeds then was else contains all x && embedded ext rules rel ip x))
unfolding move_embeds text_beq
move_embeds_lem ext rules rel r x =
    let ip = attr_string (bytes "importpath") r in
    let all = attr_strings (bytes "deps") r in
    let (deps, embeds) = partition ext rules rel ip all in
    let (h, k) = contains-partition ext rules rel ip all x in
    let moved = set_sorted (bytes "deps") deps r in
    (
      ap (λ l. contains l x) (set_sorted-other (bytes "deps") (bytes "embed") embeds moved refl)
          ∙ set_sorted-contains (bytes "deps") deps r x
          ∙ kept (is_empty deps) (contains all x) (embedded ext rules rel ip x) (contains deps x) h,
      set_sorted-contains (bytes "embed") embeds moved x
          ∙ ap (λ l. if is_empty embeds then contains l x else contains embeds x)
              (set_sorted-other (bytes "embed") (bytes "deps") deps r refl)
          ∙ ap (λ b. if is_empty embeds then contains (attr_strings (bytes "embed") r) x else b) k,
    )
