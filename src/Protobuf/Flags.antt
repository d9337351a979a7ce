-- ===== src/Protobuf/Flags.antt =====
-- pkg/language/protobuf/config.go: `CheckFlags`, over the readers of files and the loader of
-- Starlark code. A run ends at the first error; what was loaded before it stays.
pub mod Kept
use rules_proto.Base.{Text, List, [], ◌∷◌, Option, none, some, text_eq}
use rules_proto.Go.Strings.{split}
use rules_proto.External.{External}
use rules_proto.Config.Errors.{Error}
use rules_proto.Config.Rule.{Config}
use rules_proto.Config.Package as Package
use rules_proto.Config.Package.{PackageConfig, YConfig, load_yconfig}
use rules_proto.Registry.{Registry, register_plugin, must_register_rule}
use rules_proto.Resolver.{Resolver}
use rules_proto.Resolver.Csv as Csv

pub data FlagError : Type 0 where
  unreadable_config unreadable_imports : Text → FlagError
  bad_config : Text → Error → FlagError
  bad_imports : Text → Text → FlagError
  bad_starlark_name unloadable_starlark : Text → FlagError

-- What `CheckFlags` writes to; a second registration of a name panics.
pub record FlagState {ℓ} (Rule Plugin : Type ℓ) : Type ℓ where
  pub config : PackageConfig
  pub resolver : Resolver
  pub registry : Registry Rule Plugin

pub data Checked {ℓ} (S : Type ℓ) : Type ℓ where
  checked : S → Checked S
  refused : FlagError → S → Checked S
  panicked : Checked S

-- The next step, after one without an error.
abbrev pub then_check {ℓ} : {S : Type ℓ} → Checked S → (S → Checked S) → Checked S
then_check (checked s) next = next s
then_check (refused e s) next = refused e s
then_check panicked next = panicked

-- A comma-separated flag; an empty one has no values.
abbrev pub comma_values : Text → List Text
comma_values [] = []
comma_values (c ∷ value) = split 44 (c ∷ value)

-- The parts of `file%name`.
abbrev pub with_parts {κ} : {A : Type κ} → List Text → (Text → Text → Option A) → Option (Option A)
with_parts (file ∷ name ∷ []) load = some (load file name)
with_parts parts load = none

module _ {ℓ} {Rule Plugin : Type ℓ} where
  -- A loop that ends at the first error.
  unfoldable pub check_each :
      (Text → FlagState Rule Plugin → Checked (FlagState Rule Plugin))
      → List Text
      → FlagState Rule Plugin
      → Checked (FlagState Rule Plugin)
  check_each step [] s = checked s
  check_each step (v ∷ values) s = then_check (step v s) (λ s'. check_each step values s')

  abbrev pub config_loaded :
      Text → FlagState Rule Plugin → PackageConfig × Option Error → Checked (FlagState Rule Plugin)
  config_loaded filename s (c, none) = checked (record s { config = c })
  config_loaded filename s (c, some e) = refused (bad_config filename e) (record s { config = c })

  -- `LoadYConfigFile`; `read` reads a YAML file, a relative name from the work directory.
  unfoldable pub load_config_file :
      External
      → (Text → Option YConfig)
      → Text
      → FlagState Rule Plugin
      → Checked (FlagState Rule Plugin)
  load_config_file ext read filename s = elim (read filename) [
    | none ↦ refused (unreadable_config filename) s
    | some y ↦ config_loaded filename s (load_yconfig ext s.config y)
  ]

  -- A resolver that was read into, with the malformed line that ended the reading.
  abbrev pub imports_loaded :
      Text → FlagState Rule Plugin → Resolver × Option Text → Checked (FlagState Rule Plugin)
  imports_loaded filename s (r, none) = checked (record s { resolver = r })
  imports_loaded filename s (r, some line) =
      refused (bad_imports filename line) (record s { resolver = r })

  -- The body of the loop over the files of imports, with `LoadFile`; `open_file` gives the text of a
  -- file. What was provided before a malformed line stays.
  unfoldable pub load_imports_file :
      External
      → (Text → Option Text)
      → Text
      → FlagState Rule Plugin
      → Checked (FlagState Rule Plugin)
  load_imports_file ext open_file filename s = elim (open_file filename) [
    | none ↦ refused (unreadable_imports filename) s
    | some text ↦ imports_loaded filename s (Csv.load ext s.resolver text)
  ]

  -- A registry that was written to, or the panic of a second registration.
  abbrev pub registered :
      FlagState Rule Plugin → Option (Registry Rule Plugin) → Checked (FlagState Rule Plugin)
  registered s none = panicked
  registered s (some registry) = checked (record s { registry = registry })

  -- `registerStarlarkPlugin`; `load` is the loader of Starlark code, `none` its error.
  unfoldable pub register_starlark_plugin :
      (Text → Text → Option Plugin) → Text → FlagState Rule Plugin → Checked (FlagState Rule Plugin)
  register_starlark_plugin load name s = elim (with_parts (split 37 name) load) [
    | none ↦ refused (bad_starlark_name name) s
    | some none ↦ refused (unloadable_starlark name) s
    | some (some plugin) ↦ registered s (register_plugin s.registry name plugin)
  ]

  -- `registerStarlarkRule`
  unfoldable pub register_starlark_rule :
      (Text → Text → Option Rule) → Text → FlagState Rule Plugin → Checked (FlagState Rule Plugin)
  register_starlark_rule load name s = elim (with_parts (split 37 name) load) [
    | none ↦ refused (bad_starlark_name name) s
    | some none ↦ refused (unloadable_starlark name) s
    | some (some rule) ↦ registered s (must_register_rule s.registry name rule)
  ]

  -- `CheckFlags`
  unfoldable pub check_flags :
      External
      → (Text → Option YConfig)
      → (Text → Option Text)
      → (Text → Text → Option Plugin)
      → (Text → Text → Option Rule)
      → Config
      → Text
      → Text
      → List Text
      → List Text
      → FlagState Rule Plugin
      → Checked (FlagState Rule Plugin)
  unfolding check_each load_config_file load_imports_file register_starlark_plugin
      register_starlark_rule
  check_flags ext read open_file load_plugin load_rule config config_files imports_in plugins rules
        s =
      then_check
        (check_each (load_config_file ext read) (comma_values config_files)
          (record s { config = Package.new config }))
        λ s1.
          then_check (check_each (load_imports_file ext open_file) (comma_values imports_in) s1)
            λ s2.
              then_check (check_each (register_starlark_plugin load_plugin) plugins s2)
                (check_each (register_starlark_rule load_rule) rules)
