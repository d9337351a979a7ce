-- ===== src/Tests/Language.antt =====
-- Runs of the flags, with the theorem on them, and of the tables of the extension.
use rules_proto.Base.{Text, bytes, [], ◌∷◌, ◌≡◌, refl, none, some, text_eq, ◌==◌, Option}
use rules_proto.Base.{if◌then◌else◌, text_beq}
use rules_proto.Base.Order.{text_le}
use rules_proto.Base.Sort.{sort_strings}
use rules_proto.Base.Dict.{keys, lookup, insert}
use rules_proto.Go.Strings.{split}
use rules_proto.External.{new_label}
use rules_proto.Gazelle.{BuildRule}
use rules_proto.Config.Package as Package
use rules_proto.Registry.{
  Registry, lookup_rule, lookup_plugin, rule_names, register_plugin, must_register_rule,
}
use rules_proto.Resolver.{new}
use rules_proto.Protobuf.Flags.{
  FlagState, checked, refused, panicked, bad_starlark_name, unloadable_starlark,
  register_starlark_plugin, register_starlark_rule, check_each, check_flags,
}
use rules_proto.Protobuf.Flags.Kept.{Ends, Kept, check_flags-Kept}
use rules_proto.Tests.{ext}
use rules_proto.Config.Package.{YConfig}
use rules_proto.Protobuf.Loads.{RuleInfo, kinds, loads}
use rules_proto.Protobuf.Generate.{passed_on, nil_provider, resolve}

abbrev a : Text
a = bytes "a"

abbrev b : Text
b = bytes "b"

abbrev start : FlagState Text Text
start = record {
  config = Package.new (record { repo_name = []; work_dir = [] });
  resolver = new;
  registry = record { rules = []; plugins = [] };
}

-- A loader of Starlark code that knows the file `f`.
abbrev load : Text → Text → Option Text
load file name = if file == bytes "f" then some name else none

register_starlark_test :
    check_each (register_starlark_plugin load) (bytes "f%p" ∷ []) start
    ≡ checked
        (record start { registry = record { rules = []; plugins = (bytes "f%p", bytes "p") ∷ [] } })
unfolding check_each register_starlark_plugin split register_plugin text_beq lookup insert
register_starlark_test = refl

register_starlark_test_twice :
    check_each (register_starlark_rule load) (bytes "f%p" ∷ bytes "f%p" ∷ []) start ≡ panicked
unfolding check_each register_starlark_rule split must_register_rule text_beq lookup insert
register_starlark_test_twice = refl

register_starlark_test_name :
    register_starlark_rule load (bytes "f%p%q") start
    ≡ refused (bad_starlark_name (bytes "f%p%q")) start
unfolding register_starlark_rule split
register_starlark_test_name = refl

register_starlark_test_load :
    register_starlark_rule load (bytes "g%p") start
    ≡ refused (unloadable_starlark (bytes "g%p")) start
unfolding register_starlark_rule split text_beq
register_starlark_test_load = refl

-- Two rules from one file, and one from another.
abbrev info : Text → Text → Text → RuleInfo Text
info name file symbol = record { name = name; kind = name; load_name = file; symbols = symbol ∷ [] }

abbrev three : Registry (RuleInfo Text) Text
three = record {
  rules =
      (bytes "c", info (bytes "c") (bytes "y.bzl") (bytes "c"))
      ∷ (bytes "a", info (bytes "a") (bytes "x.bzl") (bytes "s"))
      ∷ (bytes "b", info (bytes "b") (bytes "x.bzl") (bytes "r"))
      ∷ [];
  plugins = [];
}

loads_test :
    loads three
    ≡ some ((bytes "x.bzl", bytes "r" ∷ bytes "s" ∷ []) ∷ (bytes "y.bzl", bytes "c" ∷ []) ∷ [])
unfolding loads rule_names lookup_rule sort_strings keys text_le lookup text_beq insert
loads_test = refl

-- The rule of the overrides is a kind already.
kinds_test_duplicate :
    kinds {Plugin = Text}
      (record {
        rules = (bytes "a", info (bytes "proto_library_override") (bytes "x") (bytes "s")) ∷ [];
        plugins = [];
      })
      []
    ≡ none
unfolding kinds rule_names lookup_rule sort_strings keys lookup text_beq
kinds_test_duplicate = refl

abbrev rule : Text → BuildRule
rule kind = record { kind = kind; name = bytes "r"; attrs = []; imports = none }

resolve_test_nil :
    resolve {P = Text}
      ((bytes "pkg", []) ∷ [])
      (rule (bytes "k"))
      (some [])
      (new_label [] (bytes "pkg") (bytes "r"))
    ≡ nil_provider
unfolding resolve text_beq lookup
resolve_test_nil = refl

resolve_test :
    resolve
      ((bytes "pkg", (bytes "r", bytes "p") ∷ []) ∷ [])
      (rule (bytes "k"))
      (some [])
      (new_label [] (bytes "pkg") (bytes "r"))
    ≡ passed_on (bytes "p") []
unfolding resolve text_beq lookup
resolve_test = refl

-- A run that loads an empty YAML file, a plugin and a rule, after another plugin and rule.
abbrev before : FlagState Text Text
before = record start { registry = record { rules = (a, b) ∷ []; plugins = (a, b) ∷ [] } }

abbrev read : Text → Option YConfig
read file = some (record { plugin = []; rule = []; language = [] })

check_flags-Kept_example : Ends (Kept a a b b) (
    check_flags ext read
      (λ file. none)
      load
      load
      (record { repo_name = []; work_dir = [] })
      (bytes "c.yml")
      []
      (bytes "f%p" ∷ [])
      (bytes "f%q" ∷ [])
      before)
unfolding lookup_plugin lookup_rule lookup text_beq
check_flags-Kept_example =
    check_flags-Kept ext read (λ file. none) load load (record { repo_name = []; work_dir = [] })
      (bytes "c.yml") [] (bytes "f%p" ∷ []) (bytes "f%q" ∷ []) before a a b b refl refl
