-- ===== src/Tests/Config.antt =====
-- The theorems on configurations, intents, rewrites and the registry at concrete inputs.
use rules_proto.Base.{
  Text, bytes, Bool, List, [], ◌∷◌, ◌++◌, ◌≡◌, refl, none, some, ◌==◌, text_eq, text_beq, true,
  false, arith,
}
use rules_proto.Base.{eq_iff, contains, Distinct, if◌then◌else◌, ◌||◌, is_empty, map, not, ◌&&◌}
use rules_proto.Base.Dict.{Dict, keys, lookup, insert}
use rules_proto.Base.Sort.{IsSorted}
use rules_proto.Go.Strings.{IsField, is_space, fields, join, has_prefix, trim_space}
use rules_proto.Tests.{ext}
use rules_proto.Config.Errors.{Directive, bad_bool, in_directive}
use rules_proto.Config.Rule
use rules_proto.Config.Language
use rules_proto.Go.Strconv.{parse_bool}
use rules_proto.Intent.{parse_intent}
use rules_proto.Config.Plugin
use rules_proto.Config.Plugin.{YPlugin}
use rules_proto.Config.Package.{
  PackageConfig, YConfig, new, clone, parse_one, parse_directives, get_or_create_plugin,
  load_yconfig,
}
use rules_proto.Config.Package.Laws.{IsValid, new-IsValid}
use rules_proto.Config.Package.Directives.{parse_directives-IsValid, parse_directives_first_error}
use rules_proto.Config.Package.Effects.{option_directive, option_directive_effect}
use rules_proto.Config.Package.Clone.{clone_copies, map_values, without_impl}
use rules_proto.Config.Package.Yaml.{Loads, load_yconfig-Loads}
use rules_proto.Intent.{for_intent}
use rules_proto.Intent.Selection.{contains-for_intent, for_intent_canonical, has_intent}
use rules_proto.Rewrite.{Rewrite, resolve_rewrites, resolve_library_rewrites}
use rules_proto.Rewrite.First.{
  resolve_rewrites_first, resolve_library_rewrites_lem, library_imports,
}
use rules_proto.Registry.{Registry, register_plugin, lookup_plugin, plugin_names, found}
use rules_proto.Registry.Laws.{register_plugin_effect}

abbrev empty : PackageConfig
empty = new (record { work_dir = []; repo_name = bytes "repo" })

-- An option, a language, and a value that is no Boolean.
abbrev directives : List Directive
directives =
    option_directive (bytes "cpp") true (bytes "x")
    ∷ record { key = bytes "proto_language"; value = bytes "cc plugin cpp" }
    ∷ record { key = bytes "proto_rule"; value = bytes "lib enabled maybe" }
    ∷ []

abbrev configured : PackageConfig
configured = (parse_directives ext empty directives).0

configured-IsValid : IsValid configured
unfolding new
configured-IsValid = parse_directives-IsValid ext empty directives (new-IsValid empty.config)

parse_directives-IsValid_example : IsValid (parse_directives ext configured directives).0
parse_directives-IsValid_example =
    parse_directives-IsValid ext configured directives configured-IsValid

-- The first two directives succeed, and the third fails.
abbrev good : List Directive
good =
    option_directive (bytes "cpp") true (bytes "x")
    ∷ record { key = bytes "proto_language"; value = bytes "cc plugin cpp" }
    ∷ []

abbrev bad : Directive
bad = record { key = bytes "proto_rule"; value = bytes "lib enabled maybe" }

good-succeeds : parse_directives ext empty good ≡ ((parse_directives ext empty good).0, none)
unfolding parse_directives parse_one text_beq fields join Plugin.parse_directive parse_intent
    has_prefix trim_space Language.parse_directive
good-succeeds = refl

bad-fails :
    parse_one ext (parse_directives ext empty good).0 bad
    ≡ ((parse_one ext (parse_directives ext empty good).0 bad).0, some (bad_bool (bytes "maybe")))
unfolding parse_directives parse_one text_beq fields join Plugin.parse_directive parse_intent
    has_prefix trim_space Language.parse_directive Rule.parse_directive parse_bool
bad-fails = refl

parse_directives_first_error_example :
    let c = (parse_directives ext empty good).0 in
    let c' = (parse_one ext c bad).0 in
    (parse_directives ext empty (good ++ good) ≡ parse_directives ext c good)
    × (parse_directives ext empty (good ++ bad ∷ good)
        ≡ (c', some (in_directive bad (bad_bool (bytes "maybe")))))
parse_directives_first_error_example =
    let c = (parse_directives ext empty good).0 in
    let c' = (parse_one ext c bad).0 in
    parse_directives_first_error ext empty c c' good bad (bad_bool (bytes "maybe")) good
      good-succeeds bad-fails

cpp-IsField : IsField (bytes "cpp")
unfolding is_space
cpp-IsField = (refl, (refl, (refl, (refl, tt))))

y-IsField : IsField (bytes "y")
unfolding is_space
y-IsField = (refl, (refl, tt))

option_directive_effect_example :
    let c' = (parse_one ext configured (option_directive (bytes "cpp") false (bytes "y"))).0 in
    ((parse_one ext configured (option_directive (bytes "cpp") false (bytes "y"))).1 ≡ none)
    × (contains (Plugin.get_options (get_or_create_plugin c' (bytes "cpp"))) (bytes "x") ≡ (
        if bytes "x" == bytes "y"
        then false
        else contains
            (Plugin.get_options (get_or_create_plugin configured (bytes "cpp")))
            (bytes "x")))
    × (lookup (bytes "x") c'.plugins ≡ (
        if bytes "cpp" == bytes "x"
        then some (get_or_create_plugin c' (bytes "cpp"))
        else lookup (bytes "x") configured.plugins))
    × (get_or_create_plugin c' (bytes "cpp")
        ≡ record (get_or_create_plugin configured (bytes "cpp")) {
          options = (get_or_create_plugin c' (bytes "cpp")).options;
        })
    × (c' ≡ record configured { plugins = c'.plugins })
option_directive_effect_example =
    option_directive_effect ext configured (bytes "cpp") (bytes "y") false (bytes "x")
      configured-IsValid cpp-IsField y-IsField

clone_copies_example :
    clone configured ≡ record configured { rules = map_values without_impl configured.rules }
clone_copies_example = clone_copies configured configured-IsValid

abbrev yaml : YConfig
yaml = record {
  plugin =
      record {
        name = bytes "cpp";
        implementation = bytes "builtin:cpp";
        enabled = none;
        option = bytes "z" ∷ [];
        flag = [];
        dep = [];
        label = bytes "lib";
      }
      ∷ [];
  rule =
      record {
        name = bytes "lib";
        implementation = [];
        enabled = some true;
        deps = [];
        resolves = [];
        option = [];
        visibility = [];
      }
      ∷ [];
  language = record { name = []; implementation = []; enabled = none; plugin = []; rule = [] } ∷ [];
}

load_yconfig-Loads_example : Loads (load_yconfig ext configured yaml)
load_yconfig-Loads_example = load_yconfig-Loads ext configured yaml configured-IsValid

abbrev signs : Dict Text Bool
signs = (bytes "a", true) ∷ (bytes "b", false) ∷ []

abbrev signs_reversed : Dict Text Bool
signs_reversed = (bytes "b", false) ∷ (bytes "a", true) ∷ []

signs-Distinct : Distinct (keys signs)
unfolding keys contains text_beq
signs-Distinct = (refl, (refl, tt))

signs_reversed-Distinct : Distinct (keys signs_reversed)
unfolding keys contains text_beq
signs_reversed-Distinct = (refl, (refl, tt))

same_signs : (k : Text) → lookup k signs ≡ lookup k signs_reversed
unfolding lookup
same_signs k = ground (arith, eq_iff k (bytes "a"), eq_iff (bytes "a") k, eq_iff (bytes "b") k)

contains-for_intent_example :
    contains (for_intent signs false) (bytes "b") ≡ has_intent false (lookup (bytes "b") signs)
contains-for_intent_example = contains-for_intent signs false (bytes "b") signs-Distinct

for_intent_canonical_example :
    IsSorted (for_intent signs true)
    × Distinct (for_intent signs true)
    × (for_intent signs true ≡ for_intent signs_reversed true)
for_intent_canonical_example =
    for_intent_canonical signs signs_reversed true signs-Distinct signs_reversed-Distinct same_signs

abbrev rewrites : List Rewrite
rewrites =
    record { match = some (bytes "x"); replace = bytes "y" }
    ∷ record { match = some (bytes "a"); replace = bytes "b" }
    ∷ []

-- A rewrite of another text stands before that of the text.
abbrev unchanged : List Rewrite
unchanged = record { match = some (bytes "x"); replace = bytes "y" } ∷ []

resolve_rewrites_first_example :
    (resolve_rewrites ext unchanged (bytes "a") ≡ [])
    × (resolve_rewrites ext
          (unchanged ++ record { match = some (bytes "a"); replace = bytes "b" } ∷ rewrites)
          (bytes "a")
        ≡ ext.replace_all_string (bytes "a") (bytes "a") (bytes "b"))
unfolding text_beq
resolve_rewrites_first_example =
    resolve_rewrites_first ext unchanged (bytes "a") (bytes "b") rewrites (bytes "a") (refl, tt)
      refl refl

abbrev files : List (List Text)
files = (bytes "a" ∷ bytes "x" ∷ []) ∷ (bytes "q" ∷ []) ∷ []

resolve_library_rewrites_lem_example :
    ((m : Text)
      → contains (resolve_library_rewrites ext rewrites files) m ≡ (
          not (is_empty m)
          && contains (map (resolve_rewrites ext rewrites) (library_imports files)) m))
    × IsSorted (resolve_library_rewrites ext rewrites files)
    × Distinct (resolve_library_rewrites ext rewrites files)
resolve_library_rewrites_lem_example = resolve_library_rewrites_lem ext rewrites files

abbrev registry : Registry Text Text
registry = record { rules = []; plugins = (bytes "cpp", bytes "impl") ∷ [] }

abbrev registered : Registry Text Text
registered = record {
  rules = [];
  plugins = (bytes "cpp", bytes "impl") ∷ (bytes "java", bytes "other") ∷ [];
}

registers : register_plugin registry (bytes "java") (bytes "other") ≡ some registered
unfolding register_plugin lookup insert text_beq
registers = refl

register_plugin_effect_example :
    (lookup_plugin registered (bytes "cpp") ≡ (
      if bytes "java" == bytes "cpp"
      then found (bytes "other")
      else lookup_plugin registry (bytes "cpp")))
    × (register_plugin registered (bytes "java") (bytes "again") ≡ none)
    × (contains (plugin_names registered) (bytes "cpp")
        ≡ (bytes "cpp" == bytes "java" || contains (plugin_names registry) (bytes "cpp")))
    × (registered.rules ≡ registry.rules)
register_plugin_effect_example =
    register_plugin_effect registry registered (bytes "java") (bytes "cpp") (bytes "other")
      (bytes "again") registers
