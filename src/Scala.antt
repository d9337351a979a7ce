-- ===== src/Scala.antt =====
-- pkg/rule/rules_scala/scala_library.go: Scala libraries. The parser of flags and the patterns of
-- package doublestar are parameters. Not modelled: the imports that the options of scalapb add,
-- which read the literals of the parser, and the private attributes that carry plugin options.
pub mod Filter
pub mod Provide
pub mod Unresolved
use rules_proto.Base.{Text, bytes, Bool, true, false, not, List, [], ◌∷◌, ◌++◌, Option, none, some}
use rules_proto.Base.{◌==◌, text_eq, if◌then◌else◌, is_empty}
use rules_proto.Base.Dict.{Dict, lookup, insert, or_zero}
use rules_proto.Dedup.{deduplicate_and_sort}
use rules_proto.Go.Strings.{split, has_suffix}
use rules_proto.Gazelle.{BuildRule, new_rule, set_attr, set_nonempty, texts_value}
use rules_proto.Config.Plugin
use rules_proto.Config.Rule
use rules_proto.Config.Rule.{LanguageRuleConfig}
use rules_proto.File.{ProtoFile, has_services}
use rules_proto.Sources.{PluginConfiguration, ProtocConfiguration}
use rules_proto.Deps.{strip_rel}

-- `scalaLibraryOptions`
pub record ScalaLibraryOptions : Type 0 where
  pub no_resolve : Dict Text Bool
  pub exclude : List Text
  pub include : List Text
  pub plugins : List Text

-- The values of the flags after their parse.
pub record Flags : Type 0 where
  pub noresolve : Text
  pub exclude : Text
  pub include : Text
  pub plugins : Text

-- `for _, value := range values { m[value] = true }`
pub all_true : Dict Text Bool → List Text → Dict Text Bool
all_true m [] = m
all_true m (value ∷ values) = all_true (insert value true m) values

-- `if len(flag) > 0 { ... = strings.Split(flag, ",") }`
abbrev pub list_flag : Text → List Text
list_flag [] = []
list_flag (c ∷ flag) = split 44 (c ∷ flag)

-- `parseScalaLibraryOptions`; `parse` is `flags.Parse`, `none` the fatal end.
unfoldable pub parse_scala_library_options :
    (List Text → Option Flags) → List Text → Option ScalaLibraryOptions
unfolding all_true
parse_scala_library_options parse args = elim (parse args) [
  | none ↦ none
  | some flags ↦ some (record {
    no_resolve = all_true [] (split 44 flags.noresolve);
    exclude = list_flag flags.exclude;
    include = list_flag flags.include;
    plugins = list_flag flags.plugins;
  })
]

-- `filterFiles`
unfoldable pub filter_files : (ProtoFile → Bool) → List ProtoFile → List ProtoFile
filter_files want [] = []
filter_files want (file ∷ files) =
    let out = filter_files want files in if want file then file ∷ out else out

-- `messageFiles`
unfoldable pub message_files : List ProtoFile → List ProtoFile
unfolding filter_files
message_files files = filter_files (λ f. not (has_services f)) files

-- `serviceFiles`
unfoldable pub service_files : List ProtoFile → List ProtoFile
unfolding filter_files
service_files files = filter_files has_services files

-- `getPluginConfiguration`; `none` is nil.
unfoldable pub get_plugin_configuration :
    List PluginConfiguration → Text → Option PluginConfiguration
get_plugin_configuration [] name = none
get_plugin_configuration (plugin ∷ plugins) name =
    let rest = get_plugin_configuration plugins name in
    if plugin.config.name == name then some plugin else rest

-- `filterImports`
unfoldable pub filter_imports : ScalaLibraryOptions → List Text → List Text
filter_imports o [] = []
filter_imports o (value ∷ values) =
    let out = filter_imports o values in
    if or_zero false (lookup value o.no_resolve) then out else value ∷ out

-- The patterns: `none` is the error of `doublestar.PathMatch`.
module _ (path_match : Text → Text → Option Bool) where
  -- Whether a pattern of a list matches; the loop ends at the first that does, or at an error.
  unfoldable pub any_match : List Text → Text → Option Bool
  any_match [] value = some false
  any_match (pattern ∷ patterns) value = elim (path_match pattern value) [
    | none ↦ none
    | some true ↦ some true
    | some false ↦ any_match patterns value
  ]

  abbrev pub cons_if : Bool → Text → Option (List Text) → Option (List Text)
  cons_if b value none = none
  cons_if true value (some out) = some (value ∷ out)
  cons_if false value (some out) = some out

  -- A loop that keeps the values for which `keep` holds of what the patterns say.
  unfoldable pub keep_matches : (Bool → Bool) → List Text → List Text → Option (List Text)
  unfolding any_match
  keep_matches keep patterns [] = some []
  keep_matches keep patterns (value ∷ values) = elim (any_match patterns value) [
    | none ↦ none
    | some matched ↦ cons_if (keep matched) value (keep_matches keep patterns values)
  ]

  -- `filterOutputs`; `none` is its fatal end.
  unfoldable pub filter_outputs : ScalaLibraryOptions → List Text → Option (List Text)
  unfolding keep_matches
  filter_outputs o values =
      let included =
        if is_empty o.include then some values else keep_matches (λ b. b) o.include values in
      elim included [ none ↦ none | some files ↦ keep_matches not o.exclude files ]

-- `scalaLibraryRule`
pub record ScalaLibraryRule : Type 0 where
  pub kind_name : Text
  pub rule_name_suffix : Text
  pub outputs : List Text
  pub config : ProtocConfiguration
  pub rule_config : LanguageRuleConfig
  pub options : ScalaLibraryOptions
  pub files : List ProtoFile

-- The loop of `ProvideRule` over the names of plugins.
pub plugin_outputs : List PluginConfiguration → List Text → List Text
unfolding get_plugin_configuration
plugin_outputs plugins [] = []
plugin_outputs plugins (name ∷ names) =
    let rest = plugin_outputs plugins names in
    elim (get_plugin_configuration plugins name) [
      | none ↦ rest
      | some plugin ↦ plugin.outputs ++ rest
    ]

-- What `ProvideRule` returns for its files, over the outputs that the options keep.
abbrev pub rule_for : ScalaLibraryRule → Option ScalaLibraryRule
rule_for s = if is_empty s.outputs then none else some s

-- `ProvideRule`: the outer `none` is a fatal end, the inner one is nil.
unfoldable pub provide_rule :
    (Text → Text → Option Bool)
    → (List Text → Option Flags)
    → Text
    → Text
    → (List ProtoFile → List ProtoFile)
    → LanguageRuleConfig
    → ProtocConfiguration
    → Option (Option ScalaLibraryRule)
unfolding plugin_outputs
provide_rule path_match parse kind_name suffix file_filter cfg pc =
    let files = file_filter pc.library.files in
    if is_empty files
    then some none
    else elim (parse_scala_library_options parse (Rule.get_options cfg)) [
      | none ↦ none
      | some options ↦
          elim (filter_outputs path_match options (plugin_outputs pc.plugins options.plugins)) [
            | none ↦ none
            | some outputs ↦ some (
                rule_for (record {
                  kind_name = kind_name;
                  rule_name_suffix = suffix;
                  outputs = outputs;
                  config = pc;
                  rule_config = cfg;
                  options = options;
                  files = files;
                }))
          ]
    ]

-- `Srcs`
pub srcs_of : Text → List Text → List Text
srcs_of rel [] = []
srcs_of rel (output ∷ outputs) =
    let rest = srcs_of rel outputs in
    if has_suffix output (bytes ".srcjar") then strip_rel rel output ∷ rest else rest

pub plugin_deps : List PluginConfiguration → List Text
plugin_deps [] = []
plugin_deps (plugin ∷ plugins) = Plugin.get_deps plugin.config ++ plugin_deps plugins

-- `Deps`
unfoldable pub deps : ScalaLibraryRule → List Text
unfolding plugin_deps
deps s = deduplicate_and_sort (Rule.get_deps s.rule_config ++ plugin_deps s.config.plugins)

-- `Rule`, but for the private attributes.
unfoldable pub rule : ScalaLibraryRule → BuildRule
unfolding srcs_of
rule s = set_nonempty (bytes "visibility") (Rule.get_visibility s.rule_config) (
    set_nonempty (bytes "exports") (Rule.get_attr s.rule_config (bytes "exports")) (
      set_nonempty (bytes "deps") (deps s) (
        set_attr (bytes "srcs") (texts_value (srcs_of s.config.rel s.outputs))
          (new_rule s.kind_name (s.config.library.base_name ++ s.rule_name_suffix)))))
