-- ===== src/Tests/Rules.antt =====
-- The theorems on rules and plugins at concrete inputs.
use rules_proto.Base.{◌++◌, All}
use rules_proto.Base.{
  Text, bytes, Bool, List, [], ◌∷◌, ◌≡◌, refl, none, some, ◌==◌, text_eq, text_beq, true, false,
}
use rules_proto.Base.{contains, ◌||◌, ◌&&◌, not, if◌then◌else◌, is_empty, length, Option}
use rules_proto.Base.Dict.{Dict, lookup, insert, or_zero, is_some}
use rules_proto.External.{Label, new_label, label_eq}
use rules_proto.Tests.{ext, lib}
use rules_proto.Library.{ProtoLibrary}
use rules_proto.File.{ProtoFile, new_file}
use rules_proto.Gazelle.{BuildRule, attr_string, attr_strings, texts_value, text_value}
use rules_proto.Config.Plugin
use rules_proto.Config.Rule
use rules_proto.Config.Rule.{LanguageRuleConfig, get_visibility}
use rules_proto.Config.Language
use rules_proto.Config.Package
use rules_proto.Deps.{Index, resolve_deps_attr}
use rules_proto.Deps.OnRule.{deps_rule}
use rules_proto.Resolver.{new, resolve}
use rules_proto.Resolver.Keys.{new-IsValid}
use rules_proto.RuleIndex.{RuleIndex}
use rules_proto.Sources.{ProtocConfiguration}
use rules_proto.Generation.Choice.{PluginContext}
use rules_proto.Intent.{for_intent, vals_for_intent}
use rules_proto.Base.Sort.{sort_strings}
use rules_proto.Go.Strings.{split_n, strip_prefix}
use rules_proto.Go.Paths.{path_join}
use rules_proto.GoLibrary.{
  get_plugin_import_mapping_option, try_parse_mapping, GoLibraryRule, Libraries, import_path, srcs,
  config_deps, proto_go_library,
}
use rules_proto.GoLibrary.Merge.{same_import, merged_libraries, rule, find_other, merge_rule}
use rules_proto.GoLibrary.Merge.Union.{rule_merges, rule-import_path, IsUnion}
use rules_proto.GoLibrary.Embed.{move_embeds, move_embeds_lem, partition, embedded}
use rules_proto.Scala.{ScalaLibraryOptions, filter_outputs, service_files}
use rules_proto.Scala.Filter.{IsValid, filter_outputs_lem, any_test}
use rules_proto.Scala.Provide.{provide_scala_imports, scala}
use rules_proto.Scala.Provide.Names.{is_any_name, provide_scala_imports_lem}
use rules_proto.Scala.Unresolved.{resolve_scala_deps, resolve_scala_deps_lem, all_gained, all_after}
use rules_proto.Compile
use rules_proto.Compile.{ProtoCompileRule, base_rule}
use rules_proto.Compile.Attrs.{rule-attrs, or_values}
use rules_proto.Plugins.Services.{
  output_count, grpc_python, grpc_node, grpc_web, go_grpc, grpc_gateway, grpc_outputs_count,
}
use rules_proto.Libraries.{resolve_proto_java}
use rules_proto.Libraries.Exports.{exports_or, resolve_proto_java_lem}
use rules_proto.Deps.{ResolveError, no_label_found}

abbrev a : Text
a = bytes "a"

abbrev b : Text
b = bytes "b"

-- A file with a message and a service.
abbrev file : ProtoFile
file = record (new_file b (bytes "a.proto")) { messages = a ∷ []; services = b ∷ [] }

abbrev library : ProtoLibrary
library = record {
  name = bytes "a_proto";
  base_name = a;
  srcs = bytes "a.proto" ∷ [];
  deps = [];
  imports = b ∷ [];
  strip_import_prefix = [];
  files = file ∷ [];
}

abbrev rule_config : LanguageRuleConfig
rule_config = Rule.new (record { work_dir = []; repo_name = [] }) a

abbrev config : ProtocConfiguration
config = record {
  language_config = Language.new a [];
  rel = b;
  prefix = a;
  library = library;
  plugins = [];
  outputs = bytes "b/a.go" ∷ [];
  mappings = [];
}

abbrev go_rule : GoLibraryRule
go_rule = record {
  id = new_label [] b (bytes "a_go_proto");
  kind_name = proto_go_library;
  rule_name_suffix = bytes "_go_proto";
  outputs = bytes "b/a.go" ∷ [];
  deps = bytes "c" ∷ [];
  pc = config;
  rule_config = record rule_config { options = (bytes "Mb/a.proto=x/y", true) ∷ [] };
}

-- A rule with the import path of `go_rule`.
abbrev other_rule : BuildRule
other_rule = record {
  kind = proto_go_library;
  name = b;
  attrs =
      (bytes "importpath", text_value (bytes "x/y")) ∷ (bytes "srcs", texts_value (b ∷ [])) ∷ [];
  imports = some [];
}

go_rule-import_path : import_path new go_rule ≡ bytes "x/y"
unfolding import_path get_plugin_import_mapping_option try_parse_mapping split_n path_join text_beq
    Rule.get_options for_intent vals_for_intent sort_strings lookup insert Rule.new new_file
    strip_prefix
go_rule-import_path = refl

go_rule-other : find_other (import_path new go_rule) (other_rule ∷ []) ≡ some other_rule
unfolding find_other same_import attr_string text_beq lookup
go_rule-other = rw go_rule-import_path refl

abbrev at : Label
at = new_label [] go_rule.pc.rel other_rule.name

rule_merges_example :
    (r : BuildRule) × (libraries' : Libraries) × (rule ext new [] go_rule (other_rule ∷ [])
      ≡ some (r, libraries'))
    × IsUnion r other_rule
        (srcs go_rule)
        (config_deps ext go_rule)
        (get_visibility go_rule.rule_config)
        b
    × (contains (or_zero [] r.imports) b ≡ (contains [] b || contains go_rule.pc.library.imports b))
    × (lookup at libraries' ≡ (
        if new_label [] go_rule.pc.rel other_rule.name == at
        then some (or_zero [] (lookup at []) ++ go_rule.pc.library ∷ [])
        else lookup at []))
rule_merges_example =
    rule_merges ext new [] go_rule (other_rule ∷ []) other_rule [] b at go_rule-other refl

abbrev merged_rule : BuildRule
merged_rule =
    merge_rule (srcs go_rule) (config_deps ext go_rule) (get_visibility go_rule.rule_config)
      (b ∷ []) [] other_rule

go_rule-merges :
    rule ext new [] go_rule (other_rule ∷ [])
    ≡ some (merged_rule, merged_libraries go_rule other_rule [])
unfolding rule
go_rule-merges = rw (go_rule-other, rule) refl

rule-import_path_example : attr_string (bytes "importpath") merged_rule ≡ import_path new go_rule
rule-import_path_example =
    rule-import_path ext new [] go_rule (other_rule ∷ []) merged_rule
      (merged_libraries go_rule other_rule []) go_rule-merges

-- A rule that depends on `lib`, which has the same import path, and on an unknown text.
abbrev embedding : BuildRule
embedding = record {
  kind = proto_go_library;
  name = a;
  attrs = (bytes "deps", texts_value (bytes "lib" ∷ a ∷ [])) ∷ [];
  imports = none;
}

abbrev rules : RuleIndex
rules = record { rules = (new_label [] b (bytes "lib"), embedding) ∷ [] }

move_embeds_lem_example :
    let r' = move_embeds ext rules b embedding in
    let ip = attr_string (bytes "importpath") embedding in
    let all = attr_strings (bytes "deps") embedding in
    let (deps, embeds) = partition ext rules b ip all in
    let was = contains (attr_strings (bytes "embed") embedding) a in
    (contains (attr_strings (bytes "deps") r') a
      ≡ (contains all a && (not (embedded ext rules b ip a) || is_empty deps)))
    × (contains (attr_strings (bytes "embed") r') a
        ≡ (if is_empty embeds then was else contains all a && embedded ext rules b ip a))
move_embeds_lem_example = move_embeds_lem ext rules b embedding a

-- Options with two patterns to include and one to exclude; a pattern matches itself, and `[` is
-- malformed.
abbrev options : ScalaLibraryOptions
options = record { no_resolve = []; exclude = b ∷ []; include = a ∷ b ∷ []; plugins = [] }

abbrev same : Text → Text → Bool
same pattern value = pattern == value

abbrev match_same : Text → Text → Option Bool
match_same pattern value = if pattern == bytes "[" then none else some (same pattern value)

include-IsValid : All (IsValid match_same same) options.include
unfolding text_beq
include-IsValid = (λ value. refl, (λ value. refl, tt))

exclude-IsValid : All (IsValid match_same same) options.exclude
unfolding text_beq
exclude-IsValid = (λ value. refl, tt)

filter_outputs_lem_example :
    (out : List Text) × (filter_outputs match_same options (a ∷ b ∷ bytes "c" ∷ []) ≡ some out)
    × ((x : Text)
        → contains out x ≡ (
            contains (a ∷ b ∷ bytes "c" ∷ []) x
            && (is_empty options.include || any_test match_same same options.include x)
            && not (any_test match_same same options.exclude x)))
filter_outputs_lem_example =
    filter_outputs_lem match_same same options (a ∷ b ∷ bytes "c" ∷ []) include-IsValid
      exclude-IsValid

provide_scala_imports_lem_example :
    contains (resolve (provide_scala_imports new lib (file ∷ [])) scala scala (bytes "bGrpc")) lib
    ≡ (contains (resolve new scala scala (bytes "bGrpc")) lib
        || (is_any_name (file ∷ []) (bytes "bGrpc") && lib == lib))
provide_scala_imports_lem_example =
    provide_scala_imports_lem (file ∷ []) new lib (bytes "bGrpc") lib new-IsValid

-- An index with an override for every import.
abbrev index : Index
index = record {
  find_override = λ lang imp_lang imp. some lib;
  find_rules = λ lang imp_lang imp. [];
  repo_name = [];
}

abbrev errors : Dict Text (Option ResolveError)
errors = (a, some no_label_found) ∷ (b, none) ∷ []

resolve_scala_deps_lem_example :
    let (r', errors') = resolve_scala_deps ext index embedding errors in
    (contains (attr_strings (bytes "deps") r') a ≡ (
      contains (attr_strings (bytes "deps") embedding) a
      || contains (all_gained ext index errors) a))
    × (errors' ≡ all_after index errors)
resolve_scala_deps_lem_example = resolve_scala_deps_lem ext index embedding errors a

-- A compile rule whose configuration gives an attribute.
abbrev compile_rule : ProtoCompileRule
compile_rule = record {
  kind = bytes "proto_compile";
  name_suffix = bytes "compile";
  outputs_attr_name = bytes "outputs";
  config = config;
  rule_config = record rule_config { attrs = (bytes "tags", (a, true) ∷ []) ∷ [] };
}

tags-verbose : (bytes "verbose" == bytes "tags") ≡ false
unfolding text_beq
tags-verbose = refl

rule-attrs_example :
    attr_strings (bytes "tags") (Compile.rule ext compile_rule)
    ≡ or_values
        (Rule.get_attr compile_rule.rule_config (bytes "tags"))
        (attr_strings (bytes "tags") (base_rule ext compile_rule))
rule-attrs_example = rule-attrs ext compile_rule (bytes "tags") tags-verbose

abbrev context : PluginContext
context = record {
  rel = b;
  library = library;
  package_config = Package.new rule_config.config;
  plugin_config = Plugin.new a;
}

grpc_outputs_count_example :
    let n = length (service_files (file ∷ [])) in
    (output_count (grpc_python context) ≡ n)
    × (output_count (grpc_node context) ≡ n)
    × (output_count (grpc_web context) ≡ n)
    × (output_count (go_grpc context) ≡ n)
    × (output_count (grpc_gateway context) ≡ n)
grpc_outputs_count_example = grpc_outputs_count context

resolve_proto_java_lem_example :
    let deps =
      or_zero [] (resolve_deps_attr ext index true (deps_rule none embedding) (b ∷ []) lib).attr in
    let result = resolve_proto_java ext index embedding (b ∷ []) lib in
    (is_some result ≡ not (is_empty deps)) × (exports_or deps result ≡ deps)
resolve_proto_java_lem_example = resolve_proto_java_lem ext index embedding (b ∷ []) lib
