-- ===== src/Tests/Files.antt =====
-- The theorems on files, sources, dependencies and the Go plugin at concrete inputs.
use rules_proto.Base.{◌&&◌, not}
use rules_proto.Base.{
  Text, bytes, List, [], ◌∷◌, ◌++◌, ◌≡◌, ◌≢◌, refl, none, some, ◌==◌, text_eq, true, false,
}
use rules_proto.Base.{contains, if◌then◌else◌, ◌||◌, text_beq, Distinct, ◌↔◌, ◌⊎◌, map}
use rules_proto.Base.Dict.{Dict, lookup, or_zero, is_some}
use rules_proto.Base.Sort.{IsSorted}
use rules_proto.Go.Strings.{has_prefix, Lacks}
use rules_proto.Go.Paths.{path_join}
use rules_proto.External.{Label, new_label, no_label, label_beq}
use rules_proto.Tests.{ext, lib}
use rules_proto.Dedup.{deduplicate_and_sort}
use rules_proto.Dedup.Laws.{deduplicate_and_sort_lem}
use rules_proto.Config.Plugin
use rules_proto.Sources.{PluginConfiguration, merge_sources}
use rules_proto.Sources.Merge.{merge_sources_lem, sources_of, mappings_of, last_or}
use rules_proto.Deps.{Index, DepsRule, resolved, resolve_any_kind, resolve_deps_attr}
use rules_proto.Deps.Found.{IsMatch, resolve_any_kind_found}
use rules_proto.Deps.Attr.{
  recorded_error, attr-resolve_deps_attr, unresolved-resolve_deps_attr, resolved_deps,
}
use rules_proto.File.{
  package_statement, service_statement, option_statement, ProtoOption, ProtoFile, Statement,
  import_statement, message_statement, enum_statement, new_file, parse_reader, enum_option,
  enum_field, field_option, go_package_option, get_named_option,
}
use rules_proto.File.Parse.{
  parse_reader_lem, options_in, services_in, last_package, imports_in, messages_in, enums_in,
  enum_options_in,
}
use rules_proto.File.Names.{go_package_option-alias}
use rules_proto.Resolver.{Resolver, new, provide, known_for}
use rules_proto.GoPlugin.{
  mapped, get_import_mappings, resolve_plugin_options, resolve_transitive_import_mappings,
}
use rules_proto.GoPlugin.Options.{resolve_plugin_options_lem}
use rules_proto.GoPlugin.Closure.{Reach, resolve_transitive_import_mappings_lem}

abbrev a : Text
a = bytes "a"

abbrev b : Text
b = bytes "b"

deduplicate_and_sort_lem_example : ((a ∷ b ∷ []) ≡ deduplicate_and_sort (b ∷ a ∷ b ∷ [])) ↔ (
    IsSorted (a ∷ b ∷ [])
    × Distinct (a ∷ b ∷ [])
    × ((x : Text) → contains (a ∷ b ∷ []) x ≡ contains (b ∷ a ∷ b ∷ []) x))
deduplicate_and_sort_lem_example = deduplicate_and_sort_lem (b ∷ a ∷ b ∷ []) (a ∷ b ∷ [])

abbrev plugin_a : PluginConfiguration
plugin_a = record {
  config = Plugin.new a;
  label = lib;
  mappings = [];
  options = [];
  out = [];
  outputs = bytes "pkg/a.go" ∷ bytes "other/b.go" ∷ [];
  plugin = a;
}

abbrev plugins : List PluginConfiguration
plugins = plugin_a ∷ record plugin_a { mappings = (b, a) ∷ [] } ∷ []

merge_sources_lem_example :
    ((merge_sources (bytes "pkg") plugins).srcs ≡ sources_of (bytes "pkg") plugins)
    × (lookup (bytes "b.go") (merge_sources (bytes "pkg") plugins).mappings
        ≡ last_or (bytes "b.go") none (mappings_of (bytes "pkg") plugins))
merge_sources_lem_example = merge_sources_lem (bytes "pkg") (bytes "b.go") plugins

-- One rule, which provides `a`; nothing provides other imports.
abbrev index : Index
index = record {
  find_override = λ lang imp_lang imp. none;
  find_rules = λ lang imp_lang imp.
      if imp == a then record { label = lib; is_self_import = λ from. false } ∷ [] else [];
  repo_name = bytes "repo";
}

abbrev from : Label
from = new_label [] b b

finds : resolve_any_kind index (bytes "protobuf") b a from ≡ resolved lib
unfolding resolve_any_kind text_beq label_beq
finds = refl

resolve_any_kind_found_example :
    (index.find_override (bytes "protobuf") b a ≡ some lib)
    ⊎ ((index.find_override (bytes "protobuf") b a ≡ none)
        × (((index.find_rules (bytes "protobuf") b a ≡ []) × (lib ≡ no_label))
            ⊎ IsMatch index (index.find_rules (bytes "protobuf") b a) from lib))
resolve_any_kind_found_example = resolve_any_kind_found index (bytes "protobuf") b a from lib finds

abbrev rule : DepsRule
rule = record { kind = b; imp_lang = none; attr = some (b ∷ []); unresolved = none }

attr-resolve_deps_attr_example :
    let r' = resolve_deps_attr ext index true rule (a ∷ b ∷ []) from in
    ((d : Text)
      → contains (or_zero [] r'.attr) d ≡ (
          contains (or_zero [] rule.attr) d
          || contains (resolved_deps ext index true rule from (a ∷ b ∷ [])) d))
    × IsSorted (or_zero [] r'.attr)
    × Distinct (or_zero [] r'.attr)
    × (r'.attr ≢ some [])
attr-resolve_deps_attr_example = attr-resolve_deps_attr ext index true rule (a ∷ b ∷ []) from

unresolved-resolve_deps_attr_example :
    lookup b (or_zero [] (resolve_deps_attr ext index true rule (a ∷ b ∷ []) from).unresolved) ≡ (
      if contains (a ∷ b ∷ []) b && not (true && has_prefix b (bytes "google/protobuf/"))
      then recorded_error
          (resolve_any_kind index (bytes "protobuf") (or_zero rule.kind rule.imp_lang) b from)
      else none)
unresolved-resolve_deps_attr_example =
    unresolved-resolve_deps_attr ext index true rule (a ∷ b ∷ []) from b refl

abbrev statements : List Statement
statements =
    package_statement a
    ∷ service_statement b
    ∷ option_statement (record { name = a; source = b })
    ∷ import_statement a
    ∷ message_statement b
    ∷ enum_statement (record {
      name = a;
      elements =
          enum_option (record { name = a; source = b })
          ∷ enum_field b (field_option (record { name = b; source = b }) ∷ [])
          ∷ [];
    })
    ∷ []

abbrev file : ProtoFile
file = new_file a (bytes "a.proto")

parse_reader_lem_example :
    (g : ProtoFile) × (parse_reader (λ input. some statements) [] file ≡ some g)
    × (g.imports ≡ file.imports ++ imports_in statements)
    × (g.options ≡ file.options ++ options_in statements)
    × (g.services ≡ file.services ++ services_in statements)
    × (g.pkg ≡ last_package file.pkg statements)
    × (g.messages ≡ file.messages ++ messages_in statements)
    × (g.enums ≡ file.enums ++ enums_in statements)
    × (g.enum_options ≡ enum_options_in (file.enums ++ enums_in statements))
parse_reader_lem_example = parse_reader_lem (λ input. some statements) [] file statements refl

abbrev aliased : List ProtoOption
aliased =
    record { name = a; source = b }
    ∷ record { name = bytes "go_package"; source = bytes "x/y;z" }
    ∷ []

x_y-Lacks : Lacks 59 (bytes "x/y")
x_y-Lacks = (refl, (refl, (refl, tt)))

go_package_option-alias_example : go_package_option aliased ≡ some (bytes "x/y", bytes "z")
unfolding get_named_option text_beq
go_package_option-alias_example =
    go_package_option-alias aliased (bytes "x/y") (bytes "z") x_y-Lacks refl

abbrev bare : List ProtoOption
bare = record { name = bytes "go_package"; source = bytes "x/y" } ∷ []

abbrev transitive : Dict Text Text
transitive = (a, b) ∷ []

abbrev options : List Text
options = bytes "Ma=x" ∷ bytes "paths" ∷ bytes "Mb=y" ∷ []

resolve_plugin_options_lem_example :
    let kept = get_import_mappings (resolve_plugin_options transitive options) in
    let all = get_import_mappings options in
    (kept.1 ≡ all.1)
    × (lookup b kept.0 ≡ (if is_some (lookup b transitive) then lookup b all.0 else none))
resolve_plugin_options_lem_example = resolve_plugin_options_lem transitive options b

-- `p/a` depends on `p/b`, which depends on `p/a`, and `p/b` is mapped.
abbrev resolver : Resolver
resolver =
    provide
      (provide
        (provide new (bytes "proto") (bytes "depends") (bytes "p/a") (new_label [] (bytes "p") b))
        (bytes "proto") (bytes "depends") (bytes "p/b") (new_label [] (bytes "p") a))
      (bytes "proto") (bytes "M") (bytes "p/b") (new_label [] (bytes "x/y") (bytes "option"))

resolve_transitive_import_mappings_lem_example :
    let depends = known_for resolver (bytes "proto") (bytes "depends") in
    let m = known_for resolver (bytes "proto") (bytes "M") in
    let files = map (λ src. path_join (bytes "p" ∷ src ∷ [])) (a ∷ []) in
    (mappings : Dict Text Text) × (resolve_transitive_import_mappings resolver (bytes "p") (a ∷ [])
      ≡ some mappings)
    × ((Reach depends files (bytes "p/b")
          × (lookup (bytes "p/b") mappings ≡ mapped m (bytes "p/b")))
        ⊎ ((¬ Reach depends files (bytes "p/b")) × (lookup (bytes "p/b") mappings ≡ none)))
resolve_transitive_import_mappings_lem_example =
    resolve_transitive_import_mappings_lem resolver (bytes "p") (a ∷ []) (bytes "p/b")
