-- ===== src/Tests/Packages.antt =====
-- The theorems on the choice of plugins and rules, and on the extension, at concrete inputs.
use rules_proto.Base.{
  Text, bytes, List, [], ◌∷◌, ◌≡◌, refl, some, text_eq, true, false, All, contains,
}
use rules_proto.Resolver.Keys.{new-IsValid}
use rules_proto.Go.Paths.{path_join}
use rules_proto.Base.{text_beq, ◌||◌, ◌&&◌, if◌then◌else◌, is_empty, map}
use rules_proto.Base.Dict.{keys, lookup, or_zero}
use rules_proto.External.{new_label, label_eq}
use rules_proto.Tests.{ext, lib}
use rules_proto.Library.{ProtoLibrary}
use rules_proto.Gazelle.{BuildRule, attr_strings, texts_value}
use rules_proto.Config.Plugin
use rules_proto.Config.Rule
use rules_proto.Config.Rule.{Config}
use rules_proto.Config.Language.{get_rules_by_intent}
use rules_proto.Config.Package.{PackageConfig, configured_langs}
use rules_proto.Intent.{for_intent, vals_for_intent}
use rules_proto.Base.Sort.{sort_strings}
use rules_proto.Registry.{Registry, lookup_plugin, lookup_rule}
use rules_proto.Resolver.{new, resolve, provide}
use rules_proto.Generation.Choice.{
  Plugin as Implementation, LanguageRule, built, with_implementation, new_package, plugin_configs,
}
use rules_proto.Generation.Ready.{langs_ready}
use rules_proto.Generation.Total.{new_package_total}
use rules_proto.Generation.Chosen.{AllChosen, plugin_configs-AllChosen}
use rules_proto.Protobuf.Sources.{provide_srcs, provide_srcs_lem, IsFound}
use rules_proto.Protobuf.Override.{
  override_library, override_library_lem, kept_labels, labels_of, stays, first_labels,
}

abbrev a : Text
a = bytes "a"

-- A plugin with one output and two options, of which one stands twice.
abbrev implementation : Implementation
implementation = record {
  name = a;
  configure = λ ctx. some (record {
    config = ctx.plugin_config;
    label = lib;
    mappings = [];
    options = bytes "b" ∷ a ∷ bytes "b" ∷ [];
    out = [];
    outputs = bytes "pkg/a.go" ∷ [];
    plugin = [];
  });
}

abbrev registry : Registry (LanguageRule Text) Implementation
registry = record {
  rules = (a, record { name = a; provide_rule = λ cfg pc. some cfg.name }) ∷ [];
  plugins = (a, implementation) ∷ [];
}

abbrev library : ProtoLibrary
library = record {
  name = bytes "a_proto";
  base_name = a;
  srcs = bytes "a.proto" ∷ [];
  deps = [];
  imports = [];
  strip_import_prefix = [];
  files = [];
}

abbrev config : Config
config = record { work_dir = []; repo_name = [] }

-- A language that wants a plugin and a rule.
abbrev pkg_config : PackageConfig
pkg_config = record {
  config = config;
  importpath_prefix = [];
  langs =
      (
        a,
        record {
          name = a;
          protoc = [];
          enabled = true;
          plugins = (a, true) ∷ [];
          rules = (a, true) ∷ [];
        },
      )
      ∷ [];
  plugins = (a, Plugin.new a) ∷ [];
  rules = (a, record (Rule.new config a) { implementation = a }) ∷ [];
}

pkg_config-ready : langs_ready registry pkg_config (configured_langs pkg_config) ≡ true
unfolding configured_langs get_rules_by_intent with_implementation lookup_plugin lookup_rule lookup
    sort_strings keys for_intent vals_for_intent text_beq Plugin.new Rule.new
pkg_config-ready = refl

new_package_total_example :
    (c' : PackageConfig) × (gen : List (Text × ProtoLibrary)) × (empty : List (Text × ProtoLibrary))
    × (new_package registry (bytes "pkg") pkg_config (library ∷ []) ≡ built (c', gen, empty))
    × (c'.langs ≡ pkg_config.langs)
new_package_total_example =
    new_package_total registry (bytes "pkg") pkg_config (library ∷ []) pkg_config-ready

plugin_configs-AllChosen_example :
    AllChosen registry (
      plugin_configs registry
        (bytes "pkg")
        pkg_config
        library
        ((a, true) ∷ (bytes "b", false) ∷ []))
plugin_configs-AllChosen_example =
    plugin_configs-AllChosen registry (bytes "pkg") pkg_config library
      ((a, true) ∷ (bytes "b", false) ∷ [])

provided_lib :
    let at = new_label [] (bytes "pkg") (bytes "a_proto") in
    provide_srcs ext (bytes "pkg") at new (bytes "lib" ∷ [])
    ≡ some (lib ∷ [], provide new (bytes "proto") (bytes "proto") (bytes "pkg/lib") at)
unfolding provide_srcs path_join text_beq
provided_lib = refl

provide_srcs_lem_example :
    let at = new_label [] (bytes "pkg") (bytes "a_proto") in
    let r' = provide new (bytes "proto") (bytes "proto") (bytes "pkg/lib") at in
    let before = contains (resolve new (bytes "proto") (bytes "proto") a) lib in
    let after = contains (resolve r' (bytes "proto") (bytes "proto") a) lib in
    (after ≡ (before || after)) × All (IsFound r' (bytes "pkg") at) (bytes "lib" ∷ [])
provide_srcs_lem_example =
    let at = new_label [] (bytes "pkg") (bytes "a_proto") in
    provide_srcs_lem ext (bytes "pkg") at new (bytes "lib" ∷ []) (lib ∷ [])
      (provide new (bytes "proto") (bytes "proto") (bytes "pkg/lib") at) (bytes "proto") a lib
      new-IsValid provided_lib

-- A library that depends on `lib` and on a label that does not parse.
abbrev depending : BuildRule
depending = record {
  kind = bytes "proto_library";
  name = bytes "a_proto";
  attrs = (bytes "deps", texts_value (bytes "lib" ∷ bytes "b" ∷ [])) ∷ [];
  imports = some (bytes "b.proto" ∷ []);
}

override_library_lem_example :
    let keep = kept_labels ext new depending in
    let old = attr_strings (bytes "deps") depending in
    (contains keep lib ≡ (
      (contains (labels_of ext old) lib && stays lib)
      || contains (first_labels new (or_zero [] depending.imports)) lib))
    × (contains (attr_strings (bytes "deps") (override_library ext (bytes "pkg") new depending)) a
        ≡ (if is_empty keep
            then contains old a
            else contains
                (map (λ lbl. ext.label_string (ext.label_rel lbl [] (bytes "pkg"))) keep)
                a))
override_library_lem_example = override_library_lem ext (bytes "pkg") new depending lib a
