-- ===== src/Libraries.antt =====
-- pkg/rule: the libraries of generated sources in C++, Java, Python, JavaScript and TypeScript, and
-- the rule of scala_proto_library. Not modelled: the resolution of proto_closure_js_library.
pub mod Exports
pub mod Typescript
use rules_proto.Base.{
  Text, bytes, Bool, true, false, List, [], ◌∷◌, ◌++◌, Option, none, some, ◌≡◌, refl,
}
use rules_proto.Base.{text_eq, text_beq, if◌then◌else◌, is_empty, ap, ◌∙◌}
use rules_proto.Base.Dict.{Dict, lookup, or_zero, erase, lookup-erase}
use rules_proto.Base.Sort.{sort_strings}
use rules_proto.Go.Strings.{has_suffix}
use rules_proto.External.{External, Label}
use rules_proto.Gazelle.{
  BuildRule, Value, new_rule, set_attr, set_nonempty, attr_strings, texts_value, text_value,
}
use rules_proto.Config.Rule.{LanguageRuleConfig, get_deps, get_visibility, get_attr, get_options}
use rules_proto.Sources.{ProtocConfiguration, get_plugin_outputs}
use rules_proto.Deps.{Index, strip_rel}
use rules_proto.Deps.OnRule.{resolve_deps}

-- `CcLibrary`, `JavaLibrary`, `PyLibrary`, `JsLibrary` and `ClosureJsLibrary`, but for the resolver.
pub record SourceLibrary : Type 0 where
  pub kind_name : Text
  pub rule_name_suffix : Text
  pub outputs : List Text
  pub rule_config : LanguageRuleConfig
  pub config : ProtocConfiguration

-- What the methods `ProvideRule` share: the outputs of a plugin, if there are any.
pub library_of :
    Text → Text → Text → LanguageRuleConfig → ProtocConfiguration → Option SourceLibrary
library_of implementation kind suffix cfg pc =
    let outputs = get_plugin_outputs pc implementation in
    if is_empty outputs
    then none
    else some (record {
      kind_name = kind;
      rule_name_suffix = suffix;
      outputs = outputs;
      rule_config = cfg;
      config = pc;
    })

-- `protoCcLibrary.ProvideRule`
unfoldable pub proto_cc_library : LanguageRuleConfig → ProtocConfiguration → Option SourceLibrary
unfolding library_of
proto_cc_library = library_of (bytes "builtin:cpp") (bytes "proto_cc_library") (bytes "_cc_library")

-- `grpcCcLibrary.ProvideRule`
unfoldable pub grpc_cc_library : LanguageRuleConfig → ProtocConfiguration → Option SourceLibrary
unfolding library_of
grpc_cc_library =
    library_of (bytes "grpc:grpc:cpp") (bytes "grpc_cc_library") (bytes "_grpc_cc_library")

-- `protoJavaLibrary.ProvideRule`
unfoldable pub proto_java_library : LanguageRuleConfig → ProtocConfiguration → Option SourceLibrary
unfolding library_of
proto_java_library =
    library_of (bytes "builtin:java") (bytes "proto_java_library") (bytes "_java_library")

-- `grpcJavaLibrary.ProvideRule`
unfoldable pub grpc_java_library : LanguageRuleConfig → ProtocConfiguration → Option SourceLibrary
unfolding library_of
grpc_java_library =
    library_of (bytes "grpc:grpc-java:protoc-gen-grpc-java") (bytes "grpc_java_library")
      (bytes "_grpc_java_library")

-- `protoPyLibrary.ProvideRule`
unfoldable pub proto_py_library : LanguageRuleConfig → ProtocConfiguration → Option SourceLibrary
unfolding library_of
proto_py_library =
    library_of (bytes "builtin:python") (bytes "proto_py_library") (bytes "_py_library")

-- `grpcPyLibrary.ProvideRule`
unfoldable pub grpc_py_library : LanguageRuleConfig → ProtocConfiguration → Option SourceLibrary
unfolding library_of
grpc_py_library =
    library_of (bytes "grpc:grpc:protoc-gen-grpc-python") (bytes "grpc_py_library")
      (bytes "_grpc_py_library")

-- `protoNodeJsLibrary.ProvideRule`
unfoldable pub proto_nodejs_library :
    LanguageRuleConfig → ProtocConfiguration → Option SourceLibrary
unfolding library_of
proto_nodejs_library =
    library_of (bytes "builtin:js:common") (bytes "proto_nodejs_library") (bytes "_nodejs_library")

-- `grpcNodeJsLibrary.ProvideRule`
unfoldable pub grpc_nodejs_library : LanguageRuleConfig → ProtocConfiguration → Option SourceLibrary
unfolding library_of
grpc_nodejs_library =
    library_of (bytes "grpc:grpc-node:protoc-gen-grpc-node") (bytes "grpc_nodejs_library")
      (bytes "_grpc_nodejs_library")

-- `grpcWebJsLibrary.ProvideRule`
unfoldable pub grpc_web_js_library : LanguageRuleConfig → ProtocConfiguration → Option SourceLibrary
unfolding library_of
grpc_web_js_library =
    library_of (bytes "grpc:grpc-web:protoc-gen-grpc-web") (bytes "grpc_web_js_library")
      (bytes "_grpc_web_js_library")

-- `protoClosureJsLibrary.ProvideRule`
unfoldable pub proto_closure_js_library :
    LanguageRuleConfig → ProtocConfiguration → Option SourceLibrary
unfolding library_of
proto_closure_js_library =
    library_of (bytes "builtin:js:closure") (bytes "proto_closure_js_library")
      (bytes "_closure_js_library")

-- `grpcClosureJsLibrary.ProvideRule`
unfoldable pub grpc_closure_js_library :
    LanguageRuleConfig → ProtocConfiguration → Option SourceLibrary
unfolding library_of
grpc_closure_js_library =
    library_of (bytes "stackb:grpc.js:protoc-gen-grpc-js") (bytes "grpc_closure_js_library")
      (bytes "_grpc_closure_js_library")

-- The loops of `Srcs` and `Hdrs`, by the extension.
unfoldable pub outputs_with : Text → Text → List Text → List Text
outputs_with ext rel [] = []
outputs_with ext rel (output ∷ outputs) =
    let rest = outputs_with ext rel outputs in
    if has_suffix output ext then strip_rel rel output ∷ rest else rest

-- The method `Name`
abbrev pub library_name : SourceLibrary → Text
library_name s = s.config.library.base_name ++ s.rule_name_suffix

-- A new rule with the sources of an extension.
unfoldable pub rule_of : Text → SourceLibrary → BuildRule
unfolding outputs_with
rule_of ext s =
    set_attr (bytes "srcs") (texts_value (outputs_with ext s.config.rel s.outputs))
      (new_rule s.kind_name (library_name s))

abbrev pub set_text_nonempty : Text → Text → BuildRule → BuildRule
set_text_nonempty key [] r = r
set_text_nonempty key (c ∷ value) r = set_attr key (text_value (c ∷ value)) r

-- `CcLibrary.Rule`
unfoldable pub cc_rule : SourceLibrary → BuildRule
unfolding rule_of outputs_with
cc_rule s =
    let hdrs = outputs_with (bytes ".h") s.config.rel s.outputs in
    set_nonempty (bytes "visibility") (get_visibility s.rule_config) (
      set_nonempty (bytes "deps") (get_deps s.rule_config) (
        set_text_nonempty (bytes "strip_include_prefix") s.config.library.strip_import_prefix
          (set_attr (bytes "hdrs") (texts_value hdrs) (rule_of (bytes ".cc") s))))

-- The rest of `Rule` for Java, Python and JavaScript.
abbrev pub plain_rule : Text → SourceLibrary → BuildRule
plain_rule ext s =
    set_nonempty (bytes "visibility") (get_visibility s.rule_config)
      (set_nonempty (bytes "deps") (get_deps s.rule_config) (rule_of ext s))

-- `JavaLibrary.Rule`
unfoldable pub java_rule : SourceLibrary → BuildRule
java_rule = plain_rule (bytes ".srcjar")

-- `PyLibrary.Rule`
unfoldable pub py_rule : SourceLibrary → BuildRule
py_rule = plain_rule (bytes ".py")

-- `JsLibrary.Rule`
unfoldable pub js_rule : SourceLibrary → BuildRule
js_rule = plain_rule (bytes ".js")

-- `ClosureJsLibrary.Rule`
unfoldable pub closure_rule : SourceLibrary → BuildRule
unfolding rule_of
closure_rule s =
    set_attr (bytes "suppress")
      (texts_value
        (bytes "JSC_IMPLICITLY_NONNULL_JSDOC" ∷ bytes "JSC_UNUSED_LOCAL_ASSIGNMENT" ∷ []))
      (set_nonempty (bytes "visibility") (get_visibility s.rule_config) (rule_of (bytes ".js") s))

-- The dependencies of a rule for gRPC: those it has, and the library of messages by its suffix.
unfoldable pub with_message_library : Text → ProtocConfiguration → BuildRule → List Text
with_message_library suffix pc r =
    attr_strings (bytes "deps") r ++ (bytes ":" ++ (pc.library.base_name ++ suffix)) ∷ []

-- The resolver of `grpcCcLibrary`
unfoldable pub resolve_grpc_cc : SourceLibrary → BuildRule → BuildRule
unfolding with_message_library
resolve_grpc_cc s r =
    set_nonempty (bytes "deps") (with_message_library (bytes "_cc_library") s.config r) r

-- The resolver of `grpcPyLibrary`
unfoldable pub resolve_grpc_py : SourceLibrary → BuildRule → BuildRule
unfolding with_message_library
resolve_grpc_py s r =
    set_nonempty (bytes "deps") (with_message_library (bytes "_py_library") s.config r) r

-- The resolver of `grpcNodeJsLibrary` and of `grpcWebJsLibrary`
unfoldable pub resolve_grpc_js : SourceLibrary → BuildRule → BuildRule
unfolding with_message_library
resolve_grpc_js s r =
    set_nonempty (bytes "deps") (with_message_library (bytes "_nodejs_library") s.config r) r

-- The resolver of `grpcJavaLibrary`
unfoldable pub resolve_grpc_java : SourceLibrary → BuildRule → BuildRule
unfolding with_message_library
resolve_grpc_java s r =
    let deps = with_message_library (bytes "_java_library") s.config r in
    set_nonempty (bytes "exports") deps (set_nonempty (bytes "deps") deps r)

-- The resolver of `grpcClosureJsLibrary`
unfoldable pub resolve_grpc_closure : SourceLibrary → BuildRule → BuildRule
unfolding with_message_library
resolve_grpc_closure s r =
    let deps = with_message_library (bytes "_closure_js_library") s.config r in
    set_nonempty (bytes "exports") deps (set_nonempty (bytes "deps") deps r)

-- `r.SetAttr("exports", r.Attr("deps"))`; gazelle panics on the nil of a missing attribute.
unfoldable pub export_deps : BuildRule → Option BuildRule
export_deps r = elim (lookup (bytes "deps") r.attrs) [
  | none ↦ none
  | some v ↦ some (set_attr (bytes "exports") v r)
]

-- The resolver of `protoJavaLibrary`; `none` is the panic.
unfoldable pub resolve_proto_java :
    External → Index → BuildRule → List Text → Label → Option BuildRule
unfolding export_deps
resolve_proto_java ext ix r imports from =
    let (r', unresolved) = resolve_deps ext ix true none r imports from in export_deps r'
