-- ===== src/Plugins/Services.antt =====
-- pkg/plugin: the plugins for services. None of them applies to a library without a service.
use rules_proto.Base.{Text, bytes, false, List, [], ◌∷◌, ◌++◌, Option, none, some, ◌≡◌, refl}
use rules_proto.Base.{if◌then◌else◌, length, ap, arith, Bool-cases, inl, inr, ℕ, suc, sym}
use rules_proto.Base.Dict.{Dict}
use rules_proto.Go.Paths.{path_join}
use rules_proto.Go.Case.{to_lower}
use rules_proto.Config.Plugin.{get_options}
use rules_proto.File.{
  ProtoFile, has_services, any_has_services, flat_map_files,
  import_prefix_relative_file_name_with_extensions,
}
use rules_proto.GoPlugin.{get_go_output_base_name, get_import_mappings}
use rules_proto.Sources.{PluginConfiguration}
use rules_proto.Generation.Choice.{PluginContext}
use rules_proto.Scala.{service_files, filter_files}
use rules_proto.Plugins.{conf, own_label, join_unless_empty, underscored_file_name}

-- `if !protoc.HasServices(...) { return nil }`
abbrev pub with_services : PluginContext → PluginConfiguration → Option PluginConfiguration
with_services ctx cfg = if any_has_services ctx.library.files then some cfg else none

-- `ProtocGenGrpcPython.Configure`
unfoldable pub grpc_python : PluginContext → Option PluginConfiguration
grpc_python ctx = with_services ctx (
    conf ctx (own_label (bytes "plugin/grpc/grpc") (bytes "protoc-gen-grpc-python"))
      (flat_map_files (underscored_file_name (bytes "_pb2_grpc.py") ctx.rel) has_services
        ctx.library.files)
      [] (get_options ctx.plugin_config))

-- `ProtocGenGrpcNode.Configure`
unfoldable pub grpc_node : PluginContext → Option PluginConfiguration
grpc_node ctx = with_services ctx (
    conf ctx (own_label (bytes "plugin/grpc/grpc-node") (bytes "protoc-gen-grpc-node"))
      (flat_map_files (underscored_file_name (bytes "_grpc_pb.js") ctx.rel) has_services
        ctx.library.files)
      [] (get_options ctx.plugin_config))

-- `ProtocGenGrpcWeb.Configure`
unfoldable pub grpc_web : PluginContext → Option PluginConfiguration
grpc_web ctx = with_services ctx (
    conf ctx (own_label (bytes "plugin/grpc/grpc-web") (bytes "protoc-gen-grpc-web"))
      (flat_map_files (underscored_file_name (bytes "_grpc_web_pb.js") ctx.rel) has_services
        ctx.library.files)
      [] (get_options ctx.plugin_config))

-- `GrpcGrpcCppPlugin.Configure`
unfoldable pub grpc_cpp : PluginContext → Option PluginConfiguration
grpc_cpp ctx = with_services ctx (
    conf ctx (own_label (bytes "plugin/grpc/grpc") (bytes "protoc-gen-grpc-cpp"))
      (flat_map_files
        (import_prefix_relative_file_name_with_extensions ctx.library.strip_import_prefix ctx.rel
          (bytes ".grpc.pb.cc" ∷ bytes ".grpc.pb.h" ∷ []))
        has_services ctx.library.files)
      [] (get_options ctx.plugin_config))

-- `ProtocGenGrpcJs.Configure`
unfoldable pub grpc_js : PluginContext → Option PluginConfiguration
grpc_js ctx =
    let js_file = join_unless_empty ctx.rel (to_lower ctx.library.base_name ++ bytes ".grpc.js") in
    with_services ctx (
      conf ctx (own_label (bytes "plugin/stackb/grpc_js") (bytes "protoc-gen-grpc-js"))
        (js_file ∷ []) [] (get_options ctx.plugin_config ++ (bytes "out=" ++ js_file) ∷ []))

-- `ProtocGenAkkaGrpcPlugin.Configure`
unfoldable pub akka_grpc : PluginContext → Option PluginConfiguration
akka_grpc ctx = with_services ctx (
    conf ctx (own_label (bytes "plugin/akka/akka-grpc") (bytes "protoc-gen-akka-grpc"))
      (join_unless_empty ctx.rel (ctx.library.base_name ++ bytes "_akka_grpc.srcjar") ∷ []) []
      (get_options ctx.plugin_config))

-- `ProtocGenGrpcJavaPlugin.Configure`
unfoldable pub grpc_java : PluginContext → Option PluginConfiguration
grpc_java ctx =
    let srcjar = path_join (ctx.rel ∷ (ctx.library.base_name ++ bytes "_grpc.srcjar") ∷ []) in
    with_services ctx (
      conf ctx (own_label (bytes "plugin/grpc/grpc-java") (bytes "protoc-gen-grpc-java"))
        (srcjar ∷ []) srcjar (get_options ctx.plugin_config))

-- `outputs` of protoc-gen-grpc-gateway
unfoldable pub gateway_outputs : Text → List ProtoFile → List Text
gateway_outputs rel [] = []
gateway_outputs rel (f ∷ files) =
    let srcs = gateway_outputs rel files in
    if has_services f then (join_unless_empty rel f.name ++ bytes ".pb.gw.go") ∷ srcs else srcs

-- `protocGenGrpcGatewayPlugin.Configure`
unfoldable pub grpc_gateway : PluginContext → Option PluginConfiguration
unfolding gateway_outputs
grpc_gateway ctx = with_services ctx (
    conf ctx
      (own_label (bytes "plugin/grpc-ecosystem/grpc-gateway") (bytes "protoc-gen-grpc-gateway"))
      (gateway_outputs ctx.rel ctx.library.files) [] (get_options ctx.plugin_config))

-- `outputs` of protoc-gen-go-grpc
unfoldable pub go_grpc_outputs : List ProtoFile → Dict Text Text → List Text
go_grpc_outputs [] mappings = []
go_grpc_outputs (f ∷ files) mappings =
    let srcs = go_grpc_outputs files mappings in
    if has_services f
    then (get_go_output_base_name f mappings ++ bytes "_grpc.pb.go") ∷ srcs
    else srcs

-- `ProtocGenGoGrpcPlugin.Configure`
unfoldable pub go_grpc : PluginContext → Option PluginConfiguration
unfolding go_grpc_outputs
go_grpc ctx =
    let options = get_options ctx.plugin_config in
    with_services ctx (
      conf ctx (own_label (bytes "plugin/grpc/grpc-go") (bytes "protoc-gen-go-grpc"))
        (go_grpc_outputs ctx.library.files (get_import_mappings options).0) [] options)

-- The number of outputs of a configuration; nil has none.
abbrev pub output_count : Option PluginConfiguration → ℕ
output_count none = 0
output_count (some cfg) = length cfg.outputs

length-flat_map :
    (name : ProtoFile → Text) (files : List ProtoFile)
    → length (flat_map_files (λ f. name f ∷ []) has_services files) ≡ length (service_files files)
unfolding flat_map_files service_files filter_files
length-flat_map name [] = refl
length-flat_map name (f ∷ files) = elim (Bool-cases (has_services f)) [
  | inl e ↦ rw e (ap suc (length-flat_map name files))
  | inr e ↦ rw e (length-flat_map name files)
]

length-gateway_outputs :
    (rel : Text) (files : List ProtoFile)
    → length (gateway_outputs rel files) ≡ length (service_files files)
unfolding gateway_outputs service_files filter_files
length-gateway_outputs rel [] = refl
length-gateway_outputs rel (f ∷ files) = elim (Bool-cases (has_services f)) [
  | inl e ↦ rw e (ap suc (length-gateway_outputs rel files))
  | inr e ↦ rw e (length-gateway_outputs rel files)
]

length-go_grpc_outputs :
    (files : List ProtoFile) (mappings : Dict Text Text)
    → length (go_grpc_outputs files mappings) ≡ length (service_files files)
unfolding go_grpc_outputs service_files filter_files
length-go_grpc_outputs [] mappings = refl
length-go_grpc_outputs (f ∷ files) mappings = elim (Bool-cases (has_services f)) [
  | inl e ↦ rw e (ap suc (length-go_grpc_outputs files mappings))
  | inr e ↦ rw e (length-go_grpc_outputs files mappings)
]

no_service_files :
    (files : List ProtoFile) → any_has_services files ≡ false → length (service_files files) ≡ 0
unfolding any_has_services service_files filter_files
no_service_files [] h = refl
no_service_files (f ∷ files) h = elim (Bool-cases (has_services f)) [
  | inl e ↦ absurd (ground (arith, h, e))
  | inr e ↦ rw e (no_service_files files (ground (arith, h, e)))
]

count_with_services :
    (ctx : PluginContext) (cfg : PluginConfiguration)
    → length cfg.outputs ≡ length (service_files ctx.library.files)
    → output_count (with_services ctx cfg) ≡ length (service_files ctx.library.files)
count_with_services ctx cfg h = elim (Bool-cases (any_has_services ctx.library.files)) [
  | inl e ↦ rw e h
  | inr e ↦ rw e (sym (no_service_files ctx.library.files e))
]

-- The plugins for gRPC in Python, Node, the web, Go and the gateway predict one output for each
-- file with a service, and no other.
pub grpc_outputs_count :
    (ctx : PluginContext)
    → let n = length (service_files ctx.library.files) in
      (output_count (grpc_python ctx) ≡ n)
      × (output_count (grpc_node ctx) ≡ n)
      × (output_count (grpc_web ctx) ≡ n)
      × (output_count (go_grpc ctx) ≡ n)
      × (output_count (grpc_gateway ctx) ≡ n)
unfolding grpc_python grpc_node grpc_web go_grpc grpc_gateway underscored_file_name
grpc_outputs_count ctx =
    let files = ctx.library.files in
    (
      count_with_services ctx _ (length-flat_map _ files),
      count_with_services ctx _ (length-flat_map _ files),
      count_with_services ctx _ (length-flat_map _ files),
      count_with_services ctx _ (length-go_grpc_outputs files _),
      count_with_services ctx _ (length-gateway_outputs ctx.rel files),
    )
