-- ===== src/File.antt =====
-- pkg/protoc/file.go and proto_enum_option_collector.go: the files of a library and the names of
-- what is generated from them. The parser of proto files (github.com/emicklei/proto) and its walk
-- are parameters: they give the statements in the order of the walk.
pub mod Parse
pub mod Names
pub mod Pascal
use rules_proto.Base.{Text, bytes, Bool, true, false, List, [], ◌∷◌, ◌++◌, Option, none, some}
use rules_proto.Base.{◌==◌, text_eq, if◌then◌else◌, is_empty, map, not, ◌||◌}
use rules_proto.Go.Strings.{trim_suffix, trim_prefix, strip_prefix, replace_byte, split_n}
use rules_proto.Go.Paths.{path_join, path_ext}

-- `proto.Option`, by its name and the source of its constant
pub record ProtoOption : Type 0 where
  pub name : Text
  pub source : Text

-- The elements of an enum field and of an enum; an enum field has a name.
pub data FieldElement : Type 0 where
  field_option : ProtoOption → FieldElement
  field_comment : FieldElement

pub data EnumElement : Type 0 where
  enum_option : ProtoOption → EnumElement
  enum_field : Text → List FieldElement → EnumElement
  other_element : EnumElement

-- `proto.Enum`
pub record ProtoEnum : Type 0 where
  pub name : Text
  pub elements : List EnumElement

-- What the walk reports; services and messages are kept by name.
pub data Statement : Type 0 where
  package_statement import_statement service_statement message_statement : Text → Statement
  option_statement : ProtoOption → Statement
  enum_statement : ProtoEnum → Statement

-- `File`
pub record ProtoFile : Type 0 where
  pub dir : Text
  pub basename : Text
  pub name : Text
  pub pkg : Text
  pub imports : List Text
  pub options : List ProtoOption
  pub services : List Text
  pub messages : List Text
  pub enums : List ProtoEnum
  pub enum_options : List ProtoOption

-- `NewFile`
unfoldable pub new_file : Text → Text → ProtoFile
new_file dir basename = record {
  dir = dir;
  basename = basename;
  name = trim_suffix basename (path_ext basename);
  pkg = [];
  imports = [];
  options = [];
  services = [];
  messages = [];
  enums = [];
  enum_options = [];
}

-- `Relname`
unfoldable pub relname : ProtoFile → Text
relname f = if is_empty f.dir then f.basename else path_join (f.dir ∷ f.basename ∷ [])

-- `HasEnums`, `HasMessages`, `HasServices`
unfoldable pub has_enums : ProtoFile → Bool
has_enums f = not (is_empty f.enums)

unfoldable pub has_messages : ProtoFile → Bool
has_messages f = not (is_empty f.messages)

unfoldable pub has_services : ProtoFile → Bool
has_services f = not (is_empty f.services)

named : Text → List ProtoOption → Bool
named name [] = false
named name (o ∷ options) = if o.name == name then true else named name options

-- `HasEnumOption`
unfoldable pub has_enum_option : ProtoFile → Text → Bool
unfolding named
has_enum_option f name = named name f.enum_options

-- The handlers of `ParseReader`
unfoldable pub handle : Statement → ProtoFile → ProtoFile
handle (package_statement p) f = record f { pkg = p }
handle (option_statement o) f = record f { options = f.options ++ o ∷ [] }
handle (import_statement i) f = record f { imports = f.imports ++ i ∷ [] }
handle (enum_statement e) f = record f { enums = f.enums ++ e ∷ [] }
handle (service_statement s) f = record f { services = f.services ++ s ∷ [] }
handle (message_statement m) f = record f { messages = f.messages ++ m ∷ [] }

unfoldable pub walk : ProtoFile → List Statement → ProtoFile
unfolding handle
walk f [] = f
walk f (s ∷ statements) = walk (handle s f) statements

-- `VisitEnumField`
visit_field : List ProtoOption → List FieldElement → List ProtoOption
visit_field options [] = options
visit_field options (field_option o ∷ elements) = visit_field (options ++ o ∷ []) elements
visit_field options (field_comment ∷ elements) = visit_field options elements

-- `VisitEnum`
visit_enum : List ProtoOption → List EnumElement → List ProtoOption
unfolding visit_field
visit_enum options [] = options
visit_enum options (enum_option o ∷ elements) = visit_enum (options ++ o ∷ []) elements
visit_enum options (enum_field name fs ∷ elements) = visit_enum (visit_field options fs) elements
visit_enum options (other_element ∷ elements) = visit_enum options elements

-- The loop of `ParseReader` over the enums.
collect : List ProtoOption → List ProtoEnum → List ProtoOption
unfolding visit_enum
collect options [] = options
collect options (e ∷ enums) = collect (visit_enum options e.elements) enums

-- `ParseReader`; `none` is its error.
unfoldable pub parse_reader : (Text → Option (List Statement)) → Text → ProtoFile → Option ProtoFile
unfolding walk collect
parse_reader parse input f = elim (parse input) [
  | none ↦ none
  | some statements ↦
      let f' = walk f statements in some (record f' { enum_options = collect [] f'.enums })
]

-- `GoPackagePath`
unfoldable pub go_package_path : Text → Text
go_package_path pkg = replace_byte 46 47 pkg

-- The function that `PackageFileNameWithExtensions` returns.
unfoldable pub package_file_name_with_extensions : List Text → ProtoFile → List Text
unfolding go_package_path
package_file_name_with_extensions exts f =
    let name = if is_empty f.pkg then f.name else path_join (go_package_path f.pkg ∷ f.name ∷ []) in
    map (λ ext. name ++ ext) exts

-- The function that `RelativeFileNameWithExtensions` returns.
unfoldable pub relative_file_name_with_extensions : Text → List Text → ProtoFile → List Text
relative_file_name_with_extensions reldir exts f =
    let name = if is_empty reldir then f.name else path_join (reldir ∷ f.name ∷ []) in
    map (λ ext. name ++ ext) exts

-- The body of the loop of `ImportPrefixRelativeFileNameWithExtensions`.
unfoldable pub strip_import_prefix : Text → Text → Text
strip_import_prefix prefix out = elim (strip_prefix out prefix) [
  | none ↦ out
  | some rest ↦ trim_prefix rest (bytes "/")
]

-- The function that `ImportPrefixRelativeFileNameWithExtensions` returns.
unfoldable pub import_prefix_relative_file_name_with_extensions :
    Text → Text → List Text → ProtoFile → List Text
unfolding strip_import_prefix relative_file_name_with_extensions
import_prefix_relative_file_name_with_extensions prefix reldir exts f =
    map (strip_import_prefix (trim_prefix prefix (bytes "/")))
      (relative_file_name_with_extensions reldir exts f)

-- `HasMessageOrEnum`
unfoldable pub has_message_or_enum : ProtoFile → Bool
unfolding has_messages has_enums
has_message_or_enum f = has_messages f || has_enums f

-- `HasMessagesOrEnums`
unfoldable pub has_messages_or_enums : List ProtoFile → Bool
unfolding has_message_or_enum
has_messages_or_enums [] = false
has_messages_or_enums (f ∷ files) =
    if has_message_or_enum f then true else has_messages_or_enums files

-- `HasService` and `HasServices`
unfoldable pub any_has_services : List ProtoFile → Bool
unfolding has_services
any_has_services [] = false
any_has_services (f ∷ files) = if has_services f then true else any_has_services files

-- `FlatMapFiles`
unfoldable pub flat_map_files :
    (ProtoFile → List Text) → (ProtoFile → Bool) → List ProtoFile → List Text
flat_map_files apply filter [] = []
flat_map_files apply filter (f ∷ files) =
    let rest = flat_map_files apply filter files in if filter f then apply f ++ rest else rest

-- `IsProtoFile`
unfoldable pub is_proto_file : Text → Bool
is_proto_file filename =
    let ext = path_ext filename in ext == bytes ".proto" || ext == bytes ".protodevel"

pub go_package_parts : List Text → Text × Text
go_package_parts (importpath ∷ alias ∷ parts) = (importpath, alias)
go_package_parts (importpath ∷ []) = (importpath, [])
go_package_parts [] = ([], [])

-- `GoPackageOption`; `none` is a false third result.
unfoldable pub go_package_option : List ProtoOption → Option (Text × Text)
unfolding go_package_parts
go_package_option [] = none
go_package_option (opt ∷ options) =
    let rest = go_package_option options in
    if opt.name == bytes "go_package"
    then some (go_package_parts (split_n 2 59 opt.source))
    else rest

-- `GetNamedOption`; `none` is a false second result.
unfoldable pub get_named_option : List ProtoOption → Text → Option Text
get_named_option [] name = none
get_named_option (opt ∷ options) name =
    let rest = get_named_option options name in if opt.name == name then some opt.source else rest
