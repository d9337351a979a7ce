-- ===== src/Library.antt =====
-- pkg/protoc/proto_library.go and other_proto_library.go: the proto libraries that other extensions
-- generated.
use rules_proto.Base.{Text, bytes, List, [], Option, none, some, text_eq, if◌then◌else◌, is_empty}
use rules_proto.Base.Dict.{or_zero}
use rules_proto.Go.Strings.{has_suffix, trim_suffix}
use rules_proto.File.{ProtoFile}
use rules_proto.Gazelle.{BuildRule, attr_string, attr_strings}

-- `ProtoLibrary`, by what its methods return.
pub record ProtoLibrary : Type 0 where
  pub name : Text
  pub base_name : Text
  pub srcs : List Text
  pub deps : List Text
  pub imports : List Text
  pub strip_import_prefix : Text
  pub files : List ProtoFile

-- `OtherProtoLibrary`; of the source file it reads the attributes that are marked to be kept.
pub record OtherProtoLibrary : Type 0 where
  pub kept : Text → Text
  pub rule : BuildRule
  pub files : List ProtoFile

-- The method `BaseName`; `none` is its panic.
unfoldable pub base_name : OtherProtoLibrary → Option Text
base_name s =
    if has_suffix s.rule.name (bytes "_proto")
    then some (trim_suffix s.rule.name (bytes "_proto"))
    else none

-- The method `StripImportPrefix`
unfoldable pub strip_import_prefix : OtherProtoLibrary → Text
strip_import_prefix s =
    let prefix = attr_string (bytes "strip_import_prefix") s.rule in
    if is_empty prefix then s.kept (bytes "strip_import_prefix") else prefix

-- The methods as a `ProtoLibrary`; `none` is the panic of a base name.
unfoldable pub proto_library : OtherProtoLibrary → Option ProtoLibrary
unfolding base_name strip_import_prefix
proto_library s = elim (base_name s) [
  | none ↦ none
  | some base ↦ some (record {
    name = s.rule.name;
    base_name = base;
    srcs = attr_strings (bytes "srcs") s.rule;
    deps = attr_strings (bytes "deps") s.rule;
    imports = or_zero [] s.rule.imports;
    strip_import_prefix = strip_import_prefix s;
    files = s.files;
  })
]
