-- ===== src/Deps/Specs.antt =====
-- pkg/protoc/depsresolver.go: the import specifications of libraries, as pairs of a language and an
-- import.
use rules_proto.Base.{Text, List, [], ◌∷◌, ◌++◌}
use rules_proto.Go.Paths.{path_join}
use rules_proto.File.{ProtoFile}
use rules_proto.Library.{ProtoLibrary}

-- `ProtoFilesImportSpecsForKind`
unfoldable pub proto_files_import_specs_for_kind : Text → List ProtoFile → List (Text × Text)
proto_files_import_specs_for_kind kind [] = []
proto_files_import_specs_for_kind kind (file ∷ files) =
    (kind, path_join (file.dir ∷ file.basename ∷ [])) ∷ proto_files_import_specs_for_kind kind files

-- `ProtoLibraryImportSpecsForKind`
unfoldable pub proto_library_import_specs_for_kind : Text → List ProtoLibrary → List (Text × Text)
unfolding proto_files_import_specs_for_kind
proto_library_import_specs_for_kind kind [] = []
proto_library_import_specs_for_kind kind (lib ∷ libs) =
    proto_files_import_specs_for_kind kind lib.files
    ++ proto_library_import_specs_for_kind kind libs
