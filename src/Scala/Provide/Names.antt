-- ===== src/Scala/Provide/Names.antt =====
-- What the names of a proto file are to Scala, told from the lists that the provider builds.
use rules_proto.Base.{Text, bytes, Bool, false, not, List, [], ◌∷◌, ◌++◌, ◌≡◌, refl, ◌∙◌, ap, arith}
use rules_proto.Base.{
  ◌==◌, text_eq, ◌&&◌, ◌||◌, contains, contains-append, append-nil, is_empty, map,
}
use rules_proto.File.{
  ProtoFile, ProtoEnum, EnumElement, enum_option, enum_field, other_element, get_named_option,
}
use rules_proto.Scala.Provide.{
  qualified, or_pkg, field_names, enum_names, message_names, service_names, package_names,
  file_names, all_names, scala, provide_scala_imports, provide_scala_imports_sound,
}
use rules_proto.External.{Label, label_eq}
use rules_proto.Resolver.{Resolver, resolve}
use rules_proto.Resolver.Keys.{IsValid}

-- The endings of the names that are generated for a message, and for a service.
abbrev pub message_endings : List Text
message_endings = [] ∷ bytes "Proto" ∷ []

abbrev pub service_endings : List Text
service_endings =
    []
    ∷ bytes "Grpc"
    ∷ bytes "Proto"
    ∷ bytes "Client"
    ∷ bytes "Handler"
    ∷ bytes "Server"
    ∷ bytes "PowerApi"
    ∷ bytes "PowerApiHandler"
    ∷ bytes "ClientPowerApi"
    ∷ []

-- Whether a text is one of some names in a package, with one of some endings.
abbrev pub is_ended : List Text → Text → List Text → Text → Bool
is_ended endings pkg [] imp = false
is_ended endings pkg (n ∷ names) imp =
    contains (map (λ ending. qualified pkg n ++ ending) endings) imp
    || is_ended endings pkg names imp

-- Whether a text is a field of an enum.
abbrev pub is_field : Text → List EnumElement → Text → Bool
is_field name [] imp = false
is_field name (enum_field field options ∷ es) imp =
    imp == (name ++ (bytes "." ++ field)) || is_field name es imp
is_field name (enum_option o ∷ es) imp = is_field name es imp
is_field name (other_element ∷ es) imp = is_field name es imp

-- Whether a text is an enum, or a field of one.
abbrev pub is_enum : Text → List ProtoEnum → Text → Bool
is_enum pkg [] imp = false
is_enum pkg (e ∷ enums) imp =
    imp == qualified pkg e.name
    || is_field (qualified pkg e.name) e.elements imp
    || is_enum pkg enums imp

-- Whether a text is a name of a file: its package, an enum, a field, a message or a service.
abbrev pub is_scala_name : ProtoFile → Text → Bool
is_scala_name file imp =
    let pkg = or_pkg file.pkg (get_named_option file.options (bytes "java_package")) in
    (not (is_empty pkg) && imp == pkg)
    || (is_enum pkg file.enums imp
        || (is_ended message_endings pkg file.messages imp
            || is_ended service_endings pkg file.services imp))

abbrev pub is_any_name : List ProtoFile → Text → Bool
is_any_name [] imp = false
is_any_name (file ∷ files) imp = is_scala_name file imp || is_any_name files imp

contains-field_names :
    (name : Text) (es : List EnumElement) (imp : Text)
    → contains (field_names name es) imp ≡ is_field name es imp
unfolding field_names contains
contains-field_names name [] imp = refl
contains-field_names name (enum_field field options ∷ es) imp =
    ap (λ b. imp == (name ++ (bytes "." ++ field)) || b) (contains-field_names name es imp)
contains-field_names name (enum_option o ∷ es) imp = contains-field_names name es imp
contains-field_names name (other_element ∷ es) imp = contains-field_names name es imp

contains-enum_names :
    (pkg : Text) (enums : List ProtoEnum) (imp : Text)
    → contains (enum_names pkg enums) imp ≡ is_enum pkg enums imp
unfolding enum_names contains
contains-enum_names pkg [] imp = refl
contains-enum_names pkg (e ∷ enums) imp = ground (
  arith,
  contains-append (field_names (qualified pkg e.name) e.elements) (enum_names pkg enums) imp,
  contains-field_names (qualified pkg e.name) e.elements imp,
  contains-enum_names pkg enums imp,
)

contains-message_names :
    (pkg : Text) (messages : List Text) (imp : Text)
    → contains (message_names pkg messages) imp ≡ is_ended message_endings pkg messages imp
unfolding message_names contains
contains-message_names pkg [] imp = refl
contains-message_names pkg (m ∷ messages) imp =
    rw (append-nil (qualified pkg m)) (ground (arith, contains-message_names pkg messages imp))

contains-service_names :
    (pkg : Text) (services : List Text) (imp : Text)
    → contains (service_names pkg services) imp ≡ is_ended service_endings pkg services imp
unfolding service_names contains
contains-service_names pkg [] imp = refl
contains-service_names pkg (s ∷ services) imp =
    rw (append-nil (qualified pkg s)) (ground (arith, contains-service_names pkg services imp))

contains-package_names :
    (pkg imp : Text) → contains (package_names pkg) imp ≡ (not (is_empty pkg) && imp == pkg)
unfolding contains
contains-package_names [] imp = refl
contains-package_names (c ∷ pkg) imp = ground arith

contains-file_names :
    (file : ProtoFile) (imp : Text) → contains (file_names file) imp ≡ is_scala_name file imp
unfolding file_names
contains-file_names file imp =
    let pkg = or_pkg file.pkg (get_named_option file.options (bytes "java_package")) in
    let ms = message_names pkg file.messages in
    let ss = service_names pkg file.services in
    let es = enum_names pkg file.enums in
    rw
      (
        contains-append (package_names pkg) (es ++ (ms ++ ss)) imp,
        contains-append es (ms ++ ss) imp,
        contains-append ms ss imp,
        contains-package_names pkg imp,
        contains-enum_names pkg file.enums imp,
        contains-message_names pkg file.messages imp,
        contains-service_names pkg file.services imp,
      )
      refl

contains-all_names :
    (files : List ProtoFile) (imp : Text) → contains (all_names files) imp ≡ is_any_name files imp
unfolding contains
contains-all_names [] imp = refl
contains-all_names (file ∷ files) imp =
    contains-append (file_names file) (all_names files) imp
    ∙ rw (contains-file_names file imp, contains-all_names files imp) refl

-- A Scala library is found in the resolver under exactly the names of its files: their packages,
-- enums and enum fields, the messages with their endings, and the services with theirs; what was
-- found before is found still.
pub provide_scala_imports_lem :
    (files : List ProtoFile) (r : Resolver) (from : Label) (imp : Text) (at : Label)
    → IsValid r
    → contains (resolve (provide_scala_imports r from files) scala scala imp) at
      ≡ (contains (resolve r scala scala imp) at || (is_any_name files imp && at == from))
provide_scala_imports_lem files r from imp at v =
    (provide_scala_imports_sound files r from imp at v).1 ∙ rw (contains-all_names files imp) refl
