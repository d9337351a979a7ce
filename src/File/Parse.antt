-- ===== src/File/Parse.antt =====
-- What a file holds once it is parsed.
use rules_proto.Base.{
  Text, List, [], ◌∷◌, ◌++◌, ◌≡◌, refl, arith, ◌∙◌, sym, ap, append-nil, append_assoc, some, Option,
}
use rules_proto.File.{
  ProtoFile, Statement, package_statement, import_statement, service_statement, message_statement,
  option_statement, enum_statement, walk, handle, parse_reader, collect, visit_enum, visit_field,
  ProtoEnum, ProtoOption, FieldElement, EnumElement, field_option, field_comment, enum_option,
  enum_field, other_element,
}

-- The statements of one sort, in order.
abbrev pub imports_in : List Statement → List Text
imports_in [] = []
imports_in (import_statement i ∷ ss) = i ∷ imports_in ss
imports_in (_ ∷ ss) = imports_in ss

abbrev pub messages_in : List Statement → List Text
messages_in [] = []
messages_in (message_statement i ∷ ss) = i ∷ messages_in ss
messages_in (_ ∷ ss) = messages_in ss

abbrev pub enums_in : List Statement → List ProtoEnum
enums_in [] = []
enums_in (enum_statement i ∷ ss) = i ∷ enums_in ss
enums_in (_ ∷ ss) = enums_in ss

abbrev pub services_in : List Statement → List Text
services_in [] = []
services_in (service_statement i ∷ ss) = i ∷ services_in ss
services_in (_ ∷ ss) = services_in ss

abbrev pub options_in : List Statement → List ProtoOption
options_in [] = []
options_in (option_statement i ∷ ss) = i ∷ options_in ss
options_in (_ ∷ ss) = options_in ss

-- The package of the last statement that gives one.
abbrev pub last_package : Text → List Statement → Text
last_package pkg [] = pkg
last_package pkg (package_statement p ∷ ss) = last_package p ss
last_package pkg (_ ∷ ss) = last_package pkg ss

abbrev field_options : List FieldElement → List ProtoOption
field_options [] = []
field_options (field_option o ∷ es) = o ∷ field_options es
field_options (field_comment ∷ es) = field_options es

-- The options of an enum and of its fields.
abbrev element_options : List EnumElement → List ProtoOption
element_options [] = []
element_options (enum_option o ∷ es) = o ∷ element_options es
element_options (enum_field name fs ∷ es) = field_options fs ++ element_options es
element_options (other_element ∷ es) = element_options es

abbrev pub enum_options_in : List ProtoEnum → List ProtoOption
enum_options_in [] = []
enum_options_in (e ∷ enums) = element_options e.elements ++ enum_options_in enums

imports-walk :
    (ss : List Statement) (f : ProtoFile) → (walk f ss).imports ≡ f.imports ++ imports_in ss
unfolding walk handle
imports-walk [] f = sym (append-nil f.imports)
imports-walk (import_statement i ∷ ss) f =
    imports-walk ss _ ∙ append_assoc f.imports (i ∷ []) (imports_in ss)
imports-walk (package_statement i ∷ ss) f = imports-walk ss _
imports-walk (service_statement i ∷ ss) f = imports-walk ss _
imports-walk (message_statement i ∷ ss) f = imports-walk ss _
imports-walk (option_statement i ∷ ss) f = imports-walk ss _
imports-walk (enum_statement i ∷ ss) f = imports-walk ss _

messages-walk :
    (ss : List Statement) (f : ProtoFile) → (walk f ss).messages ≡ f.messages ++ messages_in ss
unfolding walk handle
messages-walk [] f = sym (append-nil f.messages)
messages-walk (message_statement i ∷ ss) f =
    messages-walk ss _ ∙ append_assoc f.messages (i ∷ []) (messages_in ss)
messages-walk (package_statement i ∷ ss) f = messages-walk ss _
messages-walk (service_statement i ∷ ss) f = messages-walk ss _
messages-walk (import_statement i ∷ ss) f = messages-walk ss _
messages-walk (option_statement i ∷ ss) f = messages-walk ss _
messages-walk (enum_statement i ∷ ss) f = messages-walk ss _

enums-walk : (ss : List Statement) (f : ProtoFile) → (walk f ss).enums ≡ f.enums ++ enums_in ss
unfolding walk handle
enums-walk [] f = sym (append-nil f.enums)
enums-walk (enum_statement i ∷ ss) f = enums-walk ss _ ∙ append_assoc f.enums (i ∷ []) (enums_in ss)
enums-walk (package_statement i ∷ ss) f = enums-walk ss _
enums-walk (service_statement i ∷ ss) f = enums-walk ss _
enums-walk (import_statement i ∷ ss) f = enums-walk ss _
enums-walk (option_statement i ∷ ss) f = enums-walk ss _
enums-walk (message_statement i ∷ ss) f = enums-walk ss _

services-walk :
    (ss : List Statement) (f : ProtoFile) → (walk f ss).services ≡ f.services ++ services_in ss
unfolding walk handle
services-walk [] f = sym (append-nil f.services)
services-walk (service_statement i ∷ ss) f =
    services-walk ss _ ∙ append_assoc f.services (i ∷ []) (services_in ss)
services-walk (package_statement i ∷ ss) f = services-walk ss _
services-walk (import_statement i ∷ ss) f = services-walk ss _
services-walk (message_statement i ∷ ss) f = services-walk ss _
services-walk (option_statement i ∷ ss) f = services-walk ss _
services-walk (enum_statement i ∷ ss) f = services-walk ss _

options-walk :
    (ss : List Statement) (f : ProtoFile) → (walk f ss).options ≡ f.options ++ options_in ss
unfolding walk handle
options-walk [] f = sym (append-nil f.options)
options-walk (option_statement i ∷ ss) f =
    options-walk ss _ ∙ append_assoc f.options (i ∷ []) (options_in ss)
options-walk (package_statement i ∷ ss) f = options-walk ss _
options-walk (import_statement i ∷ ss) f = options-walk ss _
options-walk (service_statement i ∷ ss) f = options-walk ss _
options-walk (message_statement i ∷ ss) f = options-walk ss _
options-walk (enum_statement i ∷ ss) f = options-walk ss _

pkg-walk : (ss : List Statement) (f : ProtoFile) → (walk f ss).pkg ≡ last_package f.pkg ss
unfolding walk handle
pkg-walk [] f = refl
pkg-walk (package_statement i ∷ ss) f = pkg-walk ss _
pkg-walk (import_statement i ∷ ss) f = pkg-walk ss _
pkg-walk (service_statement i ∷ ss) f = pkg-walk ss _
pkg-walk (message_statement i ∷ ss) f = pkg-walk ss _
pkg-walk (option_statement i ∷ ss) f = pkg-walk ss _
pkg-walk (enum_statement i ∷ ss) f = pkg-walk ss _

visit_field_lem :
    (es : List FieldElement) (os : List ProtoOption) → visit_field os es ≡ os ++ field_options es
unfolding visit_field
visit_field_lem [] os = sym (append-nil os)
visit_field_lem (field_option o ∷ es) os =
    visit_field_lem es (os ++ o ∷ []) ∙ append_assoc os (o ∷ []) (field_options es)
visit_field_lem (field_comment ∷ es) os = visit_field_lem es os

visit_enum_lem :
    (es : List EnumElement) (os : List ProtoOption) → visit_enum os es ≡ os ++ element_options es
unfolding visit_enum
visit_enum_lem [] os = sym (append-nil os)
visit_enum_lem (enum_option o ∷ es) os =
    visit_enum_lem es (os ++ o ∷ []) ∙ append_assoc os (o ∷ []) (element_options es)
visit_enum_lem (enum_field name fs ∷ es) os =
    visit_enum_lem es (visit_field os fs)
    ∙ ap (λ l. l ++ element_options es) (visit_field_lem fs os)
    ∙ append_assoc os (field_options fs) (element_options es)
visit_enum_lem (other_element ∷ es) os = visit_enum_lem es os

collect_lem :
    (enums : List ProtoEnum) (os : List ProtoOption)
    → collect os enums ≡ os ++ enum_options_in enums
unfolding collect
collect_lem [] os = sym (append-nil os)
collect_lem (e ∷ enums) os =
    collect_lem enums (visit_enum os e.elements)
    ∙ ap (λ l. l ++ enum_options_in enums) (visit_enum_lem e.elements os)
    ∙ append_assoc os (element_options e.elements) (enum_options_in enums)

-- A parsed file holds, after what it held, the imports, options, services, messages and enums of its
-- statements in order, and the package of the last statement that gives one, if there is one; its
-- enum options are those of all its enums and of their fields.
pub parse_reader_lem :
    (parse : Text → Option (List Statement)) (input : Text) (f : ProtoFile) (ss : List Statement)
    → parse input ≡ some ss
    → (g : ProtoFile) × (parse_reader parse input f ≡ some g)
      × (g.imports ≡ f.imports ++ imports_in ss)
      × (g.options ≡ f.options ++ options_in ss)
      × (g.services ≡ f.services ++ services_in ss)
      × (g.pkg ≡ last_package f.pkg ss)
      × (g.messages ≡ f.messages ++ messages_in ss)
      × (g.enums ≡ f.enums ++ enums_in ss)
      × (g.enum_options ≡ enum_options_in (f.enums ++ enums_in ss))
unfolding parse_reader
parse_reader_lem parse input f ss h = (
  record (walk f ss) { enum_options = collect [] (walk f ss).enums },
  ground (arith, h),
  imports-walk ss f,
  options-walk ss f,
  services-walk ss f,
  pkg-walk ss f,
  messages-walk ss f,
  enums-walk ss f,
  collect_lem (walk f ss).enums [] ∙ ap enum_options_in (enums-walk ss f),
)
