-- ===== src/Scala/Provide.antt =====
-- pkg/rule/rules_scala/scala_library.go: `provideScalaImports`, the names that a Scala library
-- provides, and what the resolver then knows.
pub mod Names
use rules_proto.Base.{Text, bytes, List, [], ◌∷◌, ◌++◌, Option, none, some, ◌≡◌, refl}
use rules_proto.Base.{◌==◌, text_eq, ◌&&◌, ◌||◌, contains, contains-append, ◌∙◌, ap, arith}
use rules_proto.Base.{eq_refl, eq_iff, Bool-cases, inl, inr}
use rules_proto.External.{Label, label_eq}
use rules_proto.Go.Strings.{Lacks}
use rules_proto.File.{
  ProtoFile, ProtoEnum, EnumElement, enum_option, enum_field, other_element, get_named_option,
}
use rules_proto.Resolver.{Resolver, provide, resolve}
use rules_proto.Resolver.Keys.{IsValid}
use rules_proto.Resolver.Provide.{add_label, provide-IsValid, resolve-provide}

abbrev pub scala : Text
scala = bytes "scala"

-- `name = pkgName + "." + name`, if there is a package
abbrev pub qualified : Text → Text → Text
qualified [] name = name
qualified (c ∷ pkg) name = (c ∷ pkg) ++ (bytes "." ++ name)

-- The package of a file, which the option java_package replaces.
abbrev pub or_pkg : Text → Option Text → Text
or_pkg pkg none = pkg
or_pkg pkg (some java) = java

-- The names of the fields of an enum.
pub field_names : Text → List EnumElement → List Text
field_names name [] = []
field_names name (enum_field field options ∷ es) =
    (name ++ (bytes "." ++ field)) ∷ field_names name es
field_names name (enum_option o ∷ es) = field_names name es
field_names name (other_element ∷ es) = field_names name es

pub enum_names : Text → List ProtoEnum → List Text
unfolding field_names
enum_names pkg [] = []
enum_names pkg (e ∷ enums) =
    qualified pkg e.name ∷ (field_names (qualified pkg e.name) e.elements ++ enum_names pkg enums)

pub message_names : Text → List Text → List Text
message_names pkg [] = []
message_names pkg (m ∷ messages) =
    let name = qualified pkg m in name ∷ (name ++ bytes "Proto") ∷ message_names pkg messages

pub service_names : Text → List Text → List Text
service_names pkg [] = []
service_names pkg (s ∷ services) =
    let name = qualified pkg s in
    name
    ∷ (name ++ bytes "Grpc")
    ∷ (name ++ bytes "Proto")
    ∷ (name ++ bytes "Client")
    ∷ (name ++ bytes "Handler")
    ∷ (name ++ bytes "Server")
    ∷ (name ++ bytes "PowerApi")
    ∷ (name ++ bytes "PowerApiHandler")
    ∷ (name ++ bytes "ClientPowerApi")
    ∷ service_names pkg services

abbrev pub package_names : Text → List Text
package_names [] = []
package_names (c ∷ pkg) = (c ∷ pkg) ∷ []

-- The names of a file, in the order in which they are provided.
unfoldable pub file_names : ProtoFile → List Text
unfolding enum_names message_names service_names
file_names file =
    let pkg = or_pkg file.pkg (get_named_option file.options (bytes "java_package")) in
    package_names pkg
    ++ (enum_names pkg file.enums
        ++ (message_names pkg file.messages ++ service_names pkg file.services))

-- `resolver.Provide(lang, lang, name, from)` of names
unfoldable pub provide_names : Resolver → Label → List Text → Resolver
provide_names resolver from [] = resolver
provide_names resolver from (name ∷ names) =
    provide_names (provide resolver scala scala name from) from names

-- `provideScalaImports`; the options are not read.
unfoldable pub provide_scala_imports : Resolver → Label → List ProtoFile → Resolver
unfolding provide_names file_names
provide_scala_imports resolver from [] = resolver
provide_scala_imports resolver from (file ∷ files) =
    provide_scala_imports (provide_names resolver from (file_names file)) from files

-- The names of files.
abbrev pub all_names : List ProtoFile → List Text
all_names [] = []
all_names (file ∷ files) = file_names file ++ all_names files

contains-add_label_at :
    (l : Label) (ls : List Label) (at : Label)
    → contains (add_label l ls) at ≡ (contains ls at || at == l)
unfolding contains
contains-add_label_at l ls at = elim (Bool-cases (contains ls l)) [
  | inl old ↦ rw old (ground (arith, old, eq_iff at l, λ (e : at ≡ l). ap (contains ls) e))
  | inr fresh ↦ rw fresh (contains-append ls (l ∷ []) at ∙ ground arith)
]

scala-Lacks : Lacks 32 scala
scala-Lacks = (refl, (refl, (refl, (refl, (refl, tt)))))

provide_names_lem :
    (names : List Text) (r : Resolver) (from : Label) (imp : Text) (at : Label)
    → IsValid r
    → IsValid (provide_names r from names)
      × (contains (resolve (provide_names r from names) scala scala imp) at
          ≡ (contains (resolve r scala scala imp) at || (contains names imp && at == from)))
unfolding provide_names contains
provide_names_lem [] r from imp at v = (v, ground arith)
provide_names_lem (name ∷ names) r from imp at v =
    let r' = provide r scala scala name from in
    let v' = provide-IsValid r scala scala name from v scala-Lacks in
    let (w, h) = provide_names_lem names r' from imp at v' in
    let step = resolve-provide r scala scala name from scala scala imp v scala-Lacks scala-Lacks in
    let labels = resolve r scala scala imp in
    (
      w,
      h
          ∙ rw step (elim (Bool-cases (name == imp)) [
            | inl e ↦
                rw (eq_refl scala, e)
                  (ground (
                    arith,
                    contains-add_label_at from labels at,
                    e,
                    eq_iff name imp,
                    eq_iff imp name,
                  ))
            | inr e ↦ rw (eq_refl scala, e) (ground (arith, e, eq_iff name imp, eq_iff imp name))
          ]),
    )

pub provide_scala_imports_sound :
    (files : List ProtoFile) (r : Resolver) (from : Label) (imp : Text) (at : Label)
    → IsValid r
    → IsValid (provide_scala_imports r from files)
      × (contains (resolve (provide_scala_imports r from files) scala scala imp) at ≡ (
          contains (resolve r scala scala imp) at
          || (contains (all_names files) imp && at == from)))
unfolding provide_scala_imports contains
provide_scala_imports_sound [] r from imp at v = (v, ground arith)
provide_scala_imports_sound (file ∷ files) r from imp at v =
    let names = file_names file in
    let (v', first) = provide_names_lem names r from imp at v in
    let (w, rest) = provide_scala_imports_sound files (provide_names r from names) from imp at v' in
    (w, rest ∙ ground (arith, first, contains-append names (all_names files) imp))
