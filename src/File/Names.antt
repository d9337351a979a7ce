-- ===== src/File/Names.antt =====
-- The go_package option of a file.
use rules_proto.Base.{Text, bytes, List, [], ◌∷◌, ◌++◌, ◌≡◌, refl, arith, Option, none, some}
use rules_proto.Base.{text_eq, ◌∙◌, ap}
use rules_proto.File.{ProtoOption, go_package_option, go_package_parts, get_named_option}
use rules_proto.Go.Strings.{split_n, Lacks, split_n_two, split_n-Lacks}

abbrev with_parts : Option Text → Option (Text × Text)
with_parts none = none
with_parts (some source) = some (go_package_parts (split_n 2 59 source))

go_package_option-eq :
    (options : List ProtoOption)
    → go_package_option options ≡ with_parts (get_named_option options (bytes "go_package"))
unfolding go_package_option get_named_option
go_package_option-eq [] = refl
go_package_option-eq (o ∷ options) = ground (arith, go_package_option-eq options)

-- When the option named go_package has the value `importpath;alias`, with no semicolon in the
-- import path, both parts are returned.
pub go_package_option-alias :
    (options : List ProtoOption) (importpath alias : Text)
    → Lacks 59 importpath
    → get_named_option options (bytes "go_package") ≡ some (importpath ++ 59 ∷ alias)
    → go_package_option options ≡ some (importpath, alias)
unfolding go_package_parts
go_package_option-alias options importpath alias h e =
    go_package_option-eq options
    ∙ ap with_parts e
    ∙ ap (λ parts. some (go_package_parts parts)) (split_n_two 59 importpath alias h)

-- When its value has no semicolon, it is the import path, with an empty alias.
pub go_package_option-no_alias :
    (options : List ProtoOption) (importpath : Text)
    → Lacks 59 importpath
    → get_named_option options (bytes "go_package") ≡ some importpath
    → go_package_option options ≡ some (importpath, [])
unfolding go_package_parts
go_package_option-no_alias options importpath h e =
    go_package_option-eq options
    ∙ ap with_parts e
    ∙ ap (λ parts. some (go_package_parts parts)) (split_n-Lacks 0 59 importpath h)
