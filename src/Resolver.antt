-- ===== src/Resolver.antt =====
-- pkg/protoc/resolver.go: which labels provide which imports. Logging is left out.
pub mod Keys
pub mod Provide
pub mod Csv
pub mod Install
use rules_proto.Base.{Text, bytes, Bool, true, false, List, [], ◌∷◌, ◌++◌, Option, none, some, ℕ}
use rules_proto.Base.{◌==◌, text_eq, text_beq, if◌then◌else◌, is_empty, map, not, contains}
use rules_proto.Base.Dict.{Dict, keys, lookup, insert, or_zero}
use rules_proto.Base.Sort.{sort_strings}
use rules_proto.Go.Strings.{split_n, has_prefix, scan_lines}
use rules_proto.External.{External, Label, new_label, label_eq}

-- `importLabels`
abbrev pub ImportLabels : Type 0
ImportLabels = Dict Text (List Label)

pub record Resolver : Type 0 where
  pub known : Dict Text ImportLabels

-- `NewImportResolver`
abbrev pub new : Resolver
new = record { known = [] }

-- `langKey`
unfoldable pub lang_key : Text → Text → Text
lang_key lang imp_lang = lang ++ (bytes " " ++ imp_lang)

first_two : List Text → Option (Text × Text)
first_two (a ∷ b ∷ parts) = some (a, b)
first_two parts = none

-- `keyLang`; `none` is the panic of an index out of range.
unfoldable pub key_lang : Text → Option (Text × Text)
unfolding first_two split_n
key_lang key = first_two (split_n 2 32 key)

-- `r.known[key]`, or `r.known[lang]` where that is nil; both nil reads as an empty map.
unfoldable pub known_for : Resolver → Text → Text → ImportLabels
known_for r lang imp_lang = elim (lookup (lang_key lang imp_lang) r.known) [
  | some known ↦ known
  | none ↦ or_zero [] (lookup lang r.known)
]

-- `Resolve`; a result is kept as its label.
unfoldable pub resolve : Resolver → Text → Text → Text → List Label
resolve r lang imp_lang imp = or_zero [] (lookup imp (known_for r lang imp_lang))

-- `Provide`
unfoldable pub provide : Resolver → Text → Text → Text → Label → Resolver
provide r lang imp_lang imp from =
    let key = lang_key lang imp_lang in
    let known = or_zero [] (lookup key r.known) in
    let labels = or_zero [] (lookup imp known) in
    if contains labels from
    then r
    else record { known = insert key (insert imp (labels ++ from ∷ []) known) r.known }

-- `CrossResolve`
unfoldable pub cross_resolve : Resolver → Text → Text → Text → List Label
unfolding resolve
cross_resolve r lang imp_lang imp = resolve r lang imp_lang imp

-- The loop of `Provided` over the labels of one import.
provided_by : Text → List Label → Dict Label (List Text) → Dict Label (List Text)
provided_by imp [] result = result
provided_by imp (l ∷ ll) result =
    provided_by imp ll (insert l (or_zero [] (lookup l result) ++ imp ∷ []) result)

provided_all : ImportLabels → Dict Label (List Text) → Dict Label (List Text)
provided_all [] result = result
provided_all ((imp, ll) ∷ known) result = provided_all known (provided_by imp ll result)

-- `Provided`; nil is the empty map.
unfoldable pub provided : Resolver → Text → Text → Dict Label (List Text)
unfolding provided_by provided_all known_for
provided r lang imp_lang = provided_all (known_for r lang imp_lang) []

module _ {ℓ} {S : Type ℓ} (visitor : S → Text → List Label → Bool × S) where
  visit : S → ImportLabels → S
  visit s [] = s
  visit s ((k, v) ∷ known) =
      let (more, s') = visitor s k v in elim more [ true ↦ visit s' known | false ↦ s' ]

  -- `Imports`, with the state that the visitor keeps
  unfoldable pub imports : S → Resolver → Text → Text → S
  unfolding visit known_for
  imports s r lang imp_lang = visit s (known_for r lang imp_lang)

-- `ResolveImports`
unfoldable pub resolve_imports : Resolver → Text → Text → List Text → List Label
resolve_imports r lang imp_lang [] = []
resolve_imports r lang imp_lang (imp ∷ imports) =
    let deps = resolve_imports r lang imp_lang imports in
    elim (resolve r lang imp_lang imp) [ [] ↦ deps | first ∷ _ ↦ first ∷ deps ]

-- `ResolveImportsString`
unfoldable pub resolve_imports_string :
    External → Resolver → Text → Text → Text → List Text → List Text
resolve_imports_string ext r rel kind imp_lang imports =
    map (λ l. ext.label_string (ext.label_rel l [] rel)) (resolve_imports r kind imp_lang imports)
