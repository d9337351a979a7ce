-- ===== src/Resolver/Install.antt =====
-- `Install`: the table of a resolver as overrides of gazelle's resolution, whose own list gazelle
-- searches from its end. The order of `range` over a map is that of the entries here.
use rules_proto.Base.{Text, List, [], ◌∷◌, ◌++◌, ◌≡◌, refl, ◌∙◌, sym, ap, arith, Bool, false}
use rules_proto.Base.{Option, none, some, text_eq, ◌&&◌, ◌||◌}
use rules_proto.Base.{◌==◌, eq_iff, contains, if◌then◌else◌, is_empty}
use rules_proto.Base.Dict.{Dict, keys, lookup, or_zero, Entries, contains-keys}
use rules_proto.Base.{Distinct}
use rules_proto.Go.Strings.{Lacks}
use rules_proto.External.{Label, label_eq}
use rules_proto.Resolver.{Resolver, ImportLabels, lang_key, key_lang, resolve}
use rules_proto.Resolver.Keys.{
  IsTable, IsValid, resolve-eq-labels_at, lang_key-beq, key_lang-lang_key,
}

-- `overrideSpec`; the fields of its import specification stand in it.
pub record OverrideSpec : Type 0 where
  pub imp_lang : Text
  pub imp : Text
  pub lang : Text
  pub dep : Label

-- The innermost loop of `Install`, over the labels of an import.
label_specs : Text → Text → Text → List Label → List OverrideSpec
label_specs lang imp_lang imp [] = []
label_specs lang imp_lang imp (lbl ∷ lbls) =
    record { imp_lang = imp_lang; imp = imp; lang = lang; dep = lbl }
    ∷ label_specs lang imp_lang imp lbls

-- The loop over the imports of a pair of languages.
import_specs : Text → Text → ImportLabels → List OverrideSpec
import_specs lang imp_lang [] = []
import_specs lang imp_lang ((imp, lbls) ∷ known) =
    label_specs lang imp_lang imp lbls ++ import_specs lang imp_lang known

-- The overrides of all keys; `none` is the panic of `keyLang`.
override_specs : Dict Text ImportLabels → Option (List OverrideSpec)
override_specs [] = some []
override_specs ((key, known) ∷ table) =
    let rest = override_specs table in
    elim (key_lang key) [
      | none ↦ none
      | some langs ↦ elim rest [
        | none ↦ none
        | some specs ↦ some (import_specs langs.0 langs.1 known ++ specs)
      ]
    ]

-- `rewriteResolveConfigOverrides`
unfoldable pub rewrite_overrides : List OverrideSpec → List OverrideSpec → List OverrideSpec
rewrite_overrides overrides more = more ++ overrides

-- `Install`, from the overrides of the configuration to those that replace them.
unfoldable pub install : Resolver → List OverrideSpec → Option (List OverrideSpec)
unfolding override_specs import_specs label_specs rewrite_overrides
install r overrides = elim (override_specs r.known) [
  | none ↦ none
  | some specs ↦ some (if is_empty specs then overrides else rewrite_overrides overrides specs)
]

-- Whether an override of a list gives a label to an import of a pair of languages.
unfoldable pub overridden : Text → Text → Text → Label → List OverrideSpec → Bool
overridden lang imp_lang imp dep [] = false
overridden lang imp_lang imp dep (s ∷ specs) =
    ((s.lang == lang) && (s.imp_lang == imp_lang) && (s.imp == imp) && (s.dep == dep))
    || overridden lang imp_lang imp dep specs

overridden-append :
    (lang imp_lang imp : Text) (dep : Label) (xs ys : List OverrideSpec)
    → overridden lang imp_lang imp dep (xs ++ ys)
      ≡ (overridden lang imp_lang imp dep xs || overridden lang imp_lang imp dep ys)
unfolding overridden
overridden-append lang imp_lang imp dep [] ys = refl
overridden-append lang imp_lang imp dep (x ∷ xs) ys =
    ground (arith, overridden-append lang imp_lang imp dep xs ys)

overridden-label_specs :
    (l il i lang imp_lang imp : Text) (dep : Label) (lbls : List Label)
    → overridden lang imp_lang imp dep (label_specs l il i lbls)
      ≡ ((l == lang) && (il == imp_lang) && (i == imp) && contains lbls dep)
unfolding overridden label_specs contains
overridden-label_specs l il i lang imp_lang imp dep [] = ground arith
overridden-label_specs l il i lang imp_lang imp dep (x ∷ lbls) =
    ground
      (arith, overridden-label_specs l il i lang imp_lang imp dep lbls, eq_iff x dep, eq_iff dep x)

overridden-import_specs :
    (l il lang imp_lang imp : Text) (dep : Label) (known : ImportLabels)
    → Distinct (keys known)
    → overridden lang imp_lang imp dep (import_specs l il known)
      ≡ ((l == lang) && (il == imp_lang) && contains (or_zero [] (lookup imp known)) dep)
unfolding overridden import_specs lookup keys contains
overridden-import_specs l il lang imp_lang imp dep [] d = ground arith
overridden-import_specs l il lang imp_lang imp dep ((i, lbls) ∷ known) d =
    overridden-append lang imp_lang imp dep (label_specs l il i lbls) (import_specs l il known)
    ∙ ground (
      arith,
      overridden-label_specs l il i lang imp_lang imp dep lbls,
      overridden-import_specs l il lang imp_lang imp dep known d.1,
      eq_iff i imp,
      contains-keys known i,
      d.0,
    )

-- The overrides of a proper table are those of the labels under each key.
overridden-override_specs :
    (lang imp_lang imp : Text) (dep : Label) (table : Dict Text ImportLabels)
    → Lacks 32 lang
    → Distinct (keys table)
    → Entries IsTable table
    → (specs : List OverrideSpec) × (override_specs table ≡ some specs)
      × (overridden lang imp_lang imp dep specs
          ≡ contains
              (or_zero [] (lookup imp (or_zero [] (lookup (lang_key lang imp_lang) table))))
              dep)
unfolding overridden override_specs lookup keys contains
overridden-override_specs lang imp_lang imp dep [] h d t = ([], refl, refl)
overridden-override_specs lang imp_lang imp dep ((key, known) ∷ table) h d t =
    let (specs, made, found) = overridden-override_specs lang imp_lang imp dep table h d.1 t.1 in
    let k = t.0.is_key in
    let same_key : (key == lang_key lang imp_lang)
        ≡ ((k.lang == lang) && (k.imp_lang == imp_lang)) =
      ap (λ j. j == lang_key lang imp_lang) k.made
      ∙ lang_key-beq k.lang k.imp_lang lang imp_lang k.spaceless h in
    (
      import_specs k.lang k.imp_lang known ++ specs,
      ground (arith, ap key_lang k.made ∙ key_lang-lang_key k.lang k.imp_lang k.spaceless, made),
      overridden-append lang imp_lang imp dep (import_specs k.lang k.imp_lang known) specs
          ∙ ground (
            arith,
            found,
            overridden-import_specs k.lang k.imp_lang lang imp_lang imp dep known t.0.distinct,
            same_key,
            eq_iff key (lang_key lang imp_lang),
            contains-keys table key,
            d.0,
          ),
    )

-- A resolver with a proper table installs without a panic: the overrides of the configuration keep
-- their place at the end, where gazelle looks first, and those before them give an import the
-- labels that the resolver has for it.
pub install_lem :
    (r : Resolver) (overrides : List OverrideSpec) (lang imp_lang imp : Text) (dep : Label)
    → IsValid r
    → Lacks 32 lang
    → (specs : List OverrideSpec) × (install r overrides ≡ some (specs ++ overrides))
      × (overridden lang imp_lang imp dep specs ≡ contains (resolve r lang imp_lang imp) dep)
unfolding install rewrite_overrides
install_lem r overrides lang imp_lang imp dep v h =
    let (specs, made, found) =
      overridden-override_specs lang imp_lang imp dep r.known h v.distinct v.tables in
    (
      specs,
      ground (arith, made),
      found ∙ ap (λ ls. contains ls dep) (sym (resolve-eq-labels_at r lang imp_lang imp v h)),
    )
