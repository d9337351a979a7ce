-- ===== src/Resolver/Csv/RoundTrip.antt =====
-- Saving a resolver and loading what was saved.
use rules_proto.Base.{
  Text, List, [], ◌∷◌, ◌++◌, ◌≡◌, refl, ◌∙◌, sym, subst, ap, arith, All, All-append, text_eq,
}
use rules_proto.Base.{none, some, false, Bool, ◌&&◌, ◌||◌, inl, inr, Bool-cases, if◌then◌else◌}
use rules_proto.Base.{◌==◌, eq_iff, contains, contains-append, is_empty, Option}
use rules_proto.Base.Dict.{Dict, keys, lookup, or_zero, Entries, contains-keys}
use rules_proto.Base.Sort.{sort_strings, contains-sort_strings, All-sort_strings}
use rules_proto.Go.Strings.{Lacks}
use rules_proto.External.{External, Label, label_eq, new_label}
use rules_proto.Resolver.{Resolver, ImportLabels, new, lang_key, key_lang, provide, resolve}
use rules_proto.Resolver.Keys.{
  IsKey, IsTable, IsValid, labels_at, resolve-eq-labels_at, key_lang-lang_key, new-IsValid,
}
use rules_proto.Resolver.Provide.{add_label, labels_at-provide, provide-IsValid}
use rules_proto.Resolver.Csv.{
  Entry, label_entries, imp_entries, key_entries, append_entries, all_entries, saved_entries,
  render_lines, save, load,
}
use rules_proto.Resolver.Csv.Lines.{IsWritable, provide_entries, load-render_lines}

-- The local labels, moved to a repository.
abbrev pub exported : Text → List Label → List Label
exported repo [] = []
exported repo (l ∷ ls) =
    let rest = exported repo ls in
    if is_empty l.repo then new_label repo l.pkg l.name ∷ rest else rest

-- Whether some entry of a list provides a label under a key and an import.
abbrev has_entry : List Entry → Text → Text → Label → Bool
has_entry [] key imp l = false
has_entry (e ∷ es) key imp l =
    ((lang_key e.lang e.imp_lang == key) && (e.imp == imp) && (l == e.location))
    || has_entry es key imp l

contains-add_label :
    (from : Label) (ls : List Label) (l : Label)
    → contains (add_label from ls) l ≡ (l == from || contains ls l)
unfolding contains
contains-add_label from ls l = ground (arith, contains-append ls (from ∷ []) l, eq_iff l from)

-- The labels after some provisions are those before and those provided.
contains-provide_entries :
    (ext : External) (r : Resolver) (es : List Entry) (key imp : Text) (l : Label)
    → contains (labels_at (provide_entries ext r es) key imp) l
      ≡ (contains (labels_at r key imp) l || has_entry es key imp l)
contains-provide_entries ext r [] key imp l = ground arith
contains-provide_entries ext r (e ∷ es) key imp l =
    contains-provide_entries ext (provide r e.lang e.imp_lang e.imp e.location) es key imp l
    ∙ ground (
      arith,
      labels_at-provide r e.lang e.imp_lang e.imp e.location key imp,
      contains-add_label e.location (labels_at r key imp) l,
    )

has_entry-append :
    (es fs : List Entry) (key imp : Text) (l : Label)
    → has_entry (es ++ fs) key imp l ≡ (has_entry es key imp l || has_entry fs key imp l)
has_entry-append [] fs key imp l = refl
has_entry-append (e ∷ es) fs key imp l = ground (arith, has_entry-append es fs key imp l)

module _ (repo lang imp_lang : Text) where
  has_entry-label_entries :
      (imp' : Text) (ls : List Label) (key imp : Text) (l : Label)
      → has_entry (label_entries repo lang imp_lang imp' ls) key imp l
        ≡ ((lang_key lang imp_lang == key) && (imp' == imp) && contains (exported repo ls) l)
  unfolding label_entries contains
  has_entry-label_entries imp' [] key imp l = ground arith
  has_entry-label_entries imp' (x ∷ ls) key imp l =
      ground (arith, has_entry-label_entries imp' ls key imp l)

  label_entries-spaceless :
      (imp : Text) (ls : List Label)
      → Lacks 32 lang
      → All (λ (e : Entry). Lacks 32 e.lang) (label_entries repo lang imp_lang imp ls)
  unfolding label_entries
  label_entries-spaceless imp [] h = tt
  label_entries-spaceless imp (x ∷ ls) h = elim (Bool-cases (is_empty x.repo)) [
    | inl local ↦ rw local (h, label_entries-spaceless imp ls h)
    | inr external ↦ rw external (label_entries-spaceless imp ls h)
  ]

  has_entry-imp_entries :
      (imports : ImportLabels) (imps : List Text) (key imp : Text) (l : Label)
      → has_entry (imp_entries repo lang imp_lang imports imps) key imp l ≡ (
          (lang_key lang imp_lang == key)
          && (contains imps imp && contains (exported repo (or_zero [] (lookup imp imports))) l))
  unfolding imp_entries contains
  has_entry-imp_entries imports [] key imp l = ground arith
  has_entry-imp_entries imports (i ∷ imps) key imp l = ground (
    arith,
    eq_iff i imp,
    eq_iff imp i,
    has_entry-append (label_entries repo lang imp_lang i (or_zero [] (lookup i imports)))
        (imp_entries repo lang imp_lang imports imps) key imp l,
    has_entry-label_entries i (or_zero [] (lookup i imports)) key imp l,
    has_entry-imp_entries imports imps key imp l,
  )

  imp_entries-spaceless :
      (imports : ImportLabels) (imps : List Text)
      → Lacks 32 lang
      → All (λ (e : Entry). Lacks 32 e.lang) (imp_entries repo lang imp_lang imports imps)
  unfolding imp_entries
  imp_entries-spaceless imports [] h = tt
  imp_entries-spaceless imports (i ∷ imps) h =
      All-append _ (label_entries repo lang imp_lang i (or_zero [] (lookup i imports))) _
        (label_entries-spaceless i (or_zero [] (lookup i imports)) h)
        (imp_entries-spaceless imports imps h)

-- The entries of a list of keys: that they exist, what they provide, and their languages.
abbrev EntriesOf : Text → Resolver → List Text → Option (List Entry) → Type 0
EntriesOf repo r ks o =
    (es : List Entry) × (o ≡ some es)
    × ((key imp : Text) (l : Label)
        → has_entry es key imp l
          ≡ (contains ks key && contains (exported repo (labels_at r key imp)) l))
    × All (λ (e : Entry). Lacks 32 e.lang) es

-- A label that is listed stands under an import that is listed.
listed :
    (repo : Text) (known : ImportLabels) (imp : Text) (l : Label)
    → (contains (sort_strings (keys known)) imp
        && contains (exported repo (or_zero [] (lookup imp known))) l)
      ≡ contains (exported repo (or_zero [] (lookup imp known))) l
unfolding contains
listed repo known imp l =
    ground (arith, contains-sort_strings (keys known) imp, contains-keys known imp)

key_entries-EntriesOf :
    (repo : Text) (r : Resolver) (key : Text)
    → IsKey key
    → EntriesOf repo r (key ∷ []) (key_entries repo r key)
unfolding key_entries contains
key_entries-EntriesOf repo r key k =
    let known = or_zero [] (lookup key r.known) in
    let es = imp_entries repo k.lang k.imp_lang known (sort_strings (keys known)) in
    (
      es,
      (let read = ap key_lang k.made ∙ key_lang-lang_key k.lang k.imp_lang k.spaceless in
          ground (arith, read)),
      (λ key' imp l. ground (
        arith,
        k.made,
        eq_iff (lang_key k.lang k.imp_lang) key',
        eq_iff key' key,
        has_entry-imp_entries repo k.lang k.imp_lang known (sort_strings (keys known)) key' imp l,
        listed repo known imp l,
      )),
      imp_entries-spaceless repo k.lang k.imp_lang known (sort_strings (keys known)) k.spaceless,
    )

all_entries-EntriesOf :
    (repo : Text) (r : Resolver) (ks : List Text)
    → All IsKey ks
    → EntriesOf repo r ks (all_entries repo r ks)
unfolding all_entries append_entries contains
all_entries-EntriesOf repo r [] h = ([], refl, (λ key imp l. refl), tt)
all_entries-EntriesOf repo r (k ∷ ks) h =
    let (es, made, has, spaceless) = key_entries-EntriesOf repo r k h.0 in
    let (fs, made', has', spaceless') = all_entries-EntriesOf repo r ks h.1 in
    (
      es ++ fs,
      rw (made, made'),
      (λ key imp l.
          ground (arith, has_entry-append es fs key imp l, has key imp l, has' key imp l)),
      All-append _ es fs spaceless spaceless',
    )

keys-IsKey : (d : Dict Text ImportLabels) → Entries IsTable d → All IsKey (keys d)
unfolding keys
keys-IsKey [] h = tt
keys-IsKey ((k, known) ∷ d) h = (h.0.is_key, keys-IsKey d h.1)

provide_entries-IsValid :
    (ext : External) (r : Resolver) (es : List Entry)
    → IsValid r
    → All (λ (e : Entry). Lacks 32 e.lang) es
    → IsValid (provide_entries ext r es)
provide_entries-IsValid ext r [] v h = v
provide_entries-IsValid ext r (e ∷ es) v h =
    provide_entries-IsValid ext (provide r e.lang e.imp_lang e.imp e.location) es
      (provide-IsValid r e.lang e.imp_lang e.imp e.location v h.0) h.1

-- What `Save` writes, and what it provides.
saved_entries-EntriesOf :
    (repo : Text) (r : Resolver)
    → IsValid r
    → EntriesOf repo r (sort_strings (keys r.known)) (saved_entries r repo)
unfolding saved_entries
saved_entries-EntriesOf repo r v =
    all_entries-EntriesOf repo r (sort_strings (keys r.known))
      (All-sort_strings IsKey (keys r.known) (keys-IsKey r.known v.tables))

listed_keys :
    (repo : Text) (r : Resolver) (key imp : Text) (l : Label)
    → (contains (sort_strings (keys r.known)) key
        && contains (exported repo (labels_at r key imp)) l)
      ≡ contains (exported repo (labels_at r key imp)) l
unfolding contains lookup
listed_keys repo r key imp l =
    ground (arith, contains-sort_strings (keys r.known) key, contains-keys r.known key)

module _ (ext : External) (r : Resolver) (repo : Text) (v : IsValid r) where
  loaded_labels :
      (es : List Entry)
      → All (λ (e : Entry). Lacks 32 e.lang) es
      → (lang imp_lang imp : Text) (l : Label) → Lacks 32 lang
      → contains (resolve (provide_entries ext new es) lang imp_lang imp) l
        ≡ has_entry es (lang_key lang imp_lang) imp l
  unfolding contains lookup
  loaded_labels es spaceless lang imp_lang imp l h =
      ap (λ ls. contains ls l)
        (resolve-eq-labels_at (provide_entries ext new es) lang imp_lang imp
          (provide_entries-IsValid ext new es new-IsValid spaceless) h)
      ∙ contains-provide_entries ext new es (lang_key lang imp_lang) imp l

  -- A valid resolver whose entries can be written, in lines short enough to be scanned, is saved,
  -- never with a panic. Loading the saved
  -- text into an empty resolver meets no malformed line, and the labels that then resolve for an
  -- import are exactly the local labels that resolved for it before, in the named repository.
  pub load-save :
      All (IsWritable ext) (or_zero [] (saved_entries r repo))
      → (lang imp_lang imp : Text) (l : Label) → Lacks 32 lang
      → (text : Text) × (save ext r repo ≡ some text)
        × ((load ext new text).1 ≡ none)
        × (contains (resolve (load ext new text).0 lang imp_lang imp) l
            ≡ contains (exported repo (resolve r lang imp_lang imp)) l)
  unfolding save
  load-save writable lang imp_lang imp l h =
      let (es, made, has, spaceless) = saved_entries-EntriesOf repo r v in
      let w : All (IsWritable ext) es =
        subst (λ o. All (IsWritable ext) (or_zero [] o)) made writable in
      let loaded = load-render_lines ext new es w in
      (
        render_lines ext es,
        ground (arith, made),
        ap (λ p. p.1) loaded,
        ap (λ p. contains (resolve p.0 lang imp_lang imp) l) loaded
            ∙ (loaded_labels es spaceless lang imp_lang imp l h
                ∙ (has (lang_key lang imp_lang) imp l
                    ∙ (listed_keys repo r (lang_key lang imp_lang) imp l
                        ∙ ap (λ ls. contains (exported repo ls) l)
                            (sym (resolve-eq-labels_at r lang imp_lang imp v h))))),
      )
