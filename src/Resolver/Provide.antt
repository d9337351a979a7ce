-- ===== src/Resolver/Provide.antt =====
-- What `Provide` does to what `Resolve` returns.
use rules_proto.Base.{Text, List, [], ◌∷◌, ◌++◌, ◌≡◌, refl, ◌∙◌, ap, arith, true, false}
use rules_proto.Base.{inl, inr, Option-cases, Bool-cases, Distinct, text_eq, ◌&&◌}
use rules_proto.Base.{◌==◌, eq_iff, eq_refl, contains, contains-append, if◌then◌else◌}
use rules_proto.Base.Dict.{keys, lookup, insert, lookup-insert, or_zero}
use rules_proto.Base.Dict.{Distinct-keys-insert, Entries-insert, Entries-lookup}
use rules_proto.Go.Strings.{Lacks}
use rules_proto.External.{Label, label_eq}
use rules_proto.Resolver.{Resolver, ImportLabels, lang_key, resolve, provide}
use rules_proto.Resolver.Keys.{
  IsKey, IsTable, IsValid, labels_at, resolve-eq-labels_at, lang_key-beq,
}

-- A label is appended to a list that lacks it.
abbrev pub add_label : Label → List Label → List Label
add_label l ls = if contains ls l then ls else ls ++ l ∷ []

pub labels_at-provide :
    (r : Resolver) (lang imp_lang imp : Text) (from : Label) (key' imp' : Text)
    → labels_at (provide r lang imp_lang imp from) key' imp' ≡ (
        if (lang_key lang imp_lang == key') && (imp == imp')
        then add_label from (labels_at r key' imp')
        else labels_at r key' imp')
unfolding provide
labels_at-provide r lang imp_lang imp from key' imp' =
    let key = lang_key lang imp_lang in
    let known = or_zero [] (lookup key r.known) in
    let labels = or_zero [] (lookup imp known) ++ from ∷ [] in
    ground (
      arith,
      eq_iff key key',
      eq_iff imp imp',
      lookup-insert key key' (insert imp labels known) r.known,
      lookup-insert imp imp' labels known,
    )

Distinct-concat :
    (ls : List Label) (l : Label) → Distinct ls → contains ls l ≡ false → Distinct (ls ++ l ∷ [])
unfolding contains
Distinct-concat [] l d h = (refl, tt)
Distinct-concat (x ∷ ls) l d h = (
  contains-append ls (l ∷ []) x ∙ ground (arith, d.0, eq_iff x l, eq_iff l x),
  Distinct-concat ls l d.1 (ground arith),
)

-- What is found under a key, or the empty map, is proper.
known-IsTable :
    (r : Resolver) (key : Text)
    → IsValid r
    → IsKey key
    → IsTable key (or_zero [] (lookup key r.known))
known-IsTable r key v k = elim (Option-cases (lookup key r.known)) [
  | inl absent ↦ rw absent (record { is_key = k; distinct = unfold keys in tt; labels = tt })
  | inr (known, present) ↦ rw present (Entries-lookup IsTable key known r.known v.tables present)
]

labels-Distinct :
    (key imp : Text) (known : ImportLabels)
    → IsTable key known
    → Distinct {A = Label} (or_zero [] (lookup imp known))
labels-Distinct key imp known t = elim (Option-cases (lookup imp known)) [
  | inl absent ↦ rw absent tt
  | inr (ls, present) ↦
      rw present (Entries-lookup (λ _ ls. Distinct {A = Label} ls) imp ls known t.labels present)
]

-- A provision keeps the invariant: distinct keys made of languages without spaces, and no label
-- twice for one import.
pub provide-IsValid :
    (r : Resolver) (lang imp_lang imp : Text) (from : Label)
    → IsValid r
    → Lacks 32 lang
    → IsValid (provide r lang imp_lang imp from)
unfolding provide
provide-IsValid r lang imp_lang imp from v h =
    let key = lang_key lang imp_lang in
    let known = or_zero [] (lookup key r.known) in
    let labels = or_zero [] (lookup imp known) in
    let k : IsKey key = record { lang = lang; imp_lang = imp_lang; made = refl; spaceless = h } in
    let t = known-IsTable r key v k in
    elim (Bool-cases (contains labels from)) [
      | inl old ↦ rw old v
      | inr fresh ↦ rw fresh (record {
        distinct = Distinct-keys-insert key _ r.known v.distinct;
        tables =
            Entries-insert IsTable key _ r.known
              (record {
                is_key = k;
                distinct = Distinct-keys-insert imp _ known t.distinct;
                labels =
                    Entries-insert (λ _ ls. Distinct {A = Label} ls) imp _ known
                      (Distinct-concat labels from (labels-Distinct key imp known t) fresh)
                      t.labels;
              })
              v.tables;
      })
    ]

contains-add_label : (l : Label) (ls : List Label) → contains (add_label l ls) l ≡ true
unfolding contains
contains-add_label l ls = elim (Bool-cases (contains ls l)) [
  | inl old ↦ rw (old, old)
  | inr fresh ↦ rw fresh (contains-append ls (l ∷ []) l ∙ ground (arith, eq_refl l))
]

provide_known :
    (r : Resolver) (lang imp_lang imp : Text) (from : Label)
    → contains (labels_at r (lang_key lang imp_lang) imp) from ≡ true
    → provide r lang imp_lang imp from ≡ r
unfolding provide
provide_known r lang imp_lang imp from h = rw h

-- A second provision of the same label changes nothing.
pub provide_idem :
    (r : Resolver) (lang imp_lang imp : Text) (from : Label)
    → provide (provide r lang imp_lang imp from) lang imp_lang imp from
      ≡ provide r lang imp_lang imp from
provide_idem r lang imp_lang imp from =
    let key = lang_key lang imp_lang in
    provide_known (provide r lang imp_lang imp from) lang imp_lang imp from (
      ap (λ ls. contains ls from) (labels_at-provide r lang imp_lang imp from key imp)
      ∙ rw (eq_refl key, eq_refl imp) (contains-add_label from (labels_at r key imp)))

-- The labels of a resolver after a provision: the label is added to the list of its own import,
-- and every other list stands as before.
pub resolve-provide :
    (r : Resolver) (lang imp_lang imp : Text) (from : Label) (lang' imp_lang' imp' : Text)
    → IsValid r
    → Lacks 32 lang
    → Lacks 32 lang'
    → resolve (provide r lang imp_lang imp from) lang' imp_lang' imp' ≡ (
        if ((lang == lang') && (imp_lang == imp_lang')) && (imp == imp')
        then add_label from (resolve r lang' imp_lang' imp')
        else resolve r lang' imp_lang' imp')
resolve-provide r lang imp_lang imp from lang' imp_lang' imp' v h h' =
    resolve-eq-labels_at (provide r lang imp_lang imp from) lang' imp_lang' imp'
      (provide-IsValid r lang imp_lang imp from v h) h'
    ∙ (labels_at-provide r lang imp_lang imp from (lang_key lang' imp_lang') imp'
        ∙ rw (
          lang_key-beq lang imp_lang lang' imp_lang' h h',
          resolve-eq-labels_at r lang' imp_lang' imp' v h',
        ))
