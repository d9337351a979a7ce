-- ===== src/Resolver/Keys.antt =====
-- The keys of a resolver (`langKey` and `keyLang`, pkg/protoc/resolver.go), and its invariant.
use rules_proto.Base.{Text, List, [], ◌∷◌, ◌≡◌, subst, arith}
use rules_proto.Base.{none, some, inl, inr, Option-cases, Distinct, text_eq}
use rules_proto.Base.{◌==◌, eq_iff, ◌&&◌}
use rules_proto.Base.Dict.{keys, lookup, Entries, Entries-lookup, or_zero}
use rules_proto.Go.Strings.{cut-append, split_n, Lacks}
use rules_proto.External.{Label, label_eq}
use rules_proto.Resolver.{Resolver, ImportLabels, new, lang_key, key_lang, known_for, resolve}

-- The key of a language without spaces is taken apart into that language and the import language.
pub key_lang-lang_key :
    (lang imp_lang : Text)
    → Lacks 32 lang
    → key_lang (lang_key lang imp_lang) ≡ some (lang, imp_lang)
unfolding key_lang lang_key
key_lang-lang_key lang imp_lang h = rw (cut-append 32 lang imp_lang h, split_n)

lang_key-ne-Lacks : (lang imp_lang : Text) → Lacks 32 (lang_key lang imp_lang) → ⊥
unfolding lang_key
lang_key-ne-Lacks [] imp_lang h = cc (h.0)
lang_key-ne-Lacks (c ∷ lang) imp_lang h = lang_key-ne-Lacks lang imp_lang h.1

pub lang_key_inj :
    (l i l' i' : Text)
    → Lacks 32 l
    → Lacks 32 l'
    → lang_key l i ≡ lang_key l' i'
    → (l ≡ l') × (i ≡ i')
lang_key_inj l i l' i' h h' e =
    ground (arith, key_lang-lang_key l i h, key_lang-lang_key l' i' h', e)

-- The comparison of two keys is that of their parts.
pub lang_key-beq :
    (l i l' i' : Text)
    → Lacks 32 l
    → Lacks 32 l'
    → (lang_key l i == lang_key l' i') ≡ ((l == l') && (i == i'))
lang_key-beq l i l' i' h h' = ground (
  arith,
  eq_iff (lang_key l i) (lang_key l' i'),
  eq_iff l l',
  eq_iff i i',
  lang_key_inj l i l' i' h h',
)

-- A key that `lang_key` makes of a language without spaces.
pub record IsKey (key : Text) : Type 0 where
  pub lang : Text
  pub imp_lang : Text
  pub made : key ≡ lang_key lang imp_lang
  pub spaceless : Lacks 32 lang

-- The labels of each import are distinct.
pub record IsTable (key : Text) (known : ImportLabels) : Type 0 where
  pub is_key : IsKey key
  pub distinct : Distinct (keys known)
  pub labels : Entries (λ _ ls. Distinct {A = Label} ls) known

pub record IsValid (r : Resolver) : Type 0 where
  pub distinct : Distinct (keys r.known)
  pub tables : Entries IsTable r.known

pub new-IsValid : IsValid new
unfolding keys
new-IsValid = record { distinct = tt; tables = tt }

pub lookup_lang :
    (r : Resolver) (lang : Text) → IsValid r → Lacks 32 lang → lookup lang r.known ≡ none
lookup_lang r lang v h = elim (Option-cases (lookup lang r.known)) [
  | inl absent ↦ absent
  | inr (known, present) ↦
      let k = (Entries-lookup IsTable lang known r.known v.tables present).is_key in
      absurd (lang_key-ne-Lacks k.lang k.imp_lang (subst (Lacks 32) k.made h))
]

-- The labels under a key.
abbrev pub labels_at : Resolver → Text → Text → List Label
labels_at r key imp = or_zero [] (lookup imp (or_zero [] (lookup key r.known)))

pub resolve-eq-labels_at :
    (r : Resolver) (lang imp_lang imp : Text)
    → IsValid r
    → Lacks 32 lang
    → resolve r lang imp_lang imp ≡ labels_at r (lang_key lang imp_lang) imp
unfolding resolve known_for
resolve-eq-labels_at r lang imp_lang imp v h = ground (arith, lookup_lang r lang v h)
