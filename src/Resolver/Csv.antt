-- ===== src/Resolver/Csv.antt =====
-- pkg/protoc/resolver.go: the file of provided imports, its writer and its reader.
pub mod Lines
pub mod RoundTrip
use rules_proto.Base.{Text, bytes, Bool, true, false, List, [], ◌∷◌, ◌++◌, Option, none, some, ℕ}
use rules_proto.Base.{if◌then◌else◌, is_empty, text_eq}
use rules_proto.Base.Dict.{keys, lookup, or_zero}
use rules_proto.Base.Sort.{sort_strings}
use rules_proto.Go.Strings.{split_n, has_prefix, scan_lines}
use rules_proto.External.{External, Label, new_label}
use rules_proto.Resolver.{Resolver, ImportLabels, key_lang, provide}

-- One line of the file.
pub record Entry : Type 0 where
  pub lang : Text
  pub imp_lang : Text
  pub imp : Text
  pub location : Label

-- The entries of one import: labels of other repositories are skipped.
label_entries : Text → Text → Text → Text → List Label → List Entry
label_entries repo lang imp_lang imp [] = []
label_entries repo lang imp_lang imp (l ∷ labels) =
    let rest = label_entries repo lang imp_lang imp labels in
    if is_empty l.repo
    then record {
      lang = lang;
      imp_lang = imp_lang;
      imp = imp;
      location = new_label repo l.pkg l.name;
    }
      ∷ rest
    else rest

imp_entries : Text → Text → Text → ImportLabels → List Text → List Entry
imp_entries repo lang imp_lang imports [] = []
imp_entries repo lang imp_lang imports (imp ∷ imps) =
    label_entries repo lang imp_lang imp (or_zero [] (lookup imp imports))
    ++ imp_entries repo lang imp_lang imports imps

-- The entries under one key; `none` is the panic of `keyLang`.
key_entries : Text → Resolver → Text → Option (List Entry)
key_entries repo r key =
    let imports = or_zero [] (lookup key r.known) in
    elim (key_lang key) [
      | none ↦ none
      | some (lang, imp_lang) ↦
          some (imp_entries repo lang imp_lang imports (sort_strings (keys imports)))
    ]

append_entries : Option (List Entry) → Option (List Entry) → Option (List Entry)
append_entries none rest = none
append_entries (some es) none = none
append_entries (some es) (some rest) = some (es ++ rest)

all_entries : Text → Resolver → List Text → Option (List Entry)
all_entries repo r [] = some []
all_entries repo r (key ∷ ks) = append_entries (key_entries repo r key) (all_entries repo r ks)

-- The loops of `Save`, which write an entry to a line each.
unfoldable pub saved_entries : Resolver → Text → Option (List Entry)
unfolding all_entries key_entries append_entries imp_entries label_entries
saved_entries r repo = all_entries repo r (sort_strings (keys r.known))

module _ (ext : External) where
  -- `"%s,%s,%s,%s"`
  unfoldable pub render : Entry → Text
  render e =
      e.lang
      ++ (bytes ","
          ++ (e.imp_lang ++ (bytes "," ++ (e.imp ++ (bytes "," ++ ext.label_string e.location)))))

  unfoldable pub render_lines : List Entry → Text
  unfolding render
  render_lines [] = []
  render_lines (e ∷ es) = render e ++ 10 ∷ render_lines es

  -- `Save`
  unfoldable pub save : Resolver → Text → Option Text
  unfolding saved_entries render_lines
  save r repo = elim (saved_entries r repo) [ none ↦ none | some es ↦ some (render_lines es) ]

  -- A malformed label, with its line; a line that does not have four parts is logged and skipped.
  load_parts : Resolver → Text → List Text → Resolver × Option Text
  load_parts r line (lang ∷ imp_lang ∷ imp ∷ label ∷ []) = elim (ext.parse_label label) [
    | none ↦ (r, some line)
    | some l ↦ (provide r lang imp_lang imp l, none)
  ]
  load_parts r line parts = (r, none)

  -- The body of the loop of `Load`
  unfoldable pub load_line : Resolver → Text → Resolver × Option Text
  unfolding load_parts
  load_line r line =
      if has_prefix line (bytes "#") then (r, none) else load_parts r line (split_n 4 44 line)

  unfoldable pub load_lines : Resolver → List Text → Resolver × Option Text
  load_lines r [] = (r, none)
  load_lines r (line ∷ lines) =
      let (r', failure) = load_line r line in
      elim failure [ none ↦ load_lines r' lines | some e ↦ (r', some e) ]

  -- `Load`
  unfoldable pub load : Resolver → Text → Resolver × Option Text
  unfolding scan_lines load_lines
  load r input = load_lines r (scan_lines input)

  -- What `SaveFile` writes
  unfoldable pub save_file : Resolver → Text → Option Text
  unfolding save
  save_file r repo = elim (save r repo) [
    | none ↦ none
    | some text ↦ some (
        bytes "# GENERATED FILE, DO NOT EDIT (created by gazelle)"
        ++ (10 ∷ (bytes "# lang,imp.lang,imp,label" ++ (10 ∷ text))))
  ]
