-- ===== src/Resolver/Csv/Lines.antt =====
-- Lines of the file: which entries can be written, and what is read from them.
use rules_proto.Base.{
  ℕ, Text, bytes, List, [], ◌∷◌, ◌++◌, ◌≡◌, refl, ◌∙◌, subst, ap, arith, All, text_eq,
}
use rules_proto.Base.{none, some, true, false, append_assoc, sym, append-nil, All-append}
use rules_proto.Go.Strings.{
  Lacks, has_prefix, split_n, split_n-append, scan_from, scan_lines, drop_cr, fits,
}
use rules_proto.External.{External}
use rules_proto.Resolver.{Resolver, provide}
use rules_proto.Resolver.Csv.{Entry, render, render_lines, load_line, load_lines, load, load_parts}

drop_cr-append :
    (s : Text) (c : ℕ) (t : Text) → Lacks 13 (c ∷ t) → drop_cr (s ++ c ∷ t) ≡ s ++ c ∷ t
drop_cr-append [] c [] h = rw h.0
drop_cr-append [] c (d ∷ t) h = ap (λ u. c ∷ u) (drop_cr-append [] d t h.1)
drop_cr-append (x ∷ []) c t h = ap (λ u. x ∷ u) (drop_cr-append [] c t h)
drop_cr-append (x ∷ y ∷ s) c t h = ap (λ u. x ∷ u) (drop_cr-append (y ∷ s) c t h)

scan_from-line :
    (cur line rest : Text)
    → Lacks 10 line
    → fits (cur ++ line) ≡ true
    → scan_from cur (line ++ 10 ∷ rest) ≡ drop_cr (cur ++ line) ∷ scan_from [] rest
unfolding scan_from
scan_from-line cur [] rest h f =
    let short : fits cur ≡ true = subst (λ t. fits t ≡ true) (append-nil cur) f in
    rw (short, scan_from, append-nil) refl
scan_from-line cur (c ∷ line) rest h f =
    let short : fits ((cur ++ c ∷ []) ++ line) ≡ true =
      subst (λ t. fits t ≡ true) (sym (append_assoc cur (c ∷ []) line)) f in
    rw (h.0, scan_from) (scan_from-line (cur ++ c ∷ []) line rest h.1 short ∙ rw append_assoc)

-- What a text must be, to stand in one of the first three columns.
pub record IsColumn (s : Text) : Type 0 where
  pub commaless : Lacks 44 s
  pub unbroken : Lacks 10 s

-- An entry that can be written to a line: its columns hold no comma and no line break, the line is
-- no comment, the label is printed so that it is read back, and the line is short enough to be
-- scanned.
pub record IsWritable (ext : External) (e : Entry) : Type 0 where
  pub lang : IsColumn e.lang
  pub not_comment : has_prefix e.lang (bytes "#") ≡ false
  pub imp_lang : IsColumn e.imp_lang
  pub imp : IsColumn e.imp
  pub label_unbroken : Lacks 10 (ext.label_string e.location)
  pub label_no_return : Lacks 13 (ext.label_string e.location)
  pub label_parses : ext.parse_label (ext.label_string e.location) ≡ some e.location
  pub short : fits (render ext e) ≡ true

not_comment-append :
    (s t : Text) → has_prefix s (bytes "#") ≡ false → has_prefix (s ++ 44 ∷ t) (bytes "#") ≡ false
unfolding has_prefix
not_comment-append [] t h = refl
not_comment-append (c ∷ s) t h = ground (arith, h)

module _ (ext : External) where
  render-no_comment : (e : Entry) → IsWritable ext e → has_prefix (render ext e) (bytes "#") ≡ false
  unfolding render
  render-no_comment e w = not_comment-append e.lang _ w.not_comment

  render_unbroken : (e : Entry) → IsWritable ext e → Lacks 10 (render ext e)
  unfolding render
  render_unbroken e w = All-append _ e.lang _ w.lang.unbroken (
    refl,
    All-append _ e.imp_lang _ w.imp_lang.unbroken
        (refl, All-append _ e.imp _ w.imp.unbroken (refl, w.label_unbroken)),
  )

  -- A line is what it was before its last comma, and the text of the label.
  drop_cr-render : (e : Entry) → IsWritable ext e → drop_cr (render ext e) ≡ render ext e
  unfolding render
  drop_cr-render e w =
      let front = e.lang ++ 44 ∷ e.imp_lang ++ 44 ∷ e.imp in
      let label = ext.label_string e.location in
      let joined : front ++ 44 ∷ label ≡ render ext e = simp append_assoc in
      subst (λ t. drop_cr t ≡ t) joined (drop_cr-append front 44 label (refl, w.label_no_return))

  split_n-render :
      (e : Entry)
      → IsWritable ext e
      → split_n 4 44 (render ext e) ≡ e.lang ∷ e.imp_lang ∷ e.imp ∷ ext.label_string e.location ∷ []
  unfolding render split_n
  split_n-render e w =
      split_n-append 2 44 e.lang _ w.lang.commaless
      ∙ ap (λ l. e.lang ∷ l)
          (split_n-append 1 44 e.imp_lang _ w.imp_lang.commaless
            ∙ ap (λ l. e.imp_lang ∷ l) (split_n-append 0 44 e.imp _ w.imp.commaless))

  load_line-render :
      (r : Resolver) (e : Entry)
      → IsWritable ext e
      → load_line ext r (render ext e) ≡ (provide r e.lang e.imp_lang e.imp e.location, none)
  unfolding load_line
  load_line-render r e w =
      rw (render-no_comment e w, split_n-render e w, w.label_parses, load_parts)

  load_lines-step :
      (r r' : Resolver) (line : Text) (lines : List Text)
      → load_line ext r line ≡ (r', none)
      → load_lines ext r (line ∷ lines) ≡ load_lines ext r' lines
  unfolding load_lines
  load_lines-step r r' line lines h = ground arith

  abbrev pub provide_entries : Resolver → List Entry → Resolver
  provide_entries r [] = r
  provide_entries r (e ∷ es) = provide_entries (provide r e.lang e.imp_lang e.imp e.location) es

  -- Reading the lines that were written for some entries, short enough to be scanned, provides
  -- these entries, in their order.
  pub load-render_lines :
      (r : Resolver) (es : List Entry)
      → All (IsWritable ext) es
      → load ext r (render_lines ext es) ≡ (provide_entries r es, none)
  unfolding load render_lines
  load-render_lines r [] h = refl
  load-render_lines r (e ∷ es) h =
      ap (load_lines ext r) (
        scan_from-line [] (render ext e) (render_lines ext es) (render_unbroken e h.0) h.0.short
        ∙ ap (λ line. line ∷ scan_lines (render_lines ext es)) (drop_cr-render e h.0))
      ∙ (load_lines-step r _ (render ext e) _ (load_line-render r e h.0)
          ∙ load-render_lines (provide r e.lang e.imp_lang e.imp e.location) es h.1)
