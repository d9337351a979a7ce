-- ===== src/Go/Strings/Laws.antt =====
-- The laws of the text functions that the components use.
use rules_proto.Base.{ℕ, suc, Text, false, List, [], ◌∷◌, ◌++◌, ◌≡◌, refl, ap, sym, ◌∙◌}
use rules_proto.Base.{none, some, ◌=ℕ◌, arith, All}
use rules_proto.Base.{append-nil, append_assoc, is_empty}
use rules_proto.Go.Strings.Defs.{is_space, strip_prefix, fields_from, fields}
use rules_proto.Go.Strings.Defs.{join, cut, split_n}

pub strip_prefix-append : (p s : Text) → strip_prefix (p ++ s) p ≡ some s
unfolding strip_prefix
strip_prefix-append [] [] = refl
strip_prefix-append [] (x ∷ s) = refl
strip_prefix-append (x ∷ p) s = ground (arith, strip_prefix-append p s)

pub strip_prefix-eq-some : (s p r : Text) → strip_prefix s p ≡ some r → s ≡ p ++ r
unfolding strip_prefix
strip_prefix-eq-some [] [] r h = ground arith
strip_prefix-eq-some (x ∷ s) [] r h = ground arith
strip_prefix-eq-some [] (y ∷ p) r h = ground arith
strip_prefix-eq-some (x ∷ s) (y ∷ p) r h = ground (arith, strip_prefix-eq-some s p r)

-- No byte of the text is `c`.
abbrev pub Lacks : ℕ → Text → Type 0
Lacks c s = All (λ x. (x =ℕ c) ≡ false) s

-- The text has a byte, and none is white space.
abbrev pub NoSpace : Text → Type 0
NoSpace s = All (λ x. is_space x ≡ false) s

abbrev pub IsField : Text → Type 0
IsField s = (is_empty s ≡ false) × NoSpace s

pub cut-append : (c : ℕ) (a b : Text) → Lacks c a → cut c (a ++ c ∷ b) ≡ some (a, b)
unfolding cut
cut-append c [] b h = ground arith
cut-append c (x ∷ a) b h = ground (arith, cut-append c a b h.1)

pub cut-Lacks : (c : ℕ) (s : Text) → Lacks c s → cut c s ≡ none
unfolding cut
cut-Lacks c [] h = refl
cut-Lacks c (x ∷ s) h = ground (arith, cut-Lacks c s h.1)

fields_from-append :
    (cur s t : Text) → NoSpace s → fields_from cur (s ++ t) ≡ fields_from (cur ++ s) t
unfolding fields_from
fields_from-append cur [] t h = rw append-nil
fields_from-append cur (c ∷ s) t h =
    rw (h.0, fields_from) (fields_from-append (cur ++ c ∷ []) s t h.1 ∙ rw append_assoc)

fields_from-join : (ps : List Text) → All IsField ps → fields_from [] (join ps (32 ∷ [])) ≡ ps
unfolding fields_from join
fields_from-join [] h = refl
fields_from-join ([] ∷ []) h = ground (arith, h.0.0)
fields_from-join ((c ∷ p) ∷ []) h =
    ap (fields_from []) (sym (append-nil (c ∷ p))) ∙ fields_from-append [] (c ∷ p) [] h.0.1
fields_from-join ([] ∷ q ∷ ps) h = ground (arith, h.0.0)
fields_from-join ((c ∷ p) ∷ q ∷ ps) h =
    fields_from-append [] (c ∷ p) (32 ∷ join (q ∷ ps) (32 ∷ [])) h.0.1
    ∙ ap (λ (l : List Text). (c ∷ p) ∷ l) (fields_from-join (q ∷ ps) h.1)

-- Fields that are joined by spaces are found again.
pub fields-join : (ps : List Text) → All IsField ps → fields (join ps (32 ∷ [])) ≡ ps
unfolding fields
fields-join ps h = fields_from-join ps h

-- `SplitN` cuts at the first separator while it may.
pub split_n-append :
    (n c : ℕ) (a b : Text)
    → Lacks c a
    → split_n (suc (suc n)) c (a ++ c ∷ b) ≡ a ∷ split_n (suc n) c b
unfolding split_n
split_n-append n c a b h = ground (arith, cut-append c a b h)

pub split_n-Lacks : (n c : ℕ) (s : Text) → Lacks c s → split_n (suc (suc n)) c s ≡ s ∷ []
unfolding split_n
split_n-Lacks n c s h = ground (arith, cut-Lacks c s h)

pub split_n_two : (c : ℕ) (a b : Text) → Lacks c a → split_n 2 c (a ++ c ∷ b) ≡ a ∷ b ∷ []
unfolding split_n
split_n_two c a b h = ground (arith, cut-append c a b h)
