-- ===== src/Text/Fields.antt =====
-- `strings.Fields` undoes a join by single spaces.
use mathlib.Core.List.{reverse, reverse-cons, reverse-reverse}
use zsys.Prelude.{
  ℕ, Bool, false, ◌||◌, List, [], ◌∷◌, ◌++◌, append-nil, append_assoc, ◌≡◌, ◌≢◌, refl, sym, ap,
  arith, ◌∙◌,
}
use zsys.Text.{Bytes, is_space, fields_from, fields, join}

unfoldable pub has_space : Bytes → Bool
has_space [] = false
has_space (c ∷ s) = is_space c || has_space s

-- A field: some text without white space.
abbrev pub IsWord : Bytes → Type 0
IsWord w = (w ≢ []) × (has_space w ≡ false)

abbrev pub AllWords : List Bytes → Type 0
AllWords [] = Unit
AllWords (w ∷ ws) = IsWord w × AllWords ws

abbrev pub space : Bytes
space = 32 ∷ []

pub AllWords-append : (xs ys : List Bytes) → AllWords xs → AllWords ys → AllWords (xs ++ ys)
AllWords-append [] ys h k = k
AllWords-append (x ∷ xs) ys h k = (h.0, AllWords-append xs ys h.1 k)

gather : (c : ℕ) (w cur : Bytes) → reverse w ++ c ∷ cur ≡ reverse (c ∷ w) ++ cur
gather c w cur = rw reverse-cons (sym (append_assoc (reverse w) (c ∷ []) cur))

flush : {w : Bytes} (cur : Bytes) → reverse cur ≡ w → w ≢ [] → fields_from [] cur ≡ w ∷ []
unfolding fields_from
flush [] e h = absurd (h (sym e))
flush (c ∷ cur) e h = ap (λ x. x ∷ []) e

flush_space :
    {w : Bytes} (rest cur : Bytes)
    → reverse cur ≡ w
    → w ≢ []
    → fields_from (32 ∷ rest) cur ≡ w ∷ fields_from rest []
unfolding fields_from
flush_space rest [] e h = absurd (h (sym e))
flush_space rest (c ∷ cur) e h = ap (λ x. x ∷ fields_from rest []) e

-- A run without white space is gathered, last byte first.
fields_from-word :
    (w rest cur : Bytes)
    → has_space w ≡ false
    → fields_from (w ++ rest) cur ≡ fields_from rest (reverse w ++ cur)
unfolding fields_from has_space
fields_from-word [] rest cur h = refl
fields_from-word (c ∷ w) rest cur h =
    ground (arith, fields_from-word w rest (c ∷ cur), gather c w cur)

-- At the end of a word the run is handed over.
fields_from-end : (w : Bytes) → IsWord w → fields_from [] (reverse w) ≡ w ∷ []
fields_from-end w h = flush (reverse w) (reverse-reverse w) h.0

fields_from-space :
    (w rest : Bytes) → IsWord w → fields_from (32 ∷ rest) (reverse w) ≡ w ∷ fields_from rest []
fields_from-space w rest h = flush_space rest (reverse w) (reverse-reverse w) h.0

fields_one : (w : Bytes) → IsWord w → fields_from w [] ≡ w ∷ []
fields_one w h =
    ap (λ x. fields_from x []) (sym (append-nil w))
    ∙ fields_from-word w [] [] h.1
    ∙ rw append-nil (fields_from-end w h)

-- The fields of words joined by single spaces are those words.
pub fields-join : (ws : List Bytes) → AllWords ws → fields (join ws space) ≡ ws
unfolding fields join
fields-join [] h = refl
fields-join (w ∷ []) h = fields_one w h.0
fields-join (w ∷ v ∷ ws) h =
    fields_from-word w (32 ∷ join (v ∷ ws) space) [] h.0.1
    ∙ rw (append-nil)
        (fields_from-space w (join (v ∷ ws) space) h.0 ∙ ap (λ x. w ∷ x) (fields-join (v ∷ ws) h.1))
