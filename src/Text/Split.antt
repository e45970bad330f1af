-- ===== src/Text/Split.antt =====
-- strings.Split takes apart what strings.Join put together with a one-byte separator.
use zsys.Prelude.{
  ℕ, true, false, List, [], ◌∷◌, ◌++◌, ◌≡◌, refl, ap, ◌∙◌, arith, ◌==◌, Bool-cases, inl, inr,
}
use zsys.Text.{Bytes, has_byte, split, join}

pub split-absent : (p : Bytes) (sep : ℕ) → has_byte sep p ≡ false → split p sep ≡ p ∷ []
unfolding split has_byte
split-absent [] sep h = refl
split-absent (c ∷ p) sep h = elim (Bool-cases (c == sep)) [
  | inl y ↦ absurd (ground arith)
  | inr other ↦ rw (split-absent p sep (ground arith), other) refl
]

pub same_byte : (b : ℕ) → (b == b) ≡ true
same_byte b = ground arith

pub some_part : (s : Bytes) (sep : ℕ) → (q : Bytes) × (ps : List Bytes) × (split s sep ≡ q ∷ ps)
unfolding split
some_part [] sep = ([], [], refl)
some_part (c ∷ s) sep =
    let (q, ps, e) = some_part s sep in
    elim (Bool-cases (c == sep)) [
      | inl y ↦ ([], q ∷ ps, rw e (rw y refl))
      | inr other ↦ (c ∷ q, ps, rw e (rw other refl))
    ]

split-append :
    (p rest : Bytes) (sep : ℕ)
    → has_byte sep p ≡ false
    → split (p ++ sep ∷ rest) sep ≡ p ∷ split rest sep
unfolding split has_byte
split-append [] rest sep h = let (q, ps, e) = some_part rest sep in rw e (rw (same_byte sep) refl)
split-append (c ∷ p) rest sep h = elim (Bool-cases (c == sep)) [
  | inl y ↦ absurd (ground arith)
  | inr other ↦ rw (split-append p rest sep (ground arith), other) refl
]

-- No part has the separator in it.
abbrev pub Separate : ℕ → List Bytes → Type 0
Separate sep [] = Unit
Separate sep (p ∷ ps) = (has_byte sep p ≡ false) × Separate sep ps

pub split-join :
    (p : Bytes) (ps : List Bytes) (sep : ℕ)
    → Separate sep (p ∷ ps)
    → split (join (p ∷ ps) (sep ∷ [])) sep ≡ p ∷ ps
unfolding join
split-join p [] sep h = split-absent p sep h.0
split-join p (q ∷ ps) sep h =
    split-append p (join (q ∷ ps) (sep ∷ [])) sep h.0 ∙ ap (λ l. p ∷ l) (split-join q ps sep h.1)

-- The parts that a text is joined from.
pub parts_of :
    (s : Bytes) (sep : ℕ)
    → (p : Bytes) × (ps : List Bytes) × (join (p ∷ ps) (sep ∷ []) ≡ s) × Separate sep (p ∷ ps)
unfolding join has_byte
parts_of [] sep = ([], [], refl, (refl, tt))
parts_of (c ∷ s) sep =
    let (p, ps, e, h) = parts_of s sep in
    elim (Bool-cases (c == sep)) [
      | inl y ↦ ([], p ∷ ps, λ i. same_head y i ∷ e i, (refl, h))
      | inr n ↦ (c ∷ p, ps, longer p ps ∙ ap (λ l. c ∷ l) e, (ground arith, h.1))
    ]
  where
    same_head : (c == sep) ≡ true → sep ≡ c
    same_head y = ground arith

    longer :
        (p : Bytes) (ps : List Bytes)
        → join ((c ∷ p) ∷ ps) (sep ∷ []) ≡ c ∷ join (p ∷ ps) (sep ∷ [])
    longer p [] = refl
    longer p (q ∷ ps) = refl
