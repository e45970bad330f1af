-- ===== src/Text/Base.antt =====
-- The last element of a path.
use zsys.Prelude.{ℕ, false, [], ◌∷◌, ◌++◌, ◌≡◌, refl, ap, ◌∙◌, arith}
use zsys.Text.{Bytes, has_byte, strip_slashes, after_slash, base_of, base}
use zsys.Text.Laws.{last_index-append, drop-append_suc}

strip_slashes-cons :
    (a c : ℕ) (x l : Bytes)
    → strip_slashes (x ++ c ∷ l) ≡ x ++ c ∷ l
    → strip_slashes (a ∷ (x ++ c ∷ l)) ≡ a ∷ (x ++ c ∷ l)
unfolding strip_slashes
strip_slashes-cons a c [] l h = rw h refl
strip_slashes-cons a c (b ∷ x) l h = rw h refl

strip_slashes-element :
    (c : ℕ) (l : Bytes) → has_byte b'/' (c ∷ l) ≡ false → strip_slashes (c ∷ l) ≡ c ∷ l
unfolding strip_slashes has_byte
strip_slashes-element c [] h = ground arith
strip_slashes-element c (d ∷ l) h =
    strip_slashes-cons c d [] l (strip_slashes-element d l (ground arith))

strip_slashes-append :
    (x : Bytes) (c : ℕ) (l : Bytes)
    → strip_slashes (c ∷ l) ≡ c ∷ l
    → strip_slashes (x ++ c ∷ l) ≡ x ++ c ∷ l
strip_slashes-append [] c l h = h
strip_slashes-append (a ∷ x) c l h = strip_slashes-cons a c x l (strip_slashes-append x c l h)

base-stripped :
    (a : ℕ) (s : Bytes) → strip_slashes (a ∷ s) ≡ a ∷ s → base (a ∷ s) ≡ after_slash (a ∷ s)
unfolding base base_of
base-stripped a s h = ap (base_of (a ∷ s)) h

base-nonempty :
    (x : Bytes) (c : ℕ) (l : Bytes)
    → strip_slashes (x ++ c ∷ l) ≡ x ++ c ∷ l
    → base (x ++ c ∷ l) ≡ after_slash (x ++ c ∷ l)
base-nonempty [] c l h = base-stripped c l h
base-nonempty (a ∷ x) c l h = base-stripped a (x ++ c ∷ l) h

after_slash-append : (x l : Bytes) → has_byte b'/' l ≡ false → after_slash (x ++ b'/' ∷ l) ≡ l
unfolding after_slash
after_slash-append x l h = rw (last_index-append x l b'/' h, after_slash) (drop-append_suc x l b'/')

-- The element behind the last slash of a path is its base.
pub base-append :
    (x : Bytes) (c : ℕ) (l : Bytes)
    → has_byte b'/' (c ∷ l) ≡ false
    → base (x ++ b'/' ∷ c ∷ l) ≡ c ∷ l
base-append x c l h =
    base-nonempty x b'/' (c ∷ l) (
      strip_slashes-append x b'/' (c ∷ l)
        (strip_slashes-cons b'/' c [] l (strip_slashes-element c l h)))
    ∙ after_slash-append x (c ∷ l) h
