-- ===== src/Text/Laws.antt =====
-- Laws of the text functions.
use zsys.Prelude.{
  ℕ, suc, ◌+◌, true, false, none, some, [], ◌∷◌, ◌++◌, ◌≡◌, ◌↔◌, refl, ap, arith, length, take,
  drop, Bool-cases, inl, inr,
}
use zsys.Text.{
  index_byte, Bytes, text_eq, has_prefix, has_suffix, has_byte, last_index, trim_prefix,
}

pub text_eq_refl : (s : Bytes) → text_eq s s ≡ true
unfolding text_eq
text_eq_refl [] = refl
text_eq_refl (a ∷ s) = ground (arith, text_eq_refl s)

pub text_eq_sound : (s t : Bytes) → text_eq s t ≡ true → s ≡ t
unfolding text_eq
text_eq_sound [] [] h = refl
text_eq_sound [] (b ∷ t) h = cc
text_eq_sound (a ∷ s) [] h = cc
text_eq_sound (a ∷ s) (b ∷ t) h = ground (arith, text_eq_sound s t)

pub text_eq_iff : (s t : Bytes) → (text_eq s t ≡ true) ↔ (s ≡ t)
text_eq_iff s t = (text_eq_sound s t, λ e. rw (← e) (text_eq_refl s))

pub has_prefix-append : (p r : Bytes) → has_prefix (p ++ r) p ≡ true
unfolding has_prefix
has_prefix-append [] [] = refl
has_prefix-append [] (c ∷ r) = refl
has_prefix-append (c ∷ p) r = ground (arith, has_prefix-append p r)

pub has_prefix_sound : (s p : Bytes) → has_prefix s p ≡ true → s ≡ p ++ drop (length p) s
unfolding has_prefix
has_prefix_sound s [] h = refl
has_prefix_sound [] (c ∷ p) h = cc
has_prefix_sound (a ∷ s) (c ∷ p) h = ground (arith, has_prefix_sound s p)

pub drop-append : (p r : Bytes) → drop (length p) (p ++ r) ≡ r
drop-append [] r = refl
drop-append (c ∷ p) r = drop-append p r

pub trim_prefix-append : (p r : Bytes) → trim_prefix (p ++ r) p ≡ r
unfolding trim_prefix
trim_prefix-append p r = rw (has_prefix-append p r) (drop-append p r)

pub trim_prefix-other : (s p : Bytes) → has_prefix s p ≡ false → trim_prefix s p ≡ s
unfolding trim_prefix
trim_prefix-other s p h = rw h refl

pub has_suffix_self : (t : Bytes) → has_suffix t t ≡ true
unfolding has_suffix
has_suffix_self [] = refl
has_suffix_self (c ∷ t) = ground (arith, text_eq_refl (c ∷ t))

pub has_suffix-append : (s t : Bytes) → has_suffix (s ++ t) t ≡ true
unfolding has_suffix
has_suffix-append [] t = has_suffix_self t
has_suffix-append (c ∷ s) t = elim (Bool-cases (text_eq (c ∷ (s ++ t)) t)) [
  | inl e ↦ rw e refl
  | inr e ↦ rw e (has_suffix-append s t)
]

-- The part of a text before a suffix of it.
pub has_suffix_sound : (s t : Bytes) → has_suffix s t ≡ true → (r : Bytes) × (s ≡ r ++ t)
unfolding has_suffix
has_suffix_sound [] t h = ([], text_eq_sound [] t h)
has_suffix_sound (c ∷ s) t h = elim (Bool-cases (text_eq (c ∷ s) t)) [
  | inl e ↦ ([], text_eq_sound (c ∷ s) t e)
  | inr e ↦ let (r, q) = has_suffix_sound s t (ground arith) in (c ∷ r, ap (λ x. c ∷ x) q)
]

pub has_byte-append :
    (b : ℕ) (s t : Bytes)
    → has_byte b s ≡ false
    → has_byte b t ≡ false
    → has_byte b (s ++ t) ≡ false
unfolding has_byte
has_byte-append b [] t h k = k
has_byte-append b (c ∷ s) t h k = ground (arith, has_byte-append b s t)

pub has_byte-append_right : (b : ℕ) (s t : Bytes) → has_byte b t ≡ true → has_byte b (s ++ t) ≡ true
unfolding has_byte
has_byte-append_right b [] t h = h
has_byte-append_right b (c ∷ s) t h = ground (arith, has_byte-append_right b s t)

pub last_index-absent : (s : Bytes) (b : ℕ) → has_byte b s ≡ false → last_index s b ≡ none
unfolding last_index has_byte
last_index-absent [] b h = refl
last_index-absent (c ∷ s) b h = ground (arith, last_index-absent s b)

-- The last index of a byte that stands before a part without it.
pub last_index-append :
    (s t : Bytes) (b : ℕ) → has_byte b t ≡ false → last_index (s ++ b ∷ t) b ≡ some (length s)
unfolding last_index
last_index-append [] t b h = ground (arith, last_index-absent t b h)
last_index-append (c ∷ s) t b h = ground (arith, last_index-append s t b h)

pub take-append : (p r : Bytes) → take (length p) (p ++ r) ≡ p
take-append [] r = refl
take-append (c ∷ p) r = ap (λ x. c ∷ x) (take-append p r)

pub drop-append_suc : (p r : Bytes) (c : ℕ) → drop (length p + 1) (p ++ c ∷ r) ≡ r
drop-append_suc p r c = let e : length p + 1 ≡ suc (length p) = omega arith in rw e (go p)
  where
    go : (q : Bytes) → drop (suc (length q)) (q ++ c ∷ r) ≡ r
    go [] = refl
    go (d ∷ q) = go q

-- The first index of a byte that stands behind a part without it.
pub index_byte-append :
    (x rest : Bytes) (b : ℕ) → has_byte b x ≡ false → index_byte (x ++ b ∷ rest) b ≡ some (length x)
unfolding index_byte has_byte
index_byte-append [] rest b h = ground arith
index_byte-append (c ∷ x) rest b h = ground (arith, index_byte-append x rest b)
