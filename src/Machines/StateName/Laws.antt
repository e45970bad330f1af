-- ===== src/Machines/StateName/Laws.antt =====
-- What a state name may hold, and what the error reports.
use mathlib.Core.Path.{subst}
use zsys.Prelude.{
  ℕ, true, false, not, ◌&&◌, none, some, List, [], ◌∷◌, ◌≡◌, ◌↔◌, refl, sym, ◌∙◌, arith, Bool-cases,
  inl, inr, ◌==◌, ==_iff,
}
use zsys.Text.{Bytes, codes, has_prefix, has_byte}
use zsys.Zfs.Names.{split_snapshot_name, snapshot_of, split_snapshot_name-snapshot_of}
use zsys.Machines.StateName.{
  unsupported_chars, is_valid_char, invalid_chars, unique_chars, validate_chars,
  validate_state_name,
}

-- Every character is allowed.
abbrev pub AllValid : Bytes → Type 0
AllValid [] = Unit
AllValid (c ∷ s) = (is_valid_char c ≡ true) × AllValid s

-- No character stands twice.
abbrev pub Distinct : List ℕ → Type 0
Distinct [] = Unit
Distinct (c ∷ s) = (has_byte c s ≡ false) × Distinct s

has_byte-invalid_chars :
    (c : ℕ) (s : Bytes) → has_byte c (invalid_chars s) ≡ has_byte c s && not (is_valid_char c)
unfolding has_byte invalid_chars
has_byte-invalid_chars c [] = refl
has_byte-invalid_chars c (d ∷ s) = elim (Bool-cases (d == c)) [
  | inl e ↦ let q : d ≡ c = (==_iff d c).0 e in rw q (ground (arith, has_byte-invalid_chars c s))
  | inr n ↦ ground (arith, has_byte-invalid_chars c s)
]

has_byte-unique_chars :
    (c : ℕ) (s keys : List ℕ)
    → has_byte c (unique_chars s keys) ≡ has_byte c s && not (has_byte c keys)
unfolding has_byte unique_chars
has_byte-unique_chars c [] keys = refl
has_byte-unique_chars c (d ∷ s) keys = elim (Bool-cases (d == c)) [
  | inl e ↦
      let q : d ≡ c = (==_iff d c).0 e in
      rw q (ground (arith, has_byte-unique_chars c s keys, has_byte-unique_chars c s (c ∷ keys)))
  | inr n ↦ ground (arith, has_byte-unique_chars c s keys, has_byte-unique_chars c s (d ∷ keys))
]

unique_chars-old :
    (d : ℕ) (s keys : List ℕ)
    → has_byte d keys ≡ true
    → unique_chars (d ∷ s) keys ≡ unique_chars s keys
unfolding unique_chars
unique_chars-old d s keys e = ground arith

unique_chars-new :
    (d : ℕ) (s keys : List ℕ)
    → has_byte d keys ≡ false
    → unique_chars (d ∷ s) keys ≡ d ∷ unique_chars s (d ∷ keys)
unfolding unique_chars
unique_chars-new d s keys e = ground arith

fresh : (d : ℕ) (s keys : List ℕ) → has_byte d (unique_chars s (d ∷ keys)) ≡ false
unfolding has_byte
fresh d s keys = ground (arith, has_byte-unique_chars d s (d ∷ keys))

unique_chars-Distinct : (s keys : List ℕ) → Distinct (unique_chars s keys)
unfolding unique_chars
unique_chars-Distinct [] keys = tt
unique_chars-Distinct (d ∷ s) keys = elim (Bool-cases (has_byte d keys)) [
  | inl e ↦ subst Distinct (sym (unique_chars-old d s keys e)) (unique_chars-Distinct s keys)
  | inr n ↦
      subst Distinct (sym (unique_chars-new d s keys n))
        (fresh d s keys, unique_chars-Distinct s (d ∷ keys))
]

AllValid-invalid_chars : (s : Bytes) → AllValid s → invalid_chars s ≡ []
unfolding invalid_chars
AllValid-invalid_chars [] h = refl
AllValid-invalid_chars (c ∷ s) h = rw h.0 (AllValid-invalid_chars s h.1)

invalid_chars-AllValid : (s : Bytes) → invalid_chars s ≡ [] → AllValid s
unfolding invalid_chars
invalid_chars-AllValid [] h = tt
invalid_chars-AllValid (c ∷ s) h = elim (Bool-cases (is_valid_char c)) [
  | inl y ↦ (y, invalid_chars-AllValid s (ground arith))
  | inr n ↦ absurd (ground arith)
]

validate_chars-none : (s : List ℕ) → validate_chars s ≡ none → s ≡ []
unfolding validate_chars
validate_chars-none [] h = refl
validate_chars-none (c ∷ s) h = cc

-- A name is accepted exactly when it does not start with a dash and all its characters are
-- allowed.
pub validate_state_name_iff :
    (name : Bytes)
    → (validate_state_name name ≡ none) ↔ ((has_prefix name (codes "-") ≡ false) × AllValid name)
unfolding validate_state_name
validate_state_name_iff name = (accepted, accepts)
  where
    accepted :
        validate_state_name name ≡ none → (has_prefix name (codes "-") ≡ false) × AllValid name
    accepted h = elim (Bool-cases (has_prefix name (codes "-"))) [
      | inl y ↦ absurd (ground arith)
      | inr n ↦
          (n, invalid_chars-AllValid name (validate_chars-none (invalid_chars name) (ground arith)))
    ]

    accepts :
        (has_prefix name (codes "-") ≡ false) × AllValid name → validate_state_name name ≡ none
    accepts h = rw (h.0, validate_state_name) (rw (AllValid-invalid_chars name h.1) refl)

validate_chars-unsupported :
    (s us : List ℕ) → validate_chars s ≡ some (unsupported_chars us) → us ≡ unique_chars s []
unfolding validate_chars unique_chars
validate_chars-unsupported [] us h = cc
validate_chars-unsupported (c ∷ s) us h = cc

-- The error for unsupported characters names no character twice, and names exactly those of the
-- name that are not allowed.
pub validate_state_name-unsupported :
    (name : Bytes) (us : List ℕ)
    → validate_state_name name ≡ some (unsupported_chars us)
    → Distinct us × ((c : ℕ) → has_byte c us ≡ has_byte c name && not (is_valid_char c))
unfolding validate_state_name
validate_state_name-unsupported name us h =
    let e : us ≡ unique_chars (invalid_chars name) [] =
      validate_chars-unsupported (invalid_chars name) us reported in
    (subst Distinct (sym e) (unique_chars-Distinct (invalid_chars name) []), members e)
  where
    reported : validate_chars (invalid_chars name) ≡ some (unsupported_chars us)
    reported = elim (Bool-cases (has_prefix name (codes "-"))) [
      | inl y ↦ absurd (ground arith)
      | inr n ↦ ground arith
    ]

    members :
        us ≡ unique_chars (invalid_chars name) []
        → (c : ℕ) → has_byte c us ≡ has_byte c name && not (is_valid_char c)
    members e c = rw e (
        has_byte-unique_chars c (invalid_chars name) []
        ∙ unfold has_byte in ground (arith, has_byte-invalid_chars c name))

pub AllValid-has_byte : (s : Bytes) → AllValid s → has_byte b'@' s ≡ false
unfolding has_byte is_valid_char
AllValid-has_byte [] h = refl
AllValid-has_byte (c ∷ s) h = ground (arith, AllValid-has_byte s h.1)

-- The snapshot of a dataset under an accepted name is taken apart into the dataset and the name.
pub split_snapshot_name-validated :
    (dataset name : Bytes)
    → validate_state_name name ≡ none
    → split_snapshot_name (snapshot_of dataset name) ≡ (dataset, name)
split_snapshot_name-validated dataset name h =
    split_snapshot_name-snapshot_of dataset name
      (AllValid-has_byte name ((validate_state_name_iff name).0 h).1)
