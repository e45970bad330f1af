-- ===== src/Gc/Slice/Laws.antt =====
-- The slice without one occurrence of a name, whatever the order.
use zsys.Prelude.{
  ℕ, zero, suc, ◌+◌, ◌-◌, ◌<◌, Bool, true, none, some, List, [], ◌∷◌, ◌≡◌, refl, ap, ◌∙◌, arith,
  if◌then◌else◌, length, get_or, set, length-set, take, ◌⊎◌, ◌≤◌, Bool-cases, Option-cases, inl,
  inr,
}
use zsys.Text.{Bytes, text_eq}
use zsys.Text.Laws.{text_eq_sound}
use zsys.Gc.Slice.{index_of, remove_from_slice}

-- How often a name stands in a slice.
unfoldable pub count_name : Bytes → List Bytes → ℕ
count_name n [] = 0
count_name n (v ∷ s) = let rest = count_name n s in if text_eq v n then suc rest else rest

abbrev pub one_if : Bool → ℕ
one_if b = if b then 1 else 0

-- Writing over an element changes the counts by the old and the new element.
count_name-set :
    (n : Bytes) (s : List Bytes) (i : ℕ) (v : Bytes)
    → i < length s
    → count_name n (set s i v) + one_if (text_eq (get_or s i []) n)
      ≡ count_name n s + one_if (text_eq v n)
unfolding count_name
count_name-set n [] i v h = elim h [ ]
count_name-set n (x ∷ s) zero v h = ground arith
count_name-set n (x ∷ s) (suc i) v h = ground (arith, count_name-set n s i v)

-- Dropping the last element.
count_name-take_last :
    (n : Bytes) (s : List Bytes) (k : ℕ)
    → length s ≡ suc k
    → count_name n (take k s) + one_if (text_eq (get_or s k []) n) ≡ count_name n s
unfolding count_name
count_name-take_last n [] k h = absurd (omega arith)
count_name-take_last n (x ∷ []) zero h = ground arith
count_name-take_last n (x ∷ y ∷ s) zero h = absurd (omega arith)
count_name-take_last n (x ∷ s) (suc k) h = ground (arith, count_name-take_last n s k)

index_of-some :
    (name : Bytes) (s : List Bytes) (i : ℕ)
    → index_of name s ≡ some i
    → (i < length s) × (text_eq (get_or s i []) name ≡ true)
unfolding index_of
index_of-some name [] i h = cc
index_of-some name (v ∷ s) i h = elim (Bool-cases (text_eq v name)) [
  | inl y ↦ let e : i ≡ 0 = ground arith in rw e (omega arith, y)
  | inr n ↦ elim (Option-cases (index_of name s)) [
    | inl q ↦ absurd (ground arith)
    | inr (j, q) ↦
        let e : i ≡ suc j = ground arith in
        let (lt, found) = index_of-some name s j q in rw e (omega arith, found)
  ]
]

index_of-none : (name : Bytes) (s : List Bytes) → index_of name s ≡ none → count_name name s ≡ 0
unfolding index_of count_name
index_of-none name [] h = refl
index_of-none name (v ∷ s) h = ground (arith, index_of-none name s)

index_of-some_pos :
    (name : Bytes) (s : List Bytes) (i : ℕ) → index_of name s ≡ some i → 1 ≤ count_name name s
unfolding index_of count_name
index_of-some_pos name [] i h = cc
index_of-some_pos name (v ∷ s) i h = elim (Bool-cases (text_eq v name)) [
  | inl y ↦ ground arith
  | inr n ↦ elim (Option-cases (index_of name s)) [
    | inl q ↦ absurd (ground arith)
    | inr (j, q) ↦ ground (arith, index_of-some_pos name s j q)
  ]
]

get_or-set_same : (s : List Bytes) (i k : ℕ) → get_or (set s i (get_or s k [])) k [] ≡ get_or s k []
get_or-set_same [] i k = refl
get_or-set_same (x ∷ s) zero zero = refl
get_or-set_same (x ∷ s) zero (suc k) = refl
get_or-set_same (x ∷ s) (suc i) zero = refl
get_or-set_same (x ∷ s) (suc i) (suc k) = get_or-set_same s i k

remove_at :
    (n name : Bytes) (s : List Bytes) (i : ℕ)
    → index_of name s ≡ some i
    → count_name n (remove_from_slice s name) + one_if (text_eq name n) ≡ count_name n s
unfolding remove_from_slice
remove_at n name s i e =
    let (lt, found) = index_of-some name s i e in
    let last = get_or s (length s - 1) [] in
    let same : get_or s i [] ≡ name = text_eq_sound (get_or s i []) name found in
    let written = count_name-set n s i last lt in
    let size : length (set s i last) ≡ suc (length s - 1) = length-set s i last ∙ omega arith in
    let dropped = count_name-take_last n (set s i last) (length s - 1) size in
    rw (e, remove_from_slice)
      (omega (
        arith,
        written,
        dropped,
        ap (λ x. one_if (text_eq x n)) same,
        ap (λ x. one_if (text_eq x n)) (get_or-set_same s i (length s - 1)),
      ))

-- Removing a name that is in the slice takes away one occurrence of it, and the occurrences of every
-- other name stay as they are; a slice without the name is returned as it is.
pub remove_from_slice_lem :
    (s : List Bytes) (name : Bytes)
    → ((count_name name s ≡ 0) × (remove_from_slice s name ≡ s))
      ⊎ ((1 ≤ count_name name s)
          × ((n : Bytes)
              → count_name n (remove_from_slice s name) + one_if (text_eq name n) ≡ count_name n s))
unfolding remove_from_slice
remove_from_slice_lem s name = elim (Option-cases (index_of name s)) [
  | inl e ↦ inl (index_of-none name s e, rw (e, remove_from_slice) refl)
  | inr (i, e) ↦ inr (index_of-some_pos name s i e, λ n. remove_at n name s i e)
]
