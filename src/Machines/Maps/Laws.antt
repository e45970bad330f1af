-- ===== src/Machines/Maps/Laws.antt =====
-- Maps of names: the keys that are new, and sums over the values.
use zsys.Prelude.{
  ℕ, ◌+◌, false, Option, none, some, List, [], ◌∷◌, ◌≡◌, refl, arith, Bool-cases, inl, inr,
}
use zsys.Text.{Bytes, text_eq}
use zsys.Text.Laws.{text_eq_refl}
use zsys.Machines.Maps.{lookup, put}

module _ {ℓ} {A : Type ℓ} where
  abbrev pub total : (A → ℕ) → List (Bytes × A) → ℕ
  total f [] = 0
  total f ((k, a) ∷ m) = f a + total f m

  -- A key that is not found is not the first one, and is not found behind it.
  pub lookup-cons :
      (key k : Bytes) (a : A) (m : List (Bytes × A))
      → lookup key ((k, a) ∷ m) ≡ none
      → (text_eq k key ≡ false) × (lookup key m ≡ none)
  unfolding lookup
  lookup-cons key k a m h = elim (Bool-cases (text_eq k key)) [
    | inl y ↦ absurd (clash (rw y at h))
    | inr n ↦ (n, rw n at h)
  ]
    where
      clash : ◌≡◌ {A = Option A} (some a) none → ⊥
      clash e = cc

  pub lookup-other :
      (key k : Bytes) (a : A) (m : List (Bytes × A))
      → text_eq k key ≡ false
      → lookup key m ≡ none
      → lookup key ((k, a) ∷ m) ≡ none
  unfolding lookup
  lookup-other key k a m n h = rw n h

  pub total-put :
      (f : A → ℕ) (key : Bytes) (v : A) (m : List (Bytes × A))
      → lookup key m ≡ none
      → total f (put key v m) ≡ total f m + f v
  unfolding put
  total-put f key v [] h = omega arith
  total-put f key v ((k, a) ∷ m) h =
      let (n, later) = lookup-cons key k a m h in rw n (omega (arith, total-put f key v m later))

  pub lookup-put :
      (key other : Bytes) (v : A) (m : List (Bytes × A))
      → text_eq key other ≡ false
      → lookup other m ≡ none
      → lookup other (put key v m) ≡ none
  unfolding put
  lookup-put key other v [] n h = lookup-other other key v [] n h
  lookup-put key other v ((k, a) ∷ m) n h =
      let (first, later) = lookup-cons other k a m h in
      elim (Bool-cases (text_eq k key)) [
        | inl y ↦ rw y (lookup-other other k v m first later)
        | inr o ↦
            rw o (lookup-other other k a (put key v m) first (lookup-put key other v m n later))
      ]

  pub lookup-put_self :
      (key : Bytes) (v : A) (m : List (Bytes × A)) → lookup key (put key v m) ≡ some v
  unfolding put lookup
  lookup-put_self key v [] = rw (text_eq_refl key) refl
  lookup-put_self key v ((k, a) ∷ m) = elim (Bool-cases (text_eq k key)) [
    | inl y ↦ rw y (rw y refl)
    | inr n ↦ rw n (rw n (lookup-put_self key v m))
  ]
