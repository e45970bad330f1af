-- ===== src/Gc/Combinations/Binomial.antt =====
-- The loop of `binomial` computes binomial coefficients.
use native.Mathlib.Nat.{mod-eq_of_lt, mul_comm, mul-div_cancel}
use zsys.Prelude.{
  ℕ, zero, suc, ◌+◌, ◌-◌, ◌*◌, ◌/◌, ◌%◌, ◌^◌, ◌≤◌, ◌<◌, some, ◌≡◌, refl, ap, ◌∙◌, arith, Bool-cases,
  inl, inr, ltb, false,
}
use zsys.Gc.Combinations.{word, binomial_loop, binomial}

-- Pascal's triangle: the number of ways to choose a of a + b things.
unfoldable pub paths : ℕ → ℕ → ℕ
paths zero b = 1
paths (suc a) zero = 1
paths (suc a) (suc b) = paths a (suc b) + paths (suc a) b

pub paths-nil_right : (a : ℕ) → paths a 0 ≡ 1
unfolding paths
paths-nil_right zero = refl
paths-nil_right (suc a) = refl

pub paths_comm : (a b : ℕ) → paths a b ≡ paths b a
unfolding paths
paths_comm zero zero = refl
paths_comm zero (suc b) = refl
paths_comm (suc a) zero = refl
paths_comm (suc a) (suc b) = omega (arith, paths_comm a (suc b), paths_comm (suc a) b)

-- The two absorption identities.
absorption :
    (i c : ℕ)
    → (suc i * paths (suc i) c ≡ (c + suc i) * paths i c)
      × (suc c * paths i (suc c) ≡ (i + suc c) * paths i c)
unfolding paths
absorption zero zero = omega arith
absorption zero (suc c) = let h = absorption zero c in omega (arith, h)
absorption (suc i) zero = let h = absorption i zero in omega (arith, h, paths-nil_right i)
absorption (suc i) (suc c) =
    let h = absorption (suc i) c in let k = absorption i (suc c) in omega (arith, h, k)

paths_mono : (a d : ℕ) → paths a d ≤ paths (suc a) d
unfolding paths
paths_mono zero zero = omega arith
paths_mono zero (suc d) = omega (arith, paths_mono zero d)
paths_mono (suc a) zero = omega arith
paths_mono (suc a) (suc d) = omega arith

pub paths_pos : (a d : ℕ) → 1 ≤ paths a d
unfolding paths
paths_pos zero d = omega arith
paths_pos (suc a) zero = omega arith
paths_pos (suc a) (suc d) = omega (arith, paths_pos a (suc d))

paths_mono_add : (r a d : ℕ) → paths a d ≤ paths (a + r) d
paths_mono_add zero a d = let e : a + 0 ≡ a = omega arith in rw e (omega arith)
paths_mono_add (suc r) a d =
    let e : a + suc r ≡ suc a + r = omega arith in
    rw e (omega (arith, paths_mono a d, paths_mono_add r (suc a) d))

-- One round: the product is divided exactly.
round_exact :
    (i a d : ℕ)
    → i ≡ suc a
    → suc a * paths (suc a) d < word
    → ((d + i) * paths a d) % word / i ≡ paths (suc a) d
round_exact i a d e fits =
    rw (e, ← (absorption a d).0, mod-eq_of_lt fits, mul_comm (suc a) (paths (suc a) d))
      (mul-div_cancel (paths (suc a) d) (omega arith))

product_mono : (a b p q : ℕ) → a ≤ b → p ≤ q → a * p ≤ b * q
product_mono a b p q h k = grind arith

binomial_loop_lem :
    (rounds i a d : ℕ)
    → i ≡ suc a
    → (a + rounds) * paths (a + rounds) d < word
    → binomial_loop rounds i d (paths a d) ≡ paths (a + rounds) d
unfolding binomial_loop
binomial_loop_lem zero i a d e fits = let q : a + 0 ≡ a = omega arith in rw q refl
binomial_loop_lem (suc r) i a d e fits =
    let q : a + suc r ≡ suc a + r = omega arith in
    rw
      (round_exact i a d e (
        omega (
          arith,
          fits,
          product_mono (suc a) (a + suc r) (paths (suc a) d) (paths (a + suc r) d) (omega arith)
              (rw q (paths_mono_add r (suc a) d)),
        )))
      (rw q (binomial_loop_lem r (i + 1) (suc a) d (omega arith) (rw q at fits)))

no_panic : (n k : ℕ) → k ≤ n → ltb n k ≡ false
no_panic n k h = ground arith

loop_from_one :
    (n m : ℕ) → m ≤ n → n * paths m (n - m) < 2 ^ 63 → binomial_loop m 1 (n - m) 1 ≡ paths m (n - m)
unfolding paths
loop_from_one n m h fits =
    let e : 0 + m ≡ m = omega arith in
    binomial_loop_lem m 1 0 (n - m) refl (
      rw e
        (omega (arith, fits, product_mono m n (paths m (n - m)) (paths m (n - m)) h (omega arith))))
    ∙ rw e refl

-- The result for the smaller of k and n - k, when k is past the half.
loop_mirrored :
    (n k : ℕ)
    → k ≤ n
    → n * paths k (n - k) < 2 ^ 63
    → binomial_loop (n - k) 1 (n - (n - k)) 1 ≡ paths k (n - k)
loop_mirrored n k h fits = loop_from_one n (n - k) (omega arith) (rw mirrored fits) ∙ mirrored
  where
    mirrored : paths (n - k) (n - (n - k)) ≡ paths k (n - k)
    mirrored = let e : n - (n - k) ≡ k = omega arith in rw e (paths_comm (n - k) k)

-- For k ≤ n, when n times the result fits an `int`, `binomial n k` returns, without a panic, the
-- number of ways to choose k of n things.
pub binomial_lem :
    (n k : ℕ) → k ≤ n → n * paths k (n - k) < 2 ^ 63 → binomial n k ≡ some (paths k (n - k))
unfolding binomial
binomial_lem n k h fits = elim (Bool-cases (ltb (n / 2) k)) [
  | inl past ↦ rw (no_panic n k h, past) (ap some (loop_mirrored n k h fits))
  | inr low ↦ rw (no_panic n k h, low) (ap some (loop_from_one n k h fits))
]
