-- ===== src/Gc/Walk/Total.antt =====
-- A walk over a history of at most 43 states ends without a panic.
use native.Mathlib.Nat.{two-pow-succ}
use native.Mathlib.Decide.{dec_le}
use zsys.Prelude.{
  ℕ, zero, suc, ◌+◌, ◌-◌, ◌*◌, ◌^◌, ◌≤◌, ◌||◌, some, List, [], ◌∷◌, ◌++◌, ◌≡◌, refl, ap, arith,
  length, Bool-cases, inl, inr, ◌>>=◌,
}
use zsys.Prelude.Int.{ℤ, pos, negsuc}
use zsys.Machines.Model.{State}
use zsys.Gc.Buckets.{Bucket}
use zsys.Gc.Combinations.Binomial.{paths, paths-nil_right}
use zsys.Gc.Selection.{StateWithKeep, to_keep, to_place}
use zsys.Gc.Combinations.Enumeration.{FitsMemory}
use zsys.Gc.Selection.Quota.{FitsInt, select_total}
use zsys.Gc.Walk.{
  Rules, Links, inside, outside, judge, purge, keeps_all, no_exceeding, Step, bucket_step, walk,
}

power_mono : (n r : ℕ) → 2 ^ n ≤ 2 ^ (n + r)
power_mono n zero = let e : n + 0 ≡ n = omega arith in rw e (omega arith)
power_mono n (suc r) =
    let e : n + suc r ≡ suc (n + r) = omega arith in
    rw e (omega (arith, two-pow-succ (n + r), power_mono n r))

one_le_power : (n : ℕ) → 1 ≤ 2 ^ n
one_le_power zero = omega arith
one_le_power (suc n) = omega (arith, two-pow-succ n, one_le_power n)

paths_le : (a b : ℕ) → paths a b ≤ 2 ^ (a + b)
unfolding paths
paths_le zero b = one_le_power (0 + b)
paths_le (suc a) zero = one_le_power (suc a + 0)
paths_le (suc a) (suc b) =
    let e : suc a + suc b ≡ suc (a + suc b) = omega arith in
    let q : suc a + b ≡ a + suc b = omega arith in
    rw e (omega (arith, two-pow-succ (a + suc b), paths_le a (suc b), rw q at (paths_le (suc a) b)))

product_mono : (a b p q : ℕ) → a ≤ b → p ≤ q → a * p ≤ b * q
product_mono a b p q h k = grind arith

paths_few : (n k : ℕ) → n ≤ 43 → FitsMemory n k
paths_few n k h =
    let few = bound (dec_le k n) in
    (omega (arith, product_mono n 43 (paths k (n - k)) (2 ^ 43) h few), omega (arith, few))
  where
    bound : Dec (k ≤ n) → paths k (n - k) ≤ 2 ^ 43
    bound (yes le) =
        let e : k + (n - k) ≡ n = omega arith in
        let q : n + (43 - n) ≡ 43 = omega arith in
        omega (arith, rw e at (paths_le k (n - k)), rw q at (power_mono n (43 - n)))
    bound (no gt) = let e : n - k ≡ 0 = omega arith in rw (e, paths-nil_right k) (omega arith)

length-to_place_le : (states : List StateWithKeep) → length (to_place states) ≤ length states
unfolding to_place
length-to_place_le [] = omega arith
length-to_place_le (s ∷ ss) = ground (arith, length-to_place_le ss)

length-judge :
    (rules : Rules) (links : Links) (i : ℕ) (states : List State)
    → length (judge rules links i states) ≡ length states
unfolding judge
length-judge rules links i [] = refl
length-judge rules links i (s ∷ ss) = ap suc (length-judge rules links (i + 1) ss)

length-inside : (start : ℕ) (states : List State) → length (inside start states) ≤ length states
unfolding inside
length-inside start [] = omega arith
length-inside start (s ∷ ss) = ground (arith, length-inside start ss)

length-outside : (start : ℕ) (states : List State) → length (outside start states) ≤ length states
unfolding outside
length-outside start [] = omega arith
length-outside start (s ∷ ss) = ground (arith, length-outside start ss)

few-FitsInt :
    (samples : ℤ) (states : List StateWithKeep) → length states ≤ 43 → FitsInt samples states
few-FitsInt (negsuc n) states h = tt
few-FitsInt (pos samples) states h =
    paths_few (length (to_place states)) (samples - length (to_keep states))
      (omega (arith, length-to_place_le states))

module _ (rules : Rules) where
  bucket_step-total :
      (b : Bucket) (states : List State) (i : ℕ) (links : Links)
      → length states ≤ 43
      → (step : Step) × (bucket_step rules b states i links ≡ some step)
        × (length step.rest ≤ length states)
  unfolding bucket_step
  bucket_step-total b states i links h =
      let here = inside b.start states in
      let verdicts = judge rules links i here in
      let passed : Step = record {
        removed = [];
        rest = outside b.start states;
        index = i + length here;
        links = links;
      } in
      elim (Bool-cases (keeps_all b.samples || no_exceeding (length here) b.samples)) [
        | inl skip ↦ (passed, rw skip refl, length-outside b.start states)
        | inr full ↦
            let (removed, chosen, within) = select_total b.samples verdicts (
              few-FitsInt b.samples verdicts
                (omega (arith, length-judge rules links i here, length-inside b.start states))) in
            (
              record passed { removed = removed; links = purge removed links },
              rw full (rw (chosen, ◌>>=◌) refl),
              length-outside b.start states,
            )
      ]

  pub walk-total :
      (bs : List Bucket) (states : List State) (i : ℕ) (links : Links)
      → length states ≤ 43
      → (out : List State × Links) × (walk rules bs states i links ≡ some out)
  unfolding walk
  walk-total [] states i links h = (_, refl)
  walk-total (b ∷ bs) [] i links h = (_, refl)
  walk-total (b ∷ bs) (s ∷ ss) i links h =
      let (step, done, fewer) = bucket_step-total b (s ∷ ss) i links h in
      let (later, left) = walk-total bs step.rest step.index step.links (omega (arith, h, fewer)) in
      ((step.removed ++ later.0, later.1), rw (done, ◌>>=◌) (rw (left, ◌>>=◌) refl))
