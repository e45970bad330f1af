-- ===== src/Gc/Selection/Laws.antt =====
-- What `selectStatesToRemove` removes, and what it keeps.
use mathlib.Core.List.Sublistᴰ
use mathlib.Core.List.{Sublistᴰ}
use mathlib.Core.Path.{subst}
use zsys.Prelude.{
  ℕ, zero, suc, ◌+◌, ◌-◌, ◌*◌, ◌≤◌, ◌<◌, false, some, List, [], ◌∷◌, ◌≡◌, inl, inr, refl, sym, ap,
  arith, Bool-cases, Option-cases, length, get_elem?, set, ◌>>=◌, if◌then◌else◌, ltb,
}
use zsys.Gc.Combinations.Enumeration.{FitsMemory}
use zsys.Gc.Selection.{
  keep_yes, StateWithKeep, is_keep_yes, time_of, interval_loop, interval, to_keep, to_place,
  sum_times, distance, mark_loop, states_of,
}
use zsys.Gc.Selection.Choices.{OpenFrom}
use zsys.Gc.Selection.Best.{AllWithin}

AllWithin-weaken :
    (s e s' e' : ℕ) (ss : List StateWithKeep)
    → s' ≤ s
    → e ≤ e'
    → AllWithin s e ss
    → AllWithin s' e' ss
AllWithin-weaken s e s' e' [] h k w = tt
AllWithin-weaken s e s' e' (x ∷ xs) h k w =
    ((omega arith, omega arith), AllWithin-weaken s e s' e' xs h k w.1)

-- The interval covers the states, and what it was before.
interval_loop_lem :
    (ss : List StateWithKeep) (start end : ℕ)
    → start ≤ end
    → let (s, e) = interval_loop ss start end in (s ≤ start) × (end ≤ e) × AllWithin s e ss
unfolding interval_loop
interval_loop_lem [] start end h = (omega arith, omega arith, tt)
interval_loop_lem (x ∷ xs) start end h =
    let (low, high, rest) =
      interval_loop_lem xs (if ltb (time_of x) start then time_of x else start)
        (if ltb end (time_of x) then time_of x else end) (ground arith) in
    (ground (arith, low), ground (arith, high), ((ground (arith, low), ground (arith, high)), rest))

pub interval-AllWithin : (ss : List StateWithKeep) → AllWithin (interval ss).0 (interval ss).1 ss
unfolding interval
interval-AllWithin [] = tt
interval-AllWithin (x ∷ xs) =
    let (low, high, rest) = interval_loop_lem xs (time_of x) (time_of x) (omega arith) in
    ((low, high), rest)

pub AllWithin-to_place :
    (s e : ℕ) (ss : List StateWithKeep) → AllWithin s e ss → AllWithin s e (to_place ss)
unfolding to_place
AllWithin-to_place s e [] w = tt
AllWithin-to_place s e (x ∷ xs) w = elim (Bool-cases (is_keep_yes x.keep)) [
  | inl y ↦ rw y (AllWithin-to_place s e xs w.1)
  | inr n ↦ rw n (w.0, AllWithin-to_place s e xs w.1)
]

pub sum_times-to_keep :
    (s e : ℕ) (ss : List StateWithKeep)
    → AllWithin s e ss
    → (length (to_keep ss) * s ≤ sum_times (to_keep ss))
      × (sum_times (to_keep ss) ≤ length (to_keep ss) * e)
unfolding to_keep sum_times
sum_times-to_keep s e [] w = (omega arith, omega arith)
sum_times-to_keep s e (x ∷ xs) w =
    let (low, high) = sum_times-to_keep s e xs w.1 in
    elim (Bool-cases (is_keep_yes x.keep)) [
      | inl y ↦ rw y (omega (arith, w.0), omega (arith, w.0))
      | inr n ↦ rw n (low, high)
    ]

pub length-to_keep :
    (ss : List StateWithKeep) → length (to_keep ss) + length (to_place ss) ≡ length ss
unfolding to_keep to_place
length-to_keep [] = omega arith
length-to_keep (x ∷ xs) = ground (arith, length-to_keep xs)

pub length-states_of : (ss : List StateWithKeep) → length (states_of ss) ≡ length ss
unfolding states_of
length-states_of [] = refl
length-states_of (x ∷ xs) = ap suc (length-states_of xs)

abbrev pub AllOpen : List StateWithKeep → Type 0
AllOpen [] = Unit
AllOpen (x ∷ xs) = (is_keep_yes x.keep ≡ false) × AllOpen xs

pub to_place-AllOpen : (ss : List StateWithKeep) → AllOpen (to_place ss)
unfolding to_place
to_place-AllOpen [] = tt
to_place-AllOpen (x ∷ xs) = elim (Bool-cases (is_keep_yes x.keep)) [
  | inl y ↦ rw y (to_place-AllOpen xs)
  | inr n ↦ rw n (n, to_place-AllOpen xs)
]

pub AllOpen-OpenFrom : (ss : List StateWithKeep) → AllOpen ss → OpenFrom 0 ss
AllOpen-OpenFrom [] h i s le e = cc
AllOpen-OpenFrom (x ∷ xs) h zero s le e = ground arith
AllOpen-OpenFrom (x ∷ xs) h (suc i) s le e = AllOpen-OpenFrom xs h.1 i s (omega arith) e

pub to_place_twice : (ss : List StateWithKeep) → to_place (to_place ss) ≡ to_place ss
unfolding to_place
to_place_twice [] = refl
to_place_twice (x ∷ xs) = ground (arith, to_place_twice xs)

-- Marking a state takes none but itself from the states to remove.
set-Sublistᴰ :
    (place : List StateWithKeep) (i : ℕ) (s : StateWithKeep)
    → get_elem? place i ≡ some s
    → Sublistᴰ
        (states_of (to_place (set place i (record s { keep = keep_yes }))))
        (states_of (to_place place))
unfolding to_place states_of
set-Sublistᴰ [] i s e = Sublistᴰ.slnil
set-Sublistᴰ (x ∷ xs) zero s e = elim (Bool-cases (is_keep_yes x.keep)) [
  | inl y ↦ rw y (Sublistᴰ.refl (states_of (to_place xs)))
  | inr n ↦ rw n (Sublistᴰ.cons (Sublistᴰ.refl (states_of (to_place xs))))
]
set-Sublistᴰ (x ∷ xs) (suc i) s e = elim (Bool-cases (is_keep_yes x.keep)) [
  | inl y ↦ rw y (set-Sublistᴰ xs i s e)
  | inr n ↦ rw n (Sublistᴰ.cons-cons refl (set-Sublistᴰ xs i s e))
]

pub mark_loop-Sublistᴰ :
    (c : List ℕ) (place marked : List StateWithKeep)
    → mark_loop c place ≡ some marked
    → Sublistᴰ (states_of (to_place marked)) (states_of (to_place place))
unfolding mark_loop
mark_loop-Sublistᴰ [] place marked e =
    let q : place ≡ marked = cc in rw q (Sublistᴰ.refl (states_of (to_place marked)))
mark_loop-Sublistᴰ (i ∷ c) place marked e = elim (Option-cases (get_elem? place i)) [
  | inl out ↦ absurd (ground arith)
  | inr (s, q) ↦
      Sublistᴰ.trans
        (mark_loop-Sublistᴰ c (set place i (record s { keep = keep_yes })) marked
          (rw (q, ◌>>=◌) at e))
        (set-Sublistᴰ place i s q)
]

mul_pos : (a b : ℕ) → 0 < a → 0 < b → 0 < a * b
mul_pos a b h k = grind arith

distance_width :
    (samples start w sum : ℕ)
    → 0 < samples * w
    → samples * start ≤ sum
    → sum ≤ samples * (start + w)
    → distance samples start (start + w) sum < 2 * samples * w
unfolding distance
distance_width samples start w sum h low high = omega arith

-- The mean of times in the interval is nearer to the middle than one end is to the other.
pub distance-lt :
    (samples start end sum : ℕ)
    → 0 < samples
    → start < end
    → samples * start ≤ sum
    → sum ≤ samples * end
    → distance samples start end sum < 2 * samples * (end - start)
distance-lt samples start end sum h k low high =
    let e : end ≡ start + (end - start) = omega arith in
    subst (λ x. distance samples start x sum < 2 * samples * (end - start)) (sym e)
      (distance_width samples start (end - start) sum
        (mul_pos samples (end - start) h (omega arith)) low (subst (λ x. sum ≤ samples * x) e high))

-- For a bucket, the product that `binomial` computes fits an `int`, and the slice that `combinations`
-- makes can be allocated.
abbrev pub Fits : ℕ → List StateWithKeep → Type 0
Fits samples states =
    let n = length (to_place states) in let k = samples - length (to_keep states) in FitsMemory n k
