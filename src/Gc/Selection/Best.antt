-- ===== src/Gc/Selection/Best.antt =====
-- The loop over the combinations: what it finds, and that no other combination is nearer.
use zsys.Prelude.{
  ℕ, zero, suc, ◌+◌, ◌*◌, ◌≤◌, ◌<◌, true, Option, some, List, [], ◌∷◌, ◌≡◌, ◌⊎◌, inl, inr, refl,
  sym, arith, Bool-cases, length, get_elem?, ◌>>=◌, ltb,
}
use zsys.Gc.Selection.{StateWithKeep, time_of, sum_at, best_loop}
use zsys.Gc.Selection.Choices.{Rising, AllRising, get_elem?-in_range}

-- Every time lies in the interval.
abbrev pub AllWithin : ℕ → ℕ → List StateWithKeep → Type 0
AllWithin start end [] = Unit
AllWithin start end (s ∷ ss) = ((start ≤ time_of s) × (time_of s ≤ end)) × AllWithin start end ss

AllWithin-get_elem? :
    (start end : ℕ) (ss : List StateWithKeep) (i : ℕ) (s : StateWithKeep)
    → AllWithin start end ss
    → get_elem? ss i ≡ some s
    → (start ≤ time_of s) × (time_of s ≤ end)
AllWithin-get_elem? start end [] i s h e = cc
AllWithin-get_elem? start end (x ∷ xs) zero s h e = ground arith
AllWithin-get_elem? start end (x ∷ xs) (suc i) s h e = AllWithin-get_elem? start end xs i s h.1 e

-- The times of indices in range add up to a sum between those of the ends.
pub sum_at_lem :
    (start end lo : ℕ) (place : List StateWithKeep) (c : List ℕ)
    → AllWithin start end place
    → Rising lo (length place) c
    → (sum : ℕ) × (sum_at place c ≡ some sum) × (length c * start ≤ sum) × (sum ≤ length c * end)
unfolding sum_at
sum_at_lem start end lo place [] h r = (0, refl, omega arith, omega arith)
sum_at_lem start end lo place (i ∷ c) h r =
    let (s, e) = get_elem?-in_range place i r.1 in
    let (rest, q, low, high) = sum_at_lem start end (i + 1) place c h r.2 in
    let within = AllWithin-get_elem? start end place i s h e in
    (time_of s + rest, rw (e, ◌>>=◌) (rw (q, ◌>>=◌) refl), omega arith, omega arith)

-- No combination of the list is nearer than low.
abbrev pub NoneNearer : (ℕ → ℕ) → List StateWithKeep → ℕ → List (List ℕ) → Type 0
NoneNearer dist place low [] = Unit
NoneNearer dist place low (c ∷ cs) =
    ((sum : ℕ) → sum_at place c ≡ some sum → low ≤ dist sum) × NoneNearer dist place low cs

-- c is a combination of k indices at distance low.
pub record Attains (dist : ℕ → ℕ) (place : List StateWithKeep) (k low : ℕ) (c : List ℕ)
    : Type 0 where
  pub size : length c ≡ k
  pub rising : Rising 0 (length place) c
  pub sum : ℕ
  pub summed : sum_at place c ≡ some sum
  pub at_low : dist sum ≡ low

-- What the loop returns, when it starts from best at the distance low.
pub record Outcome (dist : ℕ → ℕ) (place : List StateWithKeep) (k : ℕ) (cs : List (List ℕ))
    (best : Option (List ℕ)) (low : ℕ) : Type 0 where
  pub result : Option (List ℕ)
  pub final : ℕ
  pub returned : best_loop dist place cs best low ≡ some (result, final)
  pub no_farther : final ≤ low
  pub none_nearer : NoneNearer dist place final cs
  pub from :
      ((result ≡ best) × (final ≡ low))
      ⊎ ((c : List ℕ) × (result ≡ some c) × Attains dist place k final c × (final < low))

NoneNearer-head :
    (dist : ℕ → ℕ) (place : List StateWithKeep) (low sum : ℕ) (c : List ℕ)
    → sum_at place c ≡ some sum
    → low ≤ dist sum
    → (other : ℕ) → sum_at place c ≡ some other
    → low ≤ dist other
NoneNearer-head dist place low sum c e h other q = ground arith

-- The first nearer combination found counts as the outcome, unless a later one is nearer.
from_nearer :
    {dist : ℕ → ℕ} {place : List StateWithKeep} {k final sum low : ℕ} {c : List ℕ}
    {result : Option (List ℕ)}
    → (length c ≡ k) × Rising 0 (length place) c
    → sum_at place c ≡ some sum
    → ltb (dist sum) low ≡ true
    → ((result ≡ some c) × (final ≡ dist sum))
      ⊎ ((d : List ℕ) × (result ≡ some d) × Attains dist place k final d × (final < dist sum))
    → (d : List ℕ) × (result ≡ some d) × Attains dist place k final d × (final < low)
from_nearer {dist} {sum = sum} {c = c} good e near (inl (q, p)) = (
  c,
  q,
  record { size = good.0; rising = good.1; sum = sum; summed = e; at_low = sym p },
  ground arith,
)
from_nearer good e near (inr (d, q, a, lt)) = (d, q, a, ground arith)

-- The loop reads no index out of range, and returns the nearest combination.
pub best_loop_lem :
    (dist : ℕ → ℕ) (place : List StateWithKeep) (start end k : ℕ) (cs : List (List ℕ))
    (best : Option (List ℕ)) (low : ℕ)
    → AllWithin start end place
    → AllRising k 0 (length place) cs
    → Outcome dist place k cs best low
unfolding best_loop
best_loop_lem dist place start end k [] best low w r = record {
  result = best;
  final = low;
  returned = refl;
  no_farther = omega arith;
  none_nearer = tt;
  from = inl (refl, refl);
}
best_loop_lem dist place start end k (c ∷ cs) best low w r =
    let (sum, e, _, _) = sum_at_lem start end 0 place c w r.0.1 in
    elim (Bool-cases (ltb (dist sum) low)) [
      | inl near ↦
          let rest : Outcome dist place k cs (some c) (dist sum) =
            best_loop_lem dist place start end k cs (some c) (dist sum) w r.1 in
          record {
            result = rest.result;
            final = rest.final;
            returned = rw (e, ◌>>=◌) (rw near rest.returned);
            no_farther = ground (arith, rest.no_farther);
            none_nearer =
                (NoneNearer-head dist place rest.final sum c e rest.no_farther, rest.none_nearer);
            from = inr (from_nearer r.0 e near rest.from);
          }
      | inr far ↦
          let rest : Outcome dist place k cs best low =
            best_loop_lem dist place start end k cs best low w r.1 in
          record {
            result = rest.result;
            final = rest.final;
            returned = rw (e, ◌>>=◌) (rw far rest.returned);
            no_farther = rest.no_farther;
            none_nearer = (
              NoneNearer-head dist place rest.final sum c e (ground (arith, rest.no_farther)),
              rest.none_nearer,
            );
            from = rest.from;
          }
    ]
