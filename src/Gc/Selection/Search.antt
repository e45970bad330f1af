-- ===== src/Gc/Selection/Search.antt =====
-- The search over the combinations of a bucket with free slots.
use mathlib.Core.Path.{subst}
use zsys.Prelude.{
  ℕ, ◌+◌, ◌-◌, ◌*◌, ◌≤◌, ◌<◌, Option, none, some, List, [], ◌∷◌, ◌≡◌, inl, inr, refl, ap, ◌∙◌,
  arith, length, ◌>>=◌,
}
use zsys.Gc.Combinations.{run}
use zsys.Gc.Combinations.Enumeration.{FitsMemory, choices, choices-head, combinations_lem}
use zsys.Gc.Selection.{
  StateWithKeep, interval, to_keep, to_place, sum_times, sum_at, distance, mark_loop, best_indices,
  states_of, spread,
}
use zsys.Gc.Selection.Choices.{Rising, AllRising, choices-AllRising, mark_loop_lem}
use zsys.Gc.Selection.Best.{AllWithin, NoneNearer, Outcome, sum_at_lem, best_loop_lem}
use zsys.Gc.Selection.Laws.{
  interval-AllWithin, AllWithin-to_place, sum_times-to_keep, to_place-AllOpen, AllOpen-OpenFrom,
  to_place_twice, distance-lt,
}

Outcome-Rising :
    {dist : ℕ → ℕ} {place : List StateWithKeep} {k low : ℕ} {cs : List (List ℕ)}
    (out : Outcome dist place k cs none low)
    → Rising 0 (length place) (best_indices out.result)
Outcome-Rising out = elim out.from [ inl (q, _) ↦ rw q tt | inr (c, q, a, _) ↦ rw q a.rising ]

-- If the first combination is nearer than the start value, some combination is chosen.
Outcome-filled :
    (dist : ℕ → ℕ) (place : List StateWithKeep) (k low sum : ℕ) (c : List ℕ)
    (cs rest : List (List ℕ)) (out : Outcome dist place k cs none low)
    → cs ≡ c ∷ rest
    → sum_at place c ≡ some sum
    → dist sum < low
    → length (best_indices out.result) ≡ k
Outcome-filled dist place k low sum c cs rest out head e near = elim out.from [
  | inl (_, q) ↦
      absurd (omega (arith, (subst (NoneNearer dist place out.final) head out.none_nearer).0 sum e))
  | inr (d, q, a, _) ↦ ap (λ x. length (best_indices x)) q ∙ a.size
]

-- What `spread` returns, in terms of the combination found.
pub record Spread (samples free : ℕ) (states : List StateWithKeep) : Type 0 where
  pub found : Option (List ℕ)
  pub marked : List StateWithKeep
  pub done : mark_loop (best_indices found) (to_place states) ≡ some marked
  pub returned : spread samples free states ≡ some (states_of (to_place marked))
  pub count : length (to_place marked) + length (best_indices found) ≡ length (to_place states)
  pub filled : (interval states).0 < (interval states).1 → length (best_indices found) ≡ free
  pub idle : (interval states).0 ≡ (interval states).1 → best_indices found ≡ []

sum_above : (k f s t : ℕ) {a b : ℕ} → k + f ≡ s → k * t ≤ a → f * t ≤ b → s * t ≤ a + b
sum_above k f s t e h g = rw (← e) (omega arith)

sum_below : (k f s t : ℕ) {a b : ℕ} → k + f ≡ s → a ≤ k * t → b ≤ f * t → a + b ≤ s * t
sum_below k f s t e h g = rw (← e) (omega arith)

module _ (samples free : ℕ) (states : List StateWithKeep) where
  abbrev start : ℕ
  start = (interval states).0

  abbrev end : ℕ
  end = (interval states).1

  abbrev dist : ℕ → ℕ
  dist sum = distance samples start end (sum_times (to_keep states) + sum)

  abbrev low : ℕ
  low = 2 * samples * (end - start)

  abbrev Search : Type 0
  Search = Outcome dist (to_place states) free (choices 0 free (length (to_place states))) none low

  place-AllWithin : AllWithin start end (to_place states)
  place-AllWithin = AllWithin-to_place start end states (interval-AllWithin states)

  search_outcome : Search
  search_outcome =
      best_loop_lem dist (to_place states) start end free
        (choices 0 free (length (to_place states))) none low place-AllWithin
        (choices-AllRising 0 free (length (to_place states)) (length (to_place states))
          (omega arith))

  search_returned :
      (out : Search) (marked : List StateWithKeep)
      → free ≤ length (to_place states)
      → FitsMemory (length (to_place states)) free
      → mark_loop (best_indices out.result) (to_place states) ≡ some marked
      → spread samples free states ≡ some (states_of (to_place marked))
  unfolding spread
  search_returned out marked few fits done =
      rw (combinations_lem (length (to_place states)) free few fits, spread)
        (rw (out.returned, ◌>>=◌) (rw (done, ◌>>=◌) refl))

  first_near :
      (c : List ℕ)
      → length (to_keep states) + free ≡ samples
      → 0 < free
      → start < end
      → length c ≡ free
      → Rising 0 (length (to_place states)) c
      → (sum : ℕ) × (sum_at (to_place states) c ≡ some sum) × (dist sum < low)
  first_near c e some_free wide size rising =
      let (sum, q, above, below) =
        sum_at_lem start end 0 (to_place states) c place-AllWithin rising in
      let (least, most) = sum_times-to_keep start end states (interval-AllWithin states) in
      (
        sum,
        q,
        distance-lt samples start end (sum_times (to_keep states) + sum) (omega arith) wide
            (sum_above (length (to_keep states)) (length c) samples start e' least above)
            (sum_below (length (to_keep states)) (length c) samples end e' most below),
      )
    where
      e' : length (to_keep states) + length c ≡ samples
      e' = omega (arith, e, size)

  search_fills :
      (out : Search) (r : List (List ℕ))
      → length (to_keep states) + free ≡ samples
      → 0 < free
      → choices 0 free (length (to_place states)) ≡ run 0 free ∷ r
      → start < end
      → length (best_indices out.result) ≡ free
  search_fills out r e some_free head wide =
      let first =
        (subst (AllRising free 0 (length (to_place states))) head (
          choices-AllRising 0 free (length (to_place states)) (length (to_place states))
            (omega arith))).0 in
      let (sum, q, near) = first_near (run 0 free) e some_free wide first.0 first.1 in
      Outcome-filled dist (to_place states) free low sum (run 0 free)
        (choices 0 free (length (to_place states))) r out head q near

  search_idle : (out : Search) → start ≡ end → best_indices out.result ≡ []
  search_idle out flat = elim out.from [
    | inl (q, _) ↦ ap best_indices q
    | inr (d, q, a, lt) ↦ absurd (no_room out.final lt)
  ]
    where
      no_room : (final : ℕ) → final < low → ⊥
      no_room final lt =
          let e : end - start ≡ 0 = omega arith in
          omega (arith, subst (λ x. final < 2 * samples * x) e lt)

  -- With free slots, and enough states to fill them, the search returns.
  pub spread_lem :
      length (to_keep states) + free ≡ samples
      → 0 < free
      → free ≤ length (to_place states)
      → FitsMemory (length (to_place states)) free
      → Spread samples free states
  spread_lem e some_free few fits =
      let (r, head) = choices-head 0 free (length (to_place states)) few in
      let out = search_outcome in
      let (marked, done, count) =
        mark_loop_lem (best_indices out.result) 0 (to_place states) (Outcome-Rising out)
          (AllOpen-OpenFrom (to_place states) (to_place-AllOpen states)) in
      record {
        found = out.result;
        marked = marked;
        done = done;
        returned = search_returned out marked few fits done;
        count = count ∙ ap length (to_place_twice states);
        filled = search_fills out r e some_free head;
        idle = search_idle out;
      }
