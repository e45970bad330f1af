-- ===== src/Gc/Selection.antt =====
-- `selectStatesToRemove` of internal/machines/gc.go. The float64 arithmetic on the distances from
-- the middle of the interval is exact here: every distance is multiplied by 2 * samples. A shift of
-- all times, as from year 1 to the Unix epoch, changes no distance. `none` is a panic.
pub mod Choices
pub mod Best
pub mod Laws
pub mod Search
pub mod Quota
use zsys.Prelude.{
  ℕ, zero, suc, ◌+◌, ◌-◌, ◌*◌, ◌≤◌, Bool, true, false, Option, none, some, List, [], ◌∷◌, map, ◌≡◌,
  refl, if◌then◌else◌, ltb, leb, length, get_elem?, set, ◌>>=◌,
}
use zsys.Prelude.Int.{ℤ, pos, negsuc}
use zsys.Machines.Model.{State}
use zsys.Gc.Combinations.{combinations}

pub data KeepStatus : Type 0 where
  keep_unknown keep_yes keep_no : KeepStatus

pub record StateWithKeep : Type 0 where
  pub state : State
  pub keep : KeepStatus

abbrev pub is_keep_yes : KeepStatus → Bool
is_keep_yes keep_yes = true
is_keep_yes _ = false

abbrev pub time_of : StateWithKeep → ℕ
time_of e = e.state.last_used

-- The loop that finds the ends of the interval.
unfoldable pub interval_loop : List StateWithKeep → ℕ → ℕ → ℕ × ℕ
interval_loop [] start end = (start, end)
interval_loop (e ∷ es) start end =
    let t = time_of e in
    interval_loop es (if ltb t start then t else start) (if ltb end t then t else end)

unfoldable pub interval : List StateWithKeep → ℕ × ℕ
unfolding interval_loop
interval [] = (0, 0)
interval (e ∷ es) = interval_loop es (time_of e) (time_of e)

-- `toKeep` and `toPlace`.
unfoldable pub to_keep : List StateWithKeep → List StateWithKeep
to_keep [] = []
to_keep (s ∷ ss) = let rest = to_keep ss in if is_keep_yes s.keep then s ∷ rest else rest

unfoldable pub to_place : List StateWithKeep → List StateWithKeep
to_place [] = []
to_place (s ∷ ss) = let rest = to_place ss in if is_keep_yes s.keep then rest else s ∷ rest

unfoldable pub sum_times : List StateWithKeep → ℕ
sum_times [] = 0
sum_times (s ∷ ss) = time_of s + sum_times ss

-- `sumToPlace` for the combination c.
unfoldable pub sum_at : List StateWithKeep → List ℕ → Option ℕ
sum_at place [] = some 0
sum_at place (i ∷ c) = do s ← get_elem? place i; rest ← sum_at place c; some (time_of s + rest)

-- |avg - (start + (end - start) / 2)|, multiplied by 2 * samples.
unfoldable pub distance : ℕ → ℕ → ℕ → ℕ → ℕ
distance samples start end sum =
    let avg = 2 * sum in let mid = samples * (start + end) in (avg - mid) + (mid - avg)

-- The loop over the combinations, on `bestCombination` and `minDistance`.
unfoldable pub best_loop :
    (ℕ → ℕ)
    → List StateWithKeep
    → List (List ℕ)
    → Option (List ℕ)
    → ℕ
    → Option (Option (List ℕ) × ℕ)
best_loop dist place [] best low = some (best, low)
best_loop dist place (c ∷ cs) best low = do
  sum ← sum_at place c
  let closer = ltb (dist sum) low
  best_loop dist place cs (if closer then some c else best) (if closer then dist sum else low)

-- `toPlace[c].keep = keepYes` for each index of the best combination.
unfoldable pub mark_loop : List ℕ → List StateWithKeep → Option (List StateWithKeep)
mark_loop [] place = some place
mark_loop (i ∷ c) place = do
  s ← get_elem? place i
  mark_loop c (set place i (record s { keep = keep_yes }))

abbrev pub best_indices : Option (List ℕ) → List ℕ
best_indices none = []
best_indices (some c) = c

unfoldable pub states_of : List StateWithKeep → List State
states_of [] = []
states_of (s ∷ ss) = s.state ∷ states_of ss

-- The part behind the tests on the free slots.
unfoldable pub spread : ℕ → ℕ → List StateWithKeep → Option (List State)
unfolding interval best_loop mark_loop sum_at distance sum_times to_keep to_place states_of
spread samples free_slots states = do
  let start = (interval states).0
  let end = (interval states).1
  let place = to_place states
  let sum_keep = sum_times (to_keep states)
  cs ← combinations (length place) free_slots
  found ←
      best_loop (λ sum. distance samples start end (sum_keep + sum)) place cs none
        (2 * samples * (end - start))
  marked ← mark_loop (best_indices found.0) place
  some (states_of (to_place marked))

unfoldable pub select_states_to_remove : ℤ → List StateWithKeep → Option (List State)
unfolding spread
select_states_to_remove (negsuc n) states = some (states_of (to_place states))
select_states_to_remove (pos samples) states =
    if leb (length states) samples
    then some []
    else if leb samples (length (to_keep states))
    then some (states_of (to_place states))
    else spread samples (samples - length (to_keep states)) states
