-- ===== src/Gc/Selection/Quota.antt =====
-- How many states `selectStatesToRemove` removes, and which.
use mathlib.Core.List.Sublistᴰ
use mathlib.Core.List.{Sublistᴰ}
use mathlib.Core.Path.{subst}
use native.Mathlib.Decide.{dec_lt}
use zsys.Prelude.{
  ℕ, ◌+◌, ◌-◌, ◌≤◌, ◌<◌, some, none, Option, ◌*◌, ◌>>=◌, bind_some, List, [], ◌∷◌, ◌≡◌, refl, sym,
  ap, ◌∙◌, arith, length,
}
use zsys.Prelude.Int.{ℤ, pos, negsuc}
use zsys.Machines.Model.{State}
use zsys.Gc.Combinations.{combinations}
use zsys.Gc.Selection.{
  StateWithKeep, interval, to_keep, to_place, mark_loop, best_loop, distance, sum_times,
  best_indices, states_of, spread, select_states_to_remove,
}
use zsys.Gc.Selection.Laws.{
  Fits, length-to_keep, length-states_of, to_place_twice, mark_loop-Sublistᴰ,
}
use zsys.Gc.Selection.Search.{Spread, spread_lem}

-- The states that no rule keeps.
abbrev pub candidates : List StateWithKeep → List State
candidates states = states_of (to_place states)

empty-Sublistᴰ : (l : List State) → Sublistᴰ [] l
empty-Sublistᴰ [] = Sublistᴰ.slnil
empty-Sublistᴰ (x ∷ l) = Sublistᴰ.cons (empty-Sublistᴰ l)

-- The three ways through the function.
select_enough :
    (samples : ℕ) (states : List StateWithKeep)
    → length states ≤ samples
    → select_states_to_remove (pos samples) states ≡ some []
unfolding select_states_to_remove
select_enough samples states h = ground arith

select_full :
    (samples : ℕ) (states : List StateWithKeep)
    → samples < length states
    → samples ≤ length (to_keep states)
    → select_states_to_remove (pos samples) states ≡ some (candidates states)
unfolding select_states_to_remove
select_full samples states h k = ground arith

select_spread :
    (samples : ℕ) (states : List StateWithKeep)
    → samples < length states
    → length (to_keep states) < samples
    → select_states_to_remove (pos samples) states
      ≡ spread samples (samples - length (to_keep states)) states
unfolding select_states_to_remove
select_spread samples states h k = ground arith

-- The combinations of the bucket fit an `int` and a slice.
abbrev pub FitsInt : ℤ → List StateWithKeep → Type 0
FitsInt (pos samples) states = Fits samples states
FitsInt (negsuc n) states = Unit

search :
    (samples : ℕ) (states : List StateWithKeep)
    → Fits samples states
    → samples < length states
    → length (to_keep states) < samples
    → Spread samples (samples - length (to_keep states)) states
search samples states fits more free =
    spread_lem samples (samples - length (to_keep states)) states (omega arith) (omega arith)
      (omega (arith, length-to_keep states)) fits

total_search :
    (samples : ℕ) (states : List StateWithKeep)
    → Fits samples states
    → samples < length states
    → length (to_keep states) < samples
    → (removed : List State) × (select_states_to_remove (pos samples) states ≡ some removed)
      × Sublistᴰ removed (candidates states)
total_search samples states fits more free =
    let s = search samples states fits more free in
    (
      states_of (to_place s.marked),
      select_spread samples states more free ∙ s.returned,
      subst (λ l. Sublistᴰ (states_of (to_place s.marked)) (states_of l)) (to_place_twice states)
          (mark_loop-Sublistᴰ (best_indices s.found) (to_place states) s.marked s.done),
    )

-- For every number of samples and every bucket whose combinations fit an `int` and a slice of at most
-- 2 ^ 48 bytes, the function does not panic, and it removes only states that no rule keeps, in their order and each once.
pub select_total :
    (samples : ℤ) (states : List StateWithKeep)
    → FitsInt samples states
    → (removed : List State) × (select_states_to_remove samples states ≡ some removed)
      × Sublistᴰ removed (candidates states)
select_total (negsuc n) states fits =
    (candidates states, unfold select_states_to_remove in refl, Sublistᴰ.refl (candidates states))
select_total (pos samples) states fits = elim (dec_lt samples (length states)) [
  | yes more ↦ elim (dec_lt (length (to_keep states)) samples) [
    | yes free ↦ total_search samples states fits more free
    | no full ↦ (
      candidates states,
      select_full samples states more (omega arith),
      Sublistᴰ.refl (candidates states),
    )
  ]
  | no enough ↦ ([], select_enough samples states (omega arith), empty-Sublistᴰ (candidates states))
]

quota_search :
    (samples : ℕ) (states : List StateWithKeep)
    → Fits samples states
    → (interval states).0 < (interval states).1
    → samples < length states
    → length (to_keep states) < samples
    → (removed : List State) × (select_states_to_remove (pos samples) states ≡ some removed)
      × (length removed + samples ≡ length states)
quota_search samples states fits wide more free =
    let s = search samples states fits more free in
    (
      states_of (to_place s.marked),
      select_spread samples states more free ∙ s.returned,
      omega (
        arith,
        length-states_of (to_place s.marked),
        s.count,
        s.filled wide,
        length-to_keep states,
      ),
    )

-- When the states of a bucket were not all used at one time, there are at least as many as the
-- samples, and no more of them than the samples are kept by a rule: the function removes as many
-- states as are needed to leave exactly the number of samples (for a bucket whose
-- combinations fit an `int` and a slice of at most 2 ^ 48 bytes).
pub select_quota :
    (samples : ℕ) (states : List StateWithKeep)
    → Fits samples states
    → (interval states).0 < (interval states).1
    → samples ≤ length states
    → length (to_keep states) ≤ samples
    → (removed : List State) × (select_states_to_remove (pos samples) states ≡ some removed)
      × (length removed + samples ≡ length states)
select_quota samples states fits wide few kept = elim (dec_lt samples (length states)) [
  | yes more ↦ elim (dec_lt (length (to_keep states)) samples) [
    | yes free ↦ quota_search samples states fits wide more free
    | no full ↦ (
      candidates states,
      select_full samples states more (omega arith),
      omega (arith, length-states_of (to_place states), length-to_keep states),
    )
  ]
  | no enough ↦ ([], select_enough samples states (omega arith), omega arith)
]

unmarked :
    (c : List ℕ) (place marked : List StateWithKeep)
    → mark_loop c place ≡ some marked
    → c ≡ []
    → to_place marked ≡ to_place place
unfolding mark_loop
unmarked [] place marked done e = let q : place ≡ marked = cc in ap to_place (sym q)
unmarked (i ∷ c) place marked done e = cc

-- When all states of a bucket were last used at the same time, and there are more than the samples,
-- every state that no rule keeps is removed, although slots are free (for a bucket whose
-- combinations fit an `int` and a slice of at most 2 ^ 48 bytes).
pub select_same_time :
    (samples : ℕ) (states : List StateWithKeep)
    → Fits samples states
    → (interval states).0 ≡ (interval states).1
    → samples < length states
    → length (to_keep states) < samples
    → select_states_to_remove (pos samples) states ≡ some (candidates states)
select_same_time samples states fits flat more free =
    let s = search samples states fits more free in
    select_spread samples states more free
    ∙ s.returned
    ∙ ap (λ l. some (states_of l))
        (unmarked (best_indices s.found) (to_place states) s.marked s.done (s.idle flat)
          ∙ to_place_twice states)

-- The last of three steps of a `do` block that returned.
last_step :
    {A B C D : Type 0} (o : Option A) (g : A → Option B) (k : B → Option C) (f : C → D) {d : D}
    → (o >>= λ a. g a >>= λ b. k b >>= λ c. some (f c)) ≡ some d
    → (b : B) × (c : C) × (k b ≡ some c) × (d ≡ f c)
last_step o g k f h =
    let (a, _, h1) = bind_some o (λ a. g a >>= λ b. k b >>= λ c. some (f c)) h in
    let (b, _, h2) = bind_some (g a) (λ b. k b >>= λ c. some (f c)) h1 in
    let (c, e, h3) = bind_some (k b) (λ c. some (f c)) h2 in (b, c, e, cc)

spread-Sublistᴰ :
    (samples free : ℕ) (states : List StateWithKeep) {out : List State}
    → spread samples free states ≡ some out
    → Sublistᴰ out (candidates states)
unfolding spread
spread-Sublistᴰ samples free states h =
    let place = to_place states in
    let (found, marked, done, e) =
      last_step (combinations (length place) free)
        (λ cs.
          best_loop
            (λ sum.
              distance samples (interval states).0 (interval states).1
                (sum_times (to_keep states) + sum))
            place cs none (2 * samples * ((interval states).1 - (interval states).0)))
        (λ found. mark_loop (best_indices found.0) place) (λ marked. states_of (to_place marked))
        h in
    rw e (
      subst (λ l. Sublistᴰ (states_of (to_place marked)) (states_of l)) (to_place_twice states)
        (mark_loop-Sublistᴰ (best_indices found.0) place marked done))

-- Whatever the function returns, it holds only states that no rule keeps.
pub select_sublist :
    (samples : ℤ) (states : List StateWithKeep) (removed : List State)
    → select_states_to_remove samples states ≡ some removed
    → Sublistᴰ removed (candidates states)
select_sublist (negsuc n) states removed h =
    let e : removed ≡ candidates states = unfold select_states_to_remove in cc in
    rw e (Sublistᴰ.refl (candidates states))
select_sublist (pos samples) states removed h = elim (dec_lt samples (length states)) [
  | yes more ↦ elim (dec_lt (length (to_keep states)) samples) [
    | yes free ↦
        spread-Sublistᴰ samples (samples - length (to_keep states)) states
          (sym (select_spread samples states more free) ∙ h)
    | no full ↦
        let e : removed ≡ candidates states = cc (select_full samples states more (omega arith)) in
        rw e (Sublistᴰ.refl (candidates states))
  ]
  | no enough ↦
      let e : removed ≡ [] = cc (select_enough samples states (omega arith)) in
      rw e (empty-Sublistᴰ (candidates states))
]
