-- ===== src/Gc/Pass/Total.antt =====
-- A pass over histories of at most 43 states ends without a panic.
use mathlib.Core.List.{Memᴰ}
use zsys.Prelude.{◌≤◌, some, List, [], ◌∷◌, ◌++◌, ◌≡◌, refl, length, Bool-cases, inl, inr, ◌>>=◌}
use zsys.Machines.Model.{State, Machine}
use zsys.Gc.Buckets.{Bucket}
use zsys.Gc.Walk.{Links}
use zsys.Gc.Walk.Total.{walk-total}
use zsys.Gc.Pass.{Policy, system_keep, history_states, machine_step, system_pass}

module _ (p : Policy) (sort : List State → List State) where
  -- If no sorted history has more than 43 states, a pass over the machines ends without a panic,
  -- whatever the buckets, the rules and the maps are.
  pub system_pass_total :
      (buckets : List Bucket) (ms : List Machine) (links : Links)
      → ((m : Machine) → Memᴰ m ms → length (sort (history_states m.history)) ≤ 43)
      → (out : List State × Links) × (system_pass sort p buckets ms links ≡ some out)
  unfolding system_pass machine_step
  system_pass_total buckets [] links h = (_, refl)
  system_pass_total buckets (m ∷ ms) links h =
      let (first, done) = machine_step_total in
      let (later, left) = system_pass_total buckets ms first.1 (λ x i. h x (Memᴰ.tail i)) in
      ((first.0 ++ later.0, later.1), rw (done, ◌>>=◌) (rw (left, ◌>>=◌) refl))
    where
      machine_step_total :
          (out : List State × Links) × (machine_step sort p buckets m links ≡ some out)
      machine_step_total = elim (Bool-cases m.is_zsys) [
        | inl zsys ↦
            let (out, run) =
              walk-total (system_keep p) buckets (sort (history_states m.history)) 0 links
                (h m (Memᴰ.head refl)) in
            (out, rw zsys run)
        | inr other ↦ (([], links), rw other refl)
      ]
