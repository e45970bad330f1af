-- ===== src/Gc/Pass/Safety.antt =====
-- What a pass never selects.
use mathlib.Core.List.{Memᴰ}
use zsys.Prelude.{ℕ, ◌<◌, true, List, ◌≡◌}
use zsys.Machines.Model.{State, Machine}
use zsys.Gc.Walk.{Links, used_at, purge}
use zsys.Gc.Pass.{Policy, history_states}
use zsys.Gc.Walk.Laws.{AllStates, Selected, Judged}
use zsys.Gc.Pass.Laws.{Removable}

module _ (sort : List State → List State) where
  -- A state of the history of some ZSys machine that no rule keeps, last used before `start`. The
  -- states in `selected` are those that the pass selects, this one among them.
  abbrev pub Condemned : Policy → ℕ → List Machine → Links → List State → State → Type 0
  Condemned p start ms links selected s =
      (m : Machine) × Memᴰ m ms
      × (m.is_zsys ≡ true)
      × Selected (Judged (Removable p) links selected) (sort (history_states m.history))
          (λ t. used_at t < start) s

  abbrev Condemning : Policy → ℕ → List Machine → Links → List State × Links → Type 0
  Condemning p start ms links out =
      AllStates (Condemned p start ms links out.0) out.0 × (out.1 ≡ purge out.0 links)
