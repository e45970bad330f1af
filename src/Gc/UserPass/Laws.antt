-- ===== src/Gc/UserPass/Laws.antt =====
-- What a pass over the users' states never selects.
use mathlib.Core.List.{Memᴰ}
use zsys.Prelude.{ℕ, ◌<◌, true, false, some, List, ◌≡◌, get_elem?}
use zsys.Prelude.Int.{lt_int}
use zsys.Text.{Bytes}
use zsys.Zfs.Names.{split_snapshot_name}
use zsys.Machines.Model.{State, SystemState, Machine, is_snapshot_state}
use zsys.Gc.Walk.{Links, used_at, purge}
use zsys.Gc.Walk.Laws.{AllStates, Selected, Judged}
use zsys.Gc.Walk.Safety.{NewestFirst}
use zsys.Gc.Pass.{Policy, is_failed, routes_have_snapshot, is_automated}
use zsys.Gc.UserPass.{
  linked_to_system_state, routes_cloned, named_in_history, is_current, past_states,
}

-- No rule keeps the user's state s at the index i of the user's past states, newest first, with the maps
-- as they are when it is judged.
pub record UserRemovable (p : Policy) (history : List (Bytes × SystemState)) (links : Links) (i : ℕ)
    (s : State) : Type 0 where
  pub not_failed : is_failed s.id p.failed ≡ false
  pub not_recent : lt_int i p.keep_last ≡ false
  pub no_snapshots : is_snapshot_state s ≡ false → routes_have_snapshot s.datasets ≡ false
  pub unlinked : is_snapshot_state s ≡ false → linked_to_system_state s.datasets ≡ false
  pub automated : is_snapshot_state s ≡ true → p.all ≡ false → is_automated s ≡ true
  pub no_system_snapshot :
      is_snapshot_state s ≡ true → named_in_history (split_snapshot_name s.id).1 history ≡ false
  -- No dataset of a snapshot is the origin of a clone.
  pub not_cloned : is_snapshot_state s ≡ true → routes_cloned links s.datasets ≡ false

-- A sort by time, the newest first, of the same states.
pub record SortsByTime (sort : List State → List State) : Type 0 where
  pub newest : (ss : List State) → NewestFirst (sort ss)
  pub members : (ss : List State) (j : ℕ) (s : State) → get_elem? (sort ss) j ≡ some s → Memᴰ s ss

module _ (sort : List State → List State) where
  -- A state of some of the users of one machine that is not current, that no rule keeps, and that
  -- was last used before `start`. The states in `selected` are those that are selected with it.
  abbrev pub OfUsers :
      Policy
      → ℕ
      → Machine
      → List (Bytes × List (Bytes × State))
      → Links
      → List State
      → State
      → Type 0
  OfUsers p start m users links selected s =
      (user : Bytes × List (Bytes × State)) × Memᴰ user users
      × (is_current s m.main.users ≡ false)
      × Selected (Judged (UserRemovable p m.history) links selected)
          (sort (past_states m.main.users user.1)) (λ t. used_at t < start) s

  abbrev pub UserCondemned : Policy → ℕ → List Machine → Links → List State → State → Type 0
  UserCondemned p start ms links selected s =
      (m : Machine) × Memᴰ m ms × OfUsers p start m m.all_users_states links selected s

module _ (sort : List State → List State) (by_time : SortsByTime sort) where
  abbrev OfUsersOnly :
      Policy
      → ℕ
      → Machine
      → List (Bytes × List (Bytes × State))
      → Links
      → List State × Links
      → Type 0
  OfUsersOnly p start m users links out =
      AllStates (OfUsers sort p start m users links out.0) out.0 × (out.1 ≡ purge out.0 links)
