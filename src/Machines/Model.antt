-- ===== src/Machines/Model.antt =====
-- `State` and `Machine` of internal/machines/machines.go, and their small methods.
-- A Go map is an association list, in the order in which one iteration visits it. A pointer to a
-- `State` is compared by its number `ref`. Go's `State` has a map `Users` of states, which is nil in
-- the states of users: here a system state is a state with its users.
use zsys.Prelude.{ℕ, Bool, false, List, [], ◌∷◌, ◌++◌, Option, none, some}
use zsys.Text.{Bytes, has_byte}
use zsys.Zfs.Dataset.{Dataset}

pub record State : Type 0 where
  pub ref : ℕ
  pub id : Bytes
  -- Seconds since the beginning of year 1, the zero of `time.Time`.
  pub last_used : ℕ
  -- The datasets of each route; a route's own dataset comes first.
  pub datasets : List (Bytes × List Dataset)

pub record SystemState : Type 0 where
  pub state : State
  pub users : List (Bytes × State)

pub record Machine : Type 0 where
  pub is_zsys : Bool
  pub main : SystemState
  pub all_users_states : List (Bytes × List (Bytes × State))
  pub history : List (Bytes × SystemState)
  pub persistent_datasets : List Dataset

-- `isSnapshot` of a state.
unfoldable pub is_snapshot_state : State → Bool
is_snapshot_state s = has_byte b'@' s.id

-- `getDatasets` and `getUsersDatasets`.
routes_datasets : List (Bytes × List Dataset) → List Dataset
routes_datasets [] = []
routes_datasets ((route, ds) ∷ rs) = ds ++ routes_datasets rs

unfoldable pub get_datasets : State → List Dataset
unfolding routes_datasets
get_datasets s = routes_datasets s.datasets

unfoldable pub users_datasets : List (Bytes × State) → List Dataset
unfolding get_datasets
users_datasets [] = []
users_datasets ((user, s) ∷ us) = get_datasets s ++ users_datasets us

unfoldable pub get_users_datasets : SystemState → List Dataset
unfolding users_datasets
get_users_datasets s = users_datasets s.users

-- `isZsys`, of a pointer that may be nil.
unfoldable pub is_zsys_machine : Option Machine → Bool
is_zsys_machine none = false
is_zsys_machine (some m) = m.is_zsys
