-- ===== src/Machines/Find.antt =====
-- The search of states and machines by name: `idMatches` and `IDToState` of internal/machines/state.go,
-- `GetMachine` of machines.go, `findFromRoot` of cmdline.go. The maps are visited in the order in which
-- they hold their entries.
pub mod Laws
pub mod Root
mod Tests
use zsys.Prelude.{
  ℕ, Bool, true, false, not, ◌&&◌, ◌||◌, Option, none, some, List, [], ◌∷◌, ◌++◌, ◌⊎◌, inl, inr,
  if◌then◌else◌,
}
use zsys.Text.{Bytes, codes, text_eq, has_suffix, has_byte, base, split}
use zsys.Zfs.Dataset.{Dataset, prop_of}
use zsys.Machines.Model.{State, SystemState, Machine}
use zsys.Machines.Maps.{lookup}
use zsys.Machines.Unique.{append_state_if_not_present}

-- `ms.all` and `ms.current`.
pub record Machines : Type 0 where
  pub all : List (Bytes × Machine)
  pub current : Option Machine

unfoldable pub id_matches : Bytes → Bytes → Bool
unfolding has_suffix base text_eq
id_matches candidate name =
    text_eq candidate name
    || (text_eq (base candidate) name
        || (has_suffix candidate (b'@' ∷ name) || has_suffix candidate (b'_' ∷ name)))

-- The states among which a search looks, each with the id that is compared.
unfoldable pub user_candidates : Bytes → List (Bytes × Machine) → List (Bytes × State)
unfolding lookup
user_candidates user [] = []
user_candidates user ((id, m) ∷ ms) = elim (lookup user m.all_users_states) [
  | none ↦ user_candidates user ms
  | some states ↦ states ++ user_candidates user ms
]

unfoldable pub history_candidates : List (Bytes × SystemState) → List (Bytes × State)
history_candidates [] = []
history_candidates ((id, h) ∷ hs) = (h.state.id, h.state) ∷ history_candidates hs

unfoldable pub system_candidates : List (Bytes × Machine) → List (Bytes × State)
unfolding history_candidates
system_candidates [] = []
system_candidates ((id, m) ∷ ms) =
    (m.main.state.id, m.main.state) ∷ (history_candidates m.history ++ system_candidates ms)

unfoldable pub candidates : Bytes → List (Bytes × Machine) → List (Bytes × State)
unfolding user_candidates system_candidates
candidates [] ms = system_candidates ms
candidates (c ∷ user) ms = user_candidates (c ∷ user) ms

unfoldable pub matching_states : Bytes → List (Bytes × State) → List State → List State
unfolding id_matches append_state_if_not_present
matching_states name [] found = found
matching_states name ((id, s) ∷ rest) found =
    matching_states name rest
      (if id_matches id name then append_state_if_not_present found s else found)

pub data LookupError : Type 0 where
  no_name : LookupError
  no_match : Bytes → LookupError
  several_matches : Bytes → LookupError

unfoldable pub only_one {ℓ} : {A : Type ℓ} → Bytes → List A → LookupError ⊎ A
only_one name [] = inl (no_match name)
only_one name (s ∷ []) = inr s
only_one name (s ∷ r ∷ rs) = inl (several_matches name)

unfoldable pub id_to_state : Machines → Bytes → Bytes → LookupError ⊎ State
unfolding candidates matching_states only_one
id_to_state ms [] user = inl no_name
id_to_state ms (c ∷ name) user =
    only_one (c ∷ name) (matching_states (c ∷ name) (candidates user ms.all) [])

-- The text behind the last underscore of a dataset's last element.
unfoldable pub last_part : List Bytes → Bytes
last_part [] = []
last_part (t ∷ []) = t
last_part (t ∷ u ∷ ts) = last_part (u ∷ ts)

unfoldable pub short_id : Bytes → Bytes
unfolding last_part base split
short_id id = last_part (split (base id) b'_')

unfoldable pub is_named : Bytes → Bytes → Bool
unfolding short_id base text_eq
is_named id name = text_eq id name || (text_eq (base id) name || text_eq (short_id id) name)

unfoldable pub names_history : Bytes → List (Bytes × SystemState) → Bool
unfolding is_named
names_history name [] = false
names_history name ((id, h) ∷ hs) = is_named id name || names_history name hs

unfoldable pub named_machines : Bytes → List (Bytes × Machine) → List Machine
unfolding is_named names_history
named_machines name [] = []
named_machines name ((id, m) ∷ ms) =
    let rest = named_machines name ms in
    if is_named id name || names_history name m.history then m ∷ rest else rest

unfoldable pub get_machine : Machines → Bytes → LookupError ⊎ Machine
unfolding named_machines only_one
get_machine ms [] = elim ms.current [ none ↦ inl no_name | some m ↦ inr m ]
get_machine ms (c ∷ name) = only_one (c ∷ name) (named_machines (c ∷ name) ms.all)

-- The active machine and state; the index of a missing dataset panics.
pub data RootFound : Type 0 where
  no_root : RootFound
  active : Machine → SystemState → RootFound
  panicked : RootFound

-- The state's own dataset is mounted on /, unless there is none.
unfoldable pub mounted_on_root : State → Option Bool
unfolding lookup
mounted_on_root s = elim (lookup s.id s.datasets) [
  | none ↦ none
  | some [] ↦ none
  | some (d ∷ ds) ↦ some ((prop_of d).mounted && text_eq (prop_of d).mountpoint (codes "/"))
]

unfoldable pub mounted_in_history : Machine → List (Bytes × SystemState) → RootFound → RootFound
unfolding mounted_on_root
mounted_in_history m [] otherwise = otherwise
mounted_in_history m ((id, h) ∷ hs) otherwise = elim (mounted_on_root h.state) [
  | none ↦ panicked
  | some true ↦ active m h
  | some false ↦ mounted_in_history m hs otherwise
]

unfoldable pub mounted_in_machine : Machine → RootFound → RootFound
unfolding mounted_in_history
mounted_in_machine m otherwise = elim (mounted_on_root m.main.state) [
  | none ↦ panicked
  | some true ↦ active m m.main
  | some false ↦ mounted_in_history m m.history otherwise
]

unfoldable pub find_mounted : List (Bytes × Machine) → RootFound
unfolding mounted_in_machine
find_mounted [] = no_root
find_mounted ((id, m) ∷ ms) = mounted_in_machine m (find_mounted ms)

unfoldable pub find_in_histories : Bytes → List (Bytes × Machine) → RootFound
unfolding lookup
find_in_histories root [] = no_root
find_in_histories root ((id, m) ∷ ms) = elim (lookup root m.history) [
  | some h ↦ active m h
  | none ↦ find_in_histories root ms
]

unfoldable pub find_from_root : Bytes → List (Bytes × Machine) → RootFound
unfolding find_in_histories find_mounted
find_from_root [] ms = no_root
find_from_root (c ∷ root) ms = elim (lookup (c ∷ root) ms) [
  | some m ↦ active m m.main
  | none ↦ if has_byte b'@' (c ∷ root) then find_mounted ms else find_in_histories (c ∷ root) ms
]
