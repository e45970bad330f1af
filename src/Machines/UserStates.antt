-- ===== src/Machines/UserStates.antt =====
-- `userFromDatasetName` of internal/machines/helpers.go, and `addUserState`, `attachRemainingDatasets`
-- and `attachRemainingDatasetsForHistory` of internal/machines/machines.go: the states of users, and the
-- boot and persistent datasets, are attached to a machine. The histories are visited in the order
-- in which the map holds them.
pub mod Laws
mod Tests
use zsys.Prelude.{
  ℕ, zero, suc, ◌+◌, drop, Bool, true, false, not, ◌&&◌, Option, none, some, List, [], ◌∷◌, ◌++◌,
  ◌≡◌, refl, if◌then◌else◌, map, ◌==◌, length, leb,
}
use zsys.Text.{Bytes, codes, text_eq, has_prefix, has_suffix, split, join, base, last_index}
use zsys.Zfs.Names.{split_snapshot_name}
use zsys.Zfs.Dataset.{Dataset, name_of, is_snapshot_of, prop_of}
use zsys.Machines.Model.{State, SystemState, Machine}
use zsys.Machines.Maps.{lookup, put}
use zsys.Machines.Tags.{separator}
use zsys.Machines.Populate.{time_used, append_route}

-- All parts but the last one, and the only part if there is one.
unfoldable pub without_last : List Bytes → List Bytes
without_last [] = []
without_last (p ∷ []) = []
without_last (p ∷ q ∷ ps) = p ∷ without_last (q ∷ ps)

unfoldable pub user_of : List Bytes → Bytes
unfolding without_last
user_of [] = []
user_of (p ∷ []) = p
user_of (p ∷ q ∷ ps) = join (without_last (p ∷ q ∷ ps)) (codes "_")

unfoldable pub user_from_dataset_name : Bytes → Bytes
unfolding user_of
user_from_dataset_name name = user_of (split (base (split_snapshot_name name).0) b'_')

-- `strings.ReplaceAll` of one byte by another.
unfoldable pub replace_byte : ℕ → ℕ → Bytes → Bytes
replace_byte old new [] = []
replace_byte old new (c ∷ s) = (if c == old then new else c) ∷ replace_byte old new s

unfoldable pub or_empty : Option (List (Bytes × State)) → List (Bytes × State)
or_empty none = []
or_empty (some states) = states

-- Under which key a user's state stands: a dataset of several systems has one for each of them.
unfoldable pub user_index : Bytes → Dataset → Bytes
unfolding replace_byte
user_index system_id r =
    if not (is_snapshot_of r) && leb 2 (length (split (prop_of r).bootfs_datasets separator))
    then name_of r ++ b'-' ∷ replace_byte b'_' b'-' (replace_byte b'/' b'.' system_id)
    else name_of r

unfoldable pub user_state : ℕ → Dataset → List Dataset → State
unfolding time_used
user_state ref r children = record {
  ref = ref;
  id = name_of r;
  last_used = time_used (prop_of r).last_used;
  datasets = (name_of r, r ∷ children) ∷ [];
}

-- The machine, the user and the state; `ref` is the number of the new state.
unfoldable pub add_user_state :
    ℕ → Bytes → Dataset → List Dataset → Machine → Machine × (Bytes × State)
unfolding user_from_dataset_name user_index user_state or_empty put lookup
add_user_state ref system_id r children m =
    let user = user_from_dataset_name (name_of r) in
    let s = user_state ref r children in
    let states = or_empty (lookup user m.all_users_states) in
    (
      record m {
        all_users_states = put user (put (user_index system_id r) s states) m.all_users_states;
      },
      (user, s),
    )

-- The id of the boot dataset that was found, and the datasets by route.
abbrev pub Boots : Type 0
Boots = Bytes × List (Bytes × List Dataset)

-- One round of the loop over the boot datasets, for the base of the id of a machine.
unfoldable pub attach_boot : Bytes → Dataset → Boots → Boots
unfolding append_route put
attach_boot id d (boot, routes) =
    if is_snapshot_of d
    then (boot, routes)
    else if has_suffix (name_of d) (b'/' ∷ id)
    then (name_of d, put (name_of d) (d ∷ []) routes)
    else if not (text_eq boot []) && has_prefix (name_of d) (boot ++ codes "/")
    then (boot, append_route boot d routes)
    else (boot, routes)

-- The child of a boot snapshot.
unfoldable pub attach_snapshot_child : Bytes → Dataset → Boots → Boots
unfolding append_route
attach_snapshot_child snapshot d (boot, routes) =
    if not (text_eq boot [])
      && (has_prefix (name_of d) ((split_snapshot_name boot).0 ++ codes "/")
          && has_suffix (name_of d) (b'@' ∷ snapshot))
    then (boot, append_route boot d routes)
    else (boot, routes)

-- One round for a state of the history; `snapshot` is empty for a clone.
unfoldable pub attach_history_boot : Bytes → Bytes → Dataset → Boots → Boots
unfolding attach_boot attach_snapshot_child
attach_history_boot id snapshot d (boot, routes) =
    if text_eq snapshot []
    then attach_boot id d (boot, routes)
    else if text_eq boot [] && has_suffix (name_of d) (b'@' ∷ snapshot)
    then (name_of d, put (name_of d) (d ∷ []) routes)
    else attach_boot id d (attach_snapshot_child snapshot d (boot, routes))

unfoldable pub each_boot : (Dataset → Boots → Boots) → List Dataset → Boots → Boots
each_boot step [] b = b
each_boot step (d ∷ ds) b = each_boot step ds (step d b)

unfoldable pub attach_boots :
    (Bytes → Dataset → Boots → Boots) → List Dataset → SystemState → SystemState
unfolding each_boot
attach_boots step boots s = record s {
  state = record s.state {
    datasets = (each_boot (step (base s.state.id)) boots ([], s.state.datasets)).1;
  };
}

-- The snapshot in the base of an id. An @ at its start is none.
unfoldable pub snapshot_in : Bytes → Bytes
snapshot_in id = elim (last_index id b'@') [
  | none ↦ []
  | some zero ↦ []
  | some (suc j) ↦ drop (suc j + 1) id
]

unfoldable pub attach_remaining_datasets_for_history : List Dataset → SystemState → SystemState
unfolding attach_boots attach_history_boot snapshot_in
attach_remaining_datasets_for_history boots h =
    attach_boots (λ id. attach_history_boot id (snapshot_in id)) boots h

attach_histories : List Dataset → List (Bytes × SystemState) → List (Bytes × SystemState)
unfolding attach_remaining_datasets_for_history
attach_histories boots [] = []
attach_histories boots ((key, h) ∷ hs) =
    (key, attach_remaining_datasets_for_history boots h) ∷ attach_histories boots hs

unfoldable pub attach_remaining_datasets : List Dataset → List Dataset → Machine → Machine
unfolding attach_boots attach_boot attach_histories
attach_remaining_datasets boots persistents m = record m {
  main = attach_boots attach_boot boots m.main;
  persistent_datasets = persistents;
  history = attach_histories boots m.history;
}
