-- ===== src/Machines/Populate.antt =====
-- `isChild` of internal/machines/helpers.go, and `newMachineFromDataset`,
-- `populateSystemAndHistory` and `populate` of internal/machines/machines.go: the datasets are sorted
-- into machines with their history, and the kinds that are attached later. A new state has the number
-- of datasets before it as its `ref`. Names are ASCII for `strings.ToLower`.
pub mod Attach
pub mod Laws
mod Tests
use zsys.Prelude.{
  ℕ, suc, ◌+◌, Bool, true, false, not, ◌&&◌, ◌||◌, Option, none, some, List, [], ◌∷◌, ◌++◌, ◌≡◌,
  refl, map, if◌then◌else◌, leb, ◌==◌,
}
use zsys.Text.{Bytes, codes, text_eq, has_prefix, has_suffix, has_byte, contains, split}
use zsys.Zfs.Dataset.{Dataset, name_of, is_snapshot_of, prop_of}
use zsys.Machines.Model.{State, SystemState, Machine}
use zsys.Machines.Maps.{lookup, put}
use zsys.Machines.Origin.{Origins}

-- `none` is the error on a name with more than one @.
unfoldable pub is_child : Bytes → Dataset → Option Bool
is_child name d = elim (split name b'@') [
  | [] ↦ none
  | base ∷ [] ↦ some (has_prefix (name_of d) (base ++ codes "/") && not (has_byte b'@' (name_of d)))
  | base ∷ snap ∷ [] ↦
      some (has_prefix (name_of d) (base ++ codes "/") && has_suffix (name_of d) (b'@' ∷ snap))
  | base ∷ snap ∷ other ∷ more ↦ none
]

-- An error is logged, and is no match.
unfoldable pub is_child_of : Bytes → Dataset → Bool
unfolding is_child
is_child_of name d = elim (is_child name d) [ none ↦ false | some b ↦ b ]

-- `time.Unix` of the last use, which is not set at 0; the epoch, in seconds since year 1.
abbrev pub epoch : ℕ
epoch = 62135596800

unfoldable pub time_used : ℕ → ℕ
time_used n = if n == 0 then 0 else epoch + n

-- A state of one dataset.
unfoldable pub state_of : ℕ → Dataset → State
unfolding time_used
state_of ref d = record {
  ref = ref;
  id = name_of d;
  last_used = time_used (prop_of d).last_used;
  datasets = (name_of d, d ∷ []) ∷ [];
}

-- A dataset that is mounted as the root, with the origin.
unfoldable pub is_root : Dataset → Option Bytes → Bytes → Bool
is_root d none wanted = false
is_root d (some origin) wanted =
    text_eq (prop_of d).mountpoint (codes "/")
    && (not (text_eq (prop_of d).can_mount (codes "off")) && text_eq origin wanted)

unfoldable pub new_machine_from_dataset : ℕ → Dataset → Option Bytes → Option Machine
unfolding is_root state_of
new_machine_from_dataset ref d origin =
    if is_root d origin []
    then some (record {
      is_zsys = (prop_of d).boot_fs;
      main = record { state = state_of ref d; users = [] };
      all_users_states = [];
      history = [];
      persistent_datasets = [];
    })
    else none

-- `s.Datasets[s.ID] = append(s.Datasets[s.ID], d)`.
unfoldable pub append_route :
    Bytes → Dataset → List (Bytes × List Dataset) → List (Bytes × List Dataset)
append_route route d [] = (route, d ∷ []) ∷ []
append_route route d ((r, ds) ∷ rs) =
    let later = append_route route d rs in
    if text_eq r route then (r, ds ++ d ∷ []) ∷ rs else (r, ds) ∷ later

unfoldable pub append_dataset : Dataset → SystemState → SystemState
unfolding append_route
append_dataset d s = record s {
  state = record s.state { datasets = append_route s.state.id d s.state.datasets };
}

-- The first state of the history that has the dataset as a child.
unfoldable pub attach_to_history :
    Dataset → List (Bytes × SystemState) → Option (List (Bytes × SystemState))
unfolding is_child_of append_dataset
attach_to_history d [] = none
attach_to_history d ((key, h) ∷ hs) =
    let later = attach_to_history d hs in
    if is_child_of h.state.id d
    then some ((key, append_dataset d h) ∷ hs)
    else elim later [ none ↦ none | some rest ↦ some ((key, h) ∷ rest) ]

-- One round over the machines.
unfoldable pub attach_to_machine : ℕ → Dataset → Option Bytes → Machine → Option Machine
unfolding is_child_of append_dataset is_root state_of attach_to_history put
attach_to_machine ref d origin m =
    if is_child_of m.main.state.id d
    then some (record m { main = append_dataset d m.main })
    else if is_root d origin m.main.state.id
    then some (record m {
      history = put (name_of d) (record { state = state_of ref d; users = [] }) m.history;
    })
    else elim (attach_to_history d m.history) [
      | none ↦ none
      | some hs ↦ some (record m { history = hs })
    ]

-- `none` where no machine matches.
unfoldable pub populate_system_and_history :
    ℕ → Dataset → Option Bytes → List (Bytes × Machine) → Option (List (Bytes × Machine))
unfolding attach_to_machine
populate_system_and_history ref d origin [] = none
populate_system_and_history ref d origin ((key, m) ∷ ms) =
    let later = populate_system_and_history ref d origin ms in
    elim (attach_to_machine ref d origin m) [
      | some m' ↦ some ((key, m') ∷ ms)
      | none ↦ elim later [ none ↦ none | some rest ↦ some ((key, m) ∷ rest) ]
    ]

-- The machines, and the datasets that are attached later.
pub record Sorted : Type 0 where
  pub machines : List (Bytes × Machine)
  pub boots : List Dataset
  pub userdatas : List Dataset
  pub persistents : List Dataset
  pub unmanaged : List Dataset

abbrev pub lower : ℕ → ℕ
lower c = if leb b'A' c && leb c b'Z' then c + 32 else c

unfoldable pub is_boot_dataset : Dataset → Bool
is_boot_dataset d =
    contains (map lower (name_of d)) (codes "/boot/")
    && has_prefix (prop_of d).mountpoint (codes "/boot")

unfoldable pub is_userdata : Dataset → Bool
is_userdata d = contains (map lower (name_of d)) (codes "/userdata/")

unfoldable pub is_persistent : Dataset → Bool
is_persistent d = text_eq (prop_of d).can_mount (codes "on") && not (is_snapshot_of d)

-- A dataset that belongs to no machine.
unfoldable pub triage : Dataset → Sorted → Sorted
unfolding is_boot_dataset is_userdata is_persistent
triage d s =
    if is_boot_dataset d
    then record s { boots = s.boots ++ d ∷ [] }
    else if is_userdata d
    then record s { userdatas = s.userdatas ++ d ∷ [] }
    else if not (is_persistent d)
    then record s { unmanaged = s.unmanaged ++ d ∷ [] }
    else record s { persistents = s.persistents ++ d ∷ [] }

unfoldable pub populate_one : ℕ → Dataset → Origins → Sorted → Sorted
unfolding new_machine_from_dataset populate_system_and_history triage put lookup
populate_one ref d origins s =
    let origin = lookup (name_of d) origins in
    elim (new_machine_from_dataset ref d origin) [
      | some m ↦ record s { machines = put (name_of d) m s.machines }
      | none ↦ elim (populate_system_and_history ref d origin s.machines) [
        | some ms ↦ record s { machines = ms }
        | none ↦ triage d s
      ]
    ]

unfoldable pub populate_loop : ℕ → List Dataset → Origins → Sorted → Sorted
unfolding populate_one
populate_loop ref [] origins s = s
populate_loop ref (d ∷ ds) origins s =
    populate_loop (suc ref) ds origins (populate_one ref d origins s)

unfoldable pub populate : List Dataset → Origins → Sorted
unfolding populate_loop
populate datasets origins =
    populate_loop 0 datasets origins
      (record { machines = []; boots = []; userdatas = []; persistents = []; unmanaged = [] })
