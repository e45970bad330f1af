-- ===== src/Gc/UserPass.antt =====
-- One pass over the states of the users, from the user part of `GC` in internal/machines/gc.go. The
-- walk over the buckets is that of the system part; the rules differ in the last two. The map
-- `userDatasetsToKeep` is left out: it is written and never read.
pub mod Laws
pub mod Total
mod Tests
use zsys.Prelude.{
  ℕ, zero, suc, ◌+◌, Bool, true, false, not, ◌&&◌, ◌||◌, Option, none, some, List, [], ◌∷◌, ◌++◌,
  ◌≡◌, refl, if◌then◌else◌, ◌==◌, ◌>>=◌,
}
use zsys.Prelude.Int.{lt_int}
use zsys.Text.{Bytes, text_eq}
use zsys.Zfs.Names.{split_snapshot_name}
use zsys.Zfs.Dataset.{Dataset, name_of, prop_of}
use zsys.Machines.Model.{State, SystemState, Machine, is_snapshot_state}
use zsys.Gc.Slice.{names_at}
use zsys.Gc.Buckets.{Bucket}
use zsys.Gc.Selection.{KeepStatus, keep_unknown, keep_yes}
use zsys.Gc.Walk.{Links, is_nil, Rules, bucket_step, walk}
use zsys.Gc.Pass.{Policy, is_failed, routes_have_snapshot, is_automated}

-- `linkedToSystemState`: some route's own dataset has a tag.
unfoldable pub linked_to_system_state : List (Bytes × List Dataset) → Bool
linked_to_system_state [] = false
linked_to_system_state ((route, []) ∷ rs) = linked_to_system_state rs
linked_to_system_state ((route, d ∷ ds) ∷ rs) =
    not (text_eq (prop_of d).bootfs_datasets []) || linked_to_system_state rs

-- Some state of the machine's history has the name of the snapshot.
unfoldable pub named_in_history : Bytes → List (Bytes × SystemState) → Bool
named_in_history snapshot [] = false
named_in_history snapshot ((id, s) ∷ h) =
    text_eq (split_snapshot_name id).1 snapshot || named_in_history snapshot h

datasets_cloned : Links → List Dataset → Bool
datasets_cloned links [] = false
datasets_cloned links (d ∷ ds) =
    not (is_nil (names_at (name_of d) links.by_origin)) || datasets_cloned links ds

-- Some dataset of the state is the origin of a clone.
unfoldable pub routes_cloned : Links → List (Bytes × List Dataset) → Bool
unfolding datasets_cloned
routes_cloned links [] = false
routes_cloned links ((route, ds) ∷ rs) = datasets_cloned links ds || routes_cloned links rs

-- The rules for a user's state of a machine with the given history.
unfoldable pub user_keep : Policy → List (Bytes × SystemState) → Rules
unfolding is_failed routes_have_snapshot is_automated linked_to_system_state named_in_history
    routes_cloned
user_keep p history links i s =
    if is_failed s.id p.failed
    then keep_yes
    else if lt_int i p.keep_last
    then keep_yes
    else if not (is_snapshot_state s) && routes_have_snapshot s.datasets
    then keep_yes
    else if is_snapshot_state s && (not p.all && not (is_automated s))
    then keep_yes
    else if not (is_snapshot_state s) && linked_to_system_state s.datasets
    then keep_yes
    else if is_snapshot_state s && named_in_history (split_snapshot_name s.id).1 history
    then keep_yes
    else if is_snapshot_state s && routes_cloned links s.datasets
    then keep_yes
    else keep_unknown

-- The state is one of the machine's current user states, by its address.
unfoldable pub is_current : State → List (Bytes × State) → Bool
is_current s [] = false
is_current s ((user, us) ∷ users) = us.ref == s.ref || is_current s users

-- The states of one user but the current one.
unfoldable pub past_states : List (Bytes × State) → List (Bytes × State) → List State
unfolding is_current
past_states current [] = []
past_states current ((id, s) ∷ us) =
    let rest = past_states current us in if is_current s current then rest else s ∷ rest

module _ (sort : List State → List State) where
  -- The loop over the users of a machine.
  unfoldable pub users_step :
      Policy
      → List Bucket
      → Machine
      → List (Bytes × List (Bytes × State))
      → Links
      → Option (List State × Links)
  unfolding walk bucket_step
  users_step p buckets m [] links = some ([], links)
  users_step p buckets m ((user, us) ∷ users) links = do
    first ← walk (user_keep p m.history) buckets (sort (past_states m.main.users us)) 0 links
    later ← users_step p buckets m users first.1
    some (first.0 ++ later.0, later.1)

  -- `statesToRemove` after one pass over all machines.
  unfoldable pub user_pass :
      Policy → List Bucket → List Machine → Links → Option (List State × Links)
  unfolding users_step
  user_pass p buckets [] links = some ([], links)
  user_pass p buckets (m ∷ ms) links = do
    first ← users_step p buckets m m.all_users_states links
    later ← user_pass p buckets ms first.1
    some (first.0 ++ later.0, later.1)
