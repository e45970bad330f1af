-- ===== src/Gc/Pass.antt =====
-- One pass over the history of the machines, from the system part of `GC` in
-- internal/machines/gc.go, with the rules that keep a state. `sort` is `sort.Sort` by time, newest
-- first.
pub mod Laws
pub mod Safety
pub mod Total
mod Tests
use zsys.Prelude.{
  ℕ, zero, suc, ◌+◌, ◌-◌, Bool, true, false, not, ◌&&◌, ◌||◌, Option, none, some, List, [], ◌∷◌,
  ◌++◌, ◌≡◌, refl, if◌then◌else◌, ltb, leb, length, ◌>>=◌,
}
use zsys.Prelude.Int.{ℤ, pos, negsuc, lt_int}
use zsys.Text.{Bytes, codes, text_eq, contains}
use zsys.Zfs.Names.{split_snapshot_name}
use zsys.Zfs.Dataset.{Dataset, name_of, is_snapshot_of, prop_of}
use zsys.Zfs.Hierarchy.{has_snapshot_in_hierarchy}
use zsys.Machines.Model.{State, SystemState, Machine, is_snapshot_state}
use zsys.Gc.Slice.{NameMap, names_at, add_name, remove_name, remove_name_everywhere}
use zsys.Gc.Buckets.{Bucket}
use zsys.Gc.Selection.{KeepStatus, keep_unknown, keep_yes, StateWithKeep, select_states_to_remove}
use zsys.Gc.Walk.{Links, is_nil, walk, bucket_step}

-- Some route's own dataset has a snapshot below it. A route without datasets does not occur.
unfoldable pub routes_have_snapshot : List (Bytes × List Dataset) → Bool
routes_have_snapshot [] = false
routes_have_snapshot ((route, []) ∷ rs) = routes_have_snapshot rs
routes_have_snapshot ((route, d ∷ ds) ∷ rs) = has_snapshot_in_hierarchy d || routes_have_snapshot rs

datasets_linked : Links → List Dataset → Bool
datasets_linked links [] = false
datasets_linked links (d ∷ ds) =
    (not (is_nil (names_at (name_of d) links.by_origin))
      || not (is_nil (names_at (name_of d) links.snapshots_by_ds)))
    || datasets_linked links ds

-- Some dataset of the state is the origin of a clone, or has snapshots on it.
unfoldable pub routes_linked : Links → List (Bytes × List Dataset) → Bool
unfolding datasets_linked
routes_linked links [] = false
routes_linked links ((route, ds) ∷ rs) = datasets_linked links ds || routes_linked links rs

abbrev pub automated_mark : Bytes
automated_mark = codes "@autozsys_"

unfoldable pub is_automated : State → Bool
is_automated s = contains s.id automated_mark

-- What the rules need to know beside the state and its index.
pub record Policy : Type 0 where
  pub all : Bool
  pub keep_last : ℤ
  -- `keepDueToErrorOnDelete`.
  pub failed : List Bytes

unfoldable pub is_failed : Bytes → List Bytes → Bool
is_failed id [] = false
is_failed id (f ∷ fs) = text_eq f id || is_failed id fs

-- Each rule applies only while `keep` is unknown, so the first that holds decides.
unfoldable pub system_keep : Policy → Links → ℕ → State → KeepStatus
unfolding is_failed routes_have_snapshot routes_linked is_automated
system_keep p links i s =
    if is_failed s.id p.failed
    then keep_yes
    else if lt_int i p.keep_last
    then keep_yes
    else if not (is_snapshot_state s) && routes_have_snapshot s.datasets
    then keep_yes
    else if is_snapshot_state s && (not p.all && not (is_automated s))
    then keep_yes
    else if is_snapshot_state s && routes_linked links s.datasets
    then keep_yes
    else keep_unknown

unfoldable pub history_states : List (Bytes × SystemState) → List State
history_states [] = []
history_states ((id, s) ∷ h) = s.state ∷ history_states h

module _ (sort : List State → List State) where
  -- One round of the loop over the machines.
  unfoldable pub machine_step : Policy → List Bucket → Machine → Links → Option (List State × Links)
  unfolding walk bucket_step
  machine_step p buckets m links =
      if not m.is_zsys
      then some ([], links)
      else walk (system_keep p) buckets (sort (history_states m.history)) 0 links

  -- `statesToRemove` after one pass over all machines.
  unfoldable pub system_pass :
      Policy → List Bucket → List Machine → Links → Option (List State × Links)
  unfolding machine_step
  system_pass p buckets [] links = some ([], links)
  system_pass p buckets (m ∷ ms) links = do
    first ← machine_step p buckets m links
    later ← system_pass p buckets ms first.1
    some (first.0 ++ later.0, later.1)
