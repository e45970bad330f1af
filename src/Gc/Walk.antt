-- ===== src/Gc/Walk.antt =====
-- The walk over the buckets that the system part and the user part of `GC` in
-- internal/machines/gc.go share: which states of a history a bucket takes, the verdict of the rules,
-- and the maps that a removal updates.
pub mod Laws
pub mod Safety
pub mod Total
use zsys.Prelude.{
  ℕ, zero, suc, ◌+◌, ◌-◌, ◌*◌, Bool, true, false, not, ◌&&◌, ◌||◌, Option, none, some, List, [],
  ◌∷◌, ◌++◌, ◌≡◌, refl, if◌then◌else◌, ltb, leb, length, ◌>>=◌,
}
use zsys.Prelude.Int.{ℤ, pos, negsuc, lt_int}
use zsys.Text.{Bytes, codes, text_eq, contains}
use zsys.Zfs.Names.{split_snapshot_name}
use zsys.Zfs.Dataset.{Dataset, name_of, is_snapshot_of, prop_of}
use zsys.Zfs.Hierarchy.{has_snapshot_in_hierarchy}
use zsys.Machines.Model.{State, SystemState, Machine, is_snapshot_state}
use zsys.Gc.Slice.{NameMap, names_at, add_name, remove_name, remove_name_everywhere}
use zsys.Gc.Buckets.{Bucket, second}
use zsys.Gc.Selection.{KeepStatus, keep_unknown, keep_yes, StateWithKeep, select_states_to_remove}

-- The two maps from names to names.
pub record Links : Type 0 where
  -- The clones of each origin.
  pub by_origin : NameMap
  -- The snapshots of each dataset.
  pub snapshots_by_ds : NameMap

abbrev pub is_nil : List Bytes → Bool
is_nil [] = true
is_nil (x ∷ xs) = false

-- The loop over `allDatasets` that fills the maps.
unfoldable pub collect_links : List Dataset → Links → Links
collect_links [] links = links
collect_links (d ∷ ds) links = collect_links ds (
    if not (is_snapshot_of d) && not (text_eq (prop_of d).origin [])
    then record links { by_origin = add_name (prop_of d).origin (name_of d) links.by_origin }
    else if is_snapshot_of d
    then record links {
      snapshots_by_ds =
          add_name (split_snapshot_name (name_of d)).0 (name_of d) links.snapshots_by_ds;
    }
    else links)

-- Whether a state is kept, from the maps and the index of the state in its history.
abbrev pub Rules : Type 0
Rules = Links → ℕ → State → KeepStatus

-- `LastUsed` as a time, in nanoseconds.
abbrev pub used_at : State → ℕ
used_at s = second * s.last_used

-- The states from the newest one on that were not last used before `start`, and the others.
unfoldable pub inside : ℕ → List State → List State
inside start [] = []
inside start (s ∷ ss) = let more = inside start ss in if ltb (used_at s) start then [] else s ∷ more

unfoldable pub outside : ℕ → List State → List State
outside start [] = []
outside start (s ∷ ss) =
    let more = outside start ss in if ltb (used_at s) start then s ∷ ss else more

-- The states of the bucket, from the index i on, with the verdict of the rules.
unfoldable pub judge : Rules → Links → ℕ → List State → List StateWithKeep
judge rules links i [] = []
judge rules links i (s ∷ ss) =
    record { state = s; keep = rules links i s } ∷ judge rules links (i + 1) ss

-- The datasets of a state to remove leave the maps.
purge_datasets : List Dataset → Links → Links
purge_datasets [] links = links
purge_datasets (d ∷ ds) links = purge_datasets ds (
    if is_snapshot_of d
    then record links {
      snapshots_by_ds =
          remove_name (split_snapshot_name (name_of d)).0 (name_of d) links.snapshots_by_ds;
    }
    else record links { by_origin = remove_name_everywhere (name_of d) links.by_origin })

purge_routes : List (Bytes × List Dataset) → Links → Links
purge_routes [] links = links
purge_routes ((route, ds) ∷ rs) links = purge_routes rs (purge_datasets ds links)

unfoldable pub purge : List State → Links → Links
unfolding purge_routes purge_datasets
purge [] links = links
purge (s ∷ ss) links = purge ss (purge_routes s.datasets links)

-- The number of states does not exceed the samples.
abbrev pub no_exceeding : ℕ → ℤ → Bool
no_exceeding n (pos samples) = leb n samples
no_exceeding n (negsuc samples) = false

abbrev pub keeps_all : ℤ → Bool
keeps_all (negsuc zero) = true
keeps_all _ = false

-- What one bucket does: the states to remove, the states left for older buckets with the index of
-- the first of them, and the maps.
pub record Step : Type 0 where
  pub removed : List State
  pub rest : List State
  pub index : ℕ
  pub links : Links

-- One round of the loop over the buckets. `none` is a panic.
unfoldable pub bucket_step : Rules → Bucket → List State → ℕ → Links → Option Step
unfolding inside outside judge purge
bucket_step rules b states i links =
    let here = inside b.start states in
    let skipped : Step = record {
      removed = [];
      rest = outside b.start states;
      index = i + length here;
      links = links;
    } in
    if keeps_all b.samples || no_exceeding (length here) b.samples
    then some skipped
    else (select_states_to_remove b.samples (judge rules links i here) >>= λ removed.
        some (record skipped { removed = removed; links = purge removed links }))

-- The loop over the buckets, from the newest. It ends with the states or the buckets.
unfoldable pub walk : Rules → List Bucket → List State → ℕ → Links → Option (List State × Links)
walk rules [] states i links = some ([], links)
walk rules (b ∷ bs) [] i links = some ([], links)
walk rules (b ∷ bs) (s ∷ ss) i links = do
  step ← bucket_step rules b (s ∷ ss) i links
  later ← walk rules bs step.rest step.index step.links
  some (step.removed ++ later.0, later.1)
