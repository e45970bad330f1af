-- ===== src/Gc/Unmanaged.antt =====
-- The last part of `GC` in internal/machines/gc.go: the unmanaged datasets that once were user datasets
-- are destroyed, one with all that depends on it in a round. The choice of a candidate is Go's random
-- order of a map, a parameter here, as is the refresh of the machines, of which the rounds read the
-- unmanaged datasets.
pub mod Laws
mod Tests
use zsys.Prelude.{
  ℕ, zero, suc, Bool, true, false, not, ◌&&◌, ◌||◌, Option, none, some, List, [], ◌∷◌, ◌++◌,
  if◌then◌else◌,
}
use zsys.Text.{Bytes, text_eq}
use zsys.Zfs.Dataset.{Dataset, name_of, is_snapshot_of}
use zsys.Zfs.Hierarchy.{is_user_dataset, collect_children}
use zsys.Zfs.Cache.{Cache}
use zsys.Zfs.Destroy.{Backend, destroy}
use zsys.Zfs.Dependencies.{name_among, dependencies}

-- The names in `keepDatasets` and `keepDueToErrorOnDelete`.
unfoldable pub is_kept : Bytes → List Bytes → Bool
is_kept name [] = false
is_kept name (n ∷ ns) = text_eq n name || is_kept name ns

pub record Unmanaged : Type 0 where
  pub cache : Cache
  pub datasets : List Dataset
  pub keep : List Bytes
  pub keep_due_to_error : List Bytes

unfoldable pub was_user_dataset : Dataset → Bool
unfolding is_user_dataset
was_user_dataset d = elim (is_user_dataset d) [ none ↦ false | some r ↦ r ]

unfoldable pub is_candidate : Unmanaged → Dataset → Bool
unfolding is_kept was_user_dataset
is_candidate u d =
    not (is_kept (name_of d) u.keep)
    && (not (is_kept (name_of d) u.keep_due_to_error)
        && (not (is_snapshot_of d) && was_user_dataset d))

unfoldable pub candidates_among : Unmanaged → List Dataset → List Dataset
unfolding is_candidate
candidates_among u [] = []
candidates_among u (d ∷ ds) =
    let rest = candidates_among u ds in if is_candidate u d then d ∷ rest else rest

-- `destroyCandidates`.
unfoldable pub destroy_candidates : Unmanaged → List Dataset
unfolding candidates_among
destroy_candidates u = candidates_among u u.datasets

-- A filesystem dataset among the dependencies that is not to be destroyed.
unfoldable pub is_blocked : List Dataset → List Dataset → Bool
unfolding name_among
is_blocked candidates [] = false
is_blocked candidates (d ∷ deps) =
    (not (is_snapshot_of d) && not (name_among (name_of d) candidates))
    || is_blocked candidates deps

pub data Round : Type 0 where
  ended : Round
  again : Unmanaged → Round
  not_refreshed : Round
  endless : Round

module _ (z : Backend) (refresh : Cache → Option (List Dataset))
    (pick : Dataset → List Dataset → Dataset) (fuel : ℕ) where
  -- The loop over the dependencies and the candidate; the names that were not destroyed are kept.
  unfoldable pub destroy_all : List Dataset → Cache → List Bytes → Cache × List Bytes
  unfolding destroy
  destroy_all [] cache keep = (cache, keep)
  destroy_all (d ∷ ds) cache keep =
      let (left, error) = destroy z (name_of d) cache in
      destroy_all ds left (elim error [ none ↦ keep | some e ↦ name_of d ∷ keep ])

  -- Behind the destructions.
  unfoldable pub refresh_all : List Bytes → Cache × List Bytes → Round
  refresh_all keep (left, failed) = elim (refresh left) [
    | none ↦ not_refreshed
    | some ds ↦
        again (record { cache = left; datasets = ds; keep = keep; keep_due_to_error = failed })
  ]

  unfoldable pub try_candidate : Unmanaged → Dataset → Option (List Dataset) → Round
  unfolding is_blocked destroy_candidates destroy_all refresh_all
  try_candidate u c none = endless
  try_candidate u c (some deps) =
      if is_blocked (destroy_candidates u) deps
      then again (record u { keep = name_of c ∷ u.keep })
      else refresh_all u.keep (destroy_all (deps ++ c ∷ []) u.cache u.keep_due_to_error)

  unfoldable pub try_round : Unmanaged → List Dataset → Round
  unfolding try_candidate dependencies collect_children
  try_round u [] = ended
  try_round u (c ∷ cs) =
      let chosen = pick c cs in
      try_candidate u chosen (dependencies fuel (collect_children u.cache) chosen)

  -- One round of the loop.
  unfoldable pub unmanaged_round : Unmanaged → Round
  unfolding try_round destroy_candidates
  unmanaged_round u = try_round u (destroy_candidates u)

  -- The loop on fuel: `none` is a loop that has not ended. An error of the refresh ends it.
  unfoldable pub unmanaged_pass : ℕ → Unmanaged → Option Round
  unfolding unmanaged_round
  unmanaged_pass zero u = none
  unmanaged_pass (suc rounds) u = elim (unmanaged_round u) [
    | again v ↦ unmanaged_pass rounds v
    | ended ↦ some ended
    | not_refreshed ↦ some not_refreshed
    | endless ↦ some endless
  ]
