-- ===== src/Gc/Loop.antt =====
-- The loop of passes in the system part of `GC` of internal/machines/gc.go: the states that a pass selects
-- are removed, a state whose removal fails is kept from then on, and the machines are refreshed. The
-- removal of a state and the refresh are parameters; the maps of clones and of snapshots go on from
-- one pass to the next.
pub mod Laws
mod Tests
use zsys.Prelude.{
  ℕ, zero, suc, Bool, true, false, Option, none, some, List, [], ◌∷◌, ◌++◌, ◌>>=◌, if◌then◌else◌,
}
use zsys.Prelude.Int.{ℤ}
use zsys.Text.{Bytes}
use zsys.Machines.Model.{State, Machine}
use zsys.Gc.Buckets.{Bucket}
use zsys.Gc.Walk.{Links}
use zsys.Gc.Pass.{Policy, system_pass}

-- What goes from one pass to the next.
pub record GcState (W : Type 0) : Type 0 where
  pub world : W
  pub links : Links
  -- `keepDueToErrorOnDelete`.
  pub failed : List Bytes

-- How a pass ends: with no change, with an error of the refresh, or with another pass.
pub data GcRound (W : Type 0) : Type 0 where
  finished : GcState W → GcRound W
  not_refreshed : W → GcRound W
  next_pass : GcState W → GcRound W

module _ {W : Type 0} (machines : W → List Machine) (remove : State → W → W × Bool)
    (refresh : W → Option W) (sort : List State → List State) (all : Bool) (keep_last : ℤ)
    (buckets : List Bucket) where
  -- The loop over `statesToRemove`. The flag of a removal tells that it failed.
  unfoldable pub remove_states : List State → W → List Bytes → W × List Bytes
  remove_states [] w failed = (w, failed)
  remove_states (s ∷ ss) w failed =
      let (left, error) = remove s w in
      remove_states ss left (if error then s.id ∷ failed else failed)

  unfoldable pub refresh_world : Links → W × List Bytes → GcRound W
  refresh_world links (left, failed) = elim (refresh left) [
    | none ↦ not_refreshed left
    | some w ↦ next_pass (record { world = w; links = links; failed = failed })
  ]

  -- Behind a pass: no state to remove is no change.
  unfoldable pub after_pass : GcState W → List State × Links → GcRound W
  unfolding remove_states refresh_world
  after_pass g ([], links) = finished (record { world = g.world; links = links; failed = g.failed })
  after_pass g (s ∷ ss, links) = refresh_world links (remove_states (s ∷ ss) g.world g.failed)

  unfoldable pub gc_round : GcState W → Option (GcRound W)
  unfolding system_pass after_pass
  gc_round g =
      system_pass sort (record { all = all; keep_last = keep_last; failed = g.failed }) buckets
        (machines g.world) g.links
      >>= (λ out. some (after_pass g out))

  -- The loop on fuel: `none` is a pass that panics, or a loop that has not ended.
  unfoldable pub system_gc : ℕ → GcState W → Option (GcRound W)
  unfolding gc_round
  system_gc zero g = none
  system_gc (suc fuel) g = elim (gc_round g) [
    | none ↦ none
    | some (next_pass h) ↦ system_gc fuel h
    | some (finished h) ↦ some (finished h)
    | some (not_refreshed w) ↦ some (not_refreshed w)
  ]
