-- ===== src/Gc/Pass/Laws.antt =====
-- What the rules of the system pass keep.
use zsys.Prelude.{ℕ, true, false, ◌≡◌, arith}
use zsys.Prelude.Int.{lt_int}
use zsys.Machines.Model.{State, is_snapshot_state}
use zsys.Gc.Selection.{is_keep_yes}
use zsys.Gc.Pass.{Policy, routes_have_snapshot, routes_linked, is_automated, is_failed, system_keep}
use zsys.Gc.Walk.{Links}

-- No rule keeps the state s at the index i of the history, newest first, with the maps as they are when
-- it is judged.
pub record Removable (p : Policy) (links : Links) (i : ℕ) (s : State) : Type 0 where
  pub not_failed : is_failed s.id p.failed ≡ false
  pub not_recent : lt_int i p.keep_last ≡ false
  pub no_snapshots : is_snapshot_state s ≡ false → routes_have_snapshot s.datasets ≡ false
  -- No dataset of a snapshot is the origin of a clone, or has snapshots on it.
  pub not_linked : is_snapshot_state s ≡ true → routes_linked links s.datasets ≡ false
  pub automated : is_snapshot_state s ≡ true → p.all ≡ false → is_automated s ≡ true

pub system_keep-Removable :
    (p : Policy) (links : Links) (i : ℕ) (s : State)
    → is_keep_yes (system_keep p links i s) ≡ false
    → Removable p links i s
unfolding system_keep
system_keep-Removable p links i s h = record {
  not_failed = ground arith;
  not_recent = ground arith;
  no_snapshots = ground arith;
  not_linked = ground arith;
  automated = ground arith;
}
