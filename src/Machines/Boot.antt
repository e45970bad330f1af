-- ===== src/Machines/Boot.antt =====
-- internal/machines/boot.go: `EnsureBoot` with `createClones`, and `UpdateLastUsed`, over the
-- transaction. The refresh of the machines is a
-- parameter, which gives the cache that the new scan of the datasets leaves, and the machines unless it
-- fails. `EnsureBoot` also sets the users of the booted
-- state in memory; the next refresh overwrites this.
pub mod Clones
pub mod Laws
mod Tests
use zsys.Prelude.{
  ℕ, Bool, true, false, not, ◌&&◌, ◌||◌, Option, none, some, List, [], ◌∷◌, ◌++◌, ◌⊎◌, inl, inr,
  if◌then◌else◌,
}
use zsys.Text.{Bytes, codes, text_eq}
use zsys.Zfs.Dataset.{Dataset, name_of}
use zsys.Zfs.Cache.{Cache}
use zsys.Zfs.Transaction.{Transaction, cancel}
use zsys.Zfs.Property.{last_used, Host, PropertyError, set_property_of}
use zsys.Machines.Model.{
  State, SystemState, Machine, get_datasets, users_datasets, get_users_datasets, is_zsys_machine,
}
use zsys.Machines.Maps.{lookup}
use zsys.Machines.Cmdline.{boot_parameters_from_cmdline, has_booted_on_snapshot}
use zsys.Machines.Find.{Machines, RootFound, no_root, active, panicked, find_from_root}
use zsys.Machines.Tags.{diff_datasets}
use zsys.Machines.UserTags.{Done, each, switch_datasets_can_mount}
use zsys.Machines.Boot.Clones.{Cloning, ClonesError, create_clones}

-- What `Machines` holds beyond the machines themselves.
pub record Session : Type 0 where
  pub machines : Machines
  pub cmdline : Bytes
  pub all_system_datasets : List Dataset
  pub all_users_datasets : List Dataset

pub data BootError : Type 0 where
  not_cloned : ClonesError → BootError
  not_switched : PropertyError → BootError
  not_refreshed : BootError
  boot_panicked : BootError

-- The flag tells that something has changed.
abbrev pub Booted : Type 0
Booted = Cache × (BootError ⊎ Bool)

unfoldable pub is_empty {ℓ} : {A : Type ℓ} → List A → Bool
is_empty [] = true
is_empty (x ∷ xs) = false

module _ (host : Host) (z : Cloning) (refresh : Cache → Cache × Option Session) where
  -- The refresh behind a change.
  unfoldable pub refreshed : Bool → Cache → Booted
  refreshed false cache = (cache, inr false)
  refreshed true cache =
      let (scanned, session) = refresh cache in
      elim session [ none ↦ (scanned, inl not_refreshed) | some s ↦ (scanned, inr true) ]

  abbrev pub Switched : Type 0
  Switched = (Transaction × Bool) × Option PropertyError

  -- Behind the switch to "on".
  unfoldable pub switched_on : Bool → Switched → Booted
  unfolding refreshed cancel
  switched_on changed ((t, ok), some e) = ((cancel t).cache, inl (not_switched e))
  switched_on changed ((t, ok), none) = refreshed (ok || changed) t.cache

  -- Behind the switch to "noauto".
  unfoldable pub switched_off : List Dataset → Switched → Booted
  unfolding switched_on switch_datasets_can_mount cancel
  switched_off auto ((t, changed), some e) = ((cancel t).cache, inl (not_switched e))
  switched_off auto ((t, changed), none) =
      switched_on changed (switch_datasets_can_mount host (codes "on") auto (t, false))

  -- Every dataset that is not of the booted state goes to "noauto", and those of the state to "on".
  unfoldable pub switch_mounts : Session → State → List (Bytes × State) → Transaction → Booted
  unfolding switched_off switch_datasets_can_mount diff_datasets get_datasets users_datasets
  switch_mounts s booted users t =
      let system = get_datasets booted in
      let user = users_datasets users in
      let no_auto =
        diff_datasets s.all_system_datasets system ++ diff_datasets s.all_users_datasets user in
      switched_off (system ++ user)
        (switch_datasets_can_mount host (codes "noauto") no_auto (t, false))

  -- The part of `EnsureBoot` behind the cloning, on what `findFromRoot` gives.
  unfoldable pub consolidate : Session → Bool → RootFound → Transaction → Booted
  unfolding switch_mounts
  consolidate s revert no_root t = (t.cache, inl boot_panicked)
  consolidate s revert panicked t = (t.cache, inl boot_panicked)
  consolidate s revert (active m booted) t =
      switch_mounts s booted.state (if revert then booted.users else m.main.users) t

  unfoldable pub after_clones : Bytes → Bool → Transaction × Option ClonesError → Booted
  unfolding consolidate cancel find_from_root
  after_clones root revert (t, some e) = ((cancel t).cache, inl (not_cloned e))
  after_clones root revert (t, none) =
      let (scanned, session) = refresh t.cache in
      elim session [
        | none ↦ (scanned, inl not_refreshed)
        | some s ↦
            consolidate s revert (find_from_root root s.machines.all)
              (record { cache = scanned; reverts = t.reverts })
      ]

  -- The snapshot of the root is cloned; a root that is not in the history panics.
  unfoldable pub clone_and_consolidate : Bytes → Bool → Machine → SystemState → Transaction → Booted
  unfolding after_clones create_clones lookup is_empty get_users_datasets
  clone_and_consolidate root revert m booted t = elim (lookup root m.history) [
    | none ↦ (t.cache, inl boot_panicked)
    | some snapshot ↦ after_clones root revert (
        create_clones host z snapshot booted.state.id
          (revert && is_empty (get_users_datasets booted)) t)
  ]

  unfoldable pub boot_root : Session → Machine → Bytes → Bool → RootFound → Transaction → Booted
  unfolding clone_and_consolidate has_booted_on_snapshot
  boot_root s current root revert no_root t = (t.cache, inl boot_panicked)
  boot_root s current root revert panicked t = (t.cache, inl boot_panicked)
  boot_root s current root revert (active m booted) t =
      if has_booted_on_snapshot s.cmdline && not (text_eq current.main.state.id booted.state.id)
      then clone_and_consolidate root revert m booted t
      else consolidate s revert (active m booted) t

  unfoldable pub ensure_boot_on : Session → Machine → Cache → Booted
  unfolding boot_root boot_parameters_from_cmdline find_from_root
  ensure_boot_on s current cache =
      let (root, revert) = boot_parameters_from_cmdline s.cmdline in
      boot_root s current root revert (find_from_root root s.machines.all)
        (record { cache = cache; reverts = [] })

  unfoldable pub ensure_boot : Session → Cache → Booted
  unfolding ensure_boot_on is_zsys_machine
  ensure_boot s cache = elim s.machines.current [
    | none ↦ (cache, inr false)
    | some current ↦
        if not (is_zsys_machine (some current))
        then (cache, inr false)
        else ensure_boot_on s current cache
  ]

-- The loop that sets the time of the last use, up to the first error.
module _ (host : Host) where
  unfoldable pub set_last_used : Bytes → Dataset → Transaction → Done
  unfolding set_property_of
  set_last_used time d t = set_property_of host last_used time (name_of d) false t

  unfoldable pub done_or_cancelled : Done → Cache × Option PropertyError
  unfolding cancel
  done_or_cancelled (t, some e) = ((cancel t).cache, some e)
  done_or_cancelled (t, none) = (t.cache, none)

  unfoldable pub update_last_used : Option Machine → Bytes → Cache → Cache × Option PropertyError
  unfolding done_or_cancelled each set_last_used get_datasets get_users_datasets is_zsys_machine
  update_last_used none time cache = (cache, none)
  update_last_used (some m) time cache =
      if not (is_zsys_machine (some m))
      then (cache, none)
      else done_or_cancelled (
          each host (set_last_used time) (get_datasets m.main.state ++ get_users_datasets m.main)
            (record { cache = cache; reverts = [] }))
