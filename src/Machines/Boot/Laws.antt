-- ===== src/Machines/Boot/Laws.antt =====
-- What a boot changes.
use zsys.Prelude.{
  Bool, true, false, not, ◌||◌, Option, none, some, List, [], ◌∷◌, ◌++◌, ◌≡◌, ◌⊎◌, refl, inl, inr,
  if◌then◌else◌, Bool-cases, Option-cases,
}
use zsys.Text.{Bytes, codes, text_eq}
use zsys.Zfs.Dataset.{Dataset, name_of, is_snapshot_of, prop_of}
use zsys.Zfs.Cache.{Cache}
use zsys.Zfs.Transaction.{Transaction}
use zsys.Zfs.Property.{canmount, last_used, PropName, Host, PropertyError, set_property_of}
use zsys.Zfs.Property.Laws.{erase_children}
use zsys.Zfs.Property.Laws.Frame.{OnlyChanges, cancel-OnlyChanges, set_property_of-OnlyChanges}
use zsys.Machines.Model.{Machine, get_datasets, users_datasets, get_users_datasets, is_zsys_machine}
use zsys.Machines.Find.{RootFound, no_root, active, panicked, find_from_root}
use zsys.Machines.Cmdline.{boot_parameters_from_cmdline, has_booted_on_snapshot}
use zsys.Machines.Tags.{diff_datasets}
use zsys.Machines.UserTags.{current, Done, each, switch_one, switch_datasets_can_mount}
use zsys.Machines.Boot.Clones.{Cloning}
use zsys.Machines.Boot.{
  Session, Booted, not_refreshed, Switched, refreshed, switched_on, switched_off, switch_mounts,
  consolidate, boot_root, ensure_boot_on, ensure_boot, set_last_used, done_or_cancelled,
  update_last_used,
}

-- The cache without one property.
abbrev pub Same : PropName → Cache → Cache → Type 0
Same p new old = erase_children p new ≡ erase_children p old

module _ (host : Host) (start : Cache) where
  abbrev OnlyMounts : Transaction → Type 0
  OnlyMounts = OnlyChanges canmount start

  switch_one-OnlyMounts :
      (value : Bytes) (d : Dataset) (t : Transaction) (changed : Bool)
      → OnlyMounts t
      → OnlyMounts (switch_one host value d (t, changed)).0.0
  unfolding switch_one
  switch_one-OnlyMounts value d t changed g =
      let e = current d t.cache in
      let initial = if text_eq value (codes "on") then codes "noauto" else codes "on" in
      elim (Bool-cases (not (text_eq (prop_of e).can_mount initial) || is_snapshot_of e)) [
        | inl y ↦ rw (switch_one, y) g
        | inr n ↦
            rw (switch_one, n)
              (either (set_property_of host canmount value (name_of d) false t)
                (set_property_of-OnlyChanges host canmount value (name_of d) false start t g))
      ]
    where
      either :
          (o : Done)
          → OnlyMounts o.0
          → OnlyMounts
              (elim o.1 as (λ _. (Transaction × Bool) × Option PropertyError) [
                | some x ↦ ((o.0, false), some x)
                | none ↦ ((o.0, true), none)
              ]).0.0
      either (u, some x) k = k
      either (u, none) k = k

  switch-OnlyMounts :
      (value : Bytes) (ds : List Dataset) (t : Transaction × Bool)
      → OnlyMounts t.0
      → OnlyMounts (switch_datasets_can_mount host value ds t).0.0
  unfolding switch_datasets_can_mount
  switch-OnlyMounts value [] t g = g
  switch-OnlyMounts value (d ∷ ds) (t, changed) g =
      go (switch_one host value d (t, changed)) (switch_one-OnlyMounts value d t changed g)
        (switch-OnlyMounts value ds)
    where
      go :
          (o : (Transaction × Bool) × Option PropertyError)
          → OnlyMounts o.0.0
          → ((u : Transaction × Bool)
              → OnlyMounts u.0
              → OnlyMounts (switch_datasets_can_mount host value ds u).0.0)
          → OnlyMounts
              (elim o.1 as (λ _. (Transaction × Bool) × Option PropertyError) [
                | some e ↦ (o.0, some e)
                | none ↦ switch_datasets_can_mount host value ds o.0
              ]).0.0
      go (u, some e) k again = k
      go (u, none) k again = again u k

  module _ (z : Cloning) (refresh : Cache → Cache × Option Session) where
    -- Only canmount has changed, or that and then the machines were refreshed.
    abbrev pub OnlyMountsUntilRefresh : Cache → Type 0
    OnlyMountsUntilRefresh cache =
        Same canmount cache start
        ⊎ ((before : Cache) × Same canmount before start × (cache ≡ (refresh before).0))

    refreshed-Same :
        (changed : Bool) (cache : Cache)
        → Same canmount cache start
        → OnlyMountsUntilRefresh (refreshed host z refresh changed cache).0
    unfolding refreshed
    refreshed-Same false cache h = inl h
    refreshed-Same true cache h = inr (cache, h, scanned (refresh cache).1)
      where
        scanned :
            (o : Option Session)
            → (elim o as (λ _. Booted) [
              | none ↦ ((refresh cache).0, inl not_refreshed)
              | some s ↦ ((refresh cache).0, inr true)
            ]).0
              ≡ (refresh cache).0
        scanned none = refl
        scanned (some s) = refl

    switched_on-Same :
        (changed : Bool) (o : Switched host z refresh)
        → OnlyMounts o.0.0
        → OnlyMountsUntilRefresh (switched_on host z refresh changed o).0
    unfolding switched_on
    switched_on-Same changed ((t, ok), some e) g = inl (cancel-OnlyChanges canmount start t g)
    switched_on-Same changed ((t, ok), none) g = refreshed-Same (ok || changed) t.cache g.0

    switched_off-Same :
        (auto : List Dataset) (o : Switched host z refresh)
        → OnlyMounts o.0.0
        → OnlyMountsUntilRefresh (switched_off host z refresh auto o).0
    unfolding switched_off
    switched_off-Same auto ((t, changed), some e) g = inl (cancel-OnlyChanges canmount start t g)
    switched_off-Same auto ((t, changed), none) g =
        switched_on-Same changed (switch_datasets_can_mount host (codes "on") auto (t, false))
          (switch-OnlyMounts (codes "on") auto (t, false) g)

    consolidate-Same :
        (s : Session) (revert : Bool) (found : RootFound) (t : Transaction)
        → OnlyMounts t
        → OnlyMountsUntilRefresh (consolidate host z refresh s revert found t).0
    unfolding consolidate switch_mounts
    consolidate-Same s revert no_root t g = inl g.0
    consolidate-Same s revert panicked t g = inl g.0
    consolidate-Same s revert (active m booted) t g =
        let users = if revert then booted.users else m.main.users in
        let system = get_datasets booted.state in
        let no_auto =
          diff_datasets s.all_system_datasets system
          ++ diff_datasets s.all_users_datasets (users_datasets users) in
        switched_off-Same (system ++ users_datasets users)
          (switch_datasets_can_mount host (codes "noauto") no_auto (t, false))
          (switch-OnlyMounts (codes "noauto") no_auto (t, false) g)

    boot_root-Same :
        (s : Session) (current : Machine) (root : Bytes) (revert : Bool) (found : RootFound)
        (t : Transaction)
        → has_booted_on_snapshot s.cmdline ≡ false
        → OnlyMounts t
        → OnlyMountsUntilRefresh (boot_root host z refresh s current root revert found t).0
    unfolding boot_root
    boot_root-Same s current root revert no_root t h g = inl g.0
    boot_root-Same s current root revert panicked t h g = inl g.0
    boot_root-Same s current root revert (active m booted) t h g =
        rw (boot_root, h) (consolidate-Same s revert (active m booted) t g)

    ensure_boot_on-Same :
        (s : Session) (current : Machine)
        → has_booted_on_snapshot s.cmdline ≡ false
        → OnlyMountsUntilRefresh (ensure_boot_on host z refresh s current start).0
    unfolding ensure_boot_on
    ensure_boot_on-Same s current h =
        let (root, revert) = boot_parameters_from_cmdline s.cmdline in
        boot_root-Same s current root revert (find_from_root root s.machines.all)
          (record { cache = start; reverts = [] }) h (refl, tt)

    -- A boot that is not on a snapshot, whether it succeeds, fails or panics, itself changes nothing in
    -- the cache but the property canmount and its source: the cache differs from the one it started
    -- with only in these, or it is what a refresh of the machines makes of such a cache.
    pub ensure_boot-Same :
        (s : Session)
        → has_booted_on_snapshot s.cmdline ≡ false
        → OnlyMountsUntilRefresh (ensure_boot host z refresh s start).0
    unfolding ensure_boot
    ensure_boot-Same s h = elim (Option-cases s.machines.current) [
      | inl q ↦ rw (ensure_boot, q) (inl refl)
      | inr (m, q) ↦ elim (Bool-cases (is_zsys_machine (some m))) [
        | inr n ↦ rw (ensure_boot, q, n) (inl refl)
        | inl y ↦ rw (ensure_boot, q, y) (ensure_boot_on-Same s m h)
      ]
    ]

  each-OnlyChanges :
      (p : PropName) (step : Dataset → Transaction → Done)
      → ((d : Dataset) (t : Transaction) → OnlyChanges p start t → OnlyChanges p start (step d t).0)
      → (ds : List Dataset) (t : Transaction) → OnlyChanges p start t
      → OnlyChanges p start (each host step ds t).0
  unfolding each
  each-OnlyChanges p step h [] t g = g
  each-OnlyChanges p step h (d ∷ ds) t g = go (step d t) (h d t g) (each-OnlyChanges p step h ds)
    where
      go :
          (o : Done)
          → OnlyChanges p start o.0
          → ((t : Transaction)
              → OnlyChanges p start t
              → OnlyChanges p start (each host step ds t).0)
          → OnlyChanges p start
              (elim o.1 as (λ _. Done) [ some e ↦ (o.0, some e) | none ↦ each host step ds o.0 ]).0
      go (u, none) k again = again u k
      go (u, some e) k again = k

  done_or_cancelled-Same :
      (p : PropName) (o : Done)
      → OnlyChanges p start o.0
      → Same p (done_or_cancelled host o).0 start
  unfolding done_or_cancelled
  done_or_cancelled-Same p (t, some e) g = cancel-OnlyChanges p start t g
  done_or_cancelled-Same p (t, none) g = g.0

  -- `UpdateLastUsed`, whether it succeeds or fails, changes nothing in the cache but the time of the
  -- last use and its source.
  pub update_last_used-Same :
      (current : Option Machine) (time : Bytes)
      → Same last_used (update_last_used host current time start).0 start
  unfolding update_last_used set_last_used
  update_last_used-Same none time = refl
  update_last_used-Same (some m) time = elim (Bool-cases (is_zsys_machine (some m))) [
    | inr n ↦ rw (update_last_used, n) refl
    | inl y ↦
        let fresh : Transaction = record { cache = start; reverts = [] } in
        let ds = get_datasets m.main.state ++ get_users_datasets m.main in
        rw (update_last_used, y)
          (done_or_cancelled-Same last_used (each host (set_last_used host time) ds fresh) (
            each-OnlyChanges last_used (set_last_used host time)
              (λ d t g. set_property_of-OnlyChanges host last_used time (name_of d) false start t g)
              ds fresh (refl, tt)))
  ]
