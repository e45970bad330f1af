-- ===== src/Zfs/InverseOrigin.antt =====
-- `inverseOrigin` of internal/zfs/helpers.go over the cache of datasets: when a clone is promoted, the
-- snapshots up to its origin move to it. A snapshot has no children. The map of all datasets is visited
-- in the order of the trees.
pub mod Laws
pub mod Moved
mod Tests
use zsys.Prelude.{
  ℕ, Bool, true, false, not, ◌&&◌, Option, none, some, List, [], ◌∷◌, ◌++◌, if◌then◌else◌, leb,
}
use zsys.Text.{Bytes, text_eq, has_prefix}
use zsys.Zfs.Names.{split_snapshot_name, snapshot_of}
use zsys.Zfs.Dataset.{
  Dataset, dataset, Children, nil, cons, DatasetProp, name_of, is_snapshot_of, prop_of, children_of,
}
use zsys.Zfs.Hierarchy.{remove_child, has_child_named}
use zsys.Zfs.Cache.{Cache, find_in_children, change_in_children, append_child, drop_child}

-- What libzfs answers on a name: `DatasetOpen`, and `ReloadProperties` of the dataset.
pub record Handles : Type 0 where
  pub opens : Bytes → Bool
  pub reloads : Bytes → Bool

pub data MigrationError : Type 0 where
  no_base : Bytes → MigrationError
  not_removed : Bytes → MigrationError
  not_opened : Bytes → MigrationError
  not_reloaded : MigrationError

abbrev pub Migrated : Type 0
Migrated = Cache × Option MigrationError

abbrev pub with_origin : Bytes → DatasetProp → DatasetProp
with_origin o p = record p { origin = o }

-- `snapshotsToMigrate`: the snapshots that are not newer than the base.
unfoldable pub to_migrate : ℕ → Children → List Dataset
to_migrate last nil = []
to_migrate last (cons c cs) =
    let rest = to_migrate last cs in
    if is_snapshot_of c && leb (prop_of c).last_used last then c ∷ rest else rest

-- The name below the promoted dataset.
unfoldable pub moved_name : Bytes → Dataset → Bytes
moved_name new s = snapshot_of new (split_snapshot_name (name_of s)).1

unfoldable pub rename_child : Bytes → Bytes → Children → Children
rename_child a b nil = nil
rename_child a b (cons (dataset n s p cs) ds) =
    let rest = rename_child a b ds in
    if s && text_eq n a then cons (dataset b s p cs) ds else cons (dataset n s p cs) rest

unfoldable mutual
  pub set_origin : Bytes → Bytes → Dataset → Dataset
  set_origin name o (dataset n s p cs) =
      let below = set_origins name o cs in
      if text_eq n name then dataset n s (with_origin o p) cs else dataset n s p below

  pub set_origins : Bytes → Bytes → Children → Children
  set_origins name o nil = nil
  set_origins name o (cons d ds) = cons (set_origin name o d) (set_origins name o ds)

-- The name of the base behind the loop: it moves too if it is a snapshot of the old dataset.
unfoldable pub base_name : Bytes → Dataset → Children → Bytes
unfolding moved_name
base_name new base cs =
    if has_child_named (name_of base) cs then moved_name new base else name_of base

module _ (h : Handles) where
  module _ (from to : Bytes) where
    -- The origin of the dataset follows the snapshot.
    unfoldable pub follows : Bytes → DatasetProp → Bool
    follows n p = text_eq p.origin from && not (has_prefix to (n ++ b'@' ∷ []))

    unfoldable pub new_prop : Bytes → DatasetProp → DatasetProp
    unfolding follows
    new_prop n p = if follows n p then with_origin to p else p

    unfoldable pub reloaded : Bytes → DatasetProp → Bool
    unfolding follows
    reloaded n p = if follows n p then h.reloads n else true

    -- The first error ends the loop, with what was changed before.
    unfoldable mutual
      pub move_origin : Dataset → Dataset × Bool
      move_origin (dataset n s p cs) =
          let below = move_origins cs in
          if reloaded n p
          then (dataset n s (new_prop n p) below.0, below.1)
          else (dataset n s (new_prop n p) cs, false)

      pub move_origins : Children → Children × Bool
      move_origins nil = (nil, true)
      move_origins (cons d ds) =
          let here = move_origin d in
          let later = move_origins ds in
          if here.1 then (cons here.0 later.0, later.1) else (cons here.0 ds, false)

  unfoldable pub origins_moved : Children × Bool → Migrated
  origins_moved (cache, true) = (cache, none)
  origins_moved (cache, false) = (cache, some not_reloaded)

  -- One snapshot moves: it is renamed, added to the new dataset, and removed from the old one
  -- under its new name.
  unfoldable pub place : Bytes → Bytes → Dataset → Cache → Cache
  unfolding rename_child moved_name
  place old new s cache =
      change_in_children new (append_child (dataset (moved_name new s) true (prop_of s) nil))
        (change_in_children old (rename_child (name_of s) (moved_name new s)) cache)

  unfoldable pub can_remove : Bytes → Bytes → Cache → Bool
  can_remove old name cache = elim (find_in_children old cache) [
    | none ↦ false
    | some d ↦ elim (remove_child name (children_of d)) [ none ↦ false | some rest ↦ true ]
  ]

  unfoldable pub migrate : Bytes → Bytes → Dataset → Cache → Migrated
  unfolding place can_remove moved_name origins_moved
  migrate old new s cache =
      let placed = place old new s cache in
      let removed = change_in_children old (drop_child (moved_name new s)) placed in
      if not (can_remove old (moved_name new s) placed)
      then (placed, some (not_removed (name_of s)))
      else if not (h.opens (moved_name new s))
      then (removed, some (not_opened (moved_name new s)))
      else origins_moved (move_origins (name_of s) (moved_name new s) removed)

  unfoldable pub migrate_on : Migrated → (Cache → Migrated) → Migrated
  migrate_on (cache, none) next = next cache
  migrate_on (cache, some e) next = (cache, some e)

  unfoldable pub migrate_all : Bytes → Bytes → List Dataset → Cache → Migrated
  unfolding migrate migrate_on
  migrate_all old new [] cache = (cache, none)
  migrate_all old new (s ∷ ss) cache = migrate_on (migrate old new s cache) (migrate_all old new ss)

  -- The two origins are exchanged: the old dataset now stands on the base.
  unfoldable pub exchange : Bytes → Bytes → Bytes → Cache → Migrated
  unfolding set_origins
  exchange old new base cache = elim (find_in_children old cache) [
    | none ↦ (cache, none)
    | some d ↦ (set_origins new (prop_of d).origin (set_origins old base cache), none)
  ]

  unfoldable pub inverse_origin : Dataset → Dataset → Cache → Migrated
  unfolding migrate_all migrate_on to_migrate base_name exchange
  inverse_origin old new cache = elim (find_in_children (prop_of new).origin cache) [
    | none ↦ (cache, some (no_base (prop_of new).origin))
    | some base ↦
        migrate_on
          (migrate_all (name_of old) (name_of new)
            (to_migrate (prop_of base).last_used (children_of old)) cache)
          (exchange (name_of old) (name_of new) (base_name (name_of new) base (children_of old)))
  ]
