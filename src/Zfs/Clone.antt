-- ===== src/Zfs/Clone.antt =====
-- `Clone` of internal/zfs/zfs.go over the cache of datasets. The datasets below the root are those that
-- it has when the loop reaches them. A clone is put into the cache with the properties that are read
-- at the end: nothing reads them before.
pub mod Name
pub mod Laws
mod Tests
use zsys.Prelude.{
  ℕ, ◌+◌, Bool, true, false, not, ◌&&◌, ◌||◌, Option, none, some, List, [], ◌∷◌, ◌++◌,
  if◌then◌else◌, take, drop, length,
}
use zsys.Text.{trim_suffix, Bytes, codes, text_eq, has_prefix, has_suffix}
use zsys.Zfs.Names.{split_snapshot_name}
use zsys.Zfs.Dataset.{
  Dataset, dataset, Children, nil, cons, DatasetProp, name_of, is_snapshot_of, prop_of, children_of,
}
use zsys.Zfs.Hierarchy.{check_integrity}
use zsys.Zfs.Refresh.{local, yes_no}
use zsys.Zfs.Cache.{Cache, find_in_children, change_in_children, append_child, dir}
use zsys.Zfs.Transaction.{Libzfs, Transaction, register_revert, cancel, nested_of, destroy_one}
use zsys.Zfs.Clone.Name.{new_root_name, replace_first}

-- What libzfs answers beyond snapshots.
pub record Cloner : Type 0 where
  pub libzfs : Libzfs
  -- `Clone` of a snapshot to a target, with the values of mountpoint and canmount that are set.
  pub clones : Cache → Bytes → Bytes → Option Bytes → Option Bytes → Bool
  -- `SetUserProperty` of bootfs, and of the last booted kernel, on a new clone.
  pub sets_bootfs : Bytes → Bytes → Bool
  pub sets_kernel : Bytes → Bytes → Bool

pub data CloningError : Type 0 where
  no_suffix : CloningError
  not_found : Bytes → CloningError
  not_a_snapshot : Bytes → CloningError
  no_parent : Bytes → CloningError
  integrity_failed : Bytes × Bytes → CloningError
  not_cloned : Bytes → Bytes → CloningError
  property_not_set : Bytes → CloningError
  -- The parent of a new clone is not found.
  orphaned : Dataset → CloningError

-- The entries that the map of all datasets keeps outside the trees, which the cache here does not have:
-- a clone without a parent is put into the map, and its revert does not take it out.
unfoldable pub left_in_map : CloningError → List Dataset
left_in_map (orphaned d) = d ∷ []
left_in_map e = []

abbrev pub Cloned : Type 0
Cloned = Transaction × Option CloningError

-- The mountpoint and the canmount that a clone is made with.
unfoldable pub clone_mountpoint : DatasetProp → Option Bytes
clone_mountpoint p = if text_eq p.sources.mountpoint local then some p.mountpoint else none

unfoldable pub clone_can_mount : DatasetProp → Option Bytes
clone_can_mount p =
    if text_eq p.sources.can_mount local || text_eq p.can_mount (codes "on")
    then some (if text_eq p.can_mount (codes "on") then codes "noauto" else p.can_mount)
    else none

module _ (z : Cloner) where
  abbrev pub new_clone : Bytes → Dataset
  new_clone target = dataset target false (z.libzfs.properties target) nil

  -- The revert: the new dataset, as it is then, is destroyed.
  unfoldable pub destroy_clone : Bytes → Cache → Cache
  unfolding destroy_one
  destroy_clone target cache = elim (find_in_children target cache) [
    | none ↦ destroy_one z.libzfs (new_clone target) cache
    | some d ↦ destroy_one z.libzfs d cache
  ]

  -- The user properties that are copied when they are local.
  unfoldable pub copies_bootfs : DatasetProp → Bytes → Bool
  copies_bootfs p target =
      if text_eq p.sources.boot_fs local then z.sets_bootfs target (yes_no p.boot_fs) else true

  unfoldable pub copies_kernel : DatasetProp → Bytes → Bool
  copies_kernel p target =
      if text_eq p.sources.last_booted_kernel local
      then z.sets_kernel target p.last_booted_kernel
      else true

  -- The part of `cloneDataset` behind the call that cloned the snapshot.
  unfoldable pub add_clone : DatasetProp → Bytes → Transaction → Cloned
  unfolding register_revert destroy_clone copies_bootfs copies_kernel
  add_clone p target t =
      let registered = register_revert (destroy_clone target) t in
      elim (find_in_children (dir target) registered.cache) [
        | none ↦ (registered, some (orphaned (new_clone target)))
        | some parent ↦ (
          record {
            cache =
                change_in_children (dir target) (append_child (new_clone target)) registered.cache;
            reverts = registered.reverts;
          },
          if copies_bootfs p target && copies_kernel p target
              then none
              else some (property_not_set target),
        )
      ]

  unfoldable pub dataset_exists : Bytes → Cache → Bool
  dataset_exists name cache = elim (find_in_children name cache) [ none ↦ false | some d ↦ true ]

  unfoldable pub clone_dataset : Dataset → Bytes → Bool → Transaction → Cloned
  unfolding clone_mountpoint clone_can_mount add_clone dataset_exists
  clone_dataset d target ignore t =
      if z.clones t.cache (name_of d) target (clone_mountpoint (prop_of d))
        (clone_can_mount (prop_of d))
      then add_clone (prop_of d) target t
      else if ignore && dataset_exists target t.cache
      then (t, none)
      else (t, some (not_cloned (name_of d) target))

  unfoldable pub chain : Cloned → (Transaction → Cloned) → Cloned
  chain (t, some e) next = (t, some e)
  chain (t, none) next = next t

  module _ (snap root new_root : Bytes) (ignore : Bool) where
    unfoldable pub destination : Bytes → Bytes
    unfolding replace_first trim_suffix
    destination name = replace_first (trim_suffix name (b'@' ∷ snap)) root new_root

    -- Behind the look up of the dataset of a snapshot.
    unfoldable pub if_parent : Bytes → Transaction → (Transaction → Cloned) → Cloned
    if_parent name u below = elim (find_in_children (split_snapshot_name name).0 u.cache) [
      | none ↦ (u, some (no_parent name))
      | some parent ↦ below u
    ]

    -- The snapshots among some children are cloned, each followed by what is below their dataset.
    unfoldable pub clone_matching : Children → (Transaction → Cloned) → Transaction → Cloned
    unfolding clone_dataset destination chain if_parent
    clone_matching nil below t = (t, none)
    clone_matching (cons c cs) below t =
        let rest = clone_matching cs below in
        if has_suffix (name_of c) (b'@' ∷ snap)
        then chain (clone_dataset c (destination (name_of c)) ignore t)
            (λ u. chain (if_parent (name_of c) u below) rest)
        else rest t

    -- The loop over the children of a dataset whose snapshot was cloned.
    unfoldable pub clone_below : Children → Transaction → Cloned
    unfolding clone_matching
    clone_below nil t = (t, none)
    clone_below (cons (dataset n s p cs) ds) t =
        let below = clone_below cs in
        let later = clone_below ds in if s then later t else chain (clone_matching cs below t) later

    unfoldable pub clone_recursive : Dataset → Children → Bool → Transaction → Cloned
    unfolding clone_dataset destination chain clone_below
    clone_recursive d cs recursive t =
        chain (clone_dataset d (destination (name_of d)) ignore t)
          (λ u. if recursive then clone_below cs u else (u, none))

  -- `nestedTransaction.Done`.
  unfoldable pub nested_end : Transaction → Cloned → Cloned
  unfolding cancel
  nested_end parent (nested, some e) =
      (record { cache = (cancel nested).cache; reverts = parent.reverts }, some e)
  nested_end parent (nested, none) =
      (record { cache = nested.cache; reverts = parent.reverts ++ nested.reverts }, none)

  -- The part of `Clone` in the nested transaction.
  unfoldable pub clone_snapshot : Dataset → Bytes → Bool → Bool → Transaction → Cloned
  unfolding clone_recursive new_root_name check_integrity
  clone_snapshot d suffix ignore recursive t =
      let (root, snap) = split_snapshot_name (name_of d) in
      elim (find_in_children root t.cache) [
        | none ↦ (t, some (no_parent (name_of d)))
        | some parent ↦ elim (if recursive then check_integrity parent snap true else none) [
          | some e ↦ (t, some (integrity_failed e))
          | none ↦
              clone_recursive snap root (new_root_name root suffix) ignore d (children_of parent)
                recursive t
        ]
      ]

  unfoldable pub clone : Bytes → Bytes → Bool → Bool → Transaction → Cloned
  unfolding nested_end nested_of clone_snapshot
  clone name [] ignore recursive t = (t, some no_suffix)
  clone name (c ∷ suffix) ignore recursive t = elim (find_in_children name t.cache) [
    | none ↦ (t, some (not_found name))
    | some d ↦
        if not (is_snapshot_of d)
        then (t, some (not_a_snapshot name))
        else nested_end t (clone_snapshot d (c ∷ suffix) ignore recursive (nested_of t))
  ]
