-- ===== src/Zfs/Destroy.antt =====
-- `Destroy`, `destroyRecursive` and `destroyOne` of internal/zfs/zfs.go, with `checkNoClone` of
-- internal/zfs/helpers.go, over the cache of datasets. The children of a dataset are those that it has
-- when it is reached; whether children are left is asked of the dataset that is then in the cache.
pub mod Laws
mod Tests
use zsys.Prelude.{
  Bool, true, false, not, Option, none, some, List, [], ◌∷◌, ◌≡◌, refl, if◌then◌else◌, ◌&&◌,
}
use zsys.Text.{Bytes, text_eq}
use zsys.Zfs.Names.{split_snapshot_name, snapshot_of}
use zsys.Zfs.Dataset.{Dataset, dataset, Children, nil, cons, name_of, is_snapshot_of, children_of}
use zsys.Zfs.Hierarchy.{has_snapshot_in_hierarchy, remove_child}
use zsys.Zfs.Cache.{Cache, find_in_children, change_in_children, drop_child, dir}

-- What libzfs answers: whether it destroys a dataset, and the clones of one, unless the scan fails.
pub record Backend : Type 0 where
  pub destroys : Bytes → Bool
  pub clones : Bytes → Option (List Bytes)

pub data CloneError : Type 0 where
  scan_failed : Bytes → CloneError
  has_clones : Bytes → List Bytes → CloneError

pub data DestroyError : Type 0 where
  not_found : Bytes → DestroyError
  cloned : CloneError → DestroyError
  no_parent : Bytes → DestroyError
  has_snapshots : Bytes → DestroyError
  has_children : Bytes → DestroyError
  not_destroyed : Bytes → DestroyError

-- The cache that is left, and the error.
abbrev pub Destroyed : Type 0
Destroyed = Cache × Option DestroyError

abbrev pub is_leaf : Dataset → Bool
is_leaf (dataset n s p nil) = true
is_leaf (dataset n s p (cons d ds)) = false

module _ (z : Backend) where
  -- The clones of a dataset itself.
  unfoldable pub own_clones : Bytes → Option CloneError
  own_clones name = elim (z.clones name) [
    | none ↦ some (scan_failed name)
    | some [] ↦ none
    | some (c ∷ cs) ↦ some (has_clones name (c ∷ cs))
  ]

  unfoldable mutual
    unfolding own_clones

    pub check_no_clone : Dataset → Option CloneError
    check_no_clone (dataset n s p cs) =
        let below = check_no_clone_children cs in
        elim (own_clones n) [ some e ↦ some e | none ↦ below ]

    pub check_no_clone_children : Children → Option CloneError
    check_no_clone_children nil = none
    check_no_clone_children (cons d ds) =
        let later = check_no_clone_children ds in
        elim (check_no_clone d) [ some e ↦ some e | none ↦ later ]

  -- The parent from which a dataset is taken.
  abbrev pub parent_name : Dataset → Bytes
  parent_name d = if is_snapshot_of d then (split_snapshot_name (name_of d)).0 else dir (name_of d)

  -- `removeChild` of the parent; its error is only logged.
  unfoldable pub detach : Dataset → Cache → Destroyed
  detach d cache = elim (find_in_children (parent_name d) cache) [
    | none ↦ (cache, some (no_parent (name_of d)))
    | some p ↦ (change_in_children (parent_name d) (drop_child (name_of d)) cache, none)
  ]

  unfoldable pub destroy_one : Dataset → Cache → Destroyed
  unfolding detach
  destroy_one d cache =
      if not (is_leaf d)
      then (cache, some (has_children (name_of d)))
      else if not (z.destroys (name_of d))
      then (cache, some (not_destroyed (name_of d)))
      else detach d cache

  -- The dataset as it is in the cache.
  abbrev pub live : Dataset → Cache → Dataset
  live d cache = elim (find_in_children (name_of d) cache) [ none ↦ d | some e ↦ e ]

  -- Behind the loop over the children: the snapshot of the dataset `n`, if there is one, is destroyed,
  -- or the dataset itself.
  unfoldable pub destroy_target : Dataset → Bytes → Cache → Destroyed
  unfolding destroy_one
  destroy_target d [] cache = destroy_one (live d cache) cache
  destroy_target d (c ∷ snap) cache =
      elim (find_in_children (snapshot_of (name_of d) (c ∷ snap)) cache) [
        | none ↦ (cache, none)
        | some e ↦ destroy_one e cache
      ]

  unfoldable mutual
    unfolding destroy_target

    pub destroy_recursive : Dataset → Bytes → Cache → Destroyed
    destroy_recursive (dataset n s p cs) snap cache =
        let (left, error) = destroy_children cs snap cache in
        if s && not (text_eq snap []) then (cache, none) else elim error [
          | some e ↦ (left, some e)
          | none ↦ destroy_target (dataset n s p cs) snap left
        ]

    pub destroy_children : Children → Bytes → Cache → Destroyed
    destroy_children nil snap cache = (cache, none)
    destroy_children (cons d ds) snap cache =
        let (left, error) = destroy_recursive d snap cache in
        elim error [ some e ↦ (left, some e) | none ↦ destroy_children ds snap left ]

  -- What is destroyed, and under which snapshot name.
  unfoldable pub destroy_found : Bytes → Dataset → Cache → Destroyed
  unfolding destroy_recursive has_snapshot_in_hierarchy
  destroy_found name d cache =
      let (parent, snap) = split_snapshot_name (name_of d) in
      if not (is_snapshot_of d)
      then if has_snapshot_in_hierarchy d
        then (cache, some (has_snapshots (name_of d)))
        else destroy_recursive d [] cache
      else elim (find_in_children parent cache) [
        | none ↦ (cache, some (no_parent (name_of d)))
        | some target ↦
            if has_snapshot_in_hierarchy d
            then (cache, some (has_snapshots (name_of d)))
            else destroy_recursive target snap cache
      ]

  unfoldable pub destroy : Bytes → Cache → Destroyed
  unfolding destroy_found check_no_clone
  destroy name cache = elim (find_in_children name cache) [
    | none ↦ (cache, some (not_found name))
    | some d ↦ elim (check_no_clone d) [
      | some e ↦ (cache, some (cloned e))
      | none ↦ destroy_found name d cache
    ]
  ]
