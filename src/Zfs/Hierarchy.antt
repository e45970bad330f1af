-- ===== src/Zfs/Hierarchy.antt =====
-- The functions of internal/zfs/helpers.go and zfs.go that walk the tree of datasets.
pub mod Reach
pub mod Snapshots
pub mod Order
pub mod Laws
use zsys.Prelude.{
  Bool, true, false, not, ◌&&◌, ◌||◌, Option, none, some, List, [], ◌∷◌, ◌++◌, ◌≡◌, refl,
  if◌then◌else◌,
}
use zsys.Text.{Bytes, codes, text_eq, contains}
use zsys.Zfs.Names.{snapshot_of}
use zsys.Zfs.Dataset.{
  Dataset, dataset, Children, nil, cons, DatasetProp, name_of, is_snapshot_of, prop_of, children_of,
}

-- `HasSnapshotInHierarchy`.
unfoldable mutual
  pub has_snapshot_in_hierarchy : Dataset → Bool
  has_snapshot_in_hierarchy (dataset name is_snapshot prop children) =
      if is_snapshot then false else has_snapshot_in_children children

  pub has_snapshot_in_children : Children → Bool
  has_snapshot_in_children nil = false
  has_snapshot_in_children (cons d ds) =
      (is_snapshot_of d || has_snapshot_in_hierarchy d) || has_snapshot_in_children ds

-- The search for the snapshot of the dataset itself.
unfoldable pub has_child_named : Bytes → Children → Bool
has_child_named name nil = false
has_child_named name (cons d ds) = text_eq (name_of d) name || has_child_named name ds

-- `checkSnapshotHierarchyIntegrity`; the error carries the dataset's name and the snapshot's.
unfoldable mutual
  pub check_integrity : Dataset → Bytes → Bool → Option (Bytes × Bytes)
  check_integrity (dataset name is_snapshot prop children) snap on_parent =
      let found = has_child_named (snapshot_of name snap) children in
      let below = check_children children snap found in
      if found && not on_parent then some (name, snapshot_of name snap) else below

  pub check_children : Children → Bytes → Bool → Option (Bytes × Bytes)
  check_children nil snap found = none
  check_children (cons d ds) snap found =
      let here = check_integrity d snap found in
      let later = check_children ds snap found in
      if is_snapshot_of d then later else elim here [ some e ↦ some e | none ↦ later ]

-- `Datasets` below the virtual root: each dataset before its children.
unfoldable mutual
  pub collect_dataset : Dataset → List Dataset
  collect_dataset (dataset name is_snapshot prop children) =
      dataset name is_snapshot prop children ∷ collect_children children

  pub collect_children : Children → List Dataset
  collect_children nil = []
  collect_children (cons d ds) = collect_dataset d ++ collect_children ds

-- `removeChild`: the first child of the name is taken out; `none` is the error.
unfoldable pub remove_child : Bytes → Children → Option Children
remove_child name nil = none
remove_child name (cons d ds) =
    let rest = remove_child name ds in
    if text_eq (name_of d) name
    then some ds
    else elim rest [ none ↦ none | some r ↦ some (cons d r) ]

abbrev pub userdata_segment : Bytes
userdata_segment = codes "/USERDATA/"

-- `IsUserDataset`; `none` is the error on a snapshot.
unfoldable pub is_user_dataset : Dataset → Option Bool
is_user_dataset d =
    if not (contains (name_of d) userdata_segment)
    then some false
    else if is_snapshot_of d
    then none
    else some (not (text_eq (prop_of d).sources.bootfs_datasets []))
