-- ===== src/Zfs/Cache.antt =====
-- The cache of datasets of internal/zfs/zfs.go: `findDatasetByName`, and a change of the children of
-- one dataset. The map `allDatasets` holds exactly the datasets of the trees of the pools, the
-- children of the virtual `root`, so a look up by name is a search in these trees. The root itself
-- is found under the name "." only when a pool is created or destroyed.
pub mod Laws
pub mod Vacant
pub mod Found
use zsys.Prelude.{
  Bool, true, false, not, Option, none, some, ◌+◌, take, if◌then◌else◌, ◌≡◌, refl, [], ◌∷◌,
}
use zsys.Text.{Bytes, text_eq, last_index}
use zsys.Zfs.Names.{split_snapshot_name}
use zsys.Zfs.Dataset.{Dataset, dataset, Children, nil, cons, name_of, is_snapshot_of, children_of}
use zsys.Zfs.Hierarchy.{has_child_named, remove_child}

-- The children of the virtual root.
abbrev pub Cache : Type 0
Cache = Children

unfoldable mutual
  pub find_dataset : Bytes → Dataset → Option Dataset
  find_dataset name (dataset n s p cs) =
      let below = find_in_children name cs in
      if text_eq n name then some (dataset n s p cs) else below

  pub find_in_children : Bytes → Children → Option Dataset
  find_in_children name nil = none
  find_in_children name (cons d ds) = elim (find_dataset name d) [
    | some e ↦ some e
    | none ↦ find_in_children name ds
  ]

-- The children of the dataset of the name are changed.
unfoldable mutual
  pub change_at : Bytes → (Children → Children) → Dataset → Dataset
  change_at name f (dataset n s p cs) =
      let below = change_in_children name f cs in
      if text_eq n name then dataset n s p (f cs) else dataset n s p below

  pub change_in_children : Bytes → (Children → Children) → Children → Children
  change_in_children name f nil = nil
  change_in_children name f (cons d ds) = cons (change_at name f d) (change_in_children name f ds)

-- `parent.children = append(parent.children, &d)`.
unfoldable pub append_child : Dataset → Children → Children
append_child x nil = cons x nil
append_child x (cons d ds) = cons d (append_child x ds)

-- `removeChild`, whose error leaves the children as they are.
unfoldable pub drop_child : Bytes → Children → Children
drop_child name cs = elim (remove_child name cs) [ none ↦ cs | some rest ↦ rest ]

-- `filepath.Dir` of a dataset's name, which has no empty parts.
unfoldable pub dir : Bytes → Bytes
dir name = elim (last_index name b'/') [ none ↦ b'.' ∷ [] | some i ↦ take i name ]

-- No dataset of the name has a child called `child`.
unfoldable mutual
  pub vacant : Bytes → Bytes → Dataset → Bool
  vacant name child (dataset n s p cs) =
      let below = vacant_in_children name child cs in
      if text_eq n name then not (has_child_named child cs) else below

  pub vacant_in_children : Bytes → Bytes → Children → Bool
  vacant_in_children name child nil = true
  vacant_in_children name child (cons d ds) =
      let later = vacant_in_children name child ds in if vacant name child d then later else false
