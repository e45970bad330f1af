-- ===== src/Zfs/Dataset.antt =====
-- `Dataset`, `DatasetProp` and `datasetSources` of internal/zfs/zfs.go: the cached tree of datasets
-- with the properties that the program reads. The handle `dZFS` on libzfs is not part of it.
use zsys.Prelude.{ℕ, Bool, List, [], ◌∷◌}
use zsys.Text.{Bytes}

pub record DatasetSources : Type 0 where
  pub mountpoint : Bytes
  pub can_mount : Bytes
  pub boot_fs : Bytes
  pub last_used : Bytes
  pub last_booted_kernel : Bytes
  pub bootfs_datasets : Bytes

pub record DatasetProp : Type 0 where
  pub mountpoint : Bytes
  pub can_mount : Bytes
  pub mounted : Bool
  pub boot_fs : Bool
  pub last_used : ℕ
  pub last_booted_kernel : Bytes
  pub bootfs_datasets : Bytes
  pub origin : Bytes
  pub sources : DatasetSources

-- The slice of children is the second type of the block.
mutual
  pub data Dataset : Type 0 where
    dataset : Bytes → Bool → DatasetProp → Children → Dataset

  pub data Children : Type 0 where
    nil : Children
    cons : Dataset → Children → Children

abbrev pub name_of : Dataset → Bytes
name_of (dataset name is_snapshot prop children) = name

abbrev pub is_snapshot_of : Dataset → Bool
is_snapshot_of (dataset name is_snapshot prop children) = is_snapshot

abbrev pub prop_of : Dataset → DatasetProp
prop_of (dataset name is_snapshot prop children) = prop

abbrev pub children_of : Dataset → Children
children_of (dataset name is_snapshot prop children) = children

abbrev pub to_list : Children → List Dataset
to_list nil = []
to_list (cons d ds) = d ∷ to_list ds
