-- ===== src/Zfs/Create.antt =====
-- `Create` of internal/zfs/zfs.go over the cache of datasets. Its revert is `Destroy`. A dataset that
-- was created without a parent stays in the map of all datasets, outside the trees of the pools: the
-- error carries it.
pub mod Laws
pub mod Found
use zsys.Prelude.{Bool, true, false, not, Option, none, some, List, [], ◌∷◌, if◌then◌else◌}
use zsys.Text.{Bytes, codes, text_eq}
use zsys.Zfs.Dataset.{Dataset, dataset, nil, DatasetProp, name_of}
use zsys.Zfs.Cache.{Cache, find_in_children, change_in_children, append_child, dir}
use zsys.Zfs.Transaction.{Transaction, register_revert}
use zsys.Zfs.Destroy.{Backend, destroy}

-- What libzfs answers.
pub record Creator : Type 0 where
  -- `DatasetCreate` succeeds with the mountpoint, if one is set, and the value of canmount.
  pub creates : Cache → Bytes → Option Bytes → Bytes → Bool
  -- What `refreshProperties` reads for a new dataset.
  pub properties : Bytes → DatasetProp
  pub backend : Backend

pub data CreateError : Type 0 where
  not_created : Bytes → CreateError
  -- The parent of the new dataset is not found.
  orphaned : Dataset → CreateError

-- The entries that the map of all datasets keeps outside the trees, which the cache here does not have:
-- a dataset without a parent is put into the map, and its revert does not take it out.
unfoldable pub left_in_map : Option CreateError → List Dataset
left_in_map (some (orphaned d)) = d ∷ []
left_in_map e = []

-- `props` with the mountpoint.
unfoldable pub mountpoint_property : Bytes → Option Bytes
mountpoint_property [] = none
mountpoint_property (c ∷ mountpoint) = some (c ∷ mountpoint)

-- The revert; its error is only logged.
unfoldable pub destroy_again : Backend → Bytes → Cache → Cache
unfolding destroy
destroy_again z name cache = (destroy z name cache).0

module _ (z : Creator) where
  abbrev pub new_dataset : Bytes → Dataset
  new_dataset path = dataset path false (z.properties path) nil

  unfoldable pub create : Bytes → Bytes → Bytes → Transaction → Transaction × Option CreateError
  unfolding mountpoint_property register_revert destroy_again
  create path mountpoint canmount t =
      let registered = register_revert (destroy_again z.backend path) t in
      if not (z.creates t.cache path (mountpoint_property mountpoint) canmount)
      then (t, some (not_created path))
      else elim (find_in_children (dir path) registered.cache) [
        | none ↦ (registered, some (orphaned (new_dataset path)))
        | some parent ↦ (
          record {
            cache =
                change_in_children (dir path) (append_child (new_dataset path)) registered.cache;
            reverts = registered.reverts;
          },
          none,
        )
      ]
