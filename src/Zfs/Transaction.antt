-- ===== src/Zfs/Transaction.antt =====
-- `Transaction` and `nestedTransaction` of internal/zfs/zfs.go over the cache of datasets, with
-- `Snapshot` and the `destroyOne` that reverts it. Of libzfs the model takes whether it creates a
-- snapshot, whether it destroys a dataset, and the properties of a new snapshot.
pub mod Laws
pub mod Restore
pub mod Success
mod Tests
use zsys.Prelude.{
  Bool, true, false, not, Option, none, some, List, [], ◌∷◌, ◌++◌, ◌≡◌, refl, if◌then◌else◌,
}
use zsys.Text.{Bytes}
use zsys.Zfs.Names.{split_snapshot_name, snapshot_of}
use zsys.Zfs.Dataset.{
  Dataset, dataset, Children, nil, cons, DatasetProp, name_of, is_snapshot_of, children_of,
}
use zsys.Zfs.Cache.{Cache, find_in_children, change_in_children, append_child, drop_child, dir}

-- The cache, and the reverts of the transaction in the order in which they were registered. A revert
-- that fails is logged, and leaves what it did.
pub record Transaction : Type 0 where
  pub cache : Cache
  pub reverts : List (Cache → Cache)

-- The loop over the reverts when the context is cancelled: the last one first.
unfoldable pub run_reverts : List (Cache → Cache) → Cache → Cache
run_reverts [] cache = cache
run_reverts (r ∷ rs) cache = r (run_reverts rs cache)

-- `cancel`, and then `Done`.
unfoldable pub cancel : Transaction → Transaction
unfolding run_reverts
cancel t = record { cache = run_reverts t.reverts t.cache; reverts = [] }

-- `Done` without `cancel`.
unfoldable pub done : Transaction → Transaction
done t = record { cache = t.cache; reverts = [] }

unfoldable pub register_revert : (Cache → Cache) → Transaction → Transaction
register_revert f t = record { cache = t.cache; reverts = t.reverts ++ f ∷ [] }

pub data SnapshotError : Type 0 where
  not_found : Bytes → SnapshotError
  not_created : Bytes → SnapshotError

-- What a part of an operation leaves, and its error.
pub record Outcome : Type 0 where
  pub transaction : Transaction
  pub error : Option SnapshotError

-- `newNestedTransaction`, with the cache as it is.
unfoldable pub nested_of : Transaction → Transaction
nested_of parent = record { cache = parent.cache; reverts = [] }

-- `nestedTransaction.Done`.
unfoldable pub nested_done : Transaction → Outcome → Outcome
unfolding cancel
nested_done parent nested = elim nested.error [
  | some e ↦ record {
    transaction = record { cache = (cancel nested.transaction).cache; reverts = parent.reverts };
    error = some e;
  }
  | none ↦ record {
    transaction = record {
      cache = nested.transaction.cache;
      reverts = parent.reverts ++ nested.transaction.reverts;
    };
    error = none;
  }
]

has_children : Children → Bool
has_children nil = false
has_children (cons d ds) = true

-- What the calls of libzfs answer.
pub record Libzfs : Type 0 where
  -- `DatasetSnapshot` succeeds.
  pub creates : Cache → Bytes → Bool
  -- `Destroy` of a dataset succeeds.
  pub destroys : Bytes → Bool
  -- What `refreshProperties` reads for a new snapshot.
  pub properties : Bytes → DatasetProp

module _ (z : Libzfs) where
  -- `destroyOne`, with its errors left out, which its caller only logs.
  unfoldable pub destroy_one : Dataset → Cache → Cache
  unfolding has_children dir
  destroy_one d cache =
      if has_children (children_of d)
      then cache
      else if not (z.destroys (name_of d))
      then cache
      else let parent =
          if is_snapshot_of d then (split_snapshot_name (name_of d)).0 else dir (name_of d) in
        elim (find_in_children parent cache) [
          | none ↦ cache
          | some p ↦ change_in_children parent (drop_child (name_of d)) cache
        ]

  abbrev pub new_snapshot : Bytes → Dataset
  new_snapshot name = dataset name true (z.properties name) nil

  -- The part of `snapshotRecursive` behind the call that created the snapshot of n.
  unfoldable pub take_snapshot : Bytes → Bytes → Transaction → Transaction
  unfolding register_revert destroy_one
  take_snapshot n snap t =
      let d = new_snapshot (snapshot_of n snap) in
      let registered = register_revert (destroy_one d) t in
      record {
        cache = change_in_children n (append_child d) registered.cache;
        reverts = registered.reverts;
      }

  -- The loop runs over the children that the dataset had before: the new one is a snapshot, which
  -- the loop skips.
  unfoldable mutual
    unfolding take_snapshot

    pub snapshot_recursive : Dataset → Bytes → Bool → Transaction → Outcome
    snapshot_recursive (dataset n s p cs) snap recursive t =
        let made = take_snapshot n snap t in
        let below = snapshot_children cs snap made in
        if not (z.creates t.cache (snapshot_of n snap))
        then record { transaction = t; error = some (not_created (snapshot_of n snap)) }
        else if not recursive
        then record { transaction = made; error = none }
        else below

    pub snapshot_children : Children → Bytes → Transaction → Outcome
    snapshot_children nil snap t = record { transaction = t; error = none }
    snapshot_children (cons d ds) snap t =
        let skipped : Outcome = record { transaction = t; error = none } in
        let tried = snapshot_recursive d snap true t in
        let here = if is_snapshot_of d then skipped else tried in
        elim here.error [ some e ↦ here | none ↦ snapshot_children ds snap here.transaction ]

  unfoldable pub snapshot : Bytes → Bytes → Bool → Transaction → Outcome
  unfolding snapshot_recursive nested_done nested_of
  snapshot snap name recursive t = elim (find_in_children name t.cache) [
    | none ↦ record { transaction = t; error = some (not_found name) }
    | some d ↦ nested_done t (snapshot_recursive d snap recursive (nested_of t))
  ]
