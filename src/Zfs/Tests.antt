-- ===== src/Zfs/Tests.antt =====
-- The tree of datasets at concrete inputs.
use zsys.Zfs.Samples.{plain}
use zsys.Prelude.{true, false, none, some, ◌≡◌, refl}
use zsys.Text.{Bytes, codes, text_eq}
use zsys.Zfs.Dataset.{Dataset, dataset, nil, cons, is_snapshot_of}
use zsys.Zfs.Hierarchy.{has_snapshot_in_hierarchy, has_child_named, check_integrity}
use zsys.Zfs.Hierarchy.Laws.{Nested, check_integrity_iff}
use zsys.Zfs.Hierarchy.Snapshots.{SnapshotBelow, has_snapshot_in_hierarchy_iff}

abbrev snapshot : Bytes → Dataset
snapshot name = dataset name true plain nil

abbrev var_lib : Dataset
var_lib = dataset (codes "r/u/var") false plain (cons (snapshot (codes "r/u/var@s")) nil)

abbrev root : Dataset
root = dataset (codes "r/u") false plain (cons (snapshot (codes "r/u@s")) (cons var_lib nil))

-- The snapshot of the root is missing.
abbrev torn : Dataset
torn = dataset (codes "r/u") false plain (cons var_lib nil)

check_torn : check_integrity torn (codes "s") true ≡ some (codes "r/u/var", codes "r/u/var@s")
unfolding check_integrity has_child_named text_eq
check_torn = refl

check_integrity_example :
    (check_integrity root (codes "s") true ≡ none → Nested (codes "s") root)
    × (Nested (codes "s") root → check_integrity root (codes "s") true ≡ none)
check_integrity_example = check_integrity_iff root (codes "s")

has_snapshot_example :
    (is_snapshot_of torn ≡ false → SnapshotBelow torn → has_snapshot_in_hierarchy torn ≡ true)
    × (has_snapshot_in_hierarchy torn ≡ true → SnapshotBelow torn × (is_snapshot_of torn ≡ false))
has_snapshot_example = has_snapshot_in_hierarchy_iff torn
