-- ===== src/Zfs/Names.antt =====
-- Dataset and snapshot names: `splitSnapshotName` of internal/zfs/helpers.go, which
-- internal/machines/helpers.go repeats.
use zsys.Prelude.{◌+◌, false, none, some, [], ◌∷◌, ◌++◌, ◌≡◌, arith, take, drop}
use zsys.Text.{Bytes, has_byte, last_index}
use zsys.Text.Laws.{last_index-absent, last_index-append, take-append, drop-append_suc}

unfoldable pub split_snapshot_name : Bytes → Bytes × Bytes
unfolding last_index
split_snapshot_name name = elim (last_index name b'@') [
  | none ↦ (name, [])
  | some i ↦ (take i name, drop (i + 1) name)
]

-- The full name of the snapshot `snap` of a dataset.
abbrev pub snapshot_of : Bytes → Bytes → Bytes
snapshot_of dataset snap = dataset ++ b'@' ∷ snap

-- A snapshot's full name is taken apart at its last @.
pub split_snapshot_name-snapshot_of :
    (dataset snap : Bytes)
    → has_byte b'@' snap ≡ false
    → split_snapshot_name (snapshot_of dataset snap) ≡ (dataset, snap)
unfolding split_snapshot_name
split_snapshot_name-snapshot_of d s h =
    rw (last_index-append d s b'@' h, split_snapshot_name)
      (ground (arith, take-append d (b'@' ∷ s), drop-append_suc d s b'@'))

pub split_snapshot_name-filesystem :
    (name : Bytes) → has_byte b'@' name ≡ false → split_snapshot_name name ≡ (name, [])
unfolding split_snapshot_name
split_snapshot_name-filesystem name h = rw (last_index-absent name b'@' h, split_snapshot_name)
