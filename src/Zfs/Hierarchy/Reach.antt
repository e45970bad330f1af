-- ===== src/Zfs/Hierarchy/Reach.antt =====
-- Which datasets stand below which, for the functions of internal/zfs that walk the tree.
use zsys.Prelude.{Bool, false, ◌≡◌, ◌⊎◌}
use zsys.Text.{Bytes}
use zsys.Zfs.Names.{snapshot_of}
use zsys.Zfs.Dataset.{Dataset, Children, nil, cons, name_of, is_snapshot_of, children_of}
use zsys.Zfs.Hierarchy.{has_child_named}

abbrev pub ChildIn : Dataset → Children → Type 0
ChildIn c nil = ⊥
ChildIn c (cons d ds) = (c ≡ d) ⊎ ChildIn c ds

-- Down from a dataset over children that are no snapshots.
pub data Reach : Dataset → Dataset → Type 0 where
  here : {d e : Dataset} → d ≡ e → Reach d e
  below :
      {d e : Dataset} (c : Dataset)
      → ChildIn c (children_of d)
      → is_snapshot_of c ≡ false
      → Reach c e
      → Reach d e

-- The dataset has a child named like its snapshot `snap`.
abbrev pub taken : Bytes → Dataset → Bool
taken snap d = has_child_named (snapshot_of (name_of d) snap) (children_of d)
