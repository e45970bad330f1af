-- ===== src/Zfs/Hierarchy/Snapshots.antt =====
-- `HasSnapshotInHierarchy` finds exactly the snapshots below a dataset.
use mathlib.Core.Path.{subst}
use zsys.Prelude.{true, false, ◌||◌, ◌≡◌, refl, sym, ◌⊎◌, inl, inr, arith, Bool-cases}
use zsys.Zfs.Dataset.{Dataset, dataset, Children, nil, cons, is_snapshot_of, children_of}
use zsys.Zfs.Hierarchy.{has_snapshot_in_hierarchy, has_snapshot_in_children}
use zsys.Zfs.Hierarchy.Reach.{ChildIn, Reach, here, below}

-- A snapshot that is a child of d or of a dataset below it.
abbrev pub SnapshotBelow : Dataset → Type 0
SnapshotBelow d =
    (p c : Dataset) × Reach d p × ChildIn c (children_of p) × (is_snapshot_of c ≡ true)

abbrev SnapshotAmong : Children → Type 0
SnapshotAmong ds =
    (c : Dataset) × ChildIn c ds
    × ((is_snapshot_of c ≡ true) ⊎ ((is_snapshot_of c ≡ false) × SnapshotBelow c))

mutual
  unfolding has_snapshot_in_hierarchy has_snapshot_in_children

  found_below : (d : Dataset) → has_snapshot_in_hierarchy d ≡ true → SnapshotBelow d
  found_below (dataset n true p cs) h = cc
  found_below (dataset n false p cs) h =
      let (c, i, which) = found_among cs h in
      elim which [
        | inl s ↦ (dataset n false p cs, c, here refl, i, s)
        | inr (f, (q, e, r, j, s)) ↦ (q, e, below c i f r, j, s)
      ]

  found_among : (ds : Children) → has_snapshot_in_children ds ≡ true → SnapshotAmong ds
  found_among nil h = cc
  found_among (cons d ds) h = elim (Bool-cases (is_snapshot_of d)) [
    | inl s ↦ (d, inl refl, inl s)
    | inr f ↦ elim (Bool-cases (has_snapshot_in_hierarchy d)) [
      | inl y ↦ (d, inl refl, inr (f, found_below d y))
      | inr n ↦ let (c, i, which) = found_among ds (rw (f, n) at h) in (c, inr i, which)
    ]
  ]

among_found :
    (ds : Children) (c : Dataset)
    → ChildIn c ds
    → (is_snapshot_of c || has_snapshot_in_hierarchy c) ≡ true
    → has_snapshot_in_children ds ≡ true
unfolding has_snapshot_in_children
among_found nil c i h = elim i [ ]
among_found (cons d ds) c (inl q) h = rw (← q, h) refl
among_found (cons d ds) c (inr i) h = ground (arith, among_found ds c i h)

step_found :
    (d : Dataset)
    → is_snapshot_of d ≡ false
    → has_snapshot_in_children (children_of d) ≡ true
    → has_snapshot_in_hierarchy d ≡ true
unfolding has_snapshot_in_hierarchy
step_found (dataset n s p cs) f h = rw f h

below_found :
    (d p c : Dataset)
    → is_snapshot_of d ≡ false
    → Reach d p
    → ChildIn c (children_of p)
    → is_snapshot_of c ≡ true
    → has_snapshot_in_hierarchy d ≡ true
below_found d p c f (here q) i s =
    step_found d f
      (among_found (children_of d) c (subst (λ x. ChildIn c (children_of x)) (sym q) i) (rw s refl))
below_found d p c f (below e j g r) i s =
    step_found d f (among_found (children_of d) e j (rw (g, below_found e p c g r i s) refl))

-- A filesystem dataset has a snapshot in its hierarchy exactly if a snapshot is a child of it or of
-- a filesystem dataset below it; a snapshot never has one.
pub has_snapshot_in_hierarchy_iff :
    (d : Dataset)
    → (is_snapshot_of d ≡ false → SnapshotBelow d → has_snapshot_in_hierarchy d ≡ true)
      × (has_snapshot_in_hierarchy d ≡ true → SnapshotBelow d × (is_snapshot_of d ≡ false))
unfolding has_snapshot_in_hierarchy
has_snapshot_in_hierarchy_iff d =
    (λ f b. below_found d b.0 b.1 f b.2 b.3 b.4, λ h. (found_below d h, filesystem d h))
  where
    filesystem : (e : Dataset) → has_snapshot_in_hierarchy e ≡ true → is_snapshot_of e ≡ false
    filesystem (dataset n true p cs) h = cc
    filesystem (dataset n false p cs) h = refl
