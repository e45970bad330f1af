-- ===== src/Zfs/Hierarchy/Laws.antt =====
-- `checkSnapshotHierarchyIntegrity` and `HasSnapshotInHierarchy` against what stands below a dataset.
use mathlib.Core.Path.{subst}
use zsys.Prelude.{
  Bool, true, false, not, ◌&&◌, Option, none, some, ◌≡◌, refl, inl, inr, arith, if◌then◌else◌,
  Bool-cases,
}
use zsys.Text.{Bytes}
use zsys.Zfs.Names.{snapshot_of}
use zsys.Zfs.Dataset.{Dataset, dataset, Children, nil, cons, is_snapshot_of, children_of}
use zsys.Zfs.Hierarchy.{check_integrity, check_children}
use zsys.Zfs.Hierarchy.Reach.{ChildIn, Reach, here, below, taken}

-- The error of a child and of the later ones.
no_error {ℓ} :
    {E : Type ℓ} (skip : Bool) (here later : Option E)
    → (if skip then later else elim here [ some e ↦ some e | none ↦ later ]) ≡ none
    → (skip ≡ false → here ≡ none) × (later ≡ none)
no_error true a b e = (λ f. absurd (cc), e)
no_error false none b e = (λ f. refl, e)
no_error false (some x) b e = cc

-- The error of the dataset itself.
no_refusal {ℓ} :
    {E : Type ℓ} (found on : Bool) (err : E) (later : Option E)
    → (if found && not on then some err else later) ≡ none
    → (found ≡ true → on ≡ true) × (later ≡ none)
no_refusal true true err later e = (λ _. refl, e)
no_refusal true false err later e = cc
no_refusal false on err later e = (λ f. absurd (cc), e)

unrefused {ℓ} :
    {E : Type ℓ} (found on : Bool) (err : E) (later : Option E)
    → (found ≡ true → on ≡ true)
    → later ≡ none
    → (if found && not on then some err else later) ≡ none
unrefused true true err later h e = e
unrefused true false err later h e = absurd (ground (arith, h refl))
unrefused false on err later h e = e

check_children-child :
    (ds : Children) (snap : Bytes) (found : Bool) (c : Dataset)
    → check_children ds snap found ≡ none
    → ChildIn c ds
    → is_snapshot_of c ≡ false
    → check_integrity c snap found ≡ none
unfolding check_children
check_children-child nil snap found c e i f = elim i [ ]
check_children-child (cons d ds) snap found c e (inl q) f =
    let (fine, later) =
      no_error (is_snapshot_of d) (check_integrity d snap found) (check_children ds snap found) e in
    rw q (fine (rw q at f))
check_children-child (cons d ds) snap found c e (inr i) f =
    check_children-child ds snap found c
      (no_error (is_snapshot_of d) (check_integrity d snap found) (check_children ds snap found)
        e).1
      i f

check_integrity-parts :
    (d : Dataset) (snap : Bytes) (on_parent : Bool)
    → check_integrity d snap on_parent ≡ none
    → (taken snap d ≡ true → on_parent ≡ true)
      × (check_children (children_of d) snap (taken snap d) ≡ none)
unfolding check_integrity
check_integrity-parts (dataset n s p cs) snap on_parent e =
    no_refusal (taken snap (dataset n s p cs)) on_parent (n, snapshot_of n snap)
      (check_children cs snap (taken snap (dataset n s p cs))) e

-- Below a dataset that is accepted, a snapshot is on the dataset itself.
accepted_above :
    (d e : Dataset) (snap : Bytes) (on_parent : Bool)
    → check_integrity d snap on_parent ≡ none
    → Reach d e
    → taken snap e ≡ true
    → taken snap d ≡ true
accepted_above d e snap on_parent h (here q) found = rw q found
accepted_above d e snap on_parent h (below c i f r) found =
    let rest = (check_integrity-parts d snap on_parent h).1 in
    let next = check_children-child (children_of d) snap (taken snap d) c rest i f in
    (check_integrity-parts c snap (taken snap d) next).0
      (accepted_above c e snap (taken snap d) next r found)

accepted_below :
    (d p : Dataset) (snap : Bytes) (on_parent : Bool)
    → check_integrity d snap on_parent ≡ none
    → Reach d p
    → (on : Bool) × (check_integrity p snap on ≡ none)
accepted_below d p snap on_parent h (here q) =
    (on_parent, subst (λ x. check_integrity x snap on_parent ≡ none) q h)
accepted_below d p snap on_parent h (below c i f r) =
    accepted_below c p snap (taken snap d)
      (check_children-child (children_of d) snap (taken snap d) c
        (check_integrity-parts d snap on_parent h).1 i f)
      r

-- Every dataset with the snapshot stands only below datasets with it.
abbrev pub Nested : Bytes → Dataset → Type 0
Nested snap d = (p e : Dataset) → Reach d p → Reach p e → taken snap e ≡ true → taken snap p ≡ true

Nested-child :
    (snap : Bytes) (d c : Dataset)
    → Nested snap d
    → ChildIn c (children_of d)
    → is_snapshot_of c ≡ false
    → Nested snap c
Nested-child snap d c h i f p e r q found = h p e (below c i f r) q found

mutual
  unfolding check_integrity check_children

  accepts :
      (d : Dataset) (snap : Bytes) (on_parent : Bool)
      → (taken snap d ≡ true → on_parent ≡ true)
      → Nested snap d
      → check_integrity d snap on_parent ≡ none
  accepts (dataset n s p cs) snap on_parent on h =
      let this = dataset n s p cs in
      unrefused (taken snap this) on_parent (n, snapshot_of n snap)
        (check_children cs snap (taken snap this)) on
        (accepts_children cs snap (taken snap this)
          (λ c i f t. h this c (here refl) (below c i f (here refl)) t)
          (λ c i f. Nested-child snap this c h i f))

  accepts_children :
      (ds : Children) (snap : Bytes) (found : Bool)
      → ((c : Dataset)
          → ChildIn c ds
          → is_snapshot_of c ≡ false
          → taken snap c ≡ true
          → found ≡ true)
      → ((c : Dataset) → ChildIn c ds → is_snapshot_of c ≡ false → Nested snap c)
      → check_children ds snap found ≡ none
  accepts_children nil snap found on h = refl
  accepts_children (cons d ds) snap found on h =
      let rest = accepts_children ds snap found (λ c i. on c (inr i)) (λ c i. h c (inr i)) in
      elim (Bool-cases (is_snapshot_of d)) [
        | inl skip ↦ rw skip rest
        | inr fs ↦ rw (fs, accepts d snap found (on d (inl refl) fs) (h d (inl refl) fs)) rest
      ]

-- The check of the base dataset of a snapshot succeeds exactly if every dataset below it, reached
-- over filesystems, that has the snapshot stands only below datasets that have it too.
pub check_integrity_iff :
    (d : Dataset) (snap : Bytes)
    → (check_integrity d snap true ≡ none → Nested snap d)
      × (Nested snap d → check_integrity d snap true ≡ none)
check_integrity_iff d snap = (sound, accepts d snap true (λ _. refl))
  where
    sound : check_integrity d snap true ≡ none → Nested snap d
    sound h p e r q found =
        let (on, fine) = accepted_below d p snap true h r in accepted_above p e snap on fine q found
