-- ===== src/Zfs/Transaction/Laws.antt =====
-- The reverts of snapshots undo them.
use zsys.Prelude.{
  Bool, true, false, none, some, List, [], ◌∷◌, ◌++◌, ◌≡◌, refl, ap, ◌∙◌, if◌then◌else◌, Bool-cases,
  Option-cases, inl, inr,
}
use zsys.Text.{Bytes, has_byte}
use zsys.Zfs.Names.{split_snapshot_name, snapshot_of, split_snapshot_name-snapshot_of}
use zsys.Zfs.Dataset.{Dataset, dataset, Children, nil, cons, is_snapshot_of}
use zsys.Zfs.Cache.{Cache, find_in_children, change_in_children, append_child, vacant_in_children}
use zsys.Zfs.Cache.Laws.{change_back_children, change_missed_children}
use zsys.Zfs.Transaction.{
  Libzfs, Transaction, run_reverts, register_revert, SnapshotError, Outcome, nested_of, nested_done,
  cancel, destroy_one, new_snapshot, take_snapshot, snapshot_recursive, snapshot_children, snapshot,
}

pub run_reverts-append :
    (xs ys : List (Cache → Cache)) (cache : Cache)
    → run_reverts (xs ++ ys) cache ≡ run_reverts xs (run_reverts ys cache)
unfolding run_reverts
run_reverts-append [] ys cache = refl
run_reverts-append (x ∷ xs) ys cache = ap x (run_reverts-append xs ys cache)

-- What cancelling the transaction now would leave.
abbrev pub back : Transaction → Cache
back t = run_reverts t.reverts t.cache

-- libzfs creates no snapshot that exists, and destroys a snapshot just made.
pub record Documented (z : Libzfs) : Type 0 where
  pub fresh :
      (cache : Cache) (n snap : Bytes)
      → has_byte b'@' snap ≡ false
      → z.creates cache (snapshot_of n snap) ≡ true
      → vacant_in_children n (snapshot_of n snap) cache ≡ true
  pub destroyed : (name : Bytes) → z.destroys name ≡ true

back-either :
    (skip : Bool) (t : Transaction) (tried : Outcome)
    → back tried.transaction ≡ back t
    → back (if skip then record { transaction = t; error = none } else tried).transaction ≡ back t
back-either true t tried h = refl
back-either false t tried h = h

-- One round of the loop, and the rounds behind it.
back-go_on :
    (here : Outcome) (later : Transaction → Outcome) (b : Cache)
    → back here.transaction ≡ b
    → ((u : Transaction) → back (later u).transaction ≡ back u)
    → back
        (elim here.error as (λ x. Outcome) [
          | some e ↦ here
          | none ↦ later here.transaction
        ]).transaction
      ≡ b
back-go_on here later b h k = elim (Option-cases here.error) [
  | inl q ↦ rw q (k here.transaction ∙ h)
  | inr (e, q) ↦ rw q h
]

-- A nested transaction that ends with an error, and one that ends well.
nested_done-failed :
    (t : Transaction) (nested : Outcome) (e : SnapshotError)
    → back nested.transaction ≡ t.cache
    → (nested_done t nested).error ≡ some e
    → (nested_done t nested).transaction ≡ t
unfolding nested_done cancel
nested_done-failed t nested e h q = elim (Option-cases nested.error) [
  | inl well ↦ absurd (clash (rw well at q))
  | inr (f, failed) ↦ rw failed (ap (λ c. record { cache = c; reverts = t.reverts }) h)
]
  where
    clash : none ≡ some e → ⊥
    clash g = cc

back-nested_done :
    (t : Transaction) (nested : Outcome)
    → back nested.transaction ≡ t.cache
    → back (nested_done t nested).transaction ≡ back t
unfolding nested_done cancel
back-nested_done t nested h = elim (Option-cases nested.error) [
  | inl well ↦ rw well (
      run_reverts-append t.reverts nested.transaction.reverts nested.transaction.cache
      ∙ ap (run_reverts t.reverts) h)
  | inr (f, failed) ↦ rw failed (ap (run_reverts t.reverts) h)
]

module _ (z : Libzfs) (doc : Documented z) where
  undo_one :
      (n snap : Bytes) (cache : Cache)
      → has_byte b'@' snap ≡ false
      → vacant_in_children n (snapshot_of n snap) cache ≡ true
      → destroy_one z
          (new_snapshot z (snapshot_of n snap))
          (change_in_children n (append_child (new_snapshot z (snapshot_of n snap))) cache)
        ≡ cache
  unfolding destroy_one
  undo_one n snap cache h v =
      let x = new_snapshot z (snapshot_of n snap) in
      let after = change_in_children n (append_child x) cache in
      let parent : (split_snapshot_name (snapshot_of n snap)).0 ≡ n =
        ap (λ r. r.0) (split_snapshot_name-snapshot_of n snap h) in
      rw (doc.destroyed (snapshot_of n snap)) (
        rw parent (elim (Option-cases (find_in_children n after)) [
          | inl q ↦ rw q (change_missed_children n (append_child x) cache q)
          | inr (e, q) ↦ rw q (rw parent (change_back_children n x cache v))
        ]))

  back-take_snapshot :
      (n snap : Bytes) (t : Transaction)
      → has_byte b'@' snap ≡ false
      → z.creates t.cache (snapshot_of n snap) ≡ true
      → back (take_snapshot z n snap t) ≡ back t
  unfolding take_snapshot register_revert run_reverts
  back-take_snapshot n snap t h c =
      let x = new_snapshot z (snapshot_of n snap) in
      run_reverts-append t.reverts (destroy_one z x ∷ [])
        (change_in_children n (append_child x) t.cache)
      ∙ ap (run_reverts t.reverts) (undo_one n snap t.cache h (doc.fresh t.cache n snap h c))

  mutual
    unfolding snapshot_recursive

    back-snapshot_recursive :
        (d : Dataset) (snap : Bytes) (recursive : Bool) (t : Transaction)
        → has_byte b'@' snap ≡ false
        → back (snapshot_recursive z d snap recursive t).transaction ≡ back t
    back-snapshot_recursive (dataset n s p cs) snap recursive t h =
        elim (Bool-cases (z.creates t.cache (snapshot_of n snap))) [
          | inl c ↦ elim (Bool-cases recursive) [
            | inl y ↦
                rw (c, y)
                  (back-snapshot_children cs snap (take_snapshot z n snap t) h
                    ∙ back-take_snapshot n snap t h c)
            | inr other ↦ rw (c, other) (back-take_snapshot n snap t h c)
          ]
          | inr other ↦ rw other refl
        ]

    back-snapshot_children :
        (ds : Children) (snap : Bytes) (t : Transaction)
        → has_byte b'@' snap ≡ false
        → back (snapshot_children z ds snap t).transaction ≡ back t
    back-snapshot_children nil snap t h = refl
    back-snapshot_children (cons d ds) snap t h =
        let tried = snapshot_recursive z d snap true t in
        back-go_on (if is_snapshot_of d then record { transaction = t; error = none } else tried)
          (snapshot_children z ds snap) (back t)
          (back-either (is_snapshot_of d) t tried (back-snapshot_recursive d snap true t h))
          (λ u. back-snapshot_children ds snap u h)

  back-nested :
      (d : Dataset) (snap : Bytes) (recursive : Bool) (t : Transaction)
      → has_byte b'@' snap ≡ false
      → back (snapshot_recursive z d snap recursive (nested_of t)).transaction ≡ t.cache
  unfolding nested_of run_reverts
  back-nested d snap recursive t h = back-snapshot_recursive d snap recursive (nested_of t) h

  -- When libzfs behaves as documented and the snapshot's name has no @: a `Snapshot` that fails, on
  -- the way or at once, leaves the cache and the reverts of the transaction as they were.
  pub snapshot_atomic :
      (snap name : Bytes) (recursive : Bool) (t : Transaction) (e : SnapshotError)
      → has_byte b'@' snap ≡ false
      → (snapshot z snap name recursive t).error ≡ some e
      → (snapshot z snap name recursive t).transaction ≡ t
  unfolding snapshot
  snapshot_atomic snap name recursive t e h q =
      elim (Option-cases (find_in_children name t.cache)) [
        | inl miss ↦ rw (miss, snapshot) refl
        | inr (d, found) ↦
            rw (found, snapshot)
              (nested_done-failed t (snapshot_recursive z d snap recursive (nested_of t)) e
                (back-nested d snap recursive t h) (rw (found, snapshot) at q))
      ]

  -- One `Snapshot` does not change what a cancel of the transaction leaves.
  pub back-snapshot :
      (snap name : Bytes) (recursive : Bool) (t : Transaction)
      → has_byte b'@' snap ≡ false
      → back (snapshot z snap name recursive t).transaction ≡ back t
  unfolding snapshot
  back-snapshot snap name recursive t h = elim (Option-cases (find_in_children name t.cache)) [
    | inl miss ↦ rw (miss, snapshot) refl
    | inr (d, found) ↦
        rw (found, snapshot)
          (back-nested_done t (snapshot_recursive z d snap recursive (nested_of t))
            (back-nested d snap recursive t h))
  ]
