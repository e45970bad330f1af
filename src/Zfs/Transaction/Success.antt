-- ===== src/Zfs/Transaction/Success.antt =====
-- A recursive `Snapshot` without an error took every snapshot.
use mathlib.Core.Path.{subst}
use zsys.Prelude.{
  Bool, true, false, none, some, ◌≡◌, refl, sym, ◌∙◌, if◌then◌else◌, Bool-cases, Option-cases, inl,
  inr,
}
use zsys.Text.{Bytes}
use zsys.Zfs.Names.{snapshot_of}
use zsys.Zfs.Dataset.{Dataset, dataset, Children, nil, cons, name_of, is_snapshot_of}
use zsys.Zfs.Hierarchy.Reach.{ChildIn, Reach, here, below}
use zsys.Zfs.Cache.{Cache, find_in_children, vacant_in_children}
use zsys.Zfs.Cache.Vacant.{appended_children, still_vacant_children, still_missing_children}
use zsys.Zfs.Cache.Found.{reached_found, found_name_children}
use zsys.Zfs.Transaction.{
  Libzfs, Transaction, register_revert, SnapshotError, Outcome, nested_of, nested_done,
  new_snapshot, take_snapshot, snapshot_recursive, snapshot_children, snapshot,
}

-- No dataset of the first cache and no child of one is missing in the second.
pub record Grows (old new : Cache) : Type 0 where
  pub datasets : (n : Bytes) → find_in_children n new ≡ none → find_in_children n old ≡ none
  pub children :
      (n c : Bytes) → vacant_in_children n c new ≡ true → vacant_in_children n c old ≡ true

pub Grows-refl : (c : Cache) → Grows c c
Grows-refl c = record { datasets = λ n h. h; children = λ n x h. h }

pub Grows-trans : (a b c : Cache) → Grows a b → Grows b c → Grows a c
Grows-trans a b c g h = record {
  datasets = λ n k. g.datasets n (h.datasets n k);
  children = λ n x k. g.children n x (h.children n x k);
}

module _ (z : Libzfs) where
  take_snapshot-Grows :
      (n snap : Bytes) (t : Transaction) → Grows t.cache (take_snapshot z n snap t).cache
  unfolding take_snapshot register_revert
  take_snapshot-Grows n snap t =
      let x = new_snapshot z (snapshot_of n snap) in
      record {
        datasets = λ m h. still_missing_children m n x t.cache h;
        children = λ m c h. still_vacant_children m c n x t.cache h;
      }

  Grows-go_on :
      (now : Outcome) (later : Transaction → Outcome) (old : Cache)
      → Grows old now.transaction.cache
      → ((u : Transaction) → Grows u.cache (later u).transaction.cache)
      → Grows old
          (elim now.error as (λ x. Outcome) [
            | some e ↦ now
            | none ↦ later now.transaction
          ]).transaction.cache
  Grows-go_on now later old g h = elim (Option-cases now.error) [
    | inl q ↦ rw q (
        Grows-trans old now.transaction.cache (later now.transaction).transaction.cache g
          (h now.transaction))
    | inr (e, q) ↦ rw q g
  ]

  Grows-either :
      (skip : Bool) (t : Transaction) (tried : Outcome)
      → Grows t.cache tried.transaction.cache
      → Grows t.cache
          (if skip then record { transaction = t; error = none } else tried).transaction.cache
  Grows-either true t tried g = Grows-refl t.cache
  Grows-either false t tried g = g

  mutual
    unfolding snapshot_recursive

    snapshot_recursive-Grows :
        (d : Dataset) (snap : Bytes) (recursive : Bool) (t : Transaction)
        → Grows t.cache (snapshot_recursive z d snap recursive t).transaction.cache
    snapshot_recursive-Grows (dataset n s p cs) snap recursive t =
        elim (Bool-cases (z.creates t.cache (snapshot_of n snap))) [
          | inl c ↦
              let first = take_snapshot-Grows n snap t in
              let made = take_snapshot z n snap t in
              elim (Bool-cases recursive) [
                | inl y ↦
                    rw (c, y)
                      (Grows-trans t.cache made.cache
                        (snapshot_children z cs snap made).transaction.cache first
                        (snapshot_children-Grows cs snap made))
                | inr other ↦ rw (c, other) first
              ]
          | inr other ↦ rw other (Grows-refl t.cache)
        ]

    snapshot_children-Grows :
        (ds : Children) (snap : Bytes) (t : Transaction)
        → Grows t.cache (snapshot_children z ds snap t).transaction.cache
    snapshot_children-Grows nil snap t = Grows-refl t.cache
    snapshot_children-Grows (cons d ds) snap t =
        let tried = snapshot_recursive z d snap true t in
        Grows-go_on (if is_snapshot_of d then record { transaction = t; error = none } else tried)
          (snapshot_children z ds snap) t.cache
          (Grows-either (is_snapshot_of d) t tried (snapshot_recursive-Grows d snap true t))
          (λ u. snapshot_children-Grows ds snap u)

  -- If the dataset has no such snapshot at the end, it was not in the cache at the start.
  abbrev Took : Bytes → Bytes → Cache → Cache → Type 0
  Took n snap old new =
      vacant_in_children n (snapshot_of n snap) new ≡ true → find_in_children n old ≡ none

  take_snapshot-Took :
      (n snap : Bytes) (t : Transaction) → Took n snap t.cache (take_snapshot z n snap t).cache
  unfolding take_snapshot register_revert
  take_snapshot-Took n snap t h =
      appended_children n (new_snapshot z (snapshot_of n snap)) t.cache h

  no_error :
      (now : Outcome) (later : Transaction → Outcome)
      → (elim now.error as (λ x. Outcome) [ some e ↦ now | none ↦ later now.transaction ]).error
        ≡ none
      → (now.error ≡ none) × ((later now.transaction).error ≡ none)
  no_error now later h = elim (Option-cases now.error) [
    | inl q ↦ (q, rw q at h)
    | inr (e, q) ↦ absurd (differ (sym q ∙ rw q at h))
  ]
    where
      differ : {e : SnapshotError} → some e ≡ none → ⊥
      differ g = cc

  no_refusal {ℓ} : {A : Type ℓ} {e : A} → some e ≡ none → ⊥
  no_refusal g = cc

  went_on :
      (now : Outcome) (later : Transaction → Outcome)
      → now.error ≡ none
      → (elim now.error as (λ x. Outcome) [ some e ↦ now | none ↦ later now.transaction ])
        ≡ later now.transaction
  went_on now later q = rw q refl

  mutual
    unfolding snapshot_recursive

    snapshot_recursive-Took :
        (d e : Dataset) (snap : Bytes) (t : Transaction)
        → (snapshot_recursive z d snap true t).error ≡ none
        → Reach d e
        → Took (name_of e) snap t.cache (snapshot_recursive z d snap true t).transaction.cache
    snapshot_recursive-Took (dataset n s p cs) e snap t h (here q) =
        let made = take_snapshot z n snap t in
        subst
          (λ x.
            Took (name_of x) snap t.cache
              (snapshot_recursive z (dataset n s p cs) snap true t).transaction.cache)
          q
          (elim (Bool-cases (z.creates t.cache (snapshot_of n snap))) [
            | inl c ↦ rw c (λ v.
                take_snapshot-Took n snap t
                  ((snapshot_children-Grows cs snap made).children n (snapshot_of n snap) v))
            | inr other ↦ absurd (no_refusal (rw other at h))
          ])
    snapshot_recursive-Took (dataset n s p cs) e snap t h (below c i f r) =
        let made = take_snapshot z n snap t in
        elim (Bool-cases (z.creates t.cache (snapshot_of n snap))) [
          | inl y ↦ rw y (λ v.
              (take_snapshot-Grows n snap t).datasets (name_of e)
                (snapshot_children-Took cs c e snap made (rw y at h) i f r v))
          | inr other ↦ absurd (no_refusal (rw other at h))
        ]

    snapshot_children-Took :
        (ds : Children) (c e : Dataset) (snap : Bytes) (t : Transaction)
        → (snapshot_children z ds snap t).error ≡ none
        → ChildIn c ds
        → is_snapshot_of c ≡ false
        → Reach c e
        → Took (name_of e) snap t.cache (snapshot_children z ds snap t).transaction.cache
    snapshot_children-Took nil c e snap t h i f r v = elim i [ ]
    snapshot_children-Took (cons d ds) c e snap t h i f r v =
        let tried = snapshot_recursive z d snap true t in
        let now : Outcome =
          if is_snapshot_of d then record { transaction = t; error = none } else tried in
        let later = snapshot_children z ds snap in
        let (well, rest) = no_error now later h in
        let Vacant : Outcome → Type 0 = λ o.
          vacant_in_children (name_of e) (snapshot_of (name_of e) snap) o.transaction.cache
          ≡ true in
        let end : Vacant (later now.transaction) = subst Vacant (went_on now later well) v in
        elim i [
          | inl q ↦
              let fs : is_snapshot_of d ≡ false = subst (λ x. is_snapshot_of x ≡ false) q f in
              let picked : now ≡ tried = rw fs refl in
              let free : Vacant now =
                (snapshot_children-Grows ds snap now.transaction).children (name_of e)
                  (snapshot_of (name_of e) snap) end in
              snapshot_recursive-Took d e snap t (subst (λ o. o.error ≡ none) picked well)
                (subst (λ x. Reach x e) q r) (subst Vacant picked free)
          | inr j ↦
              (Grows-either (is_snapshot_of d) t tried
                  (snapshot_recursive-Grows d snap true t)).datasets
                (name_of e) (snapshot_children-Took ds c e snap now.transaction rest j f r end)
        ]

  nested_done-well :
      (t : Transaction) (nested : Outcome)
      → (nested_done t nested).error ≡ none
      → (nested.error ≡ none)
        × ((nested_done t nested).transaction.cache ≡ nested.transaction.cache)
  unfolding nested_done
  nested_done-well t nested h = elim (Option-cases nested.error) [
    | inl q ↦ (q, rw q refl)
    | inr (e, q) ↦ absurd (no_refusal (rw q at h))
  ]

  nested_of-same : (t : Transaction) → (nested_of t).cache ≡ t.cache
  unfolding nested_of
  nested_of-same t = refl

  -- After a recursive `Snapshot` of a dataset without an error, the dataset and every filesystem
  -- dataset below it has a child of the snapshot's name in the cache.
  pub snapshot_complete :
      (snap name : Bytes) (t : Transaction) (d e : Dataset)
      → find_in_children name t.cache ≡ some d
      → (snapshot z snap name true t).error ≡ none
      → Reach d e
      → vacant_in_children
          (name_of e)
          (snapshot_of (name_of e) snap)
          (snapshot z snap name true t).transaction.cache
        ≡ false
  unfolding snapshot
  snapshot_complete snap name t d e found h r =
      let nested = snapshot_recursive z d snap true (nested_of t) in
      let (well, kept) = nested_done-well t nested (rw (found, snapshot) at h) in
      let took =
        subst (λ old. Took (name_of e) snap old nested.transaction.cache) (nested_of-same t)
          (snapshot_recursive-Took d e snap (nested_of t) well r) in
      rw (found, snapshot)
        (rw kept
          (elim (Bool-cases (
            vacant_in_children (name_of e) (snapshot_of (name_of e) snap)
              nested.transaction.cache)) [
                | inl free ↦ absurd (reached_found name t.cache d e found r (took free))
                | inr there ↦ there
              ]))

  -- A `Snapshot` without an error keeps what is in the cache.
  pub snapshot-Grows :
      (snap name : Bytes) (recursive : Bool) (t : Transaction)
      → (snapshot z snap name recursive t).error ≡ none
      → Grows t.cache (snapshot z snap name recursive t).transaction.cache
  unfolding snapshot
  snapshot-Grows snap name recursive t h = elim (Option-cases (find_in_children name t.cache)) [
    | inl miss ↦ absurd (no_refusal (rw (miss, snapshot) at h))
    | inr (d, found) ↦
        let nested = snapshot_recursive z d snap recursive (nested_of t) in
        let (well, kept) = nested_done-well t nested (rw (found, snapshot) at h) in
        rw (found, snapshot)
          (rw kept (
            subst (λ old. Grows old nested.transaction.cache) (nested_of-same t)
              (snapshot_recursive-Grows d snap recursive (nested_of t))))
  ]

  snapshot_recursive-Took_one :
      (d : Dataset) (snap : Bytes) (t : Transaction)
      → (snapshot_recursive z d snap false t).error ≡ none
      → Took (name_of d) snap t.cache (snapshot_recursive z d snap false t).transaction.cache
  unfolding snapshot_recursive
  snapshot_recursive-Took_one (dataset n s p cs) snap t h =
      elim (Bool-cases (z.creates t.cache (snapshot_of n snap))) [
        | inl c ↦ rw c (take_snapshot-Took n snap t)
        | inr other ↦ absurd (no_refusal (rw other at h))
      ]

  -- A `Snapshot` of one dataset without an error gives it a child of the snapshot's name.
  pub snapshot_taken :
      (snap name : Bytes) (t : Transaction)
      → (snapshot z snap name false t).error ≡ none
      → vacant_in_children name
          (snapshot_of name snap)
          (snapshot z snap name false t).transaction.cache
        ≡ false
  unfolding snapshot
  snapshot_taken snap name t h = elim (Option-cases (find_in_children name t.cache)) [
    | inl miss ↦ absurd (no_refusal (rw (miss, snapshot) at h))
    | inr (d, found) ↦
        let nested = snapshot_recursive z d snap false (nested_of t) in
        let (well, kept) = nested_done-well t nested (rw (found, snapshot) at h) in
        let took =
          subst (λ n. Took n snap t.cache nested.transaction.cache)
            (found_name_children name t.cache d found)
            (subst (λ old. Took (name_of d) snap old nested.transaction.cache) (nested_of-same t)
              (snapshot_recursive-Took_one d snap (nested_of t) well)) in
        rw (found, snapshot)
          (rw kept
            (elim (Bool-cases
              (vacant_in_children name (snapshot_of name snap) nested.transaction.cache)) [
                | inl free ↦ absurd (no_refusal (sym found ∙ took free))
                | inr there ↦ there
              ]))
  ]
