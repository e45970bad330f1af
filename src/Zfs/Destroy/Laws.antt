-- ===== src/Zfs/Destroy/Laws.antt =====
-- What a destruction leaves.
pub mod Filesystems
use mathlib.Core.List.{Memᴰ}
use zsys.Prelude.{
  Bool, true, false, not, ◌&&◌, ◌||◌, Option, none, some, List, [], ◌∷◌, ◌++◌, ◌≡◌, ◌≢◌, ◌⊎◌, inl,
  inr, refl, sym, ap, ◌∙◌, arith, Bool-cases,
}
use zsys.Text.{Bytes}
use zsys.Zfs.Dataset.{Dataset, dataset, Children, nil, cons, name_of, is_snapshot_of}
use zsys.Zfs.Hierarchy.{collect_dataset, collect_children, has_snapshot_in_hierarchy}
use zsys.Zfs.Hierarchy.Snapshots.{SnapshotBelow, has_snapshot_in_hierarchy_iff}
use zsys.Zfs.Cache.{Cache, find_in_children}
use zsys.Zfs.Destroy.{
  Backend, CloneError, DestroyError, not_found, cloned, has_snapshots, Destroyed, own_clones,
  check_no_clone, check_no_clone_children, destroy_found, destroy,
}

Memᴰ-append {ℓ} : {A : Type ℓ} (xs ys : List A) (x : A) → Memᴰ x (xs ++ ys) → Memᴰ x xs ⊎ Memᴰ x ys
Memᴰ-append [] ys x m = inr m
Memᴰ-append (y ∷ xs) ys x (Memᴰ.head e) = inl (Memᴰ.head e)
Memᴰ-append (y ∷ xs) ys x (Memᴰ.tail m) = elim (Memᴰ-append xs ys x m) [
  | inl i ↦ inl (Memᴰ.tail i)
  | inr j ↦ inr j
]

first_none {ℓ} :
    {E : Type ℓ} (o later : Option E)
    → (elim o as (λ o. Option E) [ some e ↦ some e | none ↦ later ]) ≡ none
    → (o ≡ none) × (later ≡ none)
first_none none later h = (refl, h)
first_none (some e) later h = absurd cc

module _ (z : Backend) where
  mutual
    unfolding check_no_clone collect_dataset

    uncloned :
        (d x : Dataset)
        → check_no_clone z d ≡ none
        → Memᴰ x (collect_dataset d)
        → own_clones z (name_of x) ≡ none
    uncloned (dataset n s p cs) x h (Memᴰ.head e) =
        rw e (first_none (own_clones z n) (check_no_clone_children z cs) h).0
    uncloned (dataset n s p cs) x h (Memᴰ.tail m) =
        uncloned_children cs x (first_none (own_clones z n) (check_no_clone_children z cs) h).1 m

    uncloned_children :
        (ds : Children) (x : Dataset)
        → check_no_clone_children z ds ≡ none
        → Memᴰ x (collect_children ds)
        → own_clones z (name_of x) ≡ none
    uncloned_children nil x h m = elim m [ ]
    uncloned_children (cons d ds) x h m =
        let (a, b) = first_none (check_no_clone z d) (check_no_clone_children z ds) h in
        elim (Memᴰ-append (collect_dataset d) (collect_children ds) x m) [
          | inl i ↦ uncloned d x a i
          | inr j ↦ uncloned_children ds x b j
        ]

  -- A dataset of the tree has clones, or libzfs cannot say so.
  abbrev pub ClonedBelow : Dataset → Type 0
  ClonedBelow d = (x : Dataset) × Memᴰ x (collect_dataset d) × (own_clones z (name_of x) ≢ none)

  -- Nothing is destroyed, and there is an error.
  abbrev pub Refused : Cache → Destroyed → Type 0
  Refused cache r = (r.0 ≡ cache) × ((e : DestroyError) × (r.1 ≡ some e))

  clones-Refused :
      (name : Bytes) (cache : Cache) (d : Dataset)
      → find_in_children name cache ≡ some d
      → ClonedBelow d
      → Refused cache (destroy z name cache)
  unfolding destroy
  clones-Refused name cache d f (x, m, h) = rw (f, destroy) (go (check_no_clone z d) refl)
    where
      go :
          (o : Option CloneError)
          → check_no_clone z d ≡ o
          → Refused cache (elim o as (λ o. Destroyed) [
            | some e ↦ (cache, some (cloned e))
            | none ↦ destroy_found z name d cache
          ])
      go (some e) q = (refl, (cloned e, refl))
      go none q = absurd (h (uncloned d x q m))

  snapshots-Refused :
      (name : Bytes) (cache : Cache) (d : Dataset)
      → find_in_children name cache ≡ some d
      → is_snapshot_of d ≡ false
      → SnapshotBelow d
      → Refused cache (destroy z name cache)
  unfolding destroy destroy_found
  snapshots-Refused name cache d f s b = rw (f, destroy) (go (check_no_clone z d))
    where
      found : has_snapshot_in_hierarchy d ≡ true
      found = (has_snapshot_in_hierarchy_iff d).0 s b

      go :
          (o : Option CloneError)
          → Refused cache (elim o as (λ o. Destroyed) [
            | some e ↦ (cache, some (cloned e))
            | none ↦ destroy_found z name d cache
          ])
      go (some e) = (refl, (cloned e, refl))
      go none = rw (s, found, destroy_found) (refl, (has_snapshots (name_of d), refl))

  -- A dataset is not destroyed, and nothing else is, if it or a dataset below it has clones, or if it
  -- is a filesystem with a snapshot of itself or of a dataset below it: there is an error, and the
  -- cache is as it was.
  pub destroy-Refused :
      (name : Bytes) (cache : Cache) (d : Dataset)
      → find_in_children name cache ≡ some d
      → ClonedBelow d ⊎ ((is_snapshot_of d ≡ false) × SnapshotBelow d)
      → Refused cache (destroy z name cache)
  destroy-Refused name cache d f (inl c) = clones-Refused name cache d f c
  destroy-Refused name cache d f (inr (s, b)) = snapshots-Refused name cache d f s b
