-- ===== src/Zfs/Create/Laws.antt =====
-- A dataset that was created is destroyed again when the transaction is cancelled.
use zsys.Prelude.{
  true, Option, none, some, [], ◌∷◌, ◌≡◌, ◌⊎◌, refl, sym, ap, ◌∙◌, inl, inr, Bool-cases,
  Option-cases, no_value,
}
use zsys.Text.{Bytes}
use zsys.Zfs.Dataset.{Dataset}
use zsys.Zfs.Hierarchy.{has_snapshot_in_hierarchy}
use zsys.Zfs.Cache.{Cache, find_in_children, change_in_children, append_child, drop_child, dir}
use zsys.Zfs.Cache.Laws.{change_back_children}
use zsys.Zfs.Cache.Vacant.{appended_children, still_missing_children}
use zsys.Zfs.Transaction.{Transaction, register_revert, run_reverts}
use zsys.Zfs.Transaction.Laws.{back, run_reverts-append}
use zsys.Zfs.Destroy.{
  CloneError, own_clones, check_no_clone, detach, destroy_one, destroy_target, destroy_recursive,
  destroy_found, destroy,
}
use zsys.Zfs.Create.{
  Creator, destroy_again, new_dataset, mountpoint_property, orphaned, left_in_map, create,
}
use zsys.Zfs.Create.Found.{missing_vacant, missing_same_children, new_in_children}

-- libzfs creates no dataset that exists, and a dataset just made has no clones and can be destroyed.
pub record CreateDocumented (z : Creator) : Type 0 where
  pub fresh :
      (cache : Cache) (path : Bytes) (mountpoint : Option Bytes) (canmount : Bytes)
      → z.creates cache path mountpoint canmount ≡ true
      → find_in_children path cache ≡ none
  pub no_clones : (path : Bytes) → z.backend.clones path ≡ some []
  pub destroyed : (path : Bytes) → z.backend.destroys path ≡ true

module _ (z : Creator) (doc : CreateDocumented z) where
  no_own_clones : (path : Bytes) → own_clones z.backend path ≡ none
  unfolding own_clones
  no_own_clones path = rw (own_clones, doc.no_clones path) refl

  no_clone-new : (path : Bytes) → check_no_clone z.backend (new_dataset z path) ≡ none
  unfolding check_no_clone
  no_clone-new path = clear (own_clones z.backend path) (no_own_clones path)
    where
      clear :
          (o : Option CloneError)
          → o ≡ none
          → (elim o as (λ _. Option CloneError) [ some e ↦ some e | none ↦ none ]) ≡ none
      clear o h = rw h refl

  destroy_one-new :
      (path : Bytes) (after : Cache) (parent : Dataset)
      → find_in_children (dir path) after ≡ some parent
      → destroy_one z.backend (new_dataset z path) after
        ≡ (change_in_children (dir path) (drop_child path) after, none)
  unfolding destroy_one detach
  destroy_one-new path after parent above = rw (doc.destroyed path, detach, above) refl

  destroy_found-new :
      (path : Bytes) (after : Cache)
      → find_in_children path after ≡ some (new_dataset z path)
      → destroy_found z.backend path (new_dataset z path) after
        ≡ destroy_one z.backend (new_dataset z path) after
  unfolding destroy_found has_snapshot_in_hierarchy destroy_recursive destroy_target
  destroy_found-new path after found =
      ap
        (λ o.
          destroy_one z.backend
            (elim o as (λ _. Dataset) [ none ↦ new_dataset z path | some e ↦ e ]) after)
        found

  destroy_again-new :
      (path : Bytes) (cache after : Cache) (parent : Dataset)
      → find_in_children path after ≡ some (new_dataset z path)
      → find_in_children (dir path) after ≡ some parent
      → change_in_children (dir path) (drop_child path) after ≡ cache
      → destroy_again z.backend path after ≡ cache
  unfolding destroy_again destroy
  destroy_again-new path cache after parent found above changed =
      rw
        (
          destroy_again,
          destroy,
          found,
          no_clone-new path,
          destroy_found-new path after found,
          destroy_one-new path after parent above,
        )
        changed

  destroy_again-missing :
      (path : Bytes) (cache : Cache)
      → find_in_children path cache ≡ none
      → destroy_again z.backend path cache ≡ cache
  unfolding destroy_again destroy
  destroy_again-missing path cache h = rw (destroy_again, destroy, h) refl

  undo_create :
      (path : Bytes) (cache : Cache)
      → find_in_children path cache ≡ none
      → destroy_again z.backend path
          (change_in_children (dir path) (append_child (new_dataset z path)) cache)
        ≡ cache
  undo_create path cache fresh =
      let x = new_dataset z path in
      let after = change_in_children (dir path) (append_child x) cache in
      elim (Option-cases (find_in_children (dir path) cache)) [
        | inl orphan ↦
            rw (missing_same_children (dir path) (append_child x) cache orphan)
              (destroy_again-missing path cache fresh)
        | inr (parent, above) ↦
            let (p, still) = still_there (dir path) x cache parent above in
            elim (new_in_children (dir path) x cache fresh) [
              | inl missing ↦ absurd (
                  no_value (
                    sym above
                    ∙ appended_children (dir path) x cache
                        (missing_vacant (dir path) path after missing)))
              | inr found ↦ destroy_again-new path cache after p found still (
                  change_back_children (dir path) x cache
                    (missing_vacant (dir path) path cache fresh))
            ]
      ]
    where
      still_there :
          (n : Bytes) (x : Dataset) (cache : Cache) (p : Dataset)
          → find_in_children n cache ≡ some p
          → (q : Dataset) × (find_in_children n (change_in_children n (append_child x) cache)
              ≡ some q)
      still_there n x cache p h =
          elim (Option-cases (find_in_children n (change_in_children n (append_child x) cache))) [
            | inl gone ↦ absurd (no_value (sym h ∙ still_missing_children n n x cache gone))
            | inr q ↦ q
          ]

  -- Where libzfs creates nothing that exists, no dataset has clones and every dataset can be destroyed:
  -- a `Create` that leaves no entry outside the trees does not change what a cancel of the
  -- transaction leaves. The only one that leaves such an entry fails because the new dataset has no
  -- parent in the cache.
  pub back-create :
      (path mountpoint canmount : Bytes) (t : Transaction)
      → (back (create z path mountpoint canmount t).0 ≡ back t)
          × (left_in_map (create z path mountpoint canmount t).1 ≡ [])
        ⊎ (find_in_children (dir path) t.cache ≡ none)
          × ((create z path mountpoint canmount t).1 ≡ some (orphaned (new_dataset z path)))
  unfolding create register_revert run_reverts left_in_map
  back-create path mountpoint canmount t =
      elim (Bool-cases (z.creates t.cache path (mountpoint_property mountpoint) canmount)) [
        | inr refused ↦ rw (create, refused) (inl (refl, refl))
        | inl made ↦
            let fresh = doc.fresh t.cache path (mountpoint_property mountpoint) canmount made in
            elim (Option-cases (find_in_children (dir path) t.cache)) [
              | inl orphan ↦ rw (create, made, orphan) (inr (refl, refl))
              | inr (p, above) ↦
                  rw (create, made, above)
                    (inl (
                      run_reverts-append t.reverts (destroy_again z.backend path ∷ []) (
                            change_in_children (dir path) (append_child (new_dataset z path))
                              t.cache)
                          ∙ ap (run_reverts t.reverts) (undo_create path t.cache fresh),
                      refl,
                    ))
            ]
      ]
