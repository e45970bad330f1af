-- ===== src/Zfs/Clone/Laws.antt =====
-- A `Clone` that fails leaves the trees as they were.
use zsys.Prelude.{
  Bool, true, false, ◌&&◌, Option, none, some, [], ◌∷◌, ◌≡◌, refl, sym, ap, ◌∙◌, inl, inr,
  if◌then◌else◌, Bool-cases, Option-cases, no_value,
}
use zsys.Text.{Bytes, has_suffix}
use zsys.Zfs.Names.{split_snapshot_name}
use zsys.Zfs.Dataset.{
  Dataset, dataset, Children, nil, cons, DatasetProp, name_of, is_snapshot_of, prop_of, children_of,
}
use zsys.Zfs.Hierarchy.{check_integrity}
use zsys.Zfs.Cache.{Cache, find_in_children, change_in_children, append_child, drop_child, dir}
use zsys.Zfs.Cache.Laws.{change_back_children}
use zsys.Zfs.Cache.Vacant.{appended_children, still_missing_children}
use zsys.Zfs.Create.Found.{missing_vacant, new_in_children}
use zsys.Zfs.Transaction.{Transaction, register_revert, run_reverts, cancel, nested_of, destroy_one}
use zsys.Zfs.Transaction.Laws.{back, run_reverts-append}
use zsys.Zfs.Clone.Name.{new_root_name}
use zsys.Zfs.Clone.{
  Cloner, CloningError, left_in_map, Cloned, clone_mountpoint, clone_can_mount, new_clone,
  destroy_clone, add_clone, dataset_exists, clone_dataset, chain, destination, if_parent,
  clone_matching, clone_below, clone_recursive, nested_end, clone_snapshot, clone,
}

-- libzfs clones to no target that exists, and can destroy what it made.
pub record CloneDocumented (z : Cloner) : Type 0 where
  pub fresh :
      (cache : Cache) (name target : Bytes) (mountpoint can_mount : Option Bytes)
      → z.clones cache name target mountpoint can_mount ≡ true
      → find_in_children target cache ≡ none
  pub destroyed : (name : Bytes) → z.libzfs.destroys name ≡ true

module _ (z : Cloner) (doc : CloneDocumented z) where
  destroy_one-clone :
      (target : Bytes) (cache : Cache) (parent : Dataset)
      → find_in_children (dir target) cache ≡ some parent
      → destroy_one z.libzfs (new_clone z target) cache
        ≡ change_in_children (dir target) (drop_child target) cache
  unfolding destroy_one
  destroy_one-clone target cache parent above = rw (doc.destroyed target, above) refl

  destroy_one-orphan :
      (target : Bytes) (cache : Cache)
      → find_in_children (dir target) cache ≡ none
      → destroy_one z.libzfs (new_clone z target) cache ≡ cache
  unfolding destroy_one
  destroy_one-orphan target cache above = rw (doc.destroyed target, above) refl

  undo_orphan :
      (target : Bytes) (cache : Cache)
      → find_in_children target cache ≡ none
      → find_in_children (dir target) cache ≡ none
      → destroy_clone z target cache ≡ cache
  unfolding destroy_clone
  undo_orphan target cache fresh above =
      rw (destroy_clone, fresh) (destroy_one-orphan target cache above)

  undo_clone :
      (target : Bytes) (cache : Cache) (parent : Dataset)
      → find_in_children target cache ≡ none
      → find_in_children (dir target) cache ≡ some parent
      → destroy_clone z target
          (change_in_children (dir target) (append_child (new_clone z target)) cache)
        ≡ cache
  unfolding destroy_clone
  undo_clone target cache parent fresh above =
      let x = new_clone z target in
      let after = change_in_children (dir target) (append_child x) cache in
      let restored =
        change_back_children (dir target) x cache
          (missing_vacant (dir target) target cache fresh) in
      elim (new_in_children (dir target) x cache fresh) [
        | inl missing ↦ absurd (
            no_value (
              sym above
              ∙ appended_children (dir target) x cache
                  (missing_vacant (dir target) target after missing)))
        | inr found ↦ elim (Option-cases (find_in_children (dir target) after)) [
          | inl gone ↦
              absurd (
                no_value
                  (sym above ∙ still_missing_children (dir target) (dir target) x cache gone))
          | inr (p, still) ↦
              rw (destroy_clone, found) (destroy_one-clone target after p still ∙ restored)
        ]
      ]

  back-add_clone :
      (p : DatasetProp) (target : Bytes) (t : Transaction)
      → find_in_children target t.cache ≡ none
      → back (add_clone z p target t).0 ≡ back t
  unfolding add_clone register_revert run_reverts
  back-add_clone p target t fresh = elim (Option-cases (find_in_children (dir target) t.cache)) [
    | inl orphan ↦
        rw (add_clone, orphan)
          (run_reverts-append t.reverts (destroy_clone z target ∷ []) t.cache
            ∙ ap (run_reverts t.reverts) (undo_orphan target t.cache fresh orphan))
    | inr (parent, above) ↦
        rw (add_clone, above)
          (run_reverts-append t.reverts (destroy_clone z target ∷ [])
              (change_in_children (dir target) (append_child (new_clone z target)) t.cache)
            ∙ ap (run_reverts t.reverts) (undo_clone target t.cache parent fresh above))
  ]

  back-clone_dataset :
      (d : Dataset) (target : Bytes) (ignore : Bool) (t : Transaction)
      → back (clone_dataset z d target ignore t).0 ≡ back t
  unfolding clone_dataset
  back-clone_dataset d target ignore t =
      let mountpoint = clone_mountpoint (prop_of d) in
      let can_mount = clone_can_mount (prop_of d) in
      elim (Bool-cases (z.clones t.cache (name_of d) target mountpoint can_mount)) [
        | inl made ↦
            rw (clone_dataset, made)
              (back-add_clone (prop_of d) target t
                (doc.fresh t.cache (name_of d) target mountpoint can_mount made))
        | inr other ↦ elim (Bool-cases (ignore && dataset_exists z target t.cache)) [
          | inl y ↦ rw (clone_dataset, other, y) refl
          | inr n ↦ rw (clone_dataset, other, n) refl
        ]
      ]

  back-chain :
      (o : Cloned) (next : Transaction → Cloned) (b : Cache)
      → back o.0 ≡ b
      → ((u : Transaction) → back (next u).0 ≡ back u)
      → back (chain z o next).0 ≡ b
  unfolding chain
  back-chain (t, some e) next b h k = h
  back-chain (t, none) next b h k = k t ∙ h

  back-if :
      (b : Bool) (x y : Cloned) (c : Cache)
      → back x.0 ≡ c
      → back y.0 ≡ c
      → back (if b then x else y).0 ≡ c
  back-if true x y c h k = h
  back-if false x y c h k = k

  module _ (snap root new_root : Bytes) (ignore : Bool) where
    back-if_parent :
        (name : Bytes) (u : Transaction) (below : Transaction → Cloned)
        → ((v : Transaction) → back (below v).0 ≡ back v)
        → back (if_parent z snap root new_root ignore name u below).0 ≡ back u
    unfolding if_parent
    back-if_parent name u below h =
        elim (Option-cases (find_in_children (split_snapshot_name name).0 u.cache)) [
          | inl q ↦ rw (if_parent, q) refl
          | inr (p, q) ↦ rw (if_parent, q) (h u)
        ]

    back-clone_matching :
        (cs : Children) (below : Transaction → Cloned) (t : Transaction)
        → ((v : Transaction) → back (below v).0 ≡ back v)
        → back (clone_matching z snap root new_root ignore cs below t).0 ≡ back t
    unfolding clone_matching
    back-clone_matching nil below t h = refl
    back-clone_matching (cons c cs) below t h =
        let rest = clone_matching z snap root new_root ignore cs below in
        let target = destination z snap root new_root ignore (name_of c) in
        let descend : Transaction → Cloned =
          λ u. chain z (if_parent z snap root new_root ignore (name_of c) u below) rest in
        back-if (has_suffix (name_of c) (b'@' ∷ snap))
          (chain z (clone_dataset z c target ignore t) descend) (rest t) (back t)
          (back-chain (clone_dataset z c target ignore t) descend (back t)
            (back-clone_dataset c target ignore t)
            (λ u.
              back-chain (if_parent z snap root new_root ignore (name_of c) u below) rest (back u)
                (back-if_parent (name_of c) u below h) (λ v. back-clone_matching cs below v h)))
          (back-clone_matching cs below t h)

    back-clone_below :
        (cs : Children) (t : Transaction)
        → back (clone_below z snap root new_root ignore cs t).0 ≡ back t
    unfolding clone_below
    back-clone_below nil t = refl
    back-clone_below (cons (dataset n true p cs) ds) t = back-clone_below ds t
    back-clone_below (cons (dataset n false p cs) ds) t =
        back-chain
          (clone_matching z snap root new_root ignore cs
            (clone_below z snap root new_root ignore cs) t)
          (clone_below z snap root new_root ignore ds) (back t)
          (back-clone_matching cs (clone_below z snap root new_root ignore cs) t
            (λ v. back-clone_below cs v))
          (λ u. back-clone_below ds u)

    back-clone_recursive :
        (d : Dataset) (cs : Children) (recursive : Bool) (t : Transaction)
        → back (clone_recursive z snap root new_root ignore d cs recursive t).0 ≡ back t
    unfolding clone_recursive
    back-clone_recursive d cs recursive t =
        let target = destination z snap root new_root ignore (name_of d) in
        back-chain (clone_dataset z d target ignore t) _ (back t)
          (back-clone_dataset d target ignore t) (rest recursive)
      where
        rest :
            (r : Bool) (u : Transaction)
            → back (if r then clone_below z snap root new_root ignore cs u else (u, none)).0
              ≡ back u
        rest true u = back-clone_below cs u
        rest false u = refl

  back-clone_snapshot :
      (d : Dataset) (suffix : Bytes) (ignore recursive : Bool) (t : Transaction)
      → back (clone_snapshot z d suffix ignore recursive t).0 ≡ back t
  unfolding clone_snapshot
  back-clone_snapshot d suffix ignore recursive t =
      let (root, snap) = split_snapshot_name (name_of d) in
      elim (Option-cases (find_in_children root t.cache)) [
        | inl q ↦ rw (clone_snapshot, q) refl
        | inr (parent, q) ↦
            elim (Option-cases (if recursive then check_integrity parent snap true else none)) [
              | inr (e, k) ↦ rw (clone_snapshot, q, k) refl
              | inl k ↦
                  rw (clone_snapshot, q, k)
                    (back-clone_recursive snap root (new_root_name root suffix) ignore d
                      (children_of parent) recursive t)
            ]
      ]

  nested_end-failed :
      (t : Transaction) (o : Cloned) (e : CloningError)
      → back o.0 ≡ t.cache
      → (nested_end z t o).1 ≡ some e
      → (nested_end z t o).0 ≡ t
  unfolding nested_end cancel
  nested_end-failed t (n, some f) e h q = ap (λ c. record { cache = c; reverts = t.reverts }) h
  nested_end-failed t (n, none) e h q = absurd (no_value (sym q))

  back-nested_end :
      (t : Transaction) (o : Cloned) → back o.0 ≡ t.cache → back (nested_end z t o).0 ≡ back t
  unfolding nested_end cancel
  back-nested_end t (n, some f) h = ap (run_reverts t.reverts) h
  back-nested_end t (n, none) h =
      run_reverts-append t.reverts n.reverts n.cache ∙ ap (run_reverts t.reverts) h

  back-nested :
      (d : Dataset) (suffix : Bytes) (ignore recursive : Bool) (t : Transaction)
      → back (clone_snapshot z d suffix ignore recursive (nested_of t)).0 ≡ t.cache
  unfolding nested_of run_reverts
  back-nested d suffix ignore recursive t =
      back-clone_snapshot d suffix ignore recursive (nested_of t)

  -- Where libzfs clones to nothing that exists and can destroy every dataset: a `Clone` that fails, at
  -- once or after some datasets were cloned, leaves the cache and the reverts of the transaction as
  -- they were, if its error is not that a new clone has no parent in the cache.
  pub clone_atomic :
      (name suffix : Bytes) (ignore recursive : Bool) (t : Transaction) (e : CloningError)
      → (clone z name suffix ignore recursive t).1 ≡ some e
      → left_in_map e ≡ []
      → (clone z name suffix ignore recursive t).0 ≡ t
  unfolding clone
  clone_atomic name [] ignore recursive t e h map = refl
  clone_atomic name (c ∷ suffix) ignore recursive t e h map =
      elim (Option-cases (find_in_children name t.cache)) [
        | inl q ↦ rw (clone, q) refl
        | inr (d, q) ↦ elim (Bool-cases (is_snapshot_of d)) [
          | inr other ↦ rw (clone, q, other) refl
          | inl y ↦
              rw (clone, q, y)
                (nested_end-failed t
                  (clone_snapshot z d (c ∷ suffix) ignore recursive (nested_of t)) e
                  (back-nested d (c ∷ suffix) ignore recursive t) (rw (clone, q, y) at h))
        ]
      ]

  -- A `Clone` does not change what a cancel of the transaction leaves.
  pub back-clone :
      (name suffix : Bytes) (ignore recursive : Bool) (t : Transaction)
      → back (clone z name suffix ignore recursive t).0 ≡ back t
  unfolding clone
  back-clone name [] ignore recursive t = refl
  back-clone name (c ∷ suffix) ignore recursive t =
      elim (Option-cases (find_in_children name t.cache)) [
        | inl q ↦ rw (clone, q) refl
        | inr (d, q) ↦ elim (Bool-cases (is_snapshot_of d)) [
          | inr other ↦ rw (clone, q, other) refl
          | inl y ↦
              rw (clone, q, y)
                (back-nested_end t (clone_snapshot z d (c ∷ suffix) ignore recursive (nested_of t))
                  (back-nested d (c ∷ suffix) ignore recursive t))
        ]
      ]
