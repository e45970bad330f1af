-- ===== src/Zfs/Destroy/Laws/Filesystems.antt =====
-- The filesystems of the cache when a snapshot is destroyed.
use zsys.Prelude.{
  true, false, Option, none, some, List, [], ◌∷◌, ◌++◌, ◌≡◌, ◌≢◌, inl, inr, refl, sym, ap, ◌∙◌,
  Bool-cases, ℕ, if◌then◌else◌,
}
use zsys.Text.{Bytes, text_eq, has_byte}
use zsys.Text.Laws.{text_eq_sound, has_byte-append_right}
use zsys.Zfs.Names.{snapshot_of, split_snapshot_name}
use zsys.Zfs.Dataset.{Dataset, dataset, Children, nil, cons, name_of, is_snapshot_of}
use zsys.Zfs.Hierarchy.{remove_child, has_snapshot_in_hierarchy}
use zsys.Zfs.Cache.{Cache, find_in_children, change_at, change_in_children, drop_child}
use zsys.Zfs.Cache.Found.{found_name_children}
use zsys.Zfs.Destroy.{
  Backend, CloneError, cloned, no_parent, has_snapshots, Destroyed, is_leaf, check_no_clone,
  parent_name, detach, destroy_one, destroy_target, destroy_recursive, destroy_children,
  destroy_found, destroy,
}

-- Exactly the names of snapshots hold an @, and snapshots have no children.
abbrev mutual
  pub WellNamed : Dataset → Type 0
  WellNamed (dataset n s p cs) = (has_byte b'@' n ≡ s) × ((s ≡ true → cs ≡ nil) × AllWellNamed cs)

  pub AllWellNamed : Children → Type 0
  AllWellNamed nil = Unit
  AllWellNamed (cons d ds) = WellNamed d × AllWellNamed ds

abbrev mutual
  pub filesystems_of : Dataset → List Bytes
  filesystems_of (dataset n s p cs) = if s then filesystems cs else n ∷ filesystems cs

  pub filesystems : Children → List Bytes
  filesystems nil = []
  filesystems (cons d ds) = filesystems_of d ++ filesystems ds

-- A change of children that keeps the names good, and the filesystems.
abbrev Keeps : (Children → Children) → Type 0
Keeps f =
    (f nil ≡ nil)
    × ((cs : Children)
        → AllWellNamed cs
        → AllWellNamed (f cs) × (filesystems (f cs) ≡ filesystems cs))

snapshot_alone :
    (d : Dataset) → WellNamed d → has_byte b'@' (name_of d) ≡ true → filesystems_of d ≡ []
snapshot_alone (dataset n s p cs) (a, (b, c)) h = let y : s ≡ true = sym a ∙ h in rw (y, b y) refl

drop_child-cons :
    (name : Bytes) (d : Dataset) (ds : Children)
    → text_eq (name_of d) name ≡ false
    → drop_child name (cons d ds) ≡ cons d (drop_child name ds)
unfolding drop_child remove_child
drop_child-cons name d ds h = rw (h, drop_child) (go (remove_child name ds))
  where
    go :
        (o : Option Children)
        → (elim (elim o as (λ o. Option Children) [ none ↦ none | some r ↦ some (cons d r) ])
            as (λ o. Children) [ none ↦ cons d ds | some rest ↦ rest ])
          ≡ cons d (elim o as (λ o. Children) [ none ↦ ds | some rest ↦ rest ])
    go none = refl
    go (some r) = refl

drop_child-first :
    (name : Bytes) (d : Dataset) (ds : Children)
    → text_eq (name_of d) name ≡ true
    → drop_child name (cons d ds) ≡ ds
unfolding drop_child remove_child
drop_child-first name d ds h = rw (h, drop_child) refl

drop_child-Keeps : (name : Bytes) → has_byte b'@' name ≡ true → Keeps (drop_child name)
unfolding drop_child remove_child
drop_child-Keeps name h = (refl, go)
  where
    go :
        (cs : Children)
        → AllWellNamed cs
        → AllWellNamed (drop_child name cs) × (filesystems (drop_child name cs) ≡ filesystems cs)
    go nil g = (tt, refl)
    go (cons d ds) (g, gs) = elim (Bool-cases (text_eq (name_of d) name)) [
      | inl y ↦ rw (drop_child-first name d ds y) (
        gs,
        rw (snapshot_alone d g (ap (has_byte b'@') (text_eq_sound (name_of d) name y) ∙ h)) refl,
      )
      | inr m ↦
          rw (drop_child-cons name d ds m)
            (let (a, b) = go ds gs in ((g, a), ap (λ xs. filesystems_of d ++ xs) b))
    ]

mutual
  unfolding change_at

  change_at-Keeps :
      (n : Bytes) (f : Children → Children) (d : Dataset)
      → Keeps f
      → WellNamed d
      → WellNamed (change_at n f d) × (filesystems_of (change_at n f d) ≡ filesystems_of d)
  change_at-Keeps n f (dataset m s p cs) k (named, (alone, g)) = elim (Bool-cases (text_eq m n)) [
    | inl y ↦
        let (a, b) = k.1 cs g in
        rw y ((named, ((λ e. ap f (alone e) ∙ k.0), a)), ap (λ xs. if s then xs else m ∷ xs) b)
    | inr other ↦
        let (a, b) = change_in_children-Keeps n f cs k g in
        rw other (
          (named, ((λ e. ap (change_in_children n f) (alone e)), a)),
          ap (λ xs. if s then xs else m ∷ xs) b,
        )
  ]

  change_in_children-Keeps :
      (n : Bytes) (f : Children → Children) (ds : Children)
      → Keeps f
      → AllWellNamed ds
      → AllWellNamed (change_in_children n f ds)
        × (filesystems (change_in_children n f ds) ≡ filesystems ds)
  change_in_children-Keeps n f nil k g = (tt, refl)
  change_in_children-Keeps n f (cons d ds) k (g, gs) =
      let (a, b) = change_at-Keeps n f d k g in
      let (later, bs) = change_in_children-Keeps n f ds k gs in ((a, later), λ i. b i ++ bs i)

-- What a part of a destruction leaves is well named, and has the same filesystems.
abbrev Spares : Cache → Destroyed → Type 0
Spares cache r = AllWellNamed r.0 × (filesystems r.0 ≡ filesystems cache)

module _ (z : Backend) where
  destroy_one-Spares :
      (d : Dataset) (cache : Cache)
      → AllWellNamed cache
      → has_byte b'@' (name_of d) ≡ true
      → Spares cache (destroy_one z d cache)
  unfolding destroy_one detach
  destroy_one-Spares d cache g h = elim (Bool-cases (is_leaf d)) [
    | inl y ↦ elim (Bool-cases (z.destroys (name_of d))) [
      | inl a ↦ rw (y, a, destroy_one) (detached (find_in_children (parent_name z d) cache))
      | inr r ↦ rw (y, r, destroy_one) (g, refl)
    ]
    | inr m ↦ rw (m, destroy_one) (g, refl)
  ]
    where
      detached :
          (o : Option Dataset)
          → Spares cache (elim o as (λ o. Destroyed) [
            | none ↦ (cache, some (no_parent (name_of d)))
            | some p ↦ (change_in_children (parent_name z d) (drop_child (name_of d)) cache, none)
          ])
      detached none = (g, refl)
      detached (some p) =
          change_in_children-Keeps (parent_name z d) (drop_child (name_of d)) cache
            (drop_child-Keeps (name_of d) h) g

  destroy_target-Spares :
      (d : Dataset) (c : ℕ) (snap : Bytes) (cache : Cache)
      → AllWellNamed cache
      → Spares cache (destroy_target z d (c ∷ snap) cache)
  unfolding destroy_target has_byte
  destroy_target-Spares d c snap cache g = go (find_in_children name cache) refl
    where
      name : Bytes
      name = snapshot_of (name_of d) (c ∷ snap)

      at_name : has_byte b'@' name ≡ true
      at_name = has_byte-append_right b'@' (name_of d) (b'@' ∷ c ∷ snap) refl

      go :
          (o : Option Dataset)
          → find_in_children name cache ≡ o
          → Spares cache
              (elim o as (λ o. Destroyed) [ none ↦ (cache, none) | some e ↦ destroy_one z e cache ])
      go none q = (g, refl)
      go (some e) q =
          destroy_one-Spares e cache g
            (ap (has_byte b'@') (found_name_children name cache e q) ∙ at_name)

  Spares-then :
      (cache : Cache) (r : Destroyed) (next : Cache → Destroyed)
      → Spares cache r
      → ((left : Cache) → AllWellNamed left → Spares left (next left))
      → Spares cache (elim r.1 as (λ o. Destroyed) [ some e ↦ (r.0, some e) | none ↦ next r.0 ])
  Spares-then cache (left, none) next g h = let (a, b) = h left g.0 in (a, b ∙ g.1)
  Spares-then cache (left, some e) next g h = g

  mutual
    unfolding destroy_recursive text_eq

    destroy_recursive-Spares :
        (d : Dataset) (c : ℕ) (snap : Bytes) (cache : Cache)
        → AllWellNamed cache
        → Spares cache (destroy_recursive z d (c ∷ snap) cache)
    destroy_recursive-Spares (dataset n true p cs) c snap cache g = (g, refl)
    destroy_recursive-Spares (dataset n false p cs) c snap cache g =
        Spares-then cache (destroy_children z cs (c ∷ snap) cache)
          (destroy_target z (dataset n false p cs) (c ∷ snap))
          (destroy_children-Spares cs c snap cache g)
          (λ left. destroy_target-Spares (dataset n false p cs) c snap left)

    destroy_children-Spares :
        (ds : Children) (c : ℕ) (snap : Bytes) (cache : Cache)
        → AllWellNamed cache
        → Spares cache (destroy_children z ds (c ∷ snap) cache)
    destroy_children-Spares nil c snap cache g = (g, refl)
    destroy_children-Spares (cons d ds) c snap cache g =
        Spares-then cache (destroy_recursive z d (c ∷ snap) cache)
          (destroy_children z ds (c ∷ snap)) (destroy_recursive-Spares d c snap cache g)
          (λ left. destroy_children-Spares ds c snap left)

  destroy_found-Spares :
      (name : Bytes) (d : Dataset) (cache : Cache)
      → AllWellNamed cache
      → is_snapshot_of d ≡ true
      → (split_snapshot_name (name_of d)).1 ≢ []
      → Spares cache (destroy_found z name d cache)
  unfolding destroy_found
  destroy_found-Spares name d cache g s h =
      let (parent, snap) = split_snapshot_name (name_of d) in
      rw (s, destroy_found) (go snap h (find_in_children parent cache))
    where
      go :
          (snap : Bytes)
          → snap ≢ []
          → (o : Option Dataset)
          → Spares cache (elim o as (λ o. Destroyed) [
            | none ↦ (cache, some (no_parent (name_of d)))
            | some target ↦
                if has_snapshot_in_hierarchy d
                then (cache, some (has_snapshots (name_of d)))
                else destroy_recursive z target snap cache
          ])
      go [] n o = absurd (n refl)
      go (c ∷ snap) n none = (g, refl)
      go (c ∷ snap) n (some target) = elim (Bool-cases (has_snapshot_in_hierarchy d)) [
        | inl y ↦ rw y (g, refl)
        | inr m ↦ rw m (destroy_recursive-Spares target c snap cache g)
      ]

  -- Destroying a snapshot whose name is not empty destroys no filesystem, in whatever way it ends: the
  -- cache has the same filesystems in the same order, and it is still true that exactly the
  -- snapshots have an @ in their name and that snapshots have no children.
  pub destroy-snapshot :
      (name : Bytes) (cache : Cache) (d : Dataset)
      → AllWellNamed cache
      → find_in_children name cache ≡ some d
      → is_snapshot_of d ≡ true
      → (split_snapshot_name (name_of d)).1 ≢ []
      → AllWellNamed (destroy z name cache).0
        × (filesystems (destroy z name cache).0 ≡ filesystems cache)
  unfolding destroy
  destroy-snapshot name cache d g f s h = rw (f, destroy) (go (check_no_clone z d))
    where
      go :
          (o : Option CloneError)
          → Spares cache (elim o as (λ o. Destroyed) [
            | some e ↦ (cache, some (cloned e))
            | none ↦ destroy_found z name d cache
          ])
      go (some e) = (g, refl)
      go none = destroy_found-Spares name d cache g s h
