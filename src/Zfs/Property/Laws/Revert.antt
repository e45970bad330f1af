-- ===== src/Zfs/Property/Laws/Revert.antt =====
-- Cancelling the transaction that set a property.
use mathlib.Core.Path.{subst}
use zsys.Prelude.{
  Bool, true, false, not, ◌&&◌, Option, none, some, [], ◌∷◌, ◌++◌, ◌≡◌, inl, inr, refl, sym, ap,
  ◌∙◌, if◌then◌else◌, Bool-cases, some_inj, bind_some,
}
use zsys.Text.{Bytes, codes, text_eq}
use zsys.Text.Laws.{text_eq_iff}
use zsys.Zfs.Dataset.{
  Dataset, dataset, Children, nil, cons, DatasetProp, name_of, is_snapshot_of, prop_of,
}
use zsys.Zfs.Refresh.{local, yes_no}
use zsys.Zfs.Cache.{Cache, find_dataset, find_in_children}
use zsys.Zfs.Property.{
  PropName, canmount, mountpoint, bootfs, last_used, last_booted_kernel, bootfs_datasets,
  snapshot_canmount, snapshot_mountpoint, Host, set_to, user_name, is_last_used, is_bootfs_datasets,
  property_from_name, store, write, is_native, set_fields, inherit_children, set_property,
  replace_in, replace_in_children, set_at, set_found, set_property_of,
}
use zsys.Zfs.Transaction.{cancel}
use zsys.Zfs.Property.Write.{write-other}
use zsys.Zfs.Property.Laws.{
  refresh_objects_total, erase, erase_tree, refresh_objects-set_to, set_property-set_to,
  set_property-erase,
}

abbrev pub replaced : Dataset → Option Dataset → Option Dataset
replaced e none = none
replaced e (some d) = some e

find_self : (name : Bytes) (e : Dataset) → name_of e ≡ name → find_dataset name e ≡ some e
unfolding find_dataset
find_self name (dataset n s p cs) q =
    let y : text_eq n name ≡ true = (text_eq_iff n name).1 q in rw y refl

replaced_first :
    (name : Bytes) (e d : Dataset) (ds : Children) (o : Option Dataset)
    → find_dataset name d ≡ o
    → find_dataset name (replace_in name e d) ≡ replaced e (find_dataset name d)
    → find_in_children name (replace_in_children name e ds) ≡ replaced e (find_in_children name ds)
    → find_in_children name (elim o as (λ o. Children) [
      | some x ↦ cons (replace_in name e d) ds
      | none ↦ cons d (replace_in_children name e ds)
    ])
      ≡ replaced e
          (elim o as (λ o. Option Dataset) [ some x ↦ some x | none ↦ find_in_children name ds ])
unfolding find_in_children
replaced_first name e d ds none f h k =
    ap
      (λ o. elim o as (λ o. Option Dataset) [
        | some x ↦ some x
        | none ↦ find_in_children name (replace_in_children name e ds)
      ])
      f
    ∙ k
replaced_first name e d ds (some x) f h k =
    ap (λ o. elim o as (λ o. Option Dataset) [ some x ↦ some x | none ↦ find_in_children name ds ])
      (h ∙ ap (replaced e) f)

mutual
  unfolding find_dataset find_in_children replace_in

  find-replace :
      (name : Bytes) (e d : Dataset)
      → name_of e ≡ name
      → find_dataset name (replace_in name e d) ≡ replaced e (find_dataset name d)
  find-replace name e (dataset n s p cs) q = elim (Bool-cases (text_eq n name)) [
    | inl y ↦ rw y (find_self name e q)
    | inr m ↦ rw m (rw m (find-replace_children name e cs q))
  ]

  pub find-replace_children :
      (name : Bytes) (e : Dataset) (ds : Children)
      → name_of e ≡ name
      → find_in_children name (replace_in_children name e ds)
        ≡ replaced e (find_in_children name ds)
  find-replace_children name e nil q = refl
  find-replace_children name e (cons d ds) q =
      replaced_first name e d ds (find_dataset name d) refl (find-replace name e d q)
        (find-replace_children name e ds q)

module _ (host : Host) where
  store_erased :
      (p : PropName) (v s : Bytes) (d : DatasetProp)
      → store host p v s (erase p d) ≡ store host p v s d
  unfolding store
  store_erased last_used v s d = refl
  store_erased canmount v s d = refl
  store_erased mountpoint v s d = refl
  store_erased bootfs v s d = refl
  store_erased last_booted_kernel v s d = refl
  store_erased bootfs_datasets v s d = refl
  store_erased snapshot_canmount v s d = refl
  store_erased snapshot_mountpoint v s d = refl

  flag_kept : (b : Bool) → text_eq (yes_no b) (codes "yes") ≡ b
  unfolding text_eq
  flag_kept true = refl
  flag_kept false = refl

  store_same :
      (p : PropName) (d : DatasetProp)
      → is_last_used p ≡ false
      → store host p (property_from_name host p d).0 (property_from_name host p d).1 d ≡ some d
  unfolding store property_from_name
  store_same last_used d l = absurd cc
  store_same canmount d l = refl
  store_same mountpoint d l = refl
  store_same bootfs d l = rw (flag_kept d.boot_fs) refl
  store_same last_booted_kernel d l = refl
  store_same bootfs_datasets d l = refl
  store_same snapshot_canmount d l = refl
  store_same snapshot_mountpoint d l = refl

  store_back :
      (p : PropName) (d e : DatasetProp)
      → is_last_used p ≡ false
      → erase p e ≡ erase p d
      → store host p (property_from_name host p d).0 (property_from_name host p d).1 e ≡ some d
  store_back p d e l h =
      let (v, s) = property_from_name host p d in
      sym (store_erased p v s e) ∙ ap (store host p v s) h ∙ store_erased p v s d ∙ store_same p d l

  pub set_fields-store :
      (p : PropName) (v s : Bytes) (d e : Dataset)
      → set_fields host p v s d ≡ some e
      → store host p v s (prop_of d) ≡ some (prop_of e)
  unfolding set_fields
  set_fields-store p v s (dataset n snap d cs) e h =
      let (x, a, h2) = bind_some (store host p v s d) _ h in
      let (xs, b, h3) = bind_some (inherit_children host p v _ cs) _ h2 in
      subst (λ e. store host p v s d ≡ some (prop_of e)) (some_inj h3) a

  pub erase_tree_parts :
      (p : PropName) (e d : Dataset)
      → erase_tree p e ≡ erase_tree p d
      → (name_of e ≡ name_of d)
        × ((is_snapshot_of e ≡ is_snapshot_of d) × (erase p (prop_of e) ≡ erase p (prop_of d)))
  erase_tree_parts p (dataset n s x xs) (dataset m t y ys) h =
      (ap name_of h, (ap is_snapshot_of h, ap prop_of h))

  -- Setting the value and the source that a dataset had gives it the properties that it had.
  set_property_back :
      (p : PropName) (d e g : Dataset)
      → is_last_used p ≡ false
      → erase_tree p e ≡ erase_tree p d
      → (is_snapshot_of d && is_bootfs_datasets p ≡ true → e ≡ d)
      → set_property host p
          (property_from_name host p (prop_of d)).0
          (property_from_name host p (prop_of d)).1
          e
        ≡ set_to g
      → prop_of g ≡ prop_of d
  set_property_back p d e g l h same k =
      let (name, (snap, rest)) = erase_tree_parts p e d h in
      let (v, s) = property_from_name host p (prop_of d) in
      let (w, q, r) = set_property-set_to host p v s e g k in
      let plain : w ≡ v = write-other host p v s (name_of e) (is_snapshot_of e) w l q in
      elim (refresh_objects-set_to host p w s e g r) [
        | inl (y, eq) ↦ ap prop_of (eq ∙ same (rw snap at y))
        | inr (n, f) ↦
            let stored : store host p v s (prop_of e) ≡ some (prop_of g) =
              rw (← plain) (set_fields-store p w s e g f) in
            some_inj (sym stored ∙ store_back p (prop_of d) (prop_of e) l rest)
      ]

  untouched :
      (p : PropName) (v s : Bytes) (d e : Dataset)
      → set_property host p v s d ≡ set_to e
      → is_snapshot_of d && is_bootfs_datasets p ≡ true
      → e ≡ d
  untouched p v s d e h y =
      let (w, q, r) = set_property-set_to host p v s d e h in
      elim (refresh_objects-set_to host p w s d e r) [
        | inl (z, same) ↦ same
        | inr (n, f) ↦ absurd cc
      ]

  -- libzfs writes every value of the property on the dataset of a name.
  abbrev pub Writes : PropName → Bytes → Type 0
  Writes p name =
      (v : Bytes)
      → (host.sets name p v ≡ true) × ((snap : Bool) → host.sets name (user_name p snap) v ≡ true)

  pub write_accepted :
      (p : PropName) (v s n : Bytes) (snap : Bool)
      → is_last_used p ≡ false
      → Writes p n
      → write host p v s n snap ≡ inl v
  unfolding write
  write_accepted p v s n snap l a = elim (Bool-cases (is_native p snap)) [
    | inl y ↦ rw (y, (a v).0) refl
    | inr m ↦ rw (m, l, (a (if snap && not (text_eq s []) then v ++ b':' ∷ s else v)).1 snap) refl
  ]

  pub set_property_accepted :
      (p : PropName) (v s : Bytes) (d : Dataset)
      → is_last_used p ≡ false
      → Writes p (name_of d)
      → (e : Dataset) × (set_property host p v s d ≡ set_to e)
  unfolding set_property
  set_property_accepted p v s d l a =
      rw (write_accepted p v s (name_of d) (is_snapshot_of d) l a, set_property)
        (refresh_objects_total host p v s d (λ y. absurd cc))

  -- The revert, on the cache in which the dataset was replaced.
  set_back :
      (p : PropName) (name : Bytes) (cache : Cache) (d e : Dataset)
      → is_last_used p ≡ false
      → find_in_children name cache ≡ some e
      → name_of e ≡ name
      → Writes p name
      → erase_tree p e ≡ erase_tree p d
      → (is_snapshot_of d && is_bootfs_datasets p ≡ true → e ≡ d)
      → (g : Dataset) × (find_in_children name
            (set_at host p
              (property_from_name host p (prop_of d)).0
              (property_from_name host p (prop_of d)).1
              name
              cache).0
          ≡ some g)
        × (prop_of g ≡ prop_of d)
  unfolding set_at
  set_back p name cache d e l f q a h same =
      let (v, s) = property_from_name host p (prop_of d) in
      let (g, k) = set_property_accepted p v s e l (rw q a) in
      let (named, (snap, rest)) = erase_tree_parts p g e (set_property-erase host p v s e g k) in
      rw (f, set_at)
        (rw (k, set_at)
          (
            g,
            find-replace_children name g cache (named ∙ q) ∙ ap (replaced g) f,
            set_property_back p d e g l h same k,
          ))

  -- Whether or not a property was set on a dataset, cancelling the transaction leaves the dataset
  -- in the cache with the properties and sources that it had, if it is not the time of the last use and
  -- libzfs writes the property.
  pub set_property_of-cancel :
      (p : PropName) (v name : Bytes) (force : Bool) (cache : Cache) (d : Dataset)
      → is_last_used p ≡ false
      → find_in_children name cache ≡ some d
      → name_of d ≡ name
      → Writes p name
      → (g : Dataset) × (find_in_children name
            (cancel
              (set_property_of host p v name force
                (record { cache = cache; reverts = [] })).0).cache
          ≡ some g)
        × (prop_of g ≡ prop_of d)
  unfolding set_property_of set_found cancel
  set_property_of-cancel p v name force cache d l f q a =
      let s = (property_from_name host p (prop_of d)).1 in
      rw (f, set_property_of)
        (elim (Bool-cases (not force && (not (text_eq s local) && not (text_eq s [])))) [
          | inl skipped ↦ rw (skipped, set_found) (d, f, refl)
          | inr sets ↦
              let (e, k) = set_property_accepted p v local d l (rw q a) in
              let h = set_property-erase host p v local d e k in
              let (named, rest) = erase_tree_parts p e d h in
              rw (sets, set_found)
                (rw (k, set_found)
                  (set_back p name (replace_in_children name e cache) d e l
                    (find-replace_children name e cache (named ∙ q) ∙ ap (replaced e) f) (named ∙ q)
                    a h (untouched p v local d e k)))
        ])
