-- ===== src/Zfs/Property/Laws.antt =====
-- What setting a property does to a dataset and to the tree below it.
pub mod Inherits
pub mod Revert
pub mod Frame
use zsys.Prelude.{
  ℕ, Bool, true, false, not, ◌&&◌, ◌||◌, Option, none, some, [], ◌∷◌, ◌++◌, ◌≡◌, ◌≢◌, ◌⊎◌, inl, inr,
  refl, sym, ap, ◌∙◌, arith, if◌then◌else◌, ◌>>=◌, Bool-cases, some_inj, bind_some,
}
use zsys.Text.{Bytes, codes, text_eq}
use zsys.Zfs.Dataset.{Dataset, dataset, Children, nil, cons, DatasetProp, name_of, is_snapshot_of}
use zsys.Zfs.Property.{
  PropName, canmount, mountpoint, bootfs, last_used, last_booted_kernel, bootfs_datasets,
  snapshot_canmount, snapshot_mountpoint, Host, SetError, refused, not_an_int, panicked, SetResult,
  set_to, failed, is_native, user_name, is_last_used, is_bootfs_datasets, is_mountpoint,
  property_from_name, or_else, or_zero, checked, store, follows, child_value, inherit,
  inherit_children, write, set_fields, set_result, refresh_objects, set_property,
}
use zsys.Zfs.Property.Write.{Storable, write-Storable, write-inr}

set_to_inj : {d e : Dataset} → set_to d ≡ set_to e → e ≡ d
set_to_inj h = cc

set_result-set_to : (o : Option Dataset) (e : Dataset) → set_result o ≡ set_to e → o ≡ some e
unfolding set_result
set_result-set_to none e h = absurd cc
set_result-set_to (some d) e h = cc

-- The properties without the value and the source of one of them.
abbrev pub erase : PropName → DatasetProp → DatasetProp
erase canmount d = record d { can_mount = []; sources = record d.sources { can_mount = [] } }
erase snapshot_canmount d = record d {
  can_mount = [];
  sources = record d.sources { can_mount = [] };
}
erase mountpoint d = record d { mountpoint = []; sources = record d.sources { mountpoint = [] } }
erase snapshot_mountpoint d = record d {
  mountpoint = [];
  sources = record d.sources { mountpoint = [] };
}
erase bootfs d = record d { boot_fs = false; sources = record d.sources { boot_fs = [] } }
erase last_used d = record d { last_used = 0; sources = record d.sources { last_used = [] } }
erase last_booted_kernel d = record d {
  last_booted_kernel = [];
  sources = record d.sources { last_booted_kernel = [] };
}
erase bootfs_datasets d = record d {
  bootfs_datasets = [];
  sources = record d.sources { bootfs_datasets = [] };
}

-- The tree without one property.
abbrev mutual
  pub erase_tree : PropName → Dataset → Dataset
  erase_tree p (dataset n s d cs) = dataset n s (erase p d) (erase_children p cs)

  pub erase_children : PropName → Children → Children
  erase_children p nil = nil
  erase_children p (cons d ds) = cons (erase_tree p d) (erase_children p ds)

module _ (host : Host) where
  pub store_total :
      (p : PropName) (v s : Bytes) (d : DatasetProp)
      → Storable host p v
      → (e : DatasetProp) × (store host p v s d ≡ some e)
  unfolding store
  store_total last_used v s d h = let (n, e) = h refl in rw e (_, refl)
  store_total canmount v s d h = (_, refl)
  store_total mountpoint v s d h = (_, refl)
  store_total bootfs v s d h = (_, refl)
  store_total last_booted_kernel v s d h = (_, refl)
  store_total bootfs_datasets v s d h = (_, refl)
  store_total snapshot_canmount v s d h = (_, refl)
  store_total snapshot_mountpoint v s d h = (_, refl)

  pub store-erase :
      (p : PropName) (v s : Bytes) (d e : DatasetProp)
      → store host p v s d ≡ some e
      → erase p e ≡ erase p d
  unfolding store
  store-erase last_used v s d e h =
      let (n, a, b) = bind_some (host.atoi v) _ h in ap (erase last_used) (sym (some_inj b))
  store-erase canmount v s d e h = ap (erase canmount) (sym (some_inj h))
  store-erase mountpoint v s d e h = ap (erase mountpoint) (sym (some_inj h))
  store-erase bootfs v s d e h = ap (erase bootfs) (sym (some_inj h))
  store-erase last_booted_kernel v s d e h = ap (erase last_booted_kernel) (sym (some_inj h))
  store-erase bootfs_datasets v s d e h = ap (erase bootfs_datasets) (sym (some_inj h))
  store-erase snapshot_canmount v s d e h = ap (erase snapshot_canmount) (sym (some_inj h))
  store-erase snapshot_mountpoint v s d e h = ap (erase snapshot_mountpoint) (sym (some_inj h))

  child_value-Storable :
      (p : PropName) (v old current : Bytes)
      → Storable host p v
      → Storable host p (child_value host p v old current)
  unfolding child_value
  child_value-Storable last_used v old current h = h
  child_value-Storable mountpoint v old current h = λ e. absurd cc
  child_value-Storable canmount v old current h = h
  child_value-Storable bootfs v old current h = h
  child_value-Storable last_booted_kernel v old current h = h
  child_value-Storable bootfs_datasets v old current h = h
  child_value-Storable snapshot_canmount v old current h = h
  child_value-Storable snapshot_mountpoint v old current h = h

  mutual
    unfolding inherit

    inherit_total :
        (p : PropName) (v old : Bytes) (d : Dataset)
        → Storable host p v
        → (e : Dataset) × (inherit host p v old d ≡ some e)
    inherit_total p v old (dataset n s d cs) h = elim (Bool-cases (follows host p s d)) [
      | inl y ↦
          let (e, a) =
            store_total p (child_value host p v old (property_from_name host p d).0)
              (codes "inherited") d
              (child_value-Storable p v old (property_from_name host p d).0 h) in
          let (es, b) = inherit_children_total p v old cs h in rw (y, a, b) (_, refl)
      | inr m ↦ rw m (_, refl)
    ]

    inherit_children_total :
        (p : PropName) (v old : Bytes) (ds : Children)
        → Storable host p v
        → (es : Children) × (inherit_children host p v old ds ≡ some es)
    inherit_children_total p v old nil h = (nil, refl)
    inherit_children_total p v old (cons d ds) h =
        let (e, a) = inherit_total p v old d h in
        let (es, b) = inherit_children_total p v old ds h in rw (a, b) (_, refl)

  mutual
    unfolding inherit

    inherit-erase :
        (p : PropName) (v old : Bytes) (d e : Dataset)
        → inherit host p v old d ≡ some e
        → erase_tree p e ≡ erase_tree p d
    inherit-erase p v old (dataset n s d cs) e h = elim (Bool-cases (follows host p s d)) [
      | inl y ↦
          let w = child_value host p v old (property_from_name host p d).0 in
          let (g, a, h2) = bind_some (store host p w (codes "inherited") d) _ (rw y at h) in
          let (gs, b, h3) = bind_some (inherit_children host p v old cs) _ h2 in
          ap (erase_tree p) (sym (some_inj h3)) ∙ λ i.
          dataset n s (store-erase p w (codes "inherited") d g a i)
            (inherit_children-erase p v old cs gs b i)
      | inr m ↦ ap (erase_tree p) (sym (some_inj (rw m at h)))
    ]

    inherit_children-erase :
        (p : PropName) (v old : Bytes) (ds es : Children)
        → inherit_children host p v old ds ≡ some es
        → erase_children p es ≡ erase_children p ds
    inherit_children-erase p v old nil es h = ap (erase_children p) (sym (some_inj h))
    inherit_children-erase p v old (cons d ds) es h =
        let (g, a, h2) = bind_some (inherit host p v old d) _ h in
        let (gs, b, h3) = bind_some (inherit_children host p v old ds) _ h2 in
        ap (erase_children p) (sym (some_inj h3)) ∙ λ i.
        cons (inherit-erase p v old d g a i) (inherit_children-erase p v old ds gs b i)

  pub set_fields_total :
      (p : PropName) (v s : Bytes) (d : Dataset)
      → Storable host p v
      → (e : Dataset) × (set_fields host p v s d ≡ some e)
  unfolding set_fields
  set_fields_total p v s (dataset n snap d cs) h =
      let (e, a) = store_total p v s d h in
      let (es, b) =
        inherit_children_total p v (if is_mountpoint p then (property_from_name host p d).0 else [])
          cs h in
      rw (a, b) (_, refl)

  set_fields-erase :
      (p : PropName) (v s : Bytes) (d e : Dataset)
      → set_fields host p v s d ≡ some e
      → erase_tree p e ≡ erase_tree p d
  unfolding set_fields
  set_fields-erase p v s (dataset n snap d cs) e h =
      let (g, a, h2) = bind_some (store host p v s d) _ h in
      let old = if is_mountpoint p then (property_from_name host p d).0 else [] in
      let (gs, b, h3) = bind_some (inherit_children host p v old cs) _ h2 in
      ap (erase_tree p) (sym (some_inj h3)) ∙ λ i.
      dataset n snap (store-erase p v s d g a i) (inherit_children-erase p v old cs gs b i)

  pub refresh_objects-set_to :
      (p : PropName) (v s : Bytes) (d e : Dataset)
      → refresh_objects host p v s d ≡ set_to e
      → (((is_snapshot_of d && is_bootfs_datasets p) ≡ true) × (e ≡ d))
        ⊎ (((is_snapshot_of d && is_bootfs_datasets p) ≡ false)
            × (set_fields host p v s d ≡ some e))
  unfolding refresh_objects
  refresh_objects-set_to p v s d e h =
      elim (Bool-cases (is_snapshot_of d && is_bootfs_datasets p)) [
        | inl y ↦ inl (y, set_to_inj (rw y at h))
        | inr m ↦ inr (m, set_result-set_to (set_fields host p v s d) e (rw m at h))
      ]

  -- A property that was set: the value that the write gave, and what became of the object.
  pub set_property-set_to :
      (p : PropName) (v s : Bytes) (d e : Dataset)
      → set_property host p v s d ≡ set_to e
      → (w : Bytes) × (write host p v s (name_of d) (is_snapshot_of d) ≡ inl w)
        × (refresh_objects host p w s d ≡ set_to e)
  unfolding set_property
  set_property-set_to p v s d e h = go (write host p v s (name_of d) (is_snapshot_of d)) refl h
    where
      go :
          (r : Bytes ⊎ SetError)
          → write host p v s (name_of d) (is_snapshot_of d) ≡ r
          → (elim r as (λ r. SetResult) [ inr e ↦ failed e | inl v ↦ refresh_objects host p v s d ])
            ≡ set_to e
          → (w : Bytes) × (write host p v s (name_of d) (is_snapshot_of d) ≡ inl w)
            × (refresh_objects host p w s d ≡ set_to e)
      go (inl w) q k = (w, q, k)
      go (inr x) q k = absurd cc

  -- Setting a property changes, in the whole tree of the dataset, that property and its source
  -- only: no other property, no name and no child of any dataset.
  pub set_property-erase :
      (p : PropName) (v s : Bytes) (d e : Dataset)
      → set_property host p v s d ≡ set_to e
      → erase_tree p e ≡ erase_tree p d
  set_property-erase p v s d e h =
      let (w, q, k) = set_property-set_to p v s d e h in
      elim (refresh_objects-set_to p w s d e k) [
        | inl (y, same) ↦ ap (erase_tree p) same
        | inr (m, r) ↦ set_fields-erase p w s d e r
      ]

  pub refresh_objects_total :
      (p : PropName) (v s : Bytes) (d : Dataset)
      → Storable host p v
      → (e : Dataset) × (refresh_objects host p v s d ≡ set_to e)
  unfolding refresh_objects set_result
  refresh_objects_total p v s d h = elim (Bool-cases (is_snapshot_of d && is_bootfs_datasets p)) [
    | inl y ↦ rw y (d, refl)
    | inr m ↦ let (e, q) = set_fields_total p v s d h in rw (m, q) (e, refl)
  ]

  -- A property is set, or the write of it fails because the value is no number or because libzfs
  -- refuses it. The checks of the write are enough for the panic never to be met, on the dataset or
  -- below it.
  pub set_property_total :
      (p : PropName) (v s : Bytes) (d : Dataset)
      → ((e : Dataset) × (set_property host p v s d ≡ set_to e))
        ⊎ ((x : SetError) × (set_property host p v s d ≡ failed x)
            × ((x ≡ not_an_int) ⊎ (x ≡ refused)))
  unfolding set_property
  set_property_total p v s d = go (write host p v s (name_of d) (is_snapshot_of d)) refl
    where
      go :
          (r : Bytes ⊎ SetError)
          → write host p v s (name_of d) (is_snapshot_of d) ≡ r
          → ((e : Dataset) × ((elim r as (λ r. SetResult) [
            | inr e ↦ failed e
            | inl v ↦ refresh_objects host p v s d
          ])
                ≡ set_to e))
            ⊎ ((x : SetError) × ((elim r as (λ r. SetResult) [
              | inr e ↦ failed e
              | inl v ↦ refresh_objects host p v s d
            ])
                  ≡ failed x)
                × ((x ≡ not_an_int) ⊎ (x ≡ refused)))
      go (inl w) q = inl (
          refresh_objects_total p w s d
            (write-Storable host p v s (name_of d) (is_snapshot_of d) w q))
      go (inr x) q = inr (x, refl, write-inr host p v s (name_of d) (is_snapshot_of d) x q)
