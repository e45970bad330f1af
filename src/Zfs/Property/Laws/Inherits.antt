-- ===== src/Zfs/Property/Laws/Inherits.antt =====
-- The datasets that inherit a property have the value of the dataset above.
use mathlib.Core.Path.{subst}
use zsys.Prelude.{
  Bool, true, false, ◌&&◌, none, some, [], ◌≡◌, ◌≢◌, inl, inr, refl, sym, ap, ◌∙◌, arith,
  Bool-cases, some_inj, bind_some,
}
use zsys.Text.{Bytes, codes, text_eq}
use zsys.Text.Laws.{text_eq_iff}
use zsys.Zfs.Dataset.{
  Dataset, dataset, Children, nil, cons, DatasetProp, name_of, is_snapshot_of, prop_of,
}
use zsys.Zfs.Refresh.{inherited, yes_no}
use zsys.Zfs.Property.Laws.{refresh_objects-set_to, set_property-set_to}
use zsys.Zfs.Property.{
  PropName, canmount, mountpoint, bootfs, last_used, last_booted_kernel, bootfs_datasets,
  snapshot_canmount, snapshot_mountpoint, Host, set_to, is_bootfs_datasets, is_mountpoint,
  property_from_name, store, follows, child_value, inherit, inherit_children, set_fields, write,
  set_property,
}

module _ (host : Host) where
  -- A child that inherits a property and is no snapshot has the value of its parent.
  abbrev pub Inherited : PropName → Bytes → Dataset → Type 0
  Inherited p v d =
      is_snapshot_of d ≡ false
      → (property_from_name host p (prop_of d)).1 ≡ inherited
      → (property_from_name host p (prop_of d)).0 ≡ v

  abbrev mutual
    pub Inherits : PropName → Dataset → Type 0
    Inherits p (dataset n s d cs) = InheritsFrom p (property_from_name host p d).0 cs

    pub InheritsFrom : PropName → Bytes → Children → Type 0
    InheritsFrom p v nil = Unit
    InheritsFrom p v (cons d ds) = Inherited p v d × (Inherits p d × InheritsFrom p v ds)

  Inherits-dataset :
      (p : PropName) (n : Bytes) (s : Bool) (d : DatasetProp) (cs : Children) {v : Bytes}
      → (property_from_name host p d).0 ≡ v
      → InheritsFrom p v cs
      → Inherits p (dataset n s d cs)
  Inherits-dataset p n s d cs e g = subst (λ u. InheritsFrom p u cs) (sym e) g

  -- The value that is read of a value that was stored.
  abbrev pub shown : PropName → Bytes → Bytes
  shown bootfs v = yes_no (text_eq v (codes "yes"))
  shown last_used v = elim (host.atoi v) [ none ↦ [] | some n ↦ host.itoa n ]
  shown p v = v

  property_from_name-store :
      (p : PropName) (v s : Bytes) (d e : DatasetProp)
      → store host p v s d ≡ some e
      → property_from_name host p e ≡ (shown p v, s)
  unfolding property_from_name store
  property_from_name-store last_used v s d e h =
      let (n, a, b) = bind_some (host.atoi v) _ h in
      rw (a, shown) (ap (property_from_name host last_used) (sym (some_inj b)))
  property_from_name-store canmount v s d e h =
      ap (property_from_name host canmount) (sym (some_inj h))
  property_from_name-store mountpoint v s d e h =
      ap (property_from_name host mountpoint) (sym (some_inj h))
  property_from_name-store bootfs v s d e h = ap (property_from_name host bootfs) (sym (some_inj h))
  property_from_name-store last_booted_kernel v s d e h =
      ap (property_from_name host last_booted_kernel) (sym (some_inj h))
  property_from_name-store bootfs_datasets v s d e h =
      ap (property_from_name host bootfs_datasets) (sym (some_inj h))
  property_from_name-store snapshot_canmount v s d e h =
      ap (property_from_name host snapshot_canmount) (sym (some_inj h))
  property_from_name-store snapshot_mountpoint v s d e h =
      ap (property_from_name host snapshot_mountpoint) (sym (some_inj h))

  follows-inherited :
      (p : PropName) (s : Bool) (d : DatasetProp)
      → follows host p s d ≡ false
      → s ≡ false
      → (property_from_name host p d).1 ≢ inherited
  unfolding follows
  follows-inherited p s d h f e =
      let y : text_eq (property_from_name host p d).1 inherited ≡ true = (text_eq_iff _ _).1 e in
      ground arith

  mutual
    unfolding inherit child_value

    inherit-Inherits :
        (p : PropName) (v old : Bytes) (d e : Dataset)
        → is_mountpoint p ≡ false
        → Inherits p d
        → inherit host p v old d ≡ some e
        → Inherited p (shown p v) e × Inherits p e
    inherit-Inherits p v old (dataset n s d cs) e m g h = elim (Bool-cases (follows host p s d)) [
      | inl y ↦
          let (x, a, h2) = bind_some (store host p w inherited d) _ (rw y at h) in
          let (xs, b, h3) = bind_some (inherit_children host p v old cs) _ h2 in
          let here : property_from_name host p x ≡ (shown p v, inherited) =
            property_from_name-store p w inherited d x a ∙ ap (λ u. (shown p u, inherited)) plain in
          subst (λ e. Inherited p (shown p v) e × Inherits p e) (some_inj h3)
            (
              (λ f q. ap (λ u. u.0) here),
              Inherits-dataset p n s x xs (λ i. (here i).0)
                  (inherit_children-Inherits p (property_from_name host p d).0 v old cs xs m g b),
            )
      | inr k ↦
          subst (λ e. Inherited p (shown p v) e × Inherits p e) (some_inj (rw k at h))
            ((λ f q. absurd (follows-inherited p s d k f q)), g)
    ]
      where
        w : Bytes
        w = child_value host p v old (property_from_name host p d).0

        plain : w ≡ v
        plain = rw m refl

    inherit_children-Inherits :
        (p : PropName) (u v old : Bytes) (ds es : Children)
        → is_mountpoint p ≡ false
        → InheritsFrom p u ds
        → inherit_children host p v old ds ≡ some es
        → InheritsFrom p (shown p v) es
    inherit_children-Inherits p u v old nil es m g h =
        subst (InheritsFrom p (shown p v)) (some_inj h) tt
    inherit_children-Inherits p u v old (cons d ds) es m g h =
        let (x, a, h2) = bind_some (inherit host p v old d) _ h in
        let (xs, b, h3) = bind_some (inherit_children host p v old ds) _ h2 in
        let (top, below) = inherit-Inherits p v old d x m g.1.0 a in
        subst (InheritsFrom p (shown p v)) (some_inj h3)
          (top, (below, inherit_children-Inherits p u v old ds xs m g.1.1 b))

  set_fields-Inherits :
      (p : PropName) (v s : Bytes) (d e : Dataset)
      → is_mountpoint p ≡ false
      → Inherits p d
      → set_fields host p v s d ≡ some e
      → Inherits p e × (property_from_name host p (prop_of e) ≡ (shown p v, s))
  unfolding set_fields
  set_fields-Inherits p v s (dataset n snap d cs) e m g h =
      let (x, a, h2) = bind_some (store host p v s d) _ h in
      let (xs, b, h3) = bind_some (inherit_children host p v _ cs) _ h2 in
      let here = property_from_name-store p v s d x a in
      subst (λ e. Inherits p e × (property_from_name host p (prop_of e) ≡ (shown p v, s)))
        (some_inj h3)
        (
          Inherits-dataset p n snap x xs (λ i. (here i).0)
              (inherit_children-Inherits p (property_from_name host p d).0 v _ cs xs m g b),
          here,
        )

  -- Setting a property other than the mount point leaves the datasets that inherit it with the value
  -- of the dataset above them, in the whole tree, if they had it before; and, unless it is the tags
  -- of a snapshot, which are left, the dataset has the source that was given and the value that the
  -- write gave.
  pub set_property-Inherits :
      (p : PropName) (v s : Bytes) (d e : Dataset)
      → is_mountpoint p ≡ false
      → Inherits p d
      → set_property host p v s d ≡ set_to e
      → Inherits p e
        × (((is_snapshot_of d && is_bootfs_datasets p) ≡ false)
            → (w : Bytes) × (write host p v s (name_of d) (is_snapshot_of d) ≡ inl w)
              × (property_from_name host p (prop_of e) ≡ (shown p w, s)))
  set_property-Inherits p v s d e m g h =
      let (w, q, k) = set_property-set_to host p v s d e h in
      elim (refresh_objects-set_to host p w s d e k) [
        | inl (y, same) ↦ (subst (Inherits p) (sym same) g, λ z. absurd cc)
        | inr (z, r) ↦ let (i, x) = set_fields-Inherits p w s d e m g r in (i, λ z. (w, q, x))
      ]
