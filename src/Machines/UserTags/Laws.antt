-- ===== src/Machines/UserTags/Laws.antt =====
-- A user dataset that was tagged belongs to the state.
use mathlib.Core.Path.{subst}
use zsys.Prelude.{
  Bool, true, false, not, ◌&&◌, ◌||◌, some, List, [], ◌∷◌, ◌++◌, ◌≡◌, refl, sym, ap, ◌∙◌, arith,
  ◌==◌, Bool-cases, inl, inr, some_inj,
}
use zsys.Text.{Bytes, text_eq, has_suffix, has_byte, contains, split}
use zsys.Text.Laws.{text_eq_refl, text_eq_sound, has_suffix_sound}
use zsys.Text.Split.{split-absent}
use zsys.Zfs.Dataset.{Dataset, name_of, is_snapshot_of, prop_of}
use zsys.Zfs.Cache.{find_in_children}
use zsys.Zfs.Transaction.{Transaction}
use zsys.Zfs.Refresh.{local}
use zsys.Zfs.Property.{
  bootfs_datasets, Host, property_from_name, store, set_to, set_property, set_found,
  set_property_of,
}
use zsys.Zfs.Property.Write.{write-other}
use zsys.Zfs.Property.Laws.{set_property-set_to, refresh_objects-set_to, set_property-erase}
use zsys.Zfs.Property.Laws.Revert.{
  Writes, set_property_accepted, set_fields-store, find-replace_children, replaced,
  erase_tree_parts,
}
use zsys.Machines.Tags.{separator}
use zsys.Machines.UserTags.{
  named_in_tags, name_in_bootfs_datasets, current, is_tagged, tagged, tag_found, tag_one,
}

named_in_tags-equal :
    (id all p : Bytes) (ps : List Bytes)
    → named_in_tags id all ps ≡ true
    → named_in_tags id all (p ∷ ps) ≡ true
unfolding named_in_tags
named_in_tags-equal id all p ps h = ground arith

-- The parts of a text behind whose last separator the name stands.
last_part :
    (id all s : Bytes)
    → has_byte separator id ≡ false
    → (p : Bytes) × (ps : List Bytes) × (split (s ++ separator ∷ id) separator ≡ p ∷ ps)
      × (named_in_tags id all ps ≡ true)
unfolding split named_in_tags
last_part id all [] h =
    ([], id ∷ [], rw (split-absent id separator h) refl, rw (text_eq_refl id) refl)
last_part id all (c ∷ s) h =
    let (p, ps, e, k) = last_part id all s h in
    elim (Bool-cases (c == separator)) [
      | inl y ↦ ([], p ∷ ps, rw (e, y) refl, named_in_tags-equal id all p ps k)
      | inr n ↦ (c ∷ p, ps, rw (e, n) refl, k)
    ]

appended-listed :
    (id s : Bytes)
    → has_byte separator id ≡ false
    → named_in_tags id (s ++ separator ∷ id) (split (s ++ separator ∷ id) separator) ≡ true
appended-listed id s h =
    let (p, ps, e, k) = last_part id (s ++ separator ∷ id) s h in
    rw e (named_in_tags-equal id (s ++ separator ∷ id) p ps k)

only-listed :
    (id : Bytes) → has_byte separator id ≡ false → named_in_tags id id (split id separator) ≡ true
unfolding named_in_tags
only-listed id h = rw (split-absent id separator h) (rw (text_eq_refl id) refl)

abbrev Listed : Bytes → Bytes → Type 0
Listed id tags = named_in_tags id tags (split tags separator) ≡ true

tagged-Listed : (id : Bytes) (d : Dataset) → has_byte separator id ≡ false → Listed id (tagged id d)
unfolding tagged
tagged-Listed id d h = elim (Bool-cases (text_eq (prop_of d).bootfs_datasets id)) [
  | inl y ↦ elim (Bool-cases ((prop_of d).last_used == 0)) [
    | inl z ↦ rw (y, z) (rw (text_eq_sound (prop_of d).bootfs_datasets id y) (only-listed id h))
    | inr n ↦ rw (y, n) (appended-listed id (prop_of d).bootfs_datasets h)
  ]
  | inr m ↦ rw m (appended-listed id (prop_of d).bootfs_datasets h)
]

-- The tags of a dataset that is taken for tagged, if the state is not only a part of a tag.
is_tagged-Listed :
    (id : Bytes) (d : Dataset)
    → has_byte separator id ≡ false
    → contains (prop_of d).bootfs_datasets (id ++ separator ∷ []) ≡ false
    → is_tagged id d ≡ true
    → Listed id (prop_of d).bootfs_datasets
unfolding is_tagged
is_tagged-Listed id d h c t =
    let tags = (prop_of d).bootfs_datasets in
    elim (Bool-cases (has_suffix tags (separator ∷ id))) [
      | inl y ↦
          let (r, e) = has_suffix_sound tags (separator ∷ id) y in rw e (appended-listed id r h)
      | inr n ↦
          let same : text_eq tags id ≡ true = ground arith in
          rw (text_eq_sound tags id same) (only-listed id h)
    ]

module _ (host : Host) where
  set_property-value :
      (v : Bytes) (d e : Dataset)
      → is_snapshot_of d ≡ false
      → set_property host bootfs_datasets v local d ≡ set_to e
      → (prop_of e).bootfs_datasets ≡ v
  unfolding store
  set_property-value v d e s h =
      let (w, q, k) = set_property-set_to host bootfs_datasets v local d e h in
      let plain : w ≡ v =
        write-other host bootfs_datasets v local (name_of d) (is_snapshot_of d) w refl q in
      elim (refresh_objects-set_to host bootfs_datasets w local d e k) [
        | inl (y, same) ↦ absurd (filesystem (is_snapshot_of d) s y)
        | inr (n, f) ↦
            let stored = set_fields-store host bootfs_datasets w local d e f in
            sym (ap (λ p. p.bootfs_datasets) (some_inj stored)) ∙ plain
      ]
    where
      filesystem : (b : Bool) → b ≡ false → (b && true) ≡ true → ⊥
      filesystem b s y = ground arith

  -- The property is set on the dataset of the name, as it is local or not set.
  set_found-Listed :
      (v id name : Bytes) (t : Transaction) (d : Dataset)
      → find_in_children name t.cache ≡ some d
      → name_of d ≡ name
      → is_snapshot_of d ≡ false
      → (text_eq (prop_of d).sources.bootfs_datasets local
          || text_eq (prop_of d).sources.bootfs_datasets [])
        ≡ true
      → Writes host bootfs_datasets name
      → Listed id v
      → (e : Dataset) × (find_in_children name
            (set_property_of host bootfs_datasets v name false t).0.cache
          ≡ some e)
        × Listed id (prop_of e).bootfs_datasets
  unfolding set_property_of set_found property_from_name
  set_found-Listed v id name t d f q s o a h =
      let (e, k) = set_property_accepted host bootfs_datasets v local d refl (rw q a) in
      let (named, rest) =
        erase_tree_parts host bootfs_datasets e d
          (set_property-erase host bootfs_datasets v local d e k) in
      let sets : not (text_eq (prop_of d).sources.bootfs_datasets local)
            && not (text_eq (prop_of d).sources.bootfs_datasets [])
          ≡ false =
        ground arith in
      rw (f, set_property_of)
        (rw (sets, set_found)
          (rw (k, set_found)
            (
              e,
              find-replace_children name e t.cache (named ∙ q) ∙ ap (replaced e) f,
              rw (set_property-value v d e s k) h,
            )))

  -- Tagging a user dataset succeeds in making it belong to the state: afterwards
  -- `nameInBootfsDatasets` holds of the dataset in the cache and the state. The dataset is a filesystem that
  -- is in the cache under its name, its tags are local or not set, libzfs writes them, the state
  -- has no comma in its name, and the tags do not hold that name with a comma behind it.
  pub tag_one-name_in :
      (id : Bytes) (d e : Dataset) (t : Transaction)
      → has_byte separator id ≡ false
      → find_in_children (name_of d) t.cache ≡ some e
      → name_of e ≡ name_of d
      → is_snapshot_of e ≡ false
      → (text_eq (prop_of e).sources.bootfs_datasets local
          || text_eq (prop_of e).sources.bootfs_datasets [])
        ≡ true
      → contains (prop_of e).bootfs_datasets (id ++ separator ∷ []) ≡ false
      → Writes host bootfs_datasets (name_of d)
      → (g : Dataset) × (find_in_children (name_of d) (tag_one host id d t).0.cache ≡ some g)
        × (name_in_bootfs_datasets id g ≡ true)
  unfolding tag_one tag_found name_in_bootfs_datasets
  tag_one-name_in id d e t h f q s o c a =
      subst Result (sym same) (elim (Bool-cases (is_tagged id e)) [
        | inl y ↦ rw (y, tag_found) (e, f, is_tagged-Listed id e h c y)
        | inr n ↦
            rw (n, tag_found)
              (set_found-Listed (tagged id e) id (name_of d) t e f q s o a (tagged-Listed id e h))
      ])
    where
      Result : Dataset → Type 0
      Result x =
          (g : Dataset) × (find_in_children (name_of d) (tag_found host id (name_of d) x t).0.cache
            ≡ some g)
          × (name_in_bootfs_datasets id g ≡ true)

      same : current d t.cache ≡ e
      same = rw (f, current) refl
