-- ===== src/Machines/UserTags.antt =====
-- The tags of user datasets: `nameInBootfsDatasets` of internal/machines/helpers.go, which says
-- whether a user dataset belongs to a system state, and `switchUsersDatasetsTags` and
-- `switchDatasetsCanMount` of internal/machines/boot.go, which set properties in a transaction. A dataset
-- is read as it is then in the cache.
pub mod Laws
mod Tests
use zsys.Prelude.{
  ℕ, zero, suc, ◌+◌, ◌-◌, Bool, true, false, not, ◌&&◌, ◌||◌, Option, none, some, List, [], ◌∷◌,
  ◌++◌, ◌≡◌, refl, if◌then◌else◌, ◌==◌, length, take, drop,
}
use zsys.Text.{trim_suffix, Bytes, codes, text_eq, has_prefix, has_suffix, contains, split}
use zsys.Zfs.Dataset.{Dataset, name_of, is_snapshot_of, prop_of}
use zsys.Zfs.Cache.{Cache, find_in_children}
use zsys.Zfs.Transaction.{Transaction}
use zsys.Zfs.Property.{canmount, bootfs_datasets, Host, PropertyError, set_property_of}
use zsys.Machines.Tags.{separator, diff_datasets}

-- The loop over the tags; the second test reads all the tags.
unfoldable pub named_in_tags : Bytes → Bytes → List Bytes → Bool
named_in_tags name all [] = false
named_in_tags name all (tag ∷ tags) =
    (text_eq tag name || has_prefix all (name ++ codes "/")) || named_in_tags name all tags

unfoldable pub name_in_bootfs_datasets : Bytes → Dataset → Bool
unfolding named_in_tags
name_in_bootfs_datasets name d =
    named_in_tags name (prop_of d).bootfs_datasets (split (prop_of d).bootfs_datasets separator)

-- `strings.Replace` of all occurrences by the empty text. `skip` bytes of an occurrence are still to
-- be left out.
unfoldable pub remove_all : Bytes → ℕ → Bytes → Bytes
remove_all old skip [] = []
remove_all old zero (c ∷ s) =
    let found = remove_all old (length old - 1) s in
    let other = remove_all old zero s in if has_prefix (c ∷ s) old then found else c ∷ other
remove_all old (suc skip) (c ∷ s) = remove_all old skip s

-- The tags of a dataset from which the state `id` is taken.
unfoldable pub untagged : Bytes → Bytes → Bytes
unfolding remove_all trim_suffix
untagged id tags =
    if not (text_eq tags []) && not (text_eq tags id)
    then trim_suffix (remove_all (id ++ separator ∷ []) 0 tags) (separator ∷ id)
    else []

-- The dataset as it is in the cache.
abbrev pub current : Dataset → Cache → Dataset
current d cache = elim (find_in_children (name_of d) cache) [ none ↦ d | some e ↦ e ]

-- A dataset that has the tag already.
unfoldable pub is_tagged : Bytes → Dataset → Bool
is_tagged id d =
    (text_eq (prop_of d).bootfs_datasets id && not ((prop_of d).last_used == 0))
    || (contains (prop_of d).bootfs_datasets (id ++ separator ∷ [])
        || has_suffix (prop_of d).bootfs_datasets (separator ∷ id))

unfoldable pub tagged : Bytes → Dataset → Bytes
tagged id d =
    if text_eq (prop_of d).bootfs_datasets id && (prop_of d).last_used == 0
    then (prop_of d).bootfs_datasets
    else (prop_of d).bootfs_datasets ++ separator ∷ id

-- What a part of an operation leaves, and its error.
abbrev pub Done : Type 0
Done = Transaction × Option PropertyError

module _ (host : Host) where
  unfoldable pub untag_one : Bytes → Dataset → Transaction → Done
  unfolding untagged set_property_of
  untag_one id d t =
      let e = current d t.cache in
      if is_snapshot_of e
      then (t, none)
      else if text_eq (untagged id (prop_of e).bootfs_datasets) (prop_of e).bootfs_datasets
      then (t, none)
      else set_property_of host bootfs_datasets (untagged id (prop_of e).bootfs_datasets)
          (name_of d) false t

  -- The tag of the dataset `e` of a name.
  unfoldable pub tag_found : Bytes → Bytes → Dataset → Transaction → Done
  unfolding is_tagged tagged set_property_of
  tag_found id name e t =
      if is_tagged id e
      then (t, none)
      else set_property_of host bootfs_datasets (tagged id e) name false t

  unfoldable pub tag_one : Bytes → Dataset → Transaction → Done
  unfolding tag_found
  tag_one id d t = tag_found id (name_of d) (current d t.cache) t

  -- A loop that ends at the first error.
  unfoldable pub each : (Dataset → Transaction → Done) → List Dataset → Transaction → Done
  each step [] t = (t, none)
  each step (d ∷ ds) t =
      let (left, error) = step d t in
      elim error [ some e ↦ (left, some e) | none ↦ each step ds left ]

  unfoldable pub switch_users_datasets_tags :
      Bytes → List Dataset → List Dataset → Transaction → Done
  unfolding each untag_one tag_one diff_datasets
  switch_users_datasets_tags id all_users current_users t =
      let (left, error) = each (untag_one id) (diff_datasets all_users current_users) t in
      elim error [ some e ↦ (left, some e) | none ↦ each (tag_one id) current_users left ]

  -- `canmount` of one dataset. The flag tells that there was a change.
  unfoldable pub switch_one :
      Bytes → Dataset → Transaction × Bool → (Transaction × Bool) × Option PropertyError
  unfolding set_property_of
  switch_one can_mount d (t, changed) =
      let initial = if text_eq can_mount (codes "on") then codes "noauto" else codes "on" in
      let e = current d t.cache in
      if not (text_eq (prop_of e).can_mount initial) || is_snapshot_of e
      then ((t, changed), none)
      else let (left, error) = set_property_of host canmount can_mount (name_of d) false t in
        elim error [ some x ↦ ((left, false), some x) | none ↦ ((left, true), none) ]

  unfoldable pub switch_datasets_can_mount :
      Bytes → List Dataset → Transaction × Bool → (Transaction × Bool) × Option PropertyError
  unfolding switch_one
  switch_datasets_can_mount can_mount [] t = (t, none)
  switch_datasets_can_mount can_mount (d ∷ ds) t =
      let (left, error) = switch_one can_mount d t in
      elim error [ some e ↦ (left, some e) | none ↦ switch_datasets_can_mount can_mount ds left ]
