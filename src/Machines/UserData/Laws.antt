-- ===== src/Machines/UserData/Laws.antt =====
-- What a change of the home of a user changes.
use zsys.Prelude.{
  Bool, true, false, ◌||◌, Option, none, some, List, [], ◌∷◌, ◌≡◌, refl, ◌⊎◌, inl, inr, Bool-cases,
}
use zsys.Text.{Bytes, text_eq}
use zsys.Zfs.Dataset.{Dataset, name_of}
use zsys.Zfs.Cache.{Cache}
use zsys.Zfs.Transaction.{Transaction}
use zsys.Zfs.Property.{mountpoint, Host, set_property_of}
use zsys.Zfs.Property.Laws.{erase_children}
use zsys.Zfs.Property.Laws.Frame.{OnlyChanges, cancel-OnlyChanges, set_property_of-OnlyChanges}
use zsys.Machines.Model.{State, Machine, get_datasets, is_zsys_machine}
use zsys.Machines.UserTags.{current, Done}
use zsys.Machines.UserData.{
  UserDataError, reuses, Reused, reuse_home, go_on, try_dataset, try_datasets,
  try_reuse_user_data_set, property_not_set, refreshed, changed_home, change_home_on_user_data,
}

module _ (host : Host) (start : Cache) where
  abbrev OnlyHomes : Transaction → Type 0
  OnlyHomes = OnlyChanges mountpoint start

  reuse_home-OnlyHomes :
      (home name : Bytes) (t : Transaction)
      → OnlyHomes t
      → OnlyHomes (reuse_home host home name t).0
  unfolding reuse_home
  reuse_home-OnlyHomes home name t g =
      go (set_property_of host mountpoint home name false t)
        (set_property_of-OnlyChanges host mountpoint home name false start t g)
    where
      go :
          (o : Done)
          → OnlyHomes o.0
          → OnlyHomes
              (elim o.1 as (λ _. Reused) [
                | some e ↦ (o.0, inl (property_not_set e))
                | none ↦ (o.0, inr true)
              ]).0
      go (u, some e) k = k
      go (u, none) k = k

  go_on-OnlyHomes :
      (o : Reused) (next : Transaction → Reused)
      → OnlyHomes o.0
      → ((t : Transaction) → OnlyHomes t → OnlyHomes (next t).0)
      → OnlyHomes (go_on host o next).0
  unfolding go_on
  go_on-OnlyHomes (t, inl e) next g h = g
  go_on-OnlyHomes (t, inr true) next g h = g
  go_on-OnlyHomes (t, inr false) next g h = h t g

  try_dataset-OnlyHomes :
      (user old_home new_home name : Bytes) (d : Dataset) (t : Transaction)
      → OnlyHomes t
      → OnlyHomes (try_dataset host user old_home new_home name d t).0
  unfolding try_dataset
  try_dataset-OnlyHomes user old_home new_home name d t g =
      go (reuses user old_home new_home name (current d t.cache))
    where
      go :
          (r : UserDataError ⊎ Bool)
          → OnlyHomes
              (elim r as (λ _. Reused) [
                | inl e ↦ (t, inl e)
                | inr true ↦ reuse_home host new_home (name_of d) t
                | inr false ↦ (t, inr false)
              ]).0
      go (inl e) = g
      go (inr true) = reuse_home-OnlyHomes new_home (name_of d) t g
      go (inr false) = g

  try_datasets-OnlyHomes :
      (user old_home new_home name : Bytes) (ds : List Dataset) (t : Transaction)
      → OnlyHomes t
      → OnlyHomes (try_datasets host user old_home new_home name ds t).0
  unfolding try_datasets
  try_datasets-OnlyHomes user old_home new_home name [] t g = g
  try_datasets-OnlyHomes user old_home new_home name (d ∷ ds) t g =
      go_on-OnlyHomes (try_dataset host user old_home new_home name d t)
        (try_datasets host user old_home new_home name ds)
        (try_dataset-OnlyHomes user old_home new_home name d t g)
        (λ u h. try_datasets-OnlyHomes user old_home new_home name ds u h)

  try_reuse-OnlyHomes :
      (user old_home new_home : Bytes) (users : List (Bytes × State)) (t : Transaction)
      → OnlyHomes t
      → OnlyHomes (try_reuse_user_data_set host user old_home new_home users t).0
  unfolding try_reuse_user_data_set
  try_reuse-OnlyHomes user old_home new_home [] t g = g
  try_reuse-OnlyHomes user old_home new_home ((name, us) ∷ rest) t g =
      go_on-OnlyHomes (try_datasets host user old_home new_home name (get_datasets us) t)
        (try_reuse_user_data_set host user old_home new_home rest)
        (try_datasets-OnlyHomes user old_home new_home name (get_datasets us) t g)
        (λ u h. try_reuse-OnlyHomes user old_home new_home rest u h)

  -- Only the mountpoint has changed, or that and then the machines were refreshed.
  abbrev pub OnlyHomesUntilRefresh : (Cache → Cache × Bool) → Cache → Type 0
  OnlyHomesUntilRefresh refresh cache =
      (erase_children mountpoint cache ≡ erase_children mountpoint start)
      ⊎ ((before : Cache) × (erase_children mountpoint before ≡ erase_children mountpoint start)
          × (cache ≡ (refresh before).0))

  changed_home-Same :
      (refresh : Cache → Cache × Bool) (home : Bytes) (o : Reused)
      → OnlyHomes o.0
      → OnlyHomesUntilRefresh refresh (changed_home host refresh home o).0
  unfolding changed_home refreshed
  changed_home-Same refresh home (t, inl e) g = inl (cancel-OnlyChanges mountpoint start t g)
  changed_home-Same refresh home (t, inr true) g = inr (t.cache, g.0, refl)
  changed_home-Same refresh home (t, inr false) g = inl (cancel-OnlyChanges mountpoint start t g)

  -- `ChangeHomeOnUserData`, whatever its result, itself changes nothing in the cache but the mountpoint
  -- of datasets and its source: the cache differs from the one it started with only in these, or it
  -- is what a refresh of the machines makes of such a cache.
  pub change_home-Same :
      (refresh : Cache → Cache × Bool) (m : Option Machine) (home new_home : Bytes)
      → OnlyHomesUntilRefresh refresh
          (change_home_on_user_data host refresh m home new_home start).0
  unfolding change_home_on_user_data
  change_home-Same refresh none home new_home = inl refl
  change_home-Same refresh (some m) home new_home = elim (Bool-cases (is_zsys_machine (some m))) [
    | inr n ↦ rw (change_home_on_user_data, n) (inl refl)
    | inl y ↦ elim (Bool-cases (text_eq home [] || text_eq new_home [])) [
      | inl missing ↦ rw (change_home_on_user_data, y, missing) (inl refl)
      | inr given ↦
          let fresh : Transaction = record { cache = start; reverts = [] } in
          rw (change_home_on_user_data, y, given)
            (changed_home-Same refresh home
              (try_reuse_user_data_set host [] home new_home m.main.users fresh)
              (try_reuse-OnlyHomes [] home new_home m.main.users fresh (refl, tt)))
    ]
  ]
