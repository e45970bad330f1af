-- ===== src/Machines/UserData.antt =====
-- internal/machines/userdata.go: `CreateUserData`, `ChangeHomeOnUserData` and `DissociateUser` over the
-- transaction, with `tryReuseUserDataSet` and `getUserDatasetRoot`. Mounts, owners and the content of
-- directories are outside: their errors are only logged. A dataset is read as it is then in the cache,
-- and the refresh at the end is a parameter, which gives the cache that the new scan of the datasets
-- leaves, and whether it succeeded.
pub mod Laws
mod Tests
use zsys.Prelude.{
  ℕ, suc, ◌+◌, Bool, true, false, not, ◌&&◌, ◌||◌, Option, none, some, List, [], ◌∷◌, ◌++◌, ◌⊎◌,
  inl, inr, if◌then◌else◌, take, length, map,
}
use zsys.Text.{Bytes, codes, text_eq, has_prefix, has_suffix, index_byte}
use zsys.Zfs.Dataset.{Dataset, name_of, prop_of}
use zsys.Zfs.Hierarchy.{collect_children}
use zsys.Zfs.Cache.{Cache}
use zsys.Zfs.Transaction.{Transaction, cancel}
use zsys.Zfs.Property.{
  mountpoint, bootfs_datasets, last_used, canmount, Host, PropertyError, set_property_of,
}
use zsys.Zfs.Create.{Creator, CreateError, create}
use zsys.Machines.Model.{State, Machine, get_datasets, is_zsys_machine}
use zsys.Machines.Maps.{lookup}
use zsys.Machines.Populate.{lower}
use zsys.Machines.Tags.{new_tag}
use zsys.Machines.UserTags.{current, Done, each}

pub data UserDataError : Type 0 where
  not_zsys : UserDataError
  no_user_name : UserDataError
  no_home : UserDataError
  taken_home : Bytes → Bytes → UserDataError
  not_found : Bytes → UserDataError
  not_created : CreateError → UserDataError
  property_not_set : PropertyError → UserDataError
  not_refreshed : UserDataError

abbrev pub userdatasets_container_name : Bytes
userdatasets_container_name = codes "/userdata/"

-- The first place of a text in another; `none` stands for -1.
unfoldable pub index_of_text : Bytes → Bytes → Option ℕ
unfolding has_prefix
index_of_text [] t = if has_prefix [] t then some 0 else none
index_of_text (c ∷ s) t =
    let later = index_of_text s t in
    if has_prefix (c ∷ s) t then some 0 else elim later [ none ↦ none | some i ↦ some (i + 1) ]

unfoldable pub get_user_dataset_root : Bytes → Bytes
unfolding index_of_text
get_user_dataset_root path = elim (index_of_text (map lower path) userdatasets_container_name) [
  | none ↦ []
  | some i ↦ take (i + length userdatasets_container_name) path
]

-- Whether a dataset of a user is the one to reuse.
unfoldable pub reuses : Bytes → Bytes → Bytes → Bytes → Dataset → UserDataError ⊎ Bool
reuses [] old_home new_home name d =
    inr (not (text_eq old_home []) && text_eq (prop_of d).mountpoint old_home)
reuses (c ∷ user) old_home new_home name d =
    if text_eq (prop_of d).mountpoint new_home && not (text_eq (c ∷ user) name)
    then inl (taken_home new_home name)
    else inr (text_eq name (c ∷ user))

abbrev pub Reused : Type 0
Reused = Transaction × (UserDataError ⊎ Bool)

module _ (host : Host) where
  unfoldable pub reuse_home : Bytes → Bytes → Transaction → Reused
  unfolding set_property_of
  reuse_home new_home name t =
      let (left, error) = set_property_of host mountpoint new_home name false t in
      elim error [ some e ↦ (left, inl (property_not_set e)) | none ↦ (left, inr true) ]

  unfoldable pub go_on : Reused → (Transaction → Reused) → Reused
  go_on (t, inl e) next = (t, inl e)
  go_on (t, inr true) next = (t, inr true)
  go_on (t, inr false) next = next t

  unfoldable pub try_dataset : Bytes → Bytes → Bytes → Bytes → Dataset → Transaction → Reused
  unfolding reuses reuse_home
  try_dataset user old_home new_home name d t =
      elim (reuses user old_home new_home name (current d t.cache)) [
        | inl e ↦ (t, inl e)
        | inr true ↦ reuse_home new_home (name_of d) t
        | inr false ↦ (t, inr false)
      ]

  unfoldable pub try_datasets : Bytes → Bytes → Bytes → Bytes → List Dataset → Transaction → Reused
  unfolding try_dataset go_on
  try_datasets user old_home new_home name [] t = (t, inr false)
  try_datasets user old_home new_home name (d ∷ ds) t =
      go_on (try_dataset user old_home new_home name d t)
        (try_datasets user old_home new_home name ds)

  unfoldable pub try_reuse_user_data_set :
      Bytes → Bytes → Bytes → List (Bytes × State) → Transaction → Reused
  unfolding try_datasets get_datasets go_on
  try_reuse_user_data_set user old_home new_home [] t = (t, inr false)
  try_reuse_user_data_set user old_home new_home ((name, us) ∷ rest) t =
      go_on (try_datasets user old_home new_home name (get_datasets us) t)
        (try_reuse_user_data_set user old_home new_home rest)

  module _ (refresh : Cache → Cache × Bool) where
    abbrev pub Result : Type 0
    Result = Cache × Option UserDataError

    unfoldable pub refreshed : Cache → Result
    refreshed cache =
        let (scanned, ok) = refresh cache in (scanned, if ok then none else some not_refreshed)

    unfoldable pub changed_home : Bytes → Reused → Result
    unfolding refreshed cancel
    changed_home home (t, inl e) = ((cancel t).cache, some e)
    changed_home home (t, inr true) = refreshed t.cache
    changed_home home (t, inr false) = ((cancel t).cache, some (not_found home))

    unfoldable pub change_home_on_user_data : Option Machine → Bytes → Bytes → Cache → Result
    unfolding changed_home try_reuse_user_data_set is_zsys_machine
    change_home_on_user_data none home new_home cache = (cache, some not_zsys)
    change_home_on_user_data (some m) home new_home cache =
        if not (is_zsys_machine (some m))
        then (cache, some not_zsys)
        else if text_eq home [] || text_eq new_home []
        then (cache, some no_home)
        else changed_home home (
            try_reuse_user_data_set [] home new_home m.main.users
              (record { cache = cache; reverts = [] }))

    -- The tag of the current system is taken off a user's dataset, which is then not mounted.
    unfoldable pub dissociate_dataset : Bytes → Dataset → Transaction → Done
    unfolding new_tag set_property_of
    dissociate_dataset id d t =
        let tags = (prop_of (current d t.cache)).bootfs_datasets in
        let (left, error) =
          set_property_of host bootfs_datasets (new_tag id tags) (name_of d) false t in
        if text_eq (new_tag id tags) tags then (t, none) else elim error [
          | some e ↦ (left, some e)
          | none ↦ set_property_of host canmount (codes "noauto") (name_of d) false left
        ]

    unfoldable pub dissociated : Done → Result
    unfolding refreshed cancel
    dissociated (t, some e) = ((cancel t).cache, some (property_not_set e))
    dissociated (t, none) = refreshed t.cache

    unfoldable pub dissociate_user : Option Machine → Bytes → Cache → Result
    unfolding dissociated dissociate_dataset each lookup get_datasets is_zsys_machine
    dissociate_user none user cache = (cache, some not_zsys)
    dissociate_user (some m) user cache =
        if not (is_zsys_machine (some m))
        then (cache, some not_zsys)
        else if text_eq user []
        then (cache, some no_user_name)
        else elim (lookup user m.main.users) [
          | none ↦ (cache, some (not_found user))
          | some us ↦ dissociated (
              each host (dissociate_dataset m.main.state.id) (get_datasets us)
                (record { cache = cache; reverts = [] }))
        ]

-- The place of a new dataset for a user's data.
abbrev pub userdata_prefix : Bytes
userdata_prefix = codes "USERDATA"

-- The root of the first route of the users of the current system.
unfoldable pub root_of_users : List (Bytes × State) → Bytes
unfolding get_user_dataset_root
root_of_users [] = []
root_of_users ((user, us) ∷ rest) = elim us.datasets [
  | [] ↦ root_of_users rest
  | (route, ds) ∷ rs ↦ get_user_dataset_root route
]

-- A dataset for user data that has no users below it.
unfoldable pub empty_container : List Dataset → Bytes
empty_container [] = []
empty_container (d ∷ ds) =
    if has_suffix (map lower (name_of d) ++ codes "/") userdatasets_container_name
    then name_of d
    else empty_container ds

unfoldable pub or_root : Bytes → Bytes → Bytes
or_root [] other = other
or_root (c ∷ root) other = c ∷ root

-- The first of the places where data of users stands already; empty where there is none.
unfoldable pub existing_root : List (Bytes × State) → List Dataset → Cache → Bytes
unfolding or_root root_of_users empty_container get_user_dataset_root collect_children
existing_root users all_users cache = or_root (root_of_users users) (
    or_root (elim all_users [ [] ↦ [] | d ∷ ds ↦ get_user_dataset_root (name_of d) ])
      (empty_container (collect_children cache)))

unfoldable pub pool_of_id : Bytes → Bytes
unfolding index_byte
pool_of_id id = elim (index_byte id b'/') [ none ↦ id | some i ↦ take i id ]

-- What a part of `CreateUserData` leaves.
abbrev pub Made : Type 0
Made = Transaction × Option UserDataError

unfoldable pub as_made : Transaction × Option CreateError → Made
as_made (t, none) = (t, none)
as_made (t, some e) = (t, some (not_created e))

unfoldable pub as_set : Done → Made
as_set (t, none) = (t, none)
as_set (t, some e) = (t, some (property_not_set e))

unfoldable pub then_made : Made → (Transaction → Made) → Made
then_made (t, some e) next = (t, some e)
then_made (t, none) next = next t

module _ (host : Host) (z : Creator) (generated_id time : Bytes) where
  -- The root, which is made where there is none.
  unfoldable pub made_root : Bytes → Bytes → Transaction → Bytes × Made
  unfolding as_made create pool_of_id
  made_root id [] t =
      let root = host.join_path (pool_of_id id) userdata_prefix in
      (root, as_made (create z root (codes "/") (codes "off") t))
  made_root id (c ∷ root) t = (c ∷ root, (t, none))

  -- The dataset of the user is made, tagged with the current system, and gets its time.
  unfoldable pub make_user_dataset : Bytes → Bytes → Bytes → Bytes → Transaction → Made
  unfolding then_made as_made as_set create set_property_of
  make_user_dataset id user home root t =
      let name = host.join_path root (user ++ b'_' ∷ generated_id) in
      then_made (as_made (create z name home (codes "on") t)) (λ u.
        then_made (as_set (set_property_of host bootfs_datasets id name false u))
          (λ v. as_set (set_property_of host last_used time name false v)))

  module _ (refresh : Cache → Cache × Bool) where
    unfoldable pub made : Made → Cache × Option UserDataError
    unfolding refreshed cancel
    made (t, some e) = ((cancel t).cache, some e)
    made (t, none) = refreshed host refresh t.cache

    unfoldable pub create_or_reuse :
        Machine → List Dataset → Bytes → Bytes → Reused → Cache × Option UserDataError
    unfolding made made_root make_user_dataset then_made existing_root refreshed cancel
    create_or_reuse m all_users user home (t, inl e) = ((cancel t).cache, some e)
    create_or_reuse m all_users user home (t, inr true) = refreshed host refresh t.cache
    create_or_reuse m all_users user home (t, inr false) =
        let (root, first) =
          made_root m.main.state.id (existing_root m.main.users all_users t.cache) t in
        made (then_made first (make_user_dataset m.main.state.id user home root))

    unfoldable pub create_user_data :
        Option Machine → List Dataset → Bytes → Bytes → Cache → Cache × Option UserDataError
    unfolding create_or_reuse try_reuse_user_data_set is_zsys_machine
    create_user_data none all_users user home cache = (cache, some not_zsys)
    create_user_data (some m) all_users user home cache =
        if not (is_zsys_machine (some m))
        then (cache, some not_zsys)
        else if text_eq user []
        then (cache, some no_user_name)
        else if text_eq home []
        then (cache, some no_home)
        else create_or_reuse m all_users user home (
            try_reuse_user_data_set host user [] home m.main.users
              (record { cache = cache; reverts = [] }))
