-- ===== src/Zfs/Property.antt =====
-- `stringToProp`, `getPropertyFromName` and `setProperty` of internal/zfs/helpers.go, and
-- `SetProperty` of internal/zfs/zfs.go: a property is set on a dataset, and the datasets below that
-- inherit it follow in the cache. Times are not negative. The property names that make `stringToProp`
-- panic are not among the names here.
pub mod Write
pub mod Laws
mod Tests
use zsys.Prelude.{
  ℕ, Bool, true, false, not, ◌&&◌, ◌||◌, Option, none, some, [], ◌∷◌, ◌++◌, ◌≡◌, refl,
  if◌then◌else◌, ◌>>=◌, ◌⊎◌, inl, inr,
}
use zsys.Text.{Bytes, codes, text_eq, trim_prefix}
use zsys.Zfs.Dataset.{
  Dataset, dataset, Children, nil, cons, DatasetProp, name_of, is_snapshot_of, prop_of,
}
use zsys.Zfs.Refresh.{local, inherited, yes_no}
use zsys.Zfs.Cache.{Cache, find_dataset, find_in_children}
use zsys.Zfs.Transaction.{Transaction, register_revert}

pub data PropName : Type 0 where
  canmount : PropName
  mountpoint : PropName
  bootfs : PropName
  last_used : PropName
  last_booted_kernel : PropName
  bootfs_datasets : PropName
  snapshot_canmount : PropName
  snapshot_mountpoint : PropName

-- What the calls of libzfs and of the standard library answer.
pub record Host : Type 0 where
  -- `SetProperty` or `SetUserProperty` of a value succeeds on a dataset.
  pub sets : Bytes → PropName → Bytes → Bool
  -- `GetUserProperty` of the time of the last use, on a dataset where it was set to a value.
  pub reads : Bytes → Bytes → Option Bytes
  pub atoi : Bytes → Option ℕ
  pub itoa : ℕ → Bytes
  -- `filepath.Join` of two paths.
  pub join_path : Bytes → Bytes → Bytes

pub data SetError : Type 0 where
  not_an_int : SetError
  refused : SetError
  panicked : SetError

pub data SetResult : Type 0 where
  set_to : Dataset → SetResult
  failed : SetError → SetResult

-- `nativeProp` is not empty.
unfoldable pub is_native : PropName → Bool → Bool
is_native canmount is_snapshot = not is_snapshot
is_native mountpoint is_snapshot = not is_snapshot
is_native p is_snapshot = false

-- The property that is written: `userProp` of a property that is not native.
unfoldable pub user_name : PropName → Bool → PropName
user_name canmount is_snapshot = if is_snapshot then snapshot_canmount else canmount
user_name mountpoint is_snapshot = if is_snapshot then snapshot_mountpoint else mountpoint
user_name p is_snapshot = p

abbrev pub is_last_used : PropName → Bool
is_last_used last_used = true
is_last_used p = false

abbrev pub is_bootfs_datasets : PropName → Bool
is_bootfs_datasets bootfs_datasets = true
is_bootfs_datasets p = false

abbrev pub or_else : Option Bytes → Bytes → Bytes
or_else none value = value
or_else (some read) value = read

abbrev pub or_zero : Bytes → Bytes
or_zero value = if text_eq value [] then codes "0" else value

abbrev pub is_mountpoint : PropName → Bool
is_mountpoint mountpoint = true
is_mountpoint p = false

unfoldable pub set_result : Option Dataset → SetResult
set_result none = failed panicked
set_result (some d) = set_to d

-- The check that a text is a number, before what follows.
unfoldable pub checked : Option ℕ → Bytes ⊎ SetError → Bytes ⊎ SetError
checked none next = inr not_an_int
checked (some n) next = next

module _ (host : Host) where
  -- The value and the source of a property.
  unfoldable pub property_from_name : PropName → DatasetProp → Bytes × Bytes
  property_from_name canmount d = (d.can_mount, d.sources.can_mount)
  property_from_name snapshot_canmount d = (d.can_mount, d.sources.can_mount)
  property_from_name mountpoint d = (d.mountpoint, d.sources.mountpoint)
  property_from_name snapshot_mountpoint d = (d.mountpoint, d.sources.mountpoint)
  property_from_name bootfs d = (yes_no d.boot_fs, d.sources.boot_fs)
  property_from_name last_used d = (host.itoa d.last_used, d.sources.last_used)
  property_from_name last_booted_kernel d = (d.last_booted_kernel, d.sources.last_booted_kernel)
  property_from_name bootfs_datasets d = (d.bootfs_datasets, d.sources.bootfs_datasets)

  -- The fields of the object are set; `none` is the panic.
  unfoldable pub store : PropName → Bytes → Bytes → DatasetProp → Option DatasetProp
  store canmount v s d =
      some (record d { can_mount = v; sources = record d.sources { can_mount = s } })
  store snapshot_canmount v s d =
      some (record d { can_mount = v; sources = record d.sources { can_mount = s } })
  store mountpoint v s d =
      some (record d { mountpoint = v; sources = record d.sources { mountpoint = s } })
  store snapshot_mountpoint v s d =
      some (record d { mountpoint = v; sources = record d.sources { mountpoint = s } })
  store bootfs v s d =
      some
        (record d { boot_fs = text_eq v (codes "yes"); sources = record d.sources { boot_fs = s } })
  store last_used v s d = host.atoi v >>= λ n.
      some (record d { last_used = n; sources = record d.sources { last_used = s } })
  store last_booted_kernel v s d =
      some
        (record d { last_booted_kernel = v; sources = record d.sources { last_booted_kernel = s } })
  store bootfs_datasets v s d =
      some (record d { bootfs_datasets = v; sources = record d.sources { bootfs_datasets = s } })

  -- A dataset follows the one above it: it inherits the property, or it is a user property that is
  -- not set.
  unfoldable pub follows : PropName → Bool → DatasetProp → Bool
  unfolding property_from_name is_native
  follows p is_snapshot d =
      let source = (property_from_name p d).1 in
      not is_snapshot
      && (text_eq source inherited || (text_eq source [] && not (is_native p is_snapshot)))

  unfoldable pub child_value : PropName → Bytes → Bytes → Bytes → Bytes
  child_value p value old_mountpoint current =
      if is_mountpoint p then host.join_path value (trim_prefix current old_mountpoint) else value

  -- `getInheritedChildren` and the loop over what it finds.
  unfoldable mutual
    unfolding follows child_value store

    pub inherit : PropName → Bytes → Bytes → Dataset → Option Dataset
    inherit p value old (dataset n s d cs) =
        let below = inherit_children p value old cs in
        if follows p s d
        then (store p (child_value p value old (property_from_name p d).0) inherited d >>= λ e.
            below >>= λ ds. some (dataset n s e ds))
        else some (dataset n s d cs)

    pub inherit_children : PropName → Bytes → Bytes → Children → Option Children
    inherit_children p value old nil = some nil
    inherit_children p value old (cons d ds) =
        let here = inherit p value old d in
        let later = inherit_children p value old ds in
        here >>= λ e. later >>= λ es. some (cons e es)

  -- The call of libzfs. It gives the value that the object is set to, or the error.
  unfoldable pub write : PropName → Bytes → Bytes → Bytes → Bool → Bytes ⊎ SetError
  unfolding is_native user_name checked
  write p value source name is_snapshot =
      let saved =
        if is_snapshot && not (text_eq source []) then value ++ b':' ∷ source else value in
      if is_native p is_snapshot
      then if host.sets name p value then inl value else inr refused
      else if is_last_used p
      then checked (host.atoi (or_zero value)) (
          if not (host.sets name p saved)
          then inr refused
          else let read = or_zero (or_else (host.reads name saved) (or_zero value)) in
            checked (host.atoi read) (inl read))
      else if host.sets name (user_name p is_snapshot) saved
      then inl value
      else inr refused

  -- The object and those below it.
  unfoldable pub set_fields : PropName → Bytes → Bytes → Dataset → Option Dataset
  unfolding store inherit_children property_from_name
  set_fields p value source (dataset n s d cs) =
      let old = if is_mountpoint p then (property_from_name p d).0 else [] in
      store p value source d >>= λ e.
      inherit_children p value old cs >>= λ ds. some (dataset n s e ds)

  -- Behind the write: the tags of a snapshot are left.
  unfoldable pub refresh_objects : PropName → Bytes → Bytes → Dataset → SetResult
  unfolding set_fields set_result
  refresh_objects p value source d =
      if is_snapshot_of d && is_bootfs_datasets p
      then set_to d
      else set_result (set_fields p value source d)

  unfoldable pub set_property : PropName → Bytes → Bytes → Dataset → SetResult
  unfolding write refresh_objects
  set_property p value source d = elim (write p value source (name_of d) (is_snapshot_of d)) [
    | inr e ↦ failed e
    | inl v ↦ refresh_objects p v source d
  ]

-- A dataset of the cache takes the place of the one of its name.
unfoldable mutual
  pub replace_in : Bytes → Dataset → Dataset → Dataset
  replace_in name e (dataset n s p cs) =
      let below = replace_in_children name e cs in if text_eq n name then e else dataset n s p below

  pub replace_in_children : Bytes → Dataset → Children → Children
  replace_in_children name e nil = nil
  replace_in_children name e (cons d ds) =
      let here = replace_in name e d in
      let later = replace_in_children name e ds in
      elim (find_dataset name d) [ some x ↦ cons here ds | none ↦ cons d later ]

pub data PropertyError : Type 0 where
  no_dataset : Bytes → PropertyError
  not_set : SetError → PropertyError

module _ (host : Host) where
  -- `d.setProperty` on the object of a name, which an error leaves as it is.
  unfoldable pub set_at : PropName → Bytes → Bytes → Bytes → Cache → Cache × Option SetError
  unfolding set_property
  set_at p value source name cache = elim (find_in_children name cache) [
    | none ↦ (cache, none)
    | some d ↦ elim (set_property host p value source d) [
      | failed e ↦ (cache, some e)
      | set_to e ↦ (replace_in_children name e cache, none)
    ]
  ]

  -- `SetProperty` of the dataset that was found. The closure that reverts it is the last of the
  -- transaction.
  unfoldable pub set_found :
      PropName → Bytes → Bytes → Bool → Dataset → Transaction → Transaction × Option PropertyError
  unfolding set_at property_from_name register_revert
  set_found p value name force d t =
      let (orig_v, orig_s) = property_from_name host p (prop_of d) in
      if not force && (not (text_eq orig_s local) && not (text_eq orig_s []))
      then (t, none)
      else elim (set_property host p value local d) [
        | failed e ↦ (t, some (not_set e))
        | set_to e ↦ (
          register_revert (λ cache. (set_at p orig_v orig_s name cache).0)
              (record { cache = replace_in_children name e t.cache; reverts = t.reverts }),
          none,
        )
      ]

  unfoldable pub set_property_of :
      PropName → Bytes → Bytes → Bool → Transaction → Transaction × Option PropertyError
  unfolding set_found
  set_property_of p value name force t = elim (find_in_children name t.cache) [
    | none ↦ (t, some (no_dataset name))
    | some d ↦ set_found p value name force d t
  ]
