-- ===== src/Zfs/Refresh.antt =====
-- `refreshProperties` and `getUserPropertyFromSys` of internal/zfs/helpers.go: how the properties of
-- a dataset are read from libzfs, and, from `snapshotRecursive` of internal/zfs/zfs.go, the user
-- properties that a snapshot of a dataset is given. `atoi` is `strconv.Atoi`: the number, 0 where
-- the text is none, and whether there was an error.
pub mod Laws
mod Tests
use zsys.Prelude.{
  ℕ, ◌+◌, Bool, true, false, not, ◌&&◌, ◌||◌, Option, none, some, [], ◌∷◌, ◌++◌, ◌≡◌, refl, take,
  drop, if◌then◌else◌, ◌>>=◌,
}
use zsys.Text.{Bytes, codes, text_eq, contains, trim_prefix, last_index}
use zsys.Zfs.Hierarchy.{userdata_segment}
use zsys.Zfs.Dataset.{DatasetProp, DatasetSources}

-- The user properties that are read.
pub data UserName : Type 0 where
  boot_fs_prop : UserName
  last_used_prop : UserName
  last_booted_kernel_prop : UserName
  bootfs_datasets_prop : UserName
  old_bootfs_datasets_prop : UserName
  snapshot_mountpoint_prop : UserName
  snapshot_canmount_prop : UserName

-- A value with its source.
abbrev pub Sourced : Type 0
Sourced = Bytes × Bytes

-- What libzfs answers for a dataset: `altroot` of its pool and the user properties may fail.
pub record Raw : Type 0 where
  pub name : Bytes
  pub is_snapshot : Bool
  pub altroot : Option Bytes
  pub mountpoint : Sourced
  pub can_mount : Sourced
  pub mounted : Bytes
  pub origin : Bytes
  pub creation : Bytes
  pub user : UserName → Option Sourced

abbrev pub local : Bytes
local = codes "local"

abbrev pub default : Bytes
default = codes "default"

abbrev pub inherited : Bytes
inherited = codes "inherited"

abbrev pub nothing : Sourced
nothing = ([], [])

unfoldable pub sanitize : Bytes → Bytes
sanitize source =
    if not (text_eq source local) && not (text_eq source default) then inherited else source

-- A property that was saved on a snapshot is a value, a colon and a source.
unfoldable pub saved_property : Bytes → Sourced
unfolding sanitize
saved_property text = elim (last_index text b':') [
  | none ↦ nothing
  | some i ↦ (take i text, sanitize (drop (i + 1) text))
]

-- `getUserPropertyFromSys`. Its errors are logged, and give no value and no source.
unfoldable pub user_property : Bool → Option Sourced → Sourced
unfolding saved_property sanitize
user_property is_snapshot none = nothing
user_property is_snapshot (some (value, source)) =
    if text_eq value (codes "-") && (text_eq source (codes "-") || text_eq source (codes "none"))
    then nothing
    else if is_snapshot && not (text_eq source local)
    then nothing
    else if is_snapshot
    then saved_property value
    else (value, sanitize source)

-- The mount point, whether and how it mounts, with the sources as libzfs gives them.
pub record Mount : Type 0 where
  pub point : Sourced
  pub can : Sourced
  pub mounted : Bool

-- On a filesystem, below the alternate root of the pool.
unfoldable pub filesystem_mount : Raw → Bytes → Mount
filesystem_mount raw root =
    let point = trim_prefix raw.mountpoint.0 root in
    record {
      point = (if text_eq point [] then codes "/" else point, raw.mountpoint.1);
      can = raw.can_mount;
      mounted = text_eq raw.mounted (codes "yes");
    }

-- `none` is the error on the pool.
unfoldable pub read_mount : Raw → Option Mount
unfolding user_property filesystem_mount
read_mount raw =
    if raw.is_snapshot
    then some (record {
      point = user_property true (raw.user snapshot_mountpoint_prop);
      can = user_property true (raw.user snapshot_canmount_prop);
      mounted = false;
    })
    else (raw.altroot >>= λ root. some (filesystem_mount raw root))

unfoldable pub mountpoint_source : Sourced → Bytes
mountpoint_source (point, source) =
    if text_eq source local
    then local
    else if text_eq source default
    then inherited
    else if not (text_eq point [])
    then inherited
    else []

unfoldable pub can_mount_source : Bytes → Bytes
can_mount_source source = if text_eq source local then local else []

-- The tags, and the older property that they move from.
unfoldable pub read_bootfs_datasets : Raw → Sourced
unfolding user_property
read_bootfs_datasets raw =
    let tags = user_property false (raw.user bootfs_datasets_prop) in
    let old = user_property false (raw.user old_bootfs_datasets_prop) in
    if raw.is_snapshot
    then nothing
    else if contains raw.name userdata_segment && (text_eq tags.0 [] && not (text_eq old.1 []))
    then (tags.0, old.0)
    else tags

-- `SetUserProperty` while a dataset is read: the older tags are written to the new property, where
-- the new one has no value.
unfoldable pub tags_to_move : Raw → Option Bytes
unfolding user_property
tags_to_move raw =
    let tags = user_property false (raw.user bootfs_datasets_prop) in
    let old = user_property false (raw.user old_bootfs_datasets_prop) in
    if not raw.is_snapshot
      && (contains raw.name userdata_segment && (text_eq tags.0 [] && not (text_eq old.0 [])))
    then some old.0
    else none

module _ (atoi : Bytes → ℕ × Bool) where
  -- The time of the last use, with its source.
  unfoldable pub read_last_used : Raw → ℕ × Bytes
  unfolding user_property
  read_last_used raw =
      let read =
        if raw.is_snapshot
        then (raw.creation, [])
        else user_property false (raw.user last_used_prop) in
      let (n, failed) = atoi (if text_eq read.0 [] then codes "0" else read.0) in
      (n, if failed then [] else read.1)

  -- The properties behind those of the mount point.
  unfoldable pub read_properties : Raw → Mount → DatasetProp
  unfolding user_property read_last_used read_bootfs_datasets mountpoint_source can_mount_source
  read_properties raw mount =
      let boot_fs = user_property raw.is_snapshot (raw.user boot_fs_prop) in
      let kernel = user_property raw.is_snapshot (raw.user last_booted_kernel_prop) in
      let last_used = read_last_used raw in
      let tags = read_bootfs_datasets raw in
      record {
        mountpoint = mount.point.0;
        can_mount = mount.can.0;
        mounted = mount.mounted;
        boot_fs = text_eq boot_fs.0 (codes "yes");
        last_used = last_used.0;
        last_booted_kernel = kernel.0;
        bootfs_datasets = tags.0;
        origin = raw.origin;
        sources = record {
          mountpoint = mountpoint_source mount.point;
          can_mount = can_mount_source mount.can.1;
          boot_fs = boot_fs.1;
          last_used = last_used.1;
          last_booted_kernel = kernel.1;
          bootfs_datasets = tags.1;
        };
      }

  unfoldable pub refresh_properties : Raw → Option DatasetProp
  unfolding read_mount read_properties
  refresh_properties raw = read_mount raw >>= λ mount. some (read_properties raw mount)

-- `userPropertiesToSet`: the user properties that a snapshot of a dataset is given.
unfoldable pub save : Bytes → Bytes → Option Sourced
save value source = some (value ++ b':' ∷ source, local)

abbrev pub yes_no : Bool → Bytes
yes_no b = if b then codes "yes" else codes "no"

unfoldable pub user_properties_to_set : DatasetProp → UserName → Option Sourced
unfolding save
user_properties_to_set p snapshot_mountpoint_prop = save p.mountpoint p.sources.mountpoint
user_properties_to_set p snapshot_canmount_prop = save p.can_mount p.sources.can_mount
user_properties_to_set p boot_fs_prop =
    if not (text_eq p.sources.boot_fs []) then save (yes_no p.boot_fs) p.sources.boot_fs else none
user_properties_to_set p last_booted_kernel_prop =
    if not (text_eq p.sources.last_booted_kernel [])
    then save p.last_booted_kernel p.sources.last_booted_kernel
    else none
user_properties_to_set p last_used_prop = none
user_properties_to_set p bootfs_datasets_prop = none
user_properties_to_set p old_bootfs_datasets_prop = none
