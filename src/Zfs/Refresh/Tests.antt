-- ===== src/Zfs/Refresh/Tests.antt =====
-- A filesystem and its snapshot at concrete inputs.
use zsys.Prelude.{ℕ, Bool, true, false, Option, none, some, [], ◌≡◌, refl}
use zsys.Text.{Bytes, codes}
use zsys.Zfs.Dataset.{DatasetProp}
use zsys.Zfs.Refresh.{
  UserName, last_used_prop, bootfs_datasets_prop, old_bootfs_datasets_prop, boot_fs_prop,
  last_booted_kernel_prop, Sourced, Raw, refresh_properties, user_properties_to_set,
}
use zsys.Zfs.Refresh.Laws.{frozen, snapshot-shows_dataset}

abbrev atoi : Bytes → ℕ × Bool
atoi text = (7, false)

abbrev root_user : UserName → Option Sourced
root_user boot_fs_prop = some (codes "yes", codes "local")
root_user last_booted_kernel_prop = some (codes "vmlinuz:5", codes "inherited from rpool")
root_user n = some (codes "-", codes "-")

abbrev root : Raw
root = record {
  name = codes "rpool/ROOT/a";
  is_snapshot = false;
  altroot = some (codes "/target");
  mountpoint = (codes "/target", codes "local");
  can_mount = (codes "on", codes "default");
  mounted = codes "yes";
  origin = [];
  creation = codes "1";
  user = root_user;
}

abbrev root_prop : DatasetProp
root_prop = record {
  mountpoint = codes "/";
  can_mount = codes "on";
  mounted = true;
  boot_fs = true;
  last_used = 7;
  last_booted_kernel = codes "vmlinuz:5";
  bootfs_datasets = [];
  origin = [];
  sources = record {
    mountpoint = codes "local";
    can_mount = [];
    boot_fs = codes "local";
    last_used = [];
    last_booted_kernel = codes "inherited";
    bootfs_datasets = [];
  };
}

-- The properties that are not saved are unset, or come from the dataset.
abbrev snap_user : UserName → Option Sourced
snap_user last_used_prop = some (codes "1600000000", codes "inherited from rpool/ROOT/a")
snap_user bootfs_datasets_prop = some (codes "-", codes "-")
snap_user old_bootfs_datasets_prop = some (codes "-", codes "-")
snap_user n = user_properties_to_set root_prop n

abbrev root_snap : Raw
root_snap = record {
  name = codes "rpool/ROOT/a@s";
  is_snapshot = true;
  altroot = none;
  mountpoint = ([], []);
  can_mount = ([], []);
  mounted = [];
  origin = [];
  creation = codes "2";
  user = snap_user;
}

root-reads : refresh_properties atoi root ≡ some root_prop
unfolding refresh_properties zsys.Text.text_eq zsys.Text.contains zsys.Text.trim_prefix
root-reads = refl

snapshot-shows_dataset_example :
    (q : DatasetProp) × (refresh_properties atoi root_snap ≡ some q) × (frozen q ≡ frozen root_prop)
unfolding refresh_properties zsys.Text.text_eq zsys.Text.contains zsys.Text.trim_prefix
    user_properties_to_set
snapshot-shows_dataset_example =
    snapshot-shows_dataset atoi root root_snap root_prop refl refl refl (refl, refl, refl, refl)
