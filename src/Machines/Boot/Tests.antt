-- ===== src/Machines/Boot/Tests.antt =====
-- Boots at concrete inputs.
use zsys.Zfs.Samples.{plain, refuses}
use zsys.Prelude.{true, false, Option, some, [], ◌∷◌, ◌++◌, ◌≡◌, ◌≢◌, refl, inr}
use zsys.Text.{Bytes, codes, text_eq, has_byte, fields, trim_prefix}
use zsys.Zfs.Dataset.{Dataset, dataset, nil, cons}
use zsys.Zfs.Names.{snapshot_of}
use zsys.Zfs.Cache.{Cache, find_in_children}
use zsys.Zfs.Property.{canmount, last_used, Host}
use zsys.Zfs.Clone.Name.{new_root_name}
use zsys.Machines.Model.{State, Machine}
use zsys.Machines.Maps.{lookup}
use zsys.Machines.Cmdline.{has_booted_on_snapshot, boot_parameters_from_cmdline}
use zsys.Machines.Boot.Clones.{Cloning}
use zsys.Machines.Boot.Clones.Name.{user_dataset_name, clone_name-differs}
use zsys.Machines.Boot.{Session, ensure_boot}
use zsys.Machines.Boot.Laws.{OnlyMountsUntilRefresh, ensure_boot-Same}

abbrev host : Host
host = record {
  sets = λ name p v. true;
  reads = λ name v. some v;
  atoi = λ v. some 7;
  itoa = λ n. codes "7";
  join_path = λ a b. b;
}

abbrev cloning : Cloning
cloning = record {
  cloner = record {
    libzfs = refuses [];
    clones = λ cache name target mountpoint can_mount. true;
    sets_bootfs = λ target value. true;
    sets_kernel = λ target value. true;
  };
  generated_id = codes "abc123";
}

abbrev mount : Bytes → Bytes → Dataset
mount name can_mount = dataset name false (record plain { can_mount = can_mount }) nil

abbrev pools : Cache
pools = cons (mount (codes "r/a") (codes "noauto")) (cons (mount (codes "r/b") (codes "on")) nil)

abbrev booted : State
booted = record {
  ref = 1;
  id = codes "r/a";
  last_used = 0;
  datasets = (codes "r/a", mount (codes "r/a") (codes "noauto") ∷ []) ∷ [];
}

abbrev machine : Machine
machine = record {
  is_zsys = true;
  main = record { state = booted; users = [] };
  all_users_states = [];
  history = [];
  persistent_datasets = [];
}

abbrev session : Session
session = record {
  machines = record { all = (codes "r/a", machine) ∷ []; current = some machine };
  cmdline = codes "root=ZFS=r/a ro";
  all_system_datasets =
      mount (codes "r/a") (codes "noauto") ∷ mount (codes "r/b") (codes "on") ∷ [];
  all_users_datasets = [];
}

-- The new scan reads what is there.
abbrev refresh : Cache → Cache × Option Session
refresh cache = (cache, some session)

boot_run : (ensure_boot host cloning refresh session pools).1 ≡ inr true
unfolding ensure_boot lookup text_eq has_byte fields trim_prefix boot_parameters_from_cmdline
    find_in_children has_booted_on_snapshot zsys.Zfs.Property.replace_in_children
boot_run = refl

ensure_boot-Same_example :
    OnlyMountsUntilRefresh host pools cloning refresh
      (ensure_boot host cloning refresh session pools).0
unfolding has_booted_on_snapshot boot_parameters_from_cmdline fields trim_prefix text_eq has_byte
ensure_boot-Same_example = ensure_boot-Same host pools cloning refresh session refl

clone_name-differs_example :
    (tagged : Bytes) × (user_dataset_name
        (snapshot_of ((codes "r/john" ++ b'_' ∷ codes "doe") ++ b'_' ∷ codes "12") (codes "s"))
        (codes "34")
      ≡ some tagged)
    × (new_root_name ((codes "r/john" ++ b'_' ∷ codes "doe") ++ b'_' ∷ codes "12") (codes "34")
        ≢ tagged)
unfolding has_byte
clone_name-differs_example =
    clone_name-differs (codes "r/john") (codes "doe") (codes "12") (codes "s") (codes "34") refl
      refl refl refl refl
