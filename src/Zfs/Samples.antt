-- ===== src/Zfs/Samples.antt =====
-- Properties of a dataset, and a libzfs, for runs at concrete inputs.
use zsys.Prelude.{true, false, [], ◌≡◌, refl, ap, if◌then◌else◌, arith, Bool-cases, inl, inr}
use zsys.Text.{Bytes, codes, text_eq, has_byte}
use zsys.Zfs.Names.{split_snapshot_name, snapshot_of, split_snapshot_name-snapshot_of}
use zsys.Zfs.Dataset.{DatasetProp}
use zsys.Zfs.Cache.{Cache, vacant_in_children}
use zsys.Zfs.Transaction.{Libzfs}
use zsys.Zfs.Transaction.Laws.{Documented}

abbrev pub plain : DatasetProp
plain = record {
  mountpoint = codes "/";
  can_mount = codes "on";
  mounted = true;
  boot_fs = true;
  last_used = 0;
  last_booted_kernel = [];
  bootfs_datasets = [];
  origin = [];
  sources = record {
    mountpoint = [];
    can_mount = [];
    boot_fs = [];
    last_used = [];
    last_booted_kernel = [];
    bootfs_datasets = [];
  };
}

-- It refuses one name, and the names that are taken.
abbrev pub refuses : Bytes → Libzfs
refuses bad = record {
  creates = λ cache name.
      if text_eq name bad
      then false
      else vacant_in_children (split_snapshot_name name).0 name cache;
  destroys = λ name. true;
  properties = λ name. plain;
}

pub refuses-Documented : (bad : Bytes) → Documented (refuses bad)
refuses-Documented bad = record { fresh = vacancy; destroyed = λ name. refl }
  where
    vacancy :
        (cache : Cache) (n snap : Bytes)
        → has_byte b'@' snap ≡ false
        → (refuses bad).creates cache (snapshot_of n snap) ≡ true
        → vacant_in_children n (snapshot_of n snap) cache ≡ true
    vacancy cache n snap h c =
        let parent : (split_snapshot_name (snapshot_of n snap)).0 ≡ n =
          ap (λ r. r.0) (split_snapshot_name-snapshot_of n snap h) in
        elim (Bool-cases (text_eq (snapshot_of n snap) bad)) [
          | inl y ↦ absurd (ground (arith, c))
          | inr other ↦ rw parent at (rw other at c)
        ]
