-- ===== src/Zfs/Clone/Tests.antt =====
-- Clones at concrete inputs, and the creation of a dataset.
use zsys.Zfs.Samples.{plain, refuses}
use zsys.Prelude.{
  Bool, true, false, Option, none, some, [], ◌≡◌, ◌⊎◌, refl, if◌then◌else◌, Bool-cases, inl, inr,
}
use zsys.Text.{index_byte, Bytes, codes, text_eq, has_prefix, has_suffix}
use zsys.Zfs.Names.{split_snapshot_name}
use zsys.Zfs.Dataset.{Dataset, dataset, nil, cons}
use zsys.Zfs.Hierarchy.{has_child_named}
use zsys.Zfs.Cache.{Cache, find_in_children, append_child, change_in_children, dir}
use zsys.Zfs.Transaction.{Transaction}
use zsys.Zfs.Transaction.Laws.{back}
use zsys.Zfs.Create.{Creator, orphaned, new_dataset, create}
use zsys.Zfs.Create.Laws.{CreateDocumented, back-create}
use zsys.Zfs.Clone.Name.{new_root_name}
use zsys.Zfs.Clone.{Cloner, not_cloned, left_in_map, clone}
use zsys.Zfs.Clone.Laws.{CloneDocumented, clone_atomic}

abbrev is_missing : Option Dataset → Bool
is_missing none = true
is_missing (some d) = false

-- One target is refused, and those that exist.
abbrev cloner : Bytes → Cloner
cloner bad = record {
  libzfs = refuses [];
  clones = λ cache name target mountpoint can_mount.
      if text_eq target bad then false else is_missing (find_in_children target cache);
  sets_bootfs = λ target value. true;
  sets_kernel = λ target value. true;
}

missing : (o : Option Dataset) → is_missing o ≡ true → o ≡ none
missing none h = refl
missing (some d) h = absurd cc

cloner-CloneDocumented : (bad : Bytes) → CloneDocumented (cloner bad)
cloner-CloneDocumented bad = record { fresh = fresh; destroyed = λ name. refl }
  where
    fresh :
        (cache : Cache) (name target : Bytes) (mountpoint can_mount : Option Bytes)
        → (cloner bad).clones cache name target mountpoint can_mount ≡ true
        → find_in_children target cache ≡ none
    fresh cache name target mountpoint can_mount h = elim (Bool-cases (text_eq target bad)) [
      | inl y ↦ let refused = rw y at h in absurd cc
      | inr n ↦ missing (find_in_children target cache) (rw n at h)
    ]

abbrev snapshot_named : Bytes → Dataset
snapshot_named name = dataset name true plain nil

abbrev pools : Cache
pools =
    cons
      (dataset (codes "r") false plain (
        cons
          (dataset (codes "r/u_1") false plain (
            cons (snapshot_named (codes "r/u_1@s")) (
              cons
                (dataset (codes "r/u_1/v") false plain
                  (cons (snapshot_named (codes "r/u_1/v@s")) nil))
                nil)))
          nil))
      nil

abbrev started : Transaction
started = record { cache = pools; reverts = [] }

renamed : new_root_name (codes "r/u_1/v") (codes "2") ≡ codes "r/u_2/v"
unfolding new_root_name index_byte
renamed = refl

cloned_run : (clone (cloner []) (codes "r/u_1@s") (codes "2") false true started).1 ≡ none
unfolding clone find_in_children text_eq split_snapshot_name has_prefix has_suffix has_child_named
    append_child change_in_children index_byte dir
cloned_run = refl

-- The second of two clones is refused.
refused_run :
    (clone (cloner (codes "r/u_2/v")) (codes "r/u_1@s") (codes "2") false true started).1
    ≡ some (not_cloned (codes "r/u_1/v@s") (codes "r/u_2/v"))
unfolding clone find_in_children text_eq split_snapshot_name has_prefix has_suffix has_child_named
    append_child change_in_children index_byte dir
refused_run = refl

clone_atomic_example :
    (clone (cloner (codes "r/u_2/v")) (codes "r/u_1@s") (codes "2") false true started).0 ≡ started
unfolding left_in_map
clone_atomic_example =
    clone_atomic (cloner (codes "r/u_2/v")) (cloner-CloneDocumented (codes "r/u_2/v"))
      (codes "r/u_1@s") (codes "2") false true started
      (not_cloned (codes "r/u_1/v@s") (codes "r/u_2/v")) refused_run refl

abbrev creator : Creator
creator = record {
  creates = λ cache path mountpoint canmount. is_missing (find_in_children path cache);
  properties = λ path. plain;
  backend = record { destroys = λ name. true; clones = λ name. some [] };
}

creator-CreateDocumented : CreateDocumented creator
creator-CreateDocumented = record {
  fresh = λ cache path mountpoint canmount h. missing (find_in_children path cache) h;
  no_clones = λ path. refl;
  destroyed = λ path. refl;
}

orphan_run :
    (create creator (codes "r/none/home") (codes "/home") (codes "on") started).1
    ≡ some (orphaned (new_dataset creator (codes "r/none/home")))
unfolding create find_in_children text_eq dir zsys.Text.last_index
orphan_run = refl

back-create_example :
    (back (create creator (codes "r/home") (codes "/home") (codes "on") started).0 ≡ back started)
      × (zsys.Zfs.Create.left_in_map
            (create creator (codes "r/home") (codes "/home") (codes "on") started).1
          ≡ [])
    ⊎ (find_in_children (dir (codes "r/home")) started.cache ≡ none)
      × ((create creator (codes "r/home") (codes "/home") (codes "on") started).1
          ≡ some (orphaned (new_dataset creator (codes "r/home"))))
back-create_example =
    back-create creator creator-CreateDocumented (codes "r/home") (codes "/home") (codes "on")
      started
