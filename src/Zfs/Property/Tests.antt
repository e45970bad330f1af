-- ===== src/Zfs/Property/Tests.antt =====
-- Properties set on a small tree.
use zsys.Prelude.{◌&&◌, true, false, some, [], ◌≡◌, inl, refl}
use zsys.Text.{Bytes, codes}
use zsys.Zfs.Dataset.{Dataset, dataset, nil, cons, DatasetProp, is_snapshot_of, prop_of}
use zsys.Zfs.Samples.{plain}
use zsys.Zfs.Refresh.{local, inherited}
use zsys.Zfs.Cache.{Cache, find_in_children}
use zsys.Zfs.Transaction.{cancel}
use zsys.Zfs.Property.{
  bootfs_datasets, Host, set_to, is_bootfs_datasets, property_from_name, write, set_property,
  set_property_of,
}
use zsys.Zfs.Property.Laws.Inherits.{Inherits, shown, set_property-Inherits}
use zsys.Zfs.Property.Laws.Revert.{set_property_of-cancel}

-- A host that writes everything, and knows one number.
abbrev host : Host
host = record {
  sets = λ name p v. true;
  reads = λ name v. some v;
  atoi = λ v. some 7;
  itoa = λ n. codes "7";
  join_path = λ a b. b;
}

abbrev tagged : Bytes → Bytes → DatasetProp
tagged tags source = record plain {
  bootfs_datasets = tags;
  sources = record plain.sources { bootfs_datasets = source };
}

-- A user dataset with a snapshot, a dataset that inherits its tags and one that has its own.
abbrev tree : Bytes → Bytes → Dataset
tree tags source = dataset (codes "u") false (tagged tags source) (
    cons (dataset (codes "u@s") true (tagged [] []) nil) (
      cons (dataset (codes "u/a") false (tagged tags inherited) nil)
        (cons (dataset (codes "u/b") false (tagged (codes "z") local) nil) nil)))

tags-set :
    set_property host bootfs_datasets (codes "y") local (tree (codes "x") local)
    ≡ set_to (tree (codes "y") local)
unfolding set_property zsys.Text.text_eq
tags-set = refl

tree-Inherits : Inherits host bootfs_datasets (tree (codes "x") local)
unfolding property_from_name zsys.Text.text_eq
tree-Inherits = ((λ f e. absurd cc), (tt, ((λ f e. refl), (tt, ((λ f e. absurd cc), (tt, tt))))))

set_property-Inherits_example :
    Inherits host bootfs_datasets (tree (codes "y") local)
    × ((is_snapshot_of (tree (codes "x") local) && is_bootfs_datasets bootfs_datasets ≡ false)
        → (w : Bytes) × (write host bootfs_datasets (codes "y") local (codes "u") false ≡ inl w)
          × (property_from_name host bootfs_datasets (tagged (codes "y") local)
              ≡ (shown host bootfs_datasets w, local)))
set_property-Inherits_example =
    set_property-Inherits host bootfs_datasets (codes "y") local (tree (codes "x") local)
      (tree (codes "y") local) refl tree-Inherits tags-set

abbrev cache : Cache
cache = cons (tree (codes "x") inherited) nil

set_property_of-cancel_example :
    (g : Dataset) × (find_in_children
        (codes "u")
        (cancel
          (set_property_of host bootfs_datasets
            (codes "y")
            (codes "u")
            true
            (record { cache = cache; reverts = [] })).0).cache
      ≡ some g)
    × (prop_of g ≡ tagged (codes "x") inherited)
unfolding find_in_children zsys.Text.text_eq
set_property_of-cancel_example =
    set_property_of-cancel host bootfs_datasets (codes "y") (codes "u") true cache
      (tree (codes "x") inherited) refl refl refl (λ v. (refl, λ s. refl))
