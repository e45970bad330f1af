-- ===== src/Machines/UserTags/Tests.antt =====
-- A user dataset that gets a second tag.
use zsys.Prelude.{true, false, some, [], ◌≡◌, refl}
use zsys.Text.{Bytes, codes}
use zsys.Zfs.Dataset.{Dataset, dataset, nil, cons}
use zsys.Zfs.Samples.{plain}
use zsys.Zfs.Refresh.{local}
use zsys.Zfs.Cache.{find_in_children}
use zsys.Zfs.Transaction.{Transaction}
use zsys.Zfs.Property.{Host}
use zsys.Machines.UserTags.{name_in_bootfs_datasets, untagged, tag_one}
use zsys.Machines.UserTags.Laws.{tag_one-name_in}

abbrev host : Host
host = record {
  sets = λ name p v. true;
  reads = λ name v. some v;
  atoi = λ v. some 7;
  itoa = λ n. codes "7";
  join_path = λ a b. b;
}

abbrev user : Dataset
user =
    dataset (codes "r/USERDATA/u") false
      (record plain {
        bootfs_datasets = codes "r/a";
        sources = record plain.sources { bootfs_datasets = local };
      })
      nil

abbrev start : Transaction
start = record { cache = cons user nil; reverts = [] }

tag_one-name_in_example :
    (g : Dataset) × (find_in_children
        (codes "r/USERDATA/u")
        (tag_one host (codes "r/b") user start).0.cache
      ≡ some g)
    × (name_in_bootfs_datasets (codes "r/b") g ≡ true)
unfolding zsys.Text.text_eq find_in_children zsys.Text.has_byte zsys.Text.contains
tag_one-name_in_example =
    tag_one-name_in host (codes "r/b") user user start refl refl refl refl refl refl
      (λ v. (refl, λ s. refl))

-- A tag that ends in the state's name loses its end.
untagged-cut : untagged (codes "p/a") (codes "rp/a,x") ≡ codes "rx"
unfolding untagged zsys.Text.text_eq zsys.Text.has_prefix zsys.Text.has_suffix
untagged-cut = refl
