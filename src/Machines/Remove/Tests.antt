-- ===== src/Machines/Remove/Tests.antt =====
-- A user's state that is unlinked from one of its two system states.
use zsys.Prelude.{false, true, none, some, [], ◌∷◌, ◌≡◌, refl}
use zsys.Text.{Bytes, codes}
use zsys.Zfs.Dataset.{Dataset, dataset, nil, cons}
use zsys.Zfs.Samples.{plain}
use zsys.Zfs.Refresh.{local}
use zsys.Zfs.Property.{Host}
use zsys.Zfs.Destroy.{Backend}
use zsys.Machines.Model.{State}
use zsys.Machines.Remove.{Linked, remove_users}
use zsys.Machines.Remove.Laws.{untagged_cache, remove_users-tags}

abbrev host : Host
host = record {
  sets = λ name p v. true;
  reads = λ name v. some v;
  atoi = λ v. some 7;
  itoa = λ n. codes "7";
  join_path = λ a b. b;
}

abbrev backend : Backend
backend = record { destroys = λ name. true; clones = λ name. some [] }

abbrev home : Bytes → Dataset
home tags =
    dataset (codes "r/USERDATA/u") false
      (record plain {
        bootfs_datasets = tags;
        sources = record plain.sources { bootfs_datasets = local };
      })
      nil

abbrev state : State
state = record {
  ref = 1;
  id = codes "r/USERDATA/u";
  last_used = 0;
  datasets = (codes "r/USERDATA/u", home (codes "a,b") ∷ []) ∷ [];
}

abbrev world : Linked
world = record {
  cache = cons (home (codes "a,b")) nil;
  systems =
      record {
        state = record { ref = 0; id = codes "a"; last_used = 0; datasets = [] };
        users = (codes "u", state) ∷ [];
      }
      ∷ [];
}

abbrev after : Linked
after = record {
  cache = cons (home (codes "b")) nil;
  systems =
      record {
        state = record { ref = 0; id = codes "a"; last_used = 0; datasets = [] };
        users = [];
      }
      ∷ [];
}

state-unlinked :
    remove_users host backend ((codes "u", state) ∷ []) (codes "a") world ≡ (after, none)
unfolding remove_users zsys.Text.text_eq zsys.Text.split zsys.Text.has_byte zsys.Text.join
    zsys.Zfs.Cache.find_in_children zsys.Zfs.Property.replace_in_children
state-unlinked = refl

remove_users-tags_example :
    untagged_cache (remove_users host backend ((codes "u", state) ∷ []) (codes "a") world).0.cache
    ≡ untagged_cache world.cache
unfolding zsys.Text.text_eq
remove_users-tags_example =
    remove_users-tags host backend ((codes "u", state) ∷ []) (codes "a") world refl
