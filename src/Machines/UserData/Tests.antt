-- ===== src/Machines/UserData/Tests.antt =====
-- Data of users at concrete inputs.
use zsys.Zfs.Samples.{plain}
use zsys.Prelude.{Bool, true, false, none, some, [], ◌∷◌, ◌≡◌, refl, inl, inr}
use zsys.Text.{Bytes, codes, text_eq, has_prefix}
use zsys.Zfs.Dataset.{Dataset, dataset, nil, cons}
use zsys.Zfs.Cache.{Cache, find_in_children}
use zsys.Zfs.Property.{mountpoint, Host}
use zsys.Machines.Model.{State, Machine}
use zsys.Machines.UserData.{
  taken_home, get_user_dataset_root, try_reuse_user_data_set, change_home_on_user_data,
}
use zsys.Machines.UserData.Laws.{OnlyHomesUntilRefresh, change_home-Same}

abbrev host : Host
host = record {
  sets = λ name p v. true;
  reads = λ name v. some v;
  atoi = λ v. some 7;
  itoa = λ n. codes "7";
  join_path = λ a b. b;
}

abbrev home_of : Bytes → Bytes → Dataset
home_of name home = dataset name false (record plain { mountpoint = home }) nil

abbrev user_with : Bytes → Bytes → State
user_with name home = record {
  ref = 2;
  id = name;
  last_used = 0;
  datasets = (name, home_of name home ∷ []) ∷ [];
}

abbrev me : Bytes × State
me = (codes "me", user_with (codes "r/USERDATA/me_1") (codes "/home/me"))

abbrev other : Bytes × State
other = (codes "other", user_with (codes "r/USERDATA/other_1") (codes "/home/new"))

abbrev homes : Cache
homes =
    cons (home_of (codes "r/USERDATA/me_1") (codes "/home/me"))
      (cons (home_of (codes "r/USERDATA/other_1") (codes "/home/new")) nil)

abbrev machine : Machine
machine = record {
  is_zsys = true;
  main = record { state = user_with (codes "r/a") (codes "/"); users = me ∷ other ∷ [] };
  all_users_states = [];
  history = [];
  persistent_datasets = [];
}

root_run : get_user_dataset_root (codes "r/USERDATA/me_1") ≡ codes "r/USERDATA/"
unfolding get_user_dataset_root has_prefix
root_run = refl

-- Whether a home of another user is refused depends on the order in which the users are visited.
own_first :
    (try_reuse_user_data_set host
      (codes "me")
      []
      (codes "/home/new")
      (me ∷ other ∷ [])
      (record { cache = homes; reverts = [] })).1
    ≡ inr true
unfolding try_reuse_user_data_set text_eq find_in_children
own_first = refl

other_first :
    (try_reuse_user_data_set host
      (codes "me")
      []
      (codes "/home/new")
      (other ∷ me ∷ [])
      (record { cache = homes; reverts = [] })).1
    ≡ inl (taken_home (codes "/home/new") (codes "other"))
unfolding try_reuse_user_data_set text_eq find_in_children
other_first = refl

-- The new scan reads what is there.
abbrev refresh : Cache → Cache × Bool
refresh cache = (cache, true)

home_run :
    (change_home_on_user_data host refresh
      (some machine)
      (codes "/home/me")
      (codes "/home/you")
      homes).1
    ≡ none
unfolding change_home_on_user_data text_eq find_in_children zsys.Zfs.Property.replace_in_children
home_run = refl

change_home-Same_example :
    OnlyHomesUntilRefresh host homes refresh
      (change_home_on_user_data host refresh
        (some machine)
        (codes "/home/me")
        (codes "/home/you")
        homes).0
change_home-Same_example =
    change_home-Same host homes refresh (some machine) (codes "/home/me") (codes "/home/you")
