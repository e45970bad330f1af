-- ===== src/Machines/CreateSnapshot/Tests.antt =====
-- Snapshots of a machine at concrete inputs.
use zsys.Zfs.Samples.{plain, refuses, refuses-Documented}
use zsys.Prelude.{true, false, some, [], ◌∷◌, ◌≡◌, refl, inl}
use zsys.Prelude.Int.{pos}
use zsys.Text.{Bytes, codes, text_eq, has_prefix, split, has_suffix}
use zsys.Zfs.Names.{split_snapshot_name}
use zsys.Zfs.Dataset.{Dataset, dataset, nil, cons}
use zsys.Zfs.Cache.{Cache, find_in_children, vacant_in_children, append_child, change_in_children}
use zsys.Zfs.Hierarchy.{has_child_named}
use zsys.Zfs.Transaction.{not_created, snapshot}
use zsys.Machines.Model.{State, Machine}
use zsys.Machines.Maps.{lookup}
use zsys.Machines.StateName.{validate_state_name}
use zsys.Machines.CreateSnapshot.{
  snapshot_failed, already_in_history, Surroundings, get_pool_free_space, to_snapshot,
  create_snapshot, create_user_snapshot,
}
use zsys.Machines.CreateSnapshot.Laws.{create_snapshot-failed}

abbrev root : Dataset
root = dataset (codes "r/u") false plain nil

abbrev user_data : Dataset
user_data = dataset (codes "r/d") false plain nil

abbrev pools : Cache
pools = cons (dataset (codes "r") false plain (cons root (cons user_data nil))) nil

abbrev of_user : State
of_user = record {
  ref = 2;
  id = codes "r/d";
  last_used = 0;
  datasets = (codes "r/d", user_data ∷ []) ∷ [];
}

abbrev machine : Machine
machine = record {
  is_zsys = true;
  main = record {
    state = record {
      ref = 1;
      id = codes "r/u";
      last_used = 0;
      datasets = (codes "r/u", root ∷ []) ∷ [];
    };
    users = (codes "me", of_user) ∷ [];
  };
  all_users_states = [];
  history = (codes "r/u@old", record { state = of_user; users = [] }) ∷ [];
  persistent_datasets = [];
}

-- One name is refused, and 30% of the pool are used.
abbrev env : Bytes → Surroundings
env bad = record {
  libzfs = refuses bad;
  capacity = λ pool. some (codes "30");
  min_free_pool_space = pos 20;
  generated_id = codes "abc123";
}

taken_name :
    (create_user_snapshot (env []) (some machine) (codes "me") (codes "old") pools).1
    ≡ inl (already_in_history (codes "old"))
unfolding create_user_snapshot validate_state_name has_prefix lookup text_eq has_suffix
taken_name = refl

-- The second of two datasets is refused.
refused_run :
    (create_snapshot (env (codes "r/d@s")) (some machine) (codes "s") [] pools).1
    ≡ inl (snapshot_failed (not_created (codes "r/d@s")))
unfolding create_snapshot validate_state_name has_prefix to_snapshot get_pool_free_space split
    snapshot find_in_children vacant_in_children has_child_named text_eq split_snapshot_name
    append_child change_in_children
refused_run = refl

create_snapshot-failed_example :
    (create_snapshot (env (codes "r/d@s")) (some machine) (codes "s") [] pools).0 ≡ pools
create_snapshot-failed_example =
    create_snapshot-failed (env (codes "r/d@s")) (refuses-Documented (codes "r/d@s")) (some machine)
      (codes "s") [] pools (snapshot_failed (not_created (codes "r/d@s"))) refused_run
