-- ===== src/Machines/UserStates/Tests.antt =====
-- A user with an underscore in the name.
use zsys.Prelude.{false, true, List, [], ◌∷◌, ◌≡◌, refl}
use zsys.Text.{Bytes, codes}
use zsys.Zfs.Dataset.{Dataset, dataset, nil}
use zsys.Zfs.Samples.{plain}
use zsys.Machines.Model.{Machine}
use zsys.Machines.UserStates.{attach_remaining_datasets}

abbrev home : Dataset
home = dataset (codes "r/USERDATA/a_b_12") false plain nil

abbrev machine : Machine
machine = record {
  is_zsys = true;
  main = record {
    state = record { ref = 0; id = codes "r/ROOT/u"; last_used = 0; datasets = [] };
    users = [];
  };
  all_users_states = [];
  history = [];
  persistent_datasets = [];
}

-- The boot dataset of the machine's name, and its child.
abbrev boots : List Dataset
boots =
    dataset (codes "b/BOOT/u") false plain nil ∷ dataset (codes "b/BOOT/u/x") false plain nil ∷ []

boots-attached :
    (attach_remaining_datasets boots [] machine).main.state.datasets
    ≡ (codes "b/BOOT/u", boots) ∷ []
unfolding attach_remaining_datasets zsys.Text.text_eq zsys.Text.has_prefix zsys.Text.has_suffix
    zsys.Text.base
boots-attached = refl
