-- ===== src/Machines/Find/Tests.antt =====
-- Searches at concrete inputs.
use zsys.Zfs.Samples.{plain}
use zsys.Prelude.{true, false, some, [], ◌∷◌, ◌≡◌, ◌↔◌, refl, inr}
use zsys.Text.{Bytes, codes, text_eq, has_suffix, has_byte, base, split}
use zsys.Zfs.Dataset.{dataset, nil}
use zsys.Machines.Model.{State, Machine}
use zsys.Machines.Maps.{lookup}
use zsys.Machines.Find.{Machines, candidates, id_to_state, get_machine, active, find_from_root}
use zsys.Machines.Find.Laws.{Unambiguous, id_to_state_iff}
use zsys.Machines.Find.Root.{IsActive, find_from_root-IsActive}

abbrev state_at : Bytes → State
state_at id = record {
  ref = 1;
  id = id;
  last_used = 0;
  datasets = (id, dataset id false (record plain { mounted = true }) nil ∷ []) ∷ [];
}

abbrev machine : Machine
machine = record {
  is_zsys = true;
  main = record { state = state_at (codes "r/ubuntu_1"); users = [] };
  all_users_states = (codes "me", (codes "r/me_1", state_at (codes "r/me_1")) ∷ []) ∷ [];
  history =
      (codes "r/ubuntu_1@s1", record { state = state_at (codes "r/ubuntu_1@s1"); users = [] }) ∷ [];
  persistent_datasets = [];
}

abbrev machines : Machines
machines = record { all = (codes "r/ubuntu_1", machine) ∷ []; current = some machine }

abbrev main_state : State
main_state = state_at (codes "r/ubuntu_1")

by_suffix : id_to_state machines (codes "1") [] ≡ inr main_state
unfolding id_to_state text_eq has_suffix base
by_suffix = refl

by_snapshot : id_to_state machines (codes "s1") [] ≡ inr (state_at (codes "r/ubuntu_1@s1"))
unfolding id_to_state text_eq has_suffix base
by_snapshot = refl

by_short_id : get_machine machines (codes "1") ≡ inr machine
unfolding get_machine text_eq base split
by_short_id = refl

id_to_state_iff_example :
    ((s : State) × (id_to_state machines (codes "1") [] ≡ inr s) × (s.id ≡ codes "r/ubuntu_1"))
    ↔ Unambiguous (codes "1") (candidates [] machines.all) (codes "r/ubuntu_1")
id_to_state_iff_example = id_to_state_iff machines b'1' [] [] (codes "r/ubuntu_1")

root_run : find_from_root (codes "r/ubuntu_1@s1") machines.all ≡ active machine machine.main
unfolding find_from_root lookup text_eq has_byte
root_run = refl

find_from_root-IsActive_example : IsActive (codes "r/ubuntu_1@s1") machines.all machine machine.main
find_from_root-IsActive_example =
    find_from_root-IsActive (codes "r/ubuntu_1@s1") machines.all machine machine.main root_run
