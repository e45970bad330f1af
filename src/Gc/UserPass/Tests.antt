-- ===== src/Gc/UserPass/Tests.antt =====
-- A pass over the states of one user at concrete inputs.
use mathlib.Core.List.{Memᴰ}
use zsys.Prelude.{List, [], ◌∷◌, arith}
use zsys.Text.{codes}
use zsys.Machines.Model.{State, Machine}
use zsys.Gc.Walk.{Links}
use zsys.Gc.Samples.{newest_first, snapshot_at, machine, policy, no_links}
use zsys.Gc.UserPass.{past_states}
use zsys.Gc.UserPass.Total.{FewPast}

abbrev bobs : Machine
bobs = record machine {
  main = record { state = snapshot_at 900000; users = (codes "bob", snapshot_at 900001) ∷ [] };
  all_users_states =
      (
        codes "bob",
        (codes "x", snapshot_at 698000)
            ∷ (codes "y", snapshot_at 900001)
            ∷ (codes "z", snapshot_at 700000)
            ∷ (codes "v", snapshot_at 800000)
            ∷ (codes "w", snapshot_at 699000)
            ∷ [],
      )
      ∷ [];
}

abbrev outcome : List State × Links
outcome = (snapshot_at 699000 ∷ [], no_links)

few_of_bob : FewPast policy newest_first bobs bobs.all_users_states
unfolding newest_first past_states
few_of_bob user (Memᴰ.head q) = rw q (omega arith)
few_of_bob user (Memᴰ.tail h) = elim h [ ]

few : (m : Machine) → Memᴰ m (bobs ∷ []) → FewPast policy newest_first m m.all_users_states
few m (Memᴰ.head e) = rw e few_of_bob
few m (Memᴰ.tail h) = elim h [ ]
