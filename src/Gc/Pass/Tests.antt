-- ===== src/Gc/Pass/Tests.antt =====
-- A pass of the garbage collection over one machine at concrete inputs.
use mathlib.Core.List.{Memᴰ}
use zsys.Prelude.{◌≤◌, some, List, [], ◌∷◌, ◌≡◌, arith, length}
use zsys.Machines.Model.{State, Machine}
use zsys.Gc.Pass.{history_states, system_pass}
use zsys.Gc.Walk.{Links}
use zsys.Gc.Samples.{newest_first, snapshot_at, machine, policy, buckets, no_links}
use zsys.Gc.Pass.Total.{system_pass_total}

abbrev outcome : List State × Links
outcome = (snapshot_at 699000 ∷ [], no_links)

one_machine :
    (m : Machine) → Memᴰ m (machine ∷ []) → length (newest_first (history_states m.history)) ≤ 43
unfolding newest_first history_states
one_machine m (Memᴰ.head e) = rw e (omega arith)
one_machine m (Memᴰ.tail h) = elim h [ ]

system_pass_total_example :
    (out : List State × Links) × (system_pass newest_first policy buckets (machine ∷ []) no_links
      ≡ some out)
system_pass_total_example =
    system_pass_total policy newest_first buckets (machine ∷ []) no_links one_machine
