-- ===== src/Gc/Loop/Tests.antt =====
-- The loop of passes over the history of one machine.
use zsys.Prelude.{Bool, true, false, Option, some, List, [], ◌∷◌}
use zsys.Text.{codes}
use zsys.Machines.Model.{State, Machine}
use zsys.Gc.Samples.{machine, saved, no_links}
use zsys.Gc.Loop.{GcState}

-- The history before and behind the removal of one state.
abbrev machines : Bool → List Machine
machines true = machine ∷ []
machines false =
    record machine {
      history =
          (codes "a", saved 698000) ∷ (codes "b", saved 800000) ∷ (codes "c", saved 700000) ∷ [];
    }
    ∷ []

abbrev remove : State → Bool → Bool × Bool
remove s w = (false, false)

abbrev refresh : Bool → Option Bool
refresh w = some w

abbrev start : GcState Bool
start = record { world = true; links = no_links; failed = [] }

abbrev end : GcState Bool
end = record { world = false; links = no_links; failed = [] }
