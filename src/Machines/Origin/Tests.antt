-- ===== src/Machines/Origin/Tests.antt =====
-- The origins of a clone of a clone.
use mathlib.Core.List.{Memᴰ}
use zsys.Prelude.{ℕ, true, false, some, List, [], ◌∷◌, ◌≡◌, refl, ◌<◌, arith, if◌then◌else◌}
use zsys.Text.{Bytes, codes, text_eq}
use zsys.Zfs.Dataset.{Dataset, dataset, nil}
use zsys.Zfs.Samples.{plain}
use zsys.Machines.Origin.{strip_snapshot, Origins, resolve_origin}
use zsys.Machines.Origin.Laws.{Falls, Resolved, resolve_origin-Resolved}

abbrev system : Bytes → Bytes → Dataset
system name origin = dataset name false (record plain { origin = origin }) nil

abbrev systems : List Dataset
systems =
    system (codes "c") (codes "b@2") ∷ system (codes "b") (codes "a@1") ∷ system (codes "a") [] ∷ []

abbrev origins : Origins
origins = (codes "a", []) ∷ (codes "b", codes "a") ∷ (codes "c", codes "a") ∷ []

resolve_origin-systems : resolve_origin 4 systems (codes "/") ≡ some origins
unfolding resolve_origin zsys.Text.text_eq zsys.Text.last_index
resolve_origin-systems = refl

-- c comes from b, and b from a.
abbrev age : Bytes → ℕ
age name = if text_eq name (codes "c") then 2 else if text_eq name (codes "b") then 1 else 0

age_bound : (name : Bytes) → age name < 4
age_bound name = ground arith

clash : true ≡ false → ⊥
clash h = cc

systems-Falls : Falls age systems
unfolding zsys.Text.text_eq zsys.Text.last_index strip_snapshot
systems-Falls d (Memᴰ.head e) n = rw e (omega arith)
systems-Falls d (Memᴰ.tail (Memᴰ.head e)) n = rw e (omega arith)
systems-Falls d (Memᴰ.tail (Memᴰ.tail (Memᴰ.head e))) n = absurd (clash (rw e at n))
systems-Falls d (Memᴰ.tail (Memᴰ.tail (Memᴰ.tail i))) n = elim i [ ]

resolve_origin-Resolved_example :
    (r : Origins) × (resolve_origin 4 systems (codes "/") ≡ some r) × Resolved systems (codes "/") r
resolve_origin-Resolved_example =
    resolve_origin-Resolved systems age 4 (codes "/") systems-Falls age_bound
