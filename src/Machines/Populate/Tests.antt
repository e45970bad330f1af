-- ===== src/Machines/Populate/Tests.antt =====
-- Datasets sorted at a concrete input.
use zsys.Prelude.{Bool, true, false, List, [], ◌∷◌, ◌≡◌, refl}
use zsys.Text.{Bytes, codes}
use zsys.Zfs.Dataset.{Dataset, dataset, nil}
use zsys.Zfs.Samples.{plain}
use zsys.Machines.Origin.{Origins}
use zsys.Machines.Populate.{populate}
use zsys.Machines.Populate.Attach.{sorted_count}
use zsys.Machines.Populate.Laws.{DistinctNames, populate-count}

abbrev at : Bytes → Bool → Dataset
at name is_snapshot = dataset name is_snapshot plain nil

-- A machine, its child, its snapshot, and a user dataset.
abbrev datasets : List Dataset
datasets =
    at (codes "r/a") false
    ∷ at (codes "r/a/b") false
    ∷ at (codes "r/a@s") true
    ∷ at (codes "r/USERDATA/u") false
    ∷ []

abbrev origins : Origins
origins = (codes "r/a", []) ∷ (codes "r/a@s", codes "r/a") ∷ []

datasets-DistinctNames : DistinctNames datasets
unfolding zsys.Text.text_eq
datasets-DistinctNames = ((refl, (refl, (refl, tt))), ((refl, (refl, tt)), ((refl, tt), (tt, tt))))

abbrev any : Dataset → Bool
any d = true

populate-count_example : sorted_count any (populate datasets origins) ≡ 4
populate-count_example = populate-count any datasets origins datasets-DistinctNames
