-- ===== src/Zfs/Dependencies/Tests.antt =====
-- Dependencies at concrete inputs.
use zsys.Zfs.Samples.{plain}
use zsys.Prelude.{true, false, none, some, List, [], ◌∷◌, ◌≡◌, refl, ◌⊎◌, inl, inr}
use mathlib.Core.List.{Memᴰ}
use zsys.Text.{codes, text_eq, has_prefix, has_byte, trim_prefix}
use zsys.Zfs.Names.{split_snapshot_name}
use zsys.Zfs.Dataset.{Dataset, dataset, nil}
use zsys.Zfs.Dependencies.{is_dependency, dependencies}
use zsys.Zfs.Dependencies.Laws.{DeepestFirst, Covers, dependencies-DeepestFirst}
use zsys.Zfs.Dependencies.Total.{dependencies_diverge}

abbrev root : Dataset
root = dataset (codes "r/a") false plain nil

abbrev shot : Dataset
shot = dataset (codes "r/a@s") true plain nil

abbrev clone : Dataset
clone = dataset (codes "r/b") false (record plain { origin = codes "r/a@s" }) nil

abbrev pool : List Dataset
pool = root ∷ clone ∷ shot ∷ []

found : dependencies 4 pool root ≡ some (clone ∷ shot ∷ [])
unfolding dependencies is_dependency text_eq has_prefix has_byte trim_prefix split_snapshot_name
found = refl

dependencies-DeepestFirst_example :
    DeepestFirst pool [] (clone ∷ shot ∷ []) × Covers pool root (clone ∷ shot ∷ [])
dependencies-DeepestFirst_example = dependencies-DeepestFirst pool 4 root (clone ∷ shot ∷ []) found

-- A clone below the dataset that it came from, after it was promoted.
abbrev demoted : Dataset
demoted = dataset (codes "r/a") false (record plain { origin = codes "r/a/b@s" }) nil

abbrev promoted : Dataset
promoted = dataset (codes "r/a/b") false plain nil

abbrev moved : Dataset
moved = dataset (codes "r/a/b@s") true plain nil

abbrev nested : List Dataset
nested = demoted ∷ promoted ∷ moved ∷ []

abbrev InNested : Dataset → Type 0
InNested d = (d ≡ demoted) ⊎ ((d ≡ promoted) ⊎ (d ≡ moved))

nested_next :
    (d : Dataset)
    → InNested d
    → (e : Dataset) × Memᴰ e nested × (is_dependency d e ≡ true) × InNested e
unfolding is_dependency text_eq has_prefix has_byte trim_prefix split_snapshot_name
nested_next d (inl q) = (promoted, Memᴰ.tail (Memᴰ.head refl), rw q refl, inr (inl refl))
nested_next d (inr (inl q)) =
    (moved, Memᴰ.tail (Memᴰ.tail (Memᴰ.head refl)), rw q refl, inr (inr refl))
nested_next d (inr (inr q)) = (demoted, Memᴰ.head refl, rw q refl, inl refl)

dependencies_diverge_example : dependencies 1000 nested demoted ≡ none
dependencies_diverge_example =
    dependencies_diverge nested InNested nested_next 1000 demoted (inl refl)
