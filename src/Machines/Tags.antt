-- ===== src/Machines/Tags.antt =====
-- The tags of `BootfsDatasets`: those that `remove` of internal/machines/state.go leaves on a user
-- dataset, and `diffDatasets` of internal/machines/boot.go.
pub mod Laws
use zsys.Prelude.{ℕ, Bool, true, false, not, List, [], ◌∷◌, ◌++◌, ◌≡◌, refl, if◌then◌else◌, ◌||◌}
use zsys.Text.{Bytes, text_eq, split, join}
use zsys.Zfs.Dataset.{Dataset, name_of}

abbrev pub separator : ℕ
separator = b','

-- The loop over the tags, which ends at the first tag that it keeps.
unfoldable pub new_tags : Bytes → List Bytes → List Bytes
new_tags linked [] = []
new_tags linked (n ∷ ns) =
    let rest = new_tags linked ns in if not (text_eq n linked) then n ∷ [] else rest

-- `newTag`.
unfoldable pub new_tag : Bytes → Bytes → Bytes
unfolding new_tags
new_tag linked bootfs_datasets =
    join (new_tags linked (split bootfs_datasets separator)) (separator ∷ [])

-- The look up in the map `mb` of names.
unfoldable pub named_in : Bytes → List Dataset → Bool
named_in name [] = false
named_in name (x ∷ xs) = text_eq (name_of x) name || named_in name xs

unfoldable pub diff_datasets : List Dataset → List Dataset → List Dataset
unfolding named_in
diff_datasets [] b = []
diff_datasets (x ∷ a) b =
    let rest = diff_datasets a b in if not (named_in (name_of x) b) then x ∷ rest else rest
