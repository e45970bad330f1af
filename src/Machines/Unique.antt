-- ===== src/Machines/Unique.antt =====
-- `appendDatasetIfNotPresent` and `appendStateIfNotPresent` of internal/machines/helpers.go.
pub mod Laws
use zsys.Prelude.{Bool, true, false, not, ◌&&◌, ◌||◌, List, [], ◌∷◌, ◌++◌, ◌≡◌, refl, if◌then◌else◌}
use zsys.Text.{Bytes, codes, text_eq}
use zsys.Zfs.Dataset.{Dataset, name_of, prop_of}
use zsys.Machines.Model.{State}
use zsys.Machines.Tags.{named_in}

unfoldable pub is_excluded : Bool → Dataset → Bool
is_excluded exclude_can_mount_off d =
    exclude_can_mount_off && text_eq (prop_of d).can_mount (codes "off")

-- One round of the loop.
unfoldable pub append_one : Bool → List Dataset → Dataset → List Dataset
unfolding is_excluded
append_one exclude main d =
    if is_excluded exclude d
    then main
    else if named_in (name_of d) main
    then main
    else main ++ d ∷ []

unfoldable pub append_dataset_if_not_present : List Dataset → List Dataset → Bool → List Dataset
unfolding append_one
append_dataset_if_not_present main [] exclude = main
append_dataset_if_not_present main (d ∷ new) exclude =
    append_dataset_if_not_present (append_one exclude main d) new exclude

unfoldable pub has_id : Bytes → List State → Bool
has_id id [] = false
has_id id (s ∷ ss) = text_eq s.id id || has_id id ss

unfoldable pub append_state_if_not_present : List State → State → List State
unfolding has_id
append_state_if_not_present states state =
    if has_id state.id states then states else states ++ state ∷ []
