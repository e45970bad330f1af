-- ===== src/Machines/Maps.antt =====
-- Go's maps from names as association lists: a key is replaced where it stands, and is otherwise new
-- at the end.
pub mod Laws
use zsys.Prelude.{Bool, true, false, Option, none, some, List, [], ◌∷◌, if◌then◌else◌}
use zsys.Text.{Bytes, text_eq}

module _ {ℓ} {A : Type ℓ} where
  unfoldable pub lookup : Bytes → List (Bytes × A) → Option A
  lookup key [] = none
  lookup key ((k, a) ∷ m) = let later = lookup key m in if text_eq k key then some a else later

  unfoldable pub put : Bytes → A → List (Bytes × A) → List (Bytes × A)
  put key v [] = (key, v) ∷ []
  put key v ((k, a) ∷ m) =
      let later = put key v m in if text_eq k key then (k, v) ∷ m else (k, a) ∷ later
