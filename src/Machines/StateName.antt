-- ===== src/Machines/StateName.antt =====
-- `validateStateName` of internal/machines/snapshot.go. A state name is read as its characters.
pub mod Laws
use zsys.Prelude.{
  ℕ, Bool, true, false, not, ◌&&◌, ◌||◌, Option, none, some, List, [], ◌∷◌, ◌++◌, ◌≡◌, refl,
  if◌then◌else◌, leb, ◌==◌,
}
use zsys.Text.{Bytes, codes, has_prefix, has_byte}

pub data NameError : Type 0 where
  leading_dash : NameError
  unsupported_chars : List ℕ → NameError

unfoldable pub is_valid_char : ℕ → Bool
is_valid_char c =
    (leb b'a' c && leb c b'z')
    || ((leb b'A' c && leb c b'Z')
        || ((leb b'0' c && leb c b'9') || (c == b'-' || (c == b'_' || (c == b'.' || c == b':')))))

-- `invalidChars`, in the order of the name.
invalid_chars : Bytes → List ℕ
invalid_chars [] = []
invalid_chars (c ∷ s) =
    let rest = invalid_chars s in if not (is_valid_char c) then c ∷ rest else rest

-- `uniqueChars`: each character once, where it is first met. `keys` are those met so far.
unique_chars : List ℕ → List ℕ → List ℕ
unique_chars [] keys = []
unique_chars (c ∷ s) keys = elim (has_byte c keys) [
  | true ↦ unique_chars s keys
  | false ↦ c ∷ unique_chars s (c ∷ keys)
]

validate_chars : List ℕ → Option NameError
validate_chars [] = none
validate_chars (c ∷ s) = some (unsupported_chars (unique_chars (c ∷ s) []))

-- `none` stands for the nil error.
unfoldable pub validate_state_name : Bytes → Option NameError
unfolding validate_chars invalid_chars unique_chars is_valid_char
validate_state_name name =
    if has_prefix name (codes "-") then some leading_dash else validate_chars (invalid_chars name)
