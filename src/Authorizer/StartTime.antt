-- ===== src/Authorizer/StartTime.antt =====
-- `getStartTimeFromReader` of internal/authorizer/authorizer.go: the time when a process was started,
-- from the content of its stat file.
use zsys.Prelude.{
  ℕ, ◌+◌, Option, none, some, List, if◌then◌else◌, ltb, ◌⊎◌, inl, inr, length, drop, get_elem?,
}
use zsys.Text.{index_byte, Bytes, split}
use zsys.Text.Numbers.{parse_uint}

pub data StartTimeError : Type 0 where
  not_read : StartTimeError
  missing_parenthesis : StartTimeError
  parenthesis_at_end : StartTimeError
  less_fields : StartTimeError
  not_a_number : StartTimeError

unfoldable pub parsed : Option ℕ → StartTimeError ⊎ ℕ
parsed none = inl not_a_number
parsed (some v) = inr v

-- The token at index 19; there is one where the tokens are at least 20.
unfoldable pub start_time_token : List Bytes → StartTimeError ⊎ ℕ
unfolding parsed parse_uint
start_time_token tokens = elim (get_elem? tokens 19) [
  | none ↦ inl less_fields
  | some t ↦ parsed (parse_uint t)
]

unfoldable pub after_parenthesis : Bytes → Option ℕ → StartTimeError ⊎ ℕ
unfolding start_time_token split
after_parenthesis contents none = inl missing_parenthesis
after_parenthesis contents (some i) =
    if ltb (length contents) (i + 2)
    then inl parenthesis_at_end
    else start_time_token (split (drop (i + 2) contents) b' ')

unfoldable pub get_start_time_from_reader : Option Bytes → StartTimeError ⊎ ℕ
unfolding after_parenthesis index_byte
get_start_time_from_reader none = inl not_read
get_start_time_from_reader (some contents) = after_parenthesis contents (index_byte contents b')')
