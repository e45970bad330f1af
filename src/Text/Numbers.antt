-- ===== src/Text/Numbers.antt =====
-- Numbers in decimal, as Go's `strconv` reads them: `ParseUint(s, 10, 64)` and `Atoi`.
use zsys.Prelude.{
  ℕ, ◌+◌, ◌-◌, ◌*◌, ◌%◌, ◌^◌, ◌<◌, Bool, ◌&&◌, Option, none, some, [], ◌∷◌, ◌≡◌, if◌then◌else◌,
  ◌==◌, leb, ltb, Bool-cases, inl, inr, arith,
}
use zsys.Prelude.Int.{ℤ, pos, negsuc}
use zsys.Text.{Bytes}

unfoldable pub is_digit : ℕ → Bool
is_digit c = leb b'0' c && leb c b'9'

-- The digits are read from the left, and an error ends the number.
read_digits : Bytes → ℕ → Option ℕ
unfolding is_digit
read_digits [] n = some n
read_digits (c ∷ s) n =
    let rest = read_digits s (n * 10 + (c - b'0')) in if is_digit c then rest else none

-- A number that does not fit into the width is an error, too.
fits : ℕ → Option ℕ → Option ℕ
fits limit none = none
fits limit (some n) = if ltb n limit then some n else none

unfoldable pub parse_uint : Bytes → Option ℕ
unfolding read_digits fits
parse_uint [] = none
parse_uint (c ∷ s) = fits (2 ^ 64) (read_digits (c ∷ s) 0)

-- `Atoi` takes a sign, and its numbers have 64 bits.
negated : ℕ → ℤ
negated n = if n == 0 then pos 0 else negsuc (n - 1)

unsigned : Bytes → ℕ → Option ℕ
unfolding read_digits fits
unsigned [] limit = none
unsigned (c ∷ s) limit = fits limit (read_digits (c ∷ s) 0)

positive : Option ℕ → Option ℤ
positive none = none
positive (some n) = some (pos n)

negative : Option ℕ → Option ℤ
unfolding negated
negative none = none
negative (some n) = some (negated n)

unfoldable pub atoi : Bytes → Option ℤ
unfolding unsigned positive negative
atoi [] = none
atoi (c ∷ s) =
    if c == b'-'
    then negative (unsigned s (2 ^ 63 + 1))
    else if c == b'+'
    then positive (unsigned s (2 ^ 63))
    else positive (unsigned (c ∷ s) (2 ^ 63))

-- `uint32(i)` of an integer: the two's complement, cut to 32 bits.
unfoldable pub to_uint32 : ℤ → ℕ
to_uint32 (pos n) = n % 2 ^ 32
to_uint32 (negsuc n) = 2 ^ 32 - 1 - n % 2 ^ 32

fits_below : (limit : ℕ) (o : Option ℕ) {n : ℕ} → fits limit o ≡ some n → n < limit
unfolding fits
fits_below limit none h = cc
fits_below limit (some m) h = elim (Bool-cases (ltb m limit)) [
  | inl b ↦ ground arith
  | inr b ↦ ground arith
]

pub parse_uint_below : (s : Bytes) {n : ℕ} → parse_uint s ≡ some n → n < 2 ^ 64
unfolding parse_uint
parse_uint_below [] h = cc
parse_uint_below (c ∷ s) h = fits_below (2 ^ 64) (read_digits (c ∷ s) 0) h

pub to_uint32_below : (i : ℤ) → to_uint32 i < 2 ^ 32
unfolding to_uint32
to_uint32_below (pos n) = omega arith
to_uint32_below (negsuc n) = omega arith
