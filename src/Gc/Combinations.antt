-- ===== src/Gc/Combinations.antt =====
-- `combinations`, `binomial` and `nextCombination` of internal/machines/gc.go. A slice of k ints is
-- a list; a write out of range does not occur, and changes nothing here.
pub mod Binomial
pub mod Next
pub mod Enumeration
use zsys.Prelude.{
  ℕ, zero, suc, ◌+◌, ◌-◌, ◌*◌, ◌/◌, ◌%◌, ◌^◌, List, [], ◌∷◌, Option, none, some, ◌≡◌, refl,
  if◌then◌else◌, ltb, ◌==◌, get_or, set,
}

-- A machine word: exact below 2 ^ 63, where a product of `int`s does not overflow.
abbrev pub word : ℕ
word = 2 ^ 64

-- The loop of `binomial`, with `rounds` rounds left at `i`; `d` is `n - k`.
binomial_loop : ℕ → ℕ → ℕ → ℕ → ℕ
binomial_loop zero i d b = b
binomial_loop (suc rounds) i d b = binomial_loop rounds (i + 1) d (((d + i) * b) % word / i)

-- `none` is the panic for n < k. The arguments are lengths, so they are not negative.
unfoldable pub binomial : ℕ → ℕ → Option ℕ
unfolding binomial_loop
binomial n k =
    if ltb n k
    then none
    else let k' = if ltb (n / 2) k then n - k else k in some (binomial_loop k' 1 (n - k') 1)

-- The inner loop of `nextCombination`, with `rounds` rounds left at `l`.
fill_loop : ℕ → ℕ → ℕ → List ℕ → List ℕ
fill_loop zero l j s = s
fill_loop (suc rounds) l j s = fill_loop rounds (l + 1) j (set s l (get_or s j 0 + l - j))

-- The outer loop; its first argument is j + 1.
next_loop : ℕ → ℕ → ℕ → List ℕ → List ℕ
next_loop zero n k s = s
next_loop (suc j) n k s =
    let rest = next_loop j n k s in
    if get_or s j 0 == n + j - k
    then rest
    else fill_loop (k - (j + 1)) (j + 1) j (set s j (get_or s j 0 + 1))

unfoldable pub next_combination : List ℕ → ℕ → ℕ → List ℕ
unfolding next_loop fill_loop
next_combination s n k = next_loop k n k s

-- `for i := range data[0]`: a, a + 1, …
unfoldable pub run : ℕ → ℕ → List ℕ
run a zero = []
run a (suc m) = a ∷ run (a + 1) m

-- `data`, from the current entry on.
data_loop : ℕ → ℕ → ℕ → List ℕ → List (List ℕ)
data_loop zero n k cur = []
data_loop (suc rounds) n k cur = cur ∷ data_loop rounds n k (next_combination cur n k)

-- What can be allocated at once on a 64-bit machine, and the bytes of an entry of `data`. `make`
-- panics above that. Less memory than it asks for is not a panic, and not modelled.
abbrev pub max_alloc : ℕ
max_alloc = 2 ^ 48

abbrev pub slice_size : ℕ
slice_size = 24

unfoldable pub combinations : ℕ → ℕ → Option (List (List ℕ))
unfolding binomial data_loop run next_combination
combinations n k = elim (binomial n k) [
  | none ↦ none
  | some c ↦ if ltb max_alloc (slice_size * c) then none else some (data_loop c n k (run 0 k))
]
