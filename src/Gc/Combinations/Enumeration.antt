-- ===== src/Gc/Combinations/Enumeration.antt =====
-- `combinations` lists every choice of k of n indices once, in lexicographic order.
use native.Mathlib.Decide.{dec_lt}
use zsys.Prelude.{
  ℕ, zero, suc, ◌+◌, ◌-◌, ◌*◌, ◌^◌, ◌≤◌, ◌<◌, List, [], ◌∷◌, ◌++◌, map, append-nil, none, some, ◌≡◌,
  ◌≢◌, refl, sym, ap, ◌∙◌, arith, ltb, false, length, length-append, length-map,
}
use zsys.Gc.Combinations.{max_alloc, slice_size, next_combination, run, data_loop, combinations}
use zsys.Gc.Combinations.Binomial.{paths, paths_comm, binomial_lem}
use zsys.Gc.Combinations.Next.{next_rec, or_same, next_combination_lem}

-- The choices of k of the m numbers from lo on: first those with lo, then those without.
unfoldable pub choices : ℕ → ℕ → ℕ → List (List ℕ)
choices lo zero m = [] ∷ []
choices lo (suc k) zero = []
choices lo (suc k) (suc m) = map (λ s. lo ∷ s) (choices (lo + 1) k m) ++ choices (lo + 1) (suc k) m

choices-few : (lo k m : ℕ) → m < k → choices lo k m ≡ []
unfolding choices
choices-few lo zero m h = elim h [ ]
choices-few lo (suc k) zero h = refl
choices-few lo (suc k) (suc m) h =
    rw (choices-few (lo + 1) k m (omega arith), choices-few (lo + 1) (suc k) m (omega arith)) refl

pub length-choices : (lo k m t : ℕ) → t ≡ k + m → length (choices lo k t) ≡ paths k m
unfolding choices paths
length-choices lo zero m t e = refl
length-choices lo (suc k) m zero e = absurd (omega arith)
length-choices lo (suc k) zero (suc t) e =
    rw (choices-few (lo + 1) (suc k) t (omega arith), append-nil)
      (length-map (choices (lo + 1) k t) (λ s. lo ∷ s)
        ∙ length-choices (lo + 1) k 0 t (omega arith)
        ∙ paths_comm k 0)
length-choices lo (suc k) (suc m) (suc t) e =
    length-append (map (λ s. lo ∷ s) (choices (lo + 1) k t)) (choices (lo + 1) (suc k) t)
    ∙ omega (
      arith,
      length-map (choices (lo + 1) k t) (λ s. lo ∷ s),
      length-choices (lo + 1) k (suc m) t (omega arith),
      length-choices (lo + 1) (suc k) m t (omega arith),
    )

-- Each entry has k elements and leads to the one after it; the last leads nowhere.
abbrev Linked : ℕ → ℕ → List (List ℕ) → Type 0
Linked n k [] = ⊥
Linked n k (s ∷ []) = (length s ≡ k) × (next_rec n s ≡ none)
Linked n k (s ∷ t ∷ r) = (length s ≡ k) × (next_rec n s ≡ some t) × Linked n k (t ∷ r)

next_rec-under :
    (n c : ℕ) (s t : List ℕ) → next_rec n s ≡ some t → next_rec n (c ∷ s) ≡ some (c ∷ t)
next_rec-under n c s t e = unfold next_rec in rw e refl

Linked-map_last :
    (n k lo : ℕ) (l : List (List ℕ))
    → Linked n k l
    → lo ≡ n - suc k
    → Linked n (suc k) (map (λ s. lo ∷ s) l)
Linked-map_last n k lo [] h e = absurd h
Linked-map_last n k lo (s ∷ []) h e = (ap suc h.0, unfold next_rec in ground arith)
Linked-map_last n k lo (s ∷ t ∷ r) h e =
    (ap suc h.0, next_rec-under n lo s t h.1, Linked-map_last n k lo (t ∷ r) h.2 e)

Linked-map_append :
    (n k lo : ℕ) (l r : List (List ℕ))
    → Linked n k l
    → lo ≢ n - suc k
    → Linked n (suc k) (run (lo + 1) (suc k) ∷ r)
    → Linked n (suc k) (map (λ s. lo ∷ s) l ++ run (lo + 1) (suc k) ∷ r)
Linked-map_append n k lo [] r h e q = absurd h
Linked-map_append n k lo (s ∷ []) r h e q = (ap suc h.0, unfold next_rec in ground arith, q)
Linked-map_append n k lo (s ∷ t ∷ l) r h e q =
    (ap suc h.0, next_rec-under n lo s t h.1, Linked-map_append n k lo (t ∷ l) r h.2 e q)

pub choices-head : (lo k m : ℕ) → k ≤ m → (r : List (List ℕ)) × (choices lo k m ≡ run lo k ∷ r)
unfolding choices run
choices-head lo zero m h = ([], refl)
choices-head lo (suc k) zero h = elim h [ ]
choices-head lo (suc k) (suc m) h =
    let (r, e) = choices-head (lo + 1) k m (omega arith) in
    (map (λ s. lo ∷ s) r ++ choices (lo + 1) (suc k) m, rw e refl)

choices-Linked : (n lo k m : ℕ) → k ≤ m → lo + m ≡ n → Linked n k (choices lo k m)
unfolding choices
choices-Linked n lo zero m h e = (refl, unfold next_rec in refl)
choices-Linked n lo (suc k) zero h e = elim h [ ]
choices-Linked n lo (suc k) (suc m) h e = elim (dec_lt m (suc k)) [
  | yes few ↦
      rw (choices-few (lo + 1) (suc k) m few, append-nil)
        (Linked-map_last n k lo (choices (lo + 1) k m)
          (choices-Linked n (lo + 1) k m (omega arith) (omega arith)) (omega arith))
  | no many ↦
      let (r, q) = choices-head (lo + 1) (suc k) m (omega arith) in
      rw q (
        Linked-map_append n k lo (choices (lo + 1) k m) r
          (choices-Linked n (lo + 1) k m (omega arith) (omega arith)) (omega arith)
          (rw q at (choices-Linked n (lo + 1) (suc k) m (omega arith) (omega arith))))
]

-- Listing from the first entry of a linked list gives the list.
data_loop-Linked :
    (n k : ℕ) (s : List ℕ) (r : List (List ℕ))
    → k ≤ n
    → Linked n k (s ∷ r)
    → data_loop (suc (length r)) n k s ≡ s ∷ r
unfolding data_loop
data_loop-Linked n k s [] le h = refl
data_loop-Linked n k s (t ∷ r) le h =
    let e : next_combination s n k ≡ t =
      next_combination_lem s n k h.0 le ∙ ap (λ x. or_same x s) h.1 in
    ap (λ x. s ∷ data_loop (suc (length r)) n k x) e
    ∙ ap (λ x. s ∷ x) (data_loop-Linked n k t r le h.2)

-- The product that `binomial` computes fits an `int`, and the slice that `combinations` makes can be
-- allocated.
abbrev pub FitsMemory : ℕ → ℕ → Type 0
FitsMemory n k = (n * paths k (n - k) < 2 ^ 63) × (slice_size * paths k (n - k) ≤ max_alloc)

can_allocate : (c : ℕ) → slice_size * c ≤ max_alloc → ltb max_alloc (slice_size * c) ≡ false
can_allocate c h = ground arith

-- For k ≤ n, when n times the number of choices fits an `int` and no more than 2 ^ 48 bytes are
-- needed for their slices, `combinations n k` returns, without a panic, the list that the recursive definition of the choices of k of the indices below n gives:
-- those with the lowest index first, each followed by the choices among the indices above it.
pub combinations_lem : (n k : ℕ) → k ≤ n → FitsMemory n k → combinations n k ≡ some (choices 0 k n)
unfolding combinations
combinations_lem n k le fits =
    let (r, e) = choices-head 0 k n le in
    let count : paths k (n - k) ≡ suc (length r) =
      sym (length-choices 0 k (n - k) n (omega arith)) ∙ ap length e in
    rw (binomial_lem n k le fits.0, combinations, can_allocate (paths k (n - k)) fits.1)
      (ap (λ c. some (data_loop c n k (run 0 k))) count
        ∙ ap some (
            data_loop-Linked n k (run 0 k) r le (rw e at (choices-Linked n 0 k n le (omega arith))))
        ∙ ap some (sym e))
