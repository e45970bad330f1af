-- ===== src/Gc/Combinations/Next.antt =====
-- `nextCombination` on arrays, against its definition by recursion on the suffixes of a list.
use zsys.Prelude.{
  ℕ, zero, suc, ◌+◌, ◌-◌, ◌≤◌, ◌<◌, List, [], ◌∷◌, ◌++◌, append-nil, Option, none, some, ◌≡◌, ◌≢◌,
  refl, sym, ap, ◌∙◌, arith, Bool-cases, inl, inr, if◌then◌else◌, ◌==◌, length, get_or, set,
}
use zsys.Gc.Combinations.{fill_loop, next_loop, next_combination, run}

-- The next combination of elements below n: the last suffix that can grow is replaced. `none` is
-- for the last combination.
unfoldable pub next_rec : ℕ → List ℕ → Option (List ℕ)
next_rec n [] = none
next_rec n (c ∷ t) = elim (next_rec n t) [
  | some t' ↦ some (c ∷ t')
  | none ↦ if c == n - length (c ∷ t) then none else some (run (c + 1) (length (c ∷ t)))
]

-- A list from its prefix, last element first, and its suffix.
unfoldable pub rev_onto : List ℕ → List ℕ → List ℕ
rev_onto [] s = s
rev_onto (c ∷ rp) s = rev_onto rp (c ∷ s)

length-rev_onto : (rp s : List ℕ) → length (rev_onto rp s) ≡ length rp + length s
unfolding rev_onto
length-rev_onto [] s = omega arith
length-rev_onto (c ∷ rp) s = omega (arith, length-rev_onto rp (c ∷ s))

get_or-rev_onto :
    (rp s : List ℕ) (i j : ℕ) → j ≡ length rp + i → get_or (rev_onto rp s) j 0 ≡ get_or s i 0
unfolding rev_onto
get_or-rev_onto [] s i j e = let q : j ≡ i = omega arith in rw q refl
get_or-rev_onto (c ∷ rp) s i j e = get_or-rev_onto rp (c ∷ s) (suc i) j (omega arith)

set-rev_onto :
    (rp s : List ℕ) (i j v : ℕ)
    → j ≡ length rp + i
    → set (rev_onto rp s) j v ≡ rev_onto rp (set s i v)
unfolding rev_onto
set-rev_onto [] s i j v e = let q : j ≡ i = omega arith in rw q refl
set-rev_onto (c ∷ rp) s i j v e = set-rev_onto rp (c ∷ s) (suc i) j v (omega arith)

next_rec-rev_onto :
    (n : ℕ) (rp s t : List ℕ)
    → next_rec n s ≡ some t
    → next_rec n (rev_onto rp s) ≡ some (rev_onto rp t)
unfolding rev_onto
next_rec-rev_onto n [] s t e = e
next_rec-rev_onto n (c ∷ rp) s t e =
    next_rec-rev_onto n rp (c ∷ s) (c ∷ t) (unfold next_rec in rw e refl)

get_or-set_ne : (s : List ℕ) (i j v : ℕ) → i ≢ j → get_or (set s i v) j 0 ≡ get_or s j 0
get_or-set_ne [] i j v h = refl
get_or-set_ne (c ∷ s) zero zero v h = absurd (h refl)
get_or-set_ne (c ∷ s) zero (suc j) v h = refl
get_or-set_ne (c ∷ s) (suc i) zero v h = refl
get_or-set_ne (c ∷ s) (suc i) (suc j) v h = get_or-set_ne s i j v (λ e. h (ap suc e))

-- The inner loop writes consecutive numbers from l to the end.
fill_loop_lem :
    (rp t : List ℕ) (l j c : ℕ)
    → l ≡ length rp
    → j < l
    → get_or (rev_onto rp t) j 0 ≡ c
    → fill_loop (length t) l j (rev_onto rp t) ≡ rev_onto rp (run (c + l - j) (length t))
unfolding fill_loop rev_onto
fill_loop_lem rp [] l j c e lt g = unfold run in refl
fill_loop_lem rp (d ∷ t) l j c e lt g =
    ap (λ x. fill_loop (length t) (l + 1) j (set (rev_onto rp (d ∷ t)) l (x + l - j))) g
    ∙ ap (fill_loop (length t) (l + 1) j) written
    ∙ fill_loop_lem ((c + l - j) ∷ rp) t (l + 1) j c (omega arith) (omega arith) kept
    ∙ later
  where
    written : set (rev_onto rp (d ∷ t)) l (c + l - j) ≡ rev_onto ((c + l - j) ∷ rp) t
    written = set-rev_onto rp (d ∷ t) 0 l (c + l - j) (omega arith)

    kept : get_or (rev_onto ((c + l - j) ∷ rp) t) j 0 ≡ c
    kept =
        ap (λ x. get_or x j 0) (sym written)
        ∙ get_or-set_ne (rev_onto rp (d ∷ t)) l j (c + l - j) (omega arith)
        ∙ g

    later :
        rev_onto ((c + l - j) ∷ rp) (run (c + (l + 1) - j) (length t))
        ≡ rev_onto rp (run (c + l - j) (suc (length t)))
    later =
        let q : c + (l + 1) - j ≡ c + l - j + 1 = omega arith in unfold rev_onto run in rw q refl

next_rec-full :
    (n c : ℕ) (s : List ℕ)
    → next_rec n s ≡ none
    → c ≡ n - suc (length s)
    → next_rec n (c ∷ s) ≡ none
unfolding next_rec
next_rec-full n c s h e = ground (arith)

next_rec-grow :
    (n c : ℕ) (s : List ℕ)
    → next_rec n s ≡ none
    → c ≢ n - suc (length s)
    → next_rec n (c ∷ s) ≡ some (run (c + 1) (suc (length s)))
unfolding next_rec
next_rec-grow n c s h e = ground (arith)

-- The two loops at the element c that grows.
grow_at :
    (k c : ℕ) (rp s : List ℕ)
    → length rp + suc (length s) ≡ k
    → fill_loop
        (k - (length rp + 1))
        (length rp + 1)
        (length rp)
        (set (rev_onto rp (c ∷ s)) (length rp) (get_or (rev_onto rp (c ∷ s)) (length rp) 0 + 1))
      ≡ rev_onto rp (run (c + 1) (suc (length s)))
unfolding rev_onto run
grow_at k c rp s e =
    let j = length rp in
    let rest : k - (j + 1) ≡ length s = omega arith in
    let value : get_or (rev_onto rp (c ∷ s)) j 0 ≡ c =
      get_or-rev_onto rp (c ∷ s) 0 j (omega arith) in
    let above : c + 1 + (j + 1) - j ≡ c + 1 + 1 = omega arith in
    ap
      (λ x.
        fill_loop x (j + 1) j (set (rev_onto rp (c ∷ s)) j (get_or (rev_onto rp (c ∷ s)) j 0 + 1)))
      rest
    ∙ ap (λ x. fill_loop (length s) (j + 1) j (set (rev_onto rp (c ∷ s)) j (x + 1))) value
    ∙ ap (fill_loop (length s) (j + 1) j) (set-rev_onto rp (c ∷ s) 0 j (c + 1) (omega arith))
    ∙ fill_loop_lem ((c + 1) ∷ rp) s (j + 1) j (c + 1) (omega arith) (omega arith)
        (get_or-rev_onto rp ((c + 1) ∷ s) 0 j (omega arith))
    ∙ ap (λ x. rev_onto rp ((c + 1) ∷ run x (length s))) above

-- What `next_rec` gives, or the list itself at the last combination.
abbrev pub or_same : Option (List ℕ) → List ℕ → List ℕ
or_same none s = s
or_same (some t) s = t

-- The outer loop at j + 1 = the length of the prefix, when the suffix cannot grow.
next_loop_lem :
    (n k : ℕ) (rp s : List ℕ)
    → length rp + length s ≡ k
    → k ≤ n
    → next_rec n s ≡ none
    → next_loop (length rp) n k (rev_onto rp s)
      ≡ or_same (next_rec n (rev_onto rp s)) (rev_onto rp s)
unfolding next_loop rev_onto
next_loop_lem n k [] s e le h = rw h refl
next_loop_lem n k (c ∷ rp) s e le h =
    elim (Bool-cases (get_or (rev_onto rp (c ∷ s)) (length rp) 0 == n + length rp - k)) [
      | inl y ↦ rw y (
          next_loop_lem n k rp (c ∷ s) (omega arith) le
            (next_rec-full n c s h (ground (arith, value))))
      | inr m ↦ rw m (
          grow_at k c rp s (omega arith)
          ∙ ap (λ x. or_same x (rev_onto rp (c ∷ s)))
              (sym (
                next_rec-rev_onto n rp (c ∷ s) _
                  (next_rec-grow n c s h (λ q. absurd (ground (arith, value)))))))
    ]
  where
    value : get_or (rev_onto rp (c ∷ s)) (length rp) 0 ≡ c
    value = get_or-rev_onto rp (c ∷ s) 0 (length rp) (omega arith)

rev_onto_twice : (s acc t : List ℕ) → rev_onto (rev_onto s acc) t ≡ rev_onto acc (s ++ t)
unfolding rev_onto
rev_onto_twice [] acc t = refl
rev_onto_twice (c ∷ s) acc t = rev_onto_twice s (c ∷ acc) t

-- The loop on a slice of k ints is the definition by recursion on suffixes.
pub next_combination_lem :
    (s : List ℕ) (n k : ℕ)
    → length s ≡ k
    → k ≤ n
    → next_combination s n k ≡ or_same (next_rec n s) s
unfolding next_combination
next_combination_lem s n k e le =
    let rp = rev_onto s [] in
    let whole : rev_onto rp [] ≡ s = rev_onto_twice s [] [] ∙ unfold rev_onto in append-nil s in
    let size : length rp ≡ k = length-rev_onto s [] ∙ omega arith in
    ap (λ x. next_loop k n k x) (sym whole)
    ∙ ap (λ x. next_loop x n k (rev_onto rp [])) (sym size)
    ∙ next_loop_lem n k rp [] (omega arith) le (unfold next_rec in refl)
    ∙ ap (λ x. or_same (next_rec n x) x) whole
