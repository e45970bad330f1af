-- ===== src/Gc/Selection/Choices.antt =====
-- The combinations are rising lists of indices in range; marking such a list marks that many states.
use zsys.Prelude.{
  ℕ, zero, suc, ◌+◌, ◌≤◌, ◌<◌, false, some, List, [], ◌∷◌, ◌++◌, map, ◌≡◌, refl, sym, ap, ◌∙◌,
  arith, length, get_elem?, set, length-set, get_elem?-set_ne, ◌>>=◌,
}
use zsys.Gc.Combinations.Enumeration.{choices}
use zsys.Gc.Selection.{keep_yes, StateWithKeep, is_keep_yes, to_place, mark_loop}

-- Strictly rising numbers from lo on, below hi.
abbrev pub Rising : ℕ → ℕ → List ℕ → Type 0
Rising lo hi [] = Unit
Rising lo hi (c ∷ t) = (lo ≤ c) × (c < hi) × Rising (c + 1) hi t

abbrev pub AllRising : ℕ → ℕ → ℕ → List (List ℕ) → Type 0
AllRising k lo hi [] = Unit
AllRising k lo hi (s ∷ ss) = ((length s ≡ k) × Rising lo hi s) × AllRising k lo hi ss

Rising-weaken : (lo lo' hi : ℕ) (s : List ℕ) → lo' ≤ lo → Rising lo hi s → Rising lo' hi s
Rising-weaken lo lo' hi [] h r = tt
Rising-weaken lo lo' hi (c ∷ t) h r = (omega arith, r.1, r.2)

AllRising-append :
    (k lo hi : ℕ) (xs ys : List (List ℕ))
    → AllRising k lo hi xs
    → AllRising k lo hi ys
    → AllRising k lo hi (xs ++ ys)
AllRising-append k lo hi [] ys h g = g
AllRising-append k lo hi (x ∷ xs) ys h g = (h.0, AllRising-append k lo hi xs ys h.1 g)

AllRising-map :
    (k lo hi : ℕ) (xs : List (List ℕ))
    → lo < hi
    → AllRising k (lo + 1) hi xs
    → AllRising (suc k) lo hi (map (λ s. lo ∷ s) xs)
AllRising-map k lo hi [] lt h = tt
AllRising-map k lo hi (x ∷ xs) lt h =
    ((ap suc h.0.0, (omega arith, lt, h.0.1)), AllRising-map k lo hi xs lt h.1)

AllRising-weaken :
    (k lo lo' hi : ℕ) (xs : List (List ℕ)) → lo' ≤ lo → AllRising k lo hi xs → AllRising k lo' hi xs
AllRising-weaken k lo lo' hi [] le h = tt
AllRising-weaken k lo lo' hi (x ∷ xs) le h =
    ((h.0.0, Rising-weaken lo lo' hi x le h.0.1), AllRising-weaken k lo lo' hi xs le h.1)

pub choices-AllRising : (lo k m hi : ℕ) → lo + m ≡ hi → AllRising k lo hi (choices lo k m)
unfolding choices
choices-AllRising lo zero m hi e = ((refl, tt), tt)
choices-AllRising lo (suc k) zero hi e = tt
choices-AllRising lo (suc k) (suc m) hi e =
    AllRising-append (suc k) lo hi (map (λ s. lo ∷ s) (choices (lo + 1) k m))
      (choices (lo + 1) (suc k) m)
      (AllRising-map k lo hi (choices (lo + 1) k m) (omega arith)
        (choices-AllRising (lo + 1) k m hi (omega arith)))
      (AllRising-weaken (suc k) (lo + 1) lo hi (choices (lo + 1) (suc k) m) (omega arith)
        (choices-AllRising (lo + 1) (suc k) m hi (omega arith)))

-- No state from the index lo on is kept.
abbrev pub OpenFrom : ℕ → List StateWithKeep → Type 0
OpenFrom lo place =
    (i : ℕ) (s : StateWithKeep) → lo ≤ i → get_elem? place i ≡ some s → is_keep_yes s.keep ≡ false

-- In range there is an element.
pub get_elem?-in_range {ℓ} :
    {A : Type ℓ} (xs : List A) (i : ℕ) → i < length xs → (x : A) × (get_elem? xs i ≡ some x)
get_elem?-in_range [] i h = elim h [ ]
get_elem?-in_range (x ∷ xs) zero h = (x, refl)
get_elem?-in_range (x ∷ xs) (suc i) h = get_elem?-in_range xs i (omega arith)

length-to_place-set :
    (place : List StateWithKeep) (i : ℕ) (s : StateWithKeep)
    → get_elem? place i ≡ some s
    → is_keep_yes s.keep ≡ false
    → length (to_place (set place i (record s { keep = keep_yes }))) + 1 ≡ length (to_place place)
unfolding to_place
length-to_place-set [] i s e h = cc
length-to_place-set (x ∷ xs) zero s e h = ground arith
length-to_place-set (x ∷ xs) (suc i) s e h = ground (arith, length-to_place-set xs i s e h)

-- Marking rising indices of open states succeeds, and leaves that many fewer open states.
pub mark_loop_lem :
    (c : List ℕ) (lo : ℕ) (place : List StateWithKeep)
    → Rising lo (length place) c
    → OpenFrom lo place
    → (marked : List StateWithKeep) × (mark_loop c place ≡ some marked)
      × (length (to_place marked) + length c ≡ length (to_place place))
unfolding mark_loop
mark_loop_lem [] lo place r h = (place, refl, omega arith)
mark_loop_lem (i ∷ c) lo place r h =
    let (s, e) = get_elem?-in_range place i r.1 in
    let next = set place i (record s { keep = keep_yes }) in
    let later : OpenFrom (i + 1) next =
      λ j x le q. h j x (omega (arith, r.0)) (sym (get_elem?-set_ne place _ (omega arith)) ∙ q) in
    let (marked, done, count) =
      mark_loop_lem c (i + 1) next (rw (length-set place i (record s { keep = keep_yes })) r.2)
        later in
    (
      marked,
      rw (e, ◌>>=◌) done,
      omega (arith, count, length-to_place-set place i s e (h i s r.0 e)),
    )
