-- ===== src/Machines/Find/Laws.antt =====
-- The search of a state by name.
use zsys.Prelude.{
  ℕ, true, false, ◌||◌, List, [], ◌∷◌, ◌++◌, ◌≡◌, ◌↔◌, refl, sym, ap, ◌∙◌, arith, ◌⊎◌, inl, inr,
  Bool-cases, no_both, inr_inj,
}
use mathlib.Core.Path.{subst}
use mathlib.Core.List.{Memᴰ}
use zsys.Text.{Bytes, text_eq}
use zsys.Text.Laws.{text_eq_refl, text_eq_sound}
use zsys.Machines.Model.{State}
use zsys.Machines.Unique.{has_id, append_state_if_not_present}
use zsys.Machines.Find.{Machines, id_matches, candidates, matching_states, only_one, id_to_state}

-- A candidate whose id matches.
abbrev pub Candidate : Bytes → List (Bytes × State) → State → Type 0
Candidate name cs s = (id : Bytes) × Memᴰ (id, s) cs × (id_matches id name ≡ true)

has_id-append :
    (id : Bytes) (xs ys : List State) → has_id id (xs ++ ys) ≡ (has_id id xs || has_id id ys)
unfolding has_id
has_id-append id [] ys = refl
has_id-append id (x ∷ xs) ys = ground (arith, has_id-append id xs ys)

-- The states' ids are all different.
abbrev pub DistinctIds : List State → Type 0
DistinctIds [] = Unit
DistinctIds (s ∷ ss) = (has_id s.id ss ≡ false) × DistinctIds ss

text_eq-back : (s t : Bytes) → text_eq s t ≡ false → text_eq t s ≡ false
text_eq-back s t h = elim (Bool-cases (text_eq t s)) [
  | inl y ↦ let same : text_eq s t ≡ true = rw (text_eq_sound t s y) (text_eq_refl s) in absurd cc
  | inr n ↦ n
]

DistinctIds-append :
    (ss : List State) (s : State)
    → DistinctIds ss
    → has_id s.id ss ≡ false
    → DistinctIds (ss ++ s ∷ [])
unfolding has_id
DistinctIds-append [] s h free = (refl, tt)
DistinctIds-append (x ∷ ss) s h free =
    let other = text_eq-back x.id s.id (ground arith) in
    (
      has_id-append x.id ss (s ∷ []) ∙ rw (h.0, other) refl,
      DistinctIds-append ss s h.1 (ground arith),
    )

append_state-DistinctIds :
    (ss : List State) (s : State) → DistinctIds ss → DistinctIds (append_state_if_not_present ss s)
unfolding append_state_if_not_present
append_state-DistinctIds ss s h = elim (Bool-cases (has_id s.id ss)) [
  | inl y ↦ rw y h
  | inr n ↦ rw n (DistinctIds-append ss s h n)
]

append_state-has_id :
    (ss : List State) (s : State) → has_id s.id (append_state_if_not_present ss s) ≡ true
unfolding append_state_if_not_present has_id
append_state-has_id ss s = elim (Bool-cases (has_id s.id ss)) [
  | inl y ↦ rw y y
  | inr n ↦ rw n (has_id-append s.id ss (s ∷ []) ∙ rw (n, text_eq_refl s.id) refl)
]

append_state-keeps :
    (ss : List State) (s : State) (id : Bytes)
    → has_id id ss ≡ true
    → has_id id (append_state_if_not_present ss s) ≡ true
unfolding append_state_if_not_present
append_state-keeps ss s id h = elim (Bool-cases (has_id s.id ss)) [
  | inl y ↦ rw y h
  | inr n ↦ rw n (has_id-append id ss (s ∷ []) ∙ rw h refl)
]

Mem-append : (x s : State) (ss : List State) → Memᴰ x (ss ++ s ∷ []) → Memᴰ x ss ⊎ (x ≡ s)
Mem-append x s [] (Memᴰ.head e) = inr e
Mem-append x s [] (Memᴰ.tail i) = elim i [ ]
Mem-append x s (r ∷ ss) (Memᴰ.head e) = inl (Memᴰ.head e)
Mem-append x s (r ∷ ss) (Memᴰ.tail i) = elim (Mem-append x s ss i) [
  | inl j ↦ inl (Memᴰ.tail j)
  | inr e ↦ inr e
]

append_state-members :
    (x s : State) (ss : List State)
    → Memᴰ x (append_state_if_not_present ss s)
    → Memᴰ x ss ⊎ (x ≡ s)
unfolding append_state_if_not_present
append_state-members x s ss i = elim (Bool-cases (has_id s.id ss)) [
  | inl y ↦ inl (rw y at i)
  | inr n ↦ Mem-append x s ss (rw n at i)
]

matching-DistinctIds :
    (name : Bytes) (cs : List (Bytes × State)) (found : List State)
    → DistinctIds found
    → DistinctIds (matching_states name cs found)
unfolding matching_states
matching-DistinctIds name [] found h = h
matching-DistinctIds name ((id, s) ∷ cs) found h = elim (Bool-cases (id_matches id name)) [
  | inl y ↦
      rw (matching_states, y)
        (matching-DistinctIds name cs (append_state_if_not_present found s)
          (append_state-DistinctIds found s h))
  | inr n ↦ rw (matching_states, n) (matching-DistinctIds name cs found h)
]

matching-keeps :
    (name : Bytes) (cs : List (Bytes × State)) (found : List State) (id : Bytes)
    → has_id id found ≡ true
    → has_id id (matching_states name cs found) ≡ true
unfolding matching_states
matching-keeps name [] found id h = h
matching-keeps name ((k, s) ∷ cs) found id h = elim (Bool-cases (id_matches k name)) [
  | inl y ↦
      rw (matching_states, y)
        (matching-keeps name cs (append_state_if_not_present found s) id
          (append_state-keeps found s id h))
  | inr n ↦ rw (matching_states, n) (matching-keeps name cs found id h)
]

matching-has_id :
    (name : Bytes) (cs : List (Bytes × State)) (found : List State) (id : Bytes) (s : State)
    → Memᴰ (id, s) cs
    → id_matches id name ≡ true
    → has_id s.id (matching_states name cs found) ≡ true
unfolding matching_states
matching-has_id name [] found id s i h = elim i [ ]
matching-has_id name ((k, r) ∷ cs) found id s (Memᴰ.head e) h =
    let y : id_matches k name ≡ true = subst (λ p. id_matches p.0 name ≡ true) e h in
    rw (matching_states, y)
      (matching-keeps name cs (append_state_if_not_present found r) s.id (
        subst (λ (p : Bytes × State). has_id p.1.id (append_state_if_not_present found r) ≡ true)
          (sym e) (append_state-has_id found r)))
matching-has_id name ((k, r) ∷ cs) found id s (Memᴰ.tail i) h =
    elim (Bool-cases (id_matches k name)) [
      | inl y ↦
          rw (matching_states, y)
            (matching-has_id name cs (append_state_if_not_present found r) id s i h)
      | inr n ↦ rw (matching_states, n) (matching-has_id name cs found id s i h)
    ]

later :
    (name : Bytes) (c : Bytes × State) (cs : List (Bytes × State)) (s : State)
    → Candidate name cs s
    → Candidate name (c ∷ cs) s
later name c cs s (id, i, h) = (id, Memᴰ.tail i, h)

matching-members :
    (name : Bytes) (cs : List (Bytes × State)) (found : List State) (x : State)
    → Memᴰ x (matching_states name cs found)
    → Memᴰ x found ⊎ Candidate name cs x
unfolding matching_states
matching-members name [] found x i = inl i
matching-members name ((k, s) ∷ cs) found x i = elim (Bool-cases (id_matches k name)) [
  | inl y ↦
      elim (matching-members name cs (append_state_if_not_present found s) x
        (rw (matching_states, y) at i)) [
          | inr c ↦ inr (later name (k, s) cs x c)
          | inl j ↦ elim (append_state-members x s found j) [
            | inl old ↦ inl old
            | inr e ↦ inr (k, Memᴰ.head (ap (λ z. (k, z)) e), y)
          ]
        ]
  | inr n ↦ elim (matching-members name cs found x (rw (matching_states, n) at i)) [
    | inl j ↦ inl j
    | inr c ↦ inr (later name (k, s) cs x c)
  ]
]

-- A list with one id only.
alone :
    (ss : List State) (id : Bytes)
    → DistinctIds ss
    → has_id id ss ≡ true
    → ((x : State) → Memᴰ x ss → x.id ≡ id)
    → (s : State) × (ss ≡ s ∷ [])
unfolding has_id
alone [] id h y same = absurd cc
alone (s ∷ []) id h y same = (s, refl)
alone (s ∷ r ∷ ss) id h y same =
    let e : s.id ≡ r.id = same s (Memᴰ.head refl) ∙ sym (same r (Memᴰ.tail (Memᴰ.head refl))) in
    let t : text_eq r.id s.id ≡ true = rw e (text_eq_refl r.id) in absurd (ground (arith, t, h.0))

only : (s x : State) → has_id x.id (s ∷ []) ≡ true → x.id ≡ s.id
unfolding has_id
only s x h = sym (
    text_eq_sound s.id x.id
      (elim (Bool-cases (text_eq s.id x.id)) [ inl y ↦ y | inr n ↦ absurd (ground arith) ]))

-- Some candidate with the id matches, and no matching candidate has another id.
abbrev pub Unambiguous : Bytes → List (Bytes × State) → Bytes → Type 0
Unambiguous name cs id =
    ((s : State) × Candidate name cs s × (s.id ≡ id))
    × ((x : State) → Candidate name cs x → x.id ≡ id)

module _ (name : Bytes) (cs : List (Bytes × State)) (id : Bytes) where
  no_members : {x : State} → Memᴰ x [] ⊎ Candidate name cs x → Candidate name cs x
  no_members (inl i) = elim i [ ]
  no_members (inr c) = c

  only_one-Unambiguous :
      (found : List State)
      → matching_states name cs [] ≡ found
      → (s : State) → only_one name found ≡ inr s
      → s.id ≡ id
      → Unambiguous name cs id
  unfolding only_one
  only_one-Unambiguous [] e s h q = absurd (no_both h)
  only_one-Unambiguous (r ∷ t ∷ ss) e s h q = absurd (no_both h)
  only_one-Unambiguous (r ∷ []) e s h q =
      let same : r.id ≡ id = ap (λ (x : State). x.id) (inr_inj h) ∙ q in
      (
        (
          r,
          no_members (matching-members name cs [] r (subst (Memᴰ r) (sym e) (Memᴰ.head refl))),
          same,
        ),
        λ x (k, i, y).
            only r x
              (subst (λ found. has_id x.id found ≡ true) e (matching-has_id name cs [] k x i y))
            ∙ same,
      )

  Unambiguous-only_one :
      Unambiguous name cs id
      → (s : State) × (only_one name (matching_states name cs []) ≡ inr s) × (s.id ≡ id)
  unfolding only_one
  Unambiguous-only_one ((s, (k, i, y), q), same) =
      let found = matching_states name cs [] in
      let members : (x : State) → Memᴰ x found → x.id ≡ id =
        λ x j. same x (no_members (matching-members name cs [] x j)) in
      let there : has_id id found ≡ true =
        subst (λ z. has_id z found ≡ true) q (matching-has_id name cs [] k s i y) in
      let (r, e) = alone found id (matching-DistinctIds name cs [] tt) there members in
      (r, rw (e, only_one) refl, members r (rw e (Memᴰ.head refl)))

-- A search by a name that is not empty gives a state with an id exactly where the name is
-- unambiguous: a candidate (a main or history state of some machine, or a state of the user if one is
-- given) with the id matches the name, and no candidate that matches has another id.
pub id_to_state_iff :
    (ms : Machines) (c : ℕ) (name user id : Bytes)
    → ((s : State) × (id_to_state ms (c ∷ name) user ≡ inr s) × (s.id ≡ id))
      ↔ Unambiguous (c ∷ name) (candidates user ms.all) id
unfolding id_to_state
id_to_state_iff ms c name user id = (
  λ (s, h, q). only_one-Unambiguous (c ∷ name) (candidates user ms.all) id _ refl s h q,
  Unambiguous-only_one (c ∷ name) (candidates user ms.all) id,
)
