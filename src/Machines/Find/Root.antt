-- ===== src/Machines/Find/Root.antt =====
-- Which state is taken for the active one.
use zsys.Prelude.{
  Bool, true, false, Option, none, some, List, [], ◌∷◌, ◌≡◌, refl, sym, ap, ◌∙◌, ◌⊎◌, inl, inr,
  Option-cases, Bool-cases,
}
use mathlib.Core.Path.{subst}
use mathlib.Core.List.{Memᴰ}
use zsys.Text.{Bytes, has_byte}
use zsys.Machines.Model.{State, SystemState, Machine}
use zsys.Machines.Maps.{lookup}
use zsys.Machines.Find.{
  RootFound, active, panicked, mounted_on_root, mounted_in_history, mounted_in_machine,
  find_mounted, find_in_histories, find_from_root,
}

-- A state of a machine.
abbrev pub StateOf : Machine → SystemState → Type 0
StateOf m h = (h ≡ m.main) ⊎ ((id : Bytes) × Memᴰ (id, h) m.history)

abbrev pub MachineOf : List (Bytes × Machine) → Machine → Type 0
MachineOf ms m = (id : Bytes) × Memᴰ (id, m) ms

-- Why a state is the active one of the root.
pub data IsActive (root : Bytes) (ms : List (Bytes × Machine)) (m : Machine) (h : SystemState)
    : Type 0 where
  main_state : lookup root ms ≡ some m → h ≡ m.main → IsActive root ms m h
  clone_state :
      has_byte b'@' root ≡ false
      → MachineOf ms m
      → lookup root m.history ≡ some h
      → IsActive root ms m h
  mounted_state :
      has_byte b'@' root ≡ true
      → MachineOf ms m
      → StateOf m h
      → mounted_on_root h.state ≡ some true
      → IsActive root ms m h

same_active :
    {m m' : Machine} {h h' : SystemState} → active m h ≡ active m' h' → (m ≡ m') × (h ≡ h')
same_active e = (cc, cc)

further :
    (id : Bytes) (n m : Machine) (ms : List (Bytes × Machine))
    → MachineOf ms m
    → MachineOf ((id, n) ∷ ms) m
further id n m ms (k, i) = (k, Memᴰ.tail i)

not_panicked : {m : Machine} {h : SystemState} → panicked ≡ active m h → ⊥
not_panicked e = cc

mounted_same :
    (s h : SystemState)
    → h ≡ s
    → mounted_on_root s.state ≡ some true
    → mounted_on_root h.state ≡ some true
mounted_same s h e q = ap (λ (x : SystemState). mounted_on_root x.state) e ∙ q

mounted_cases :
    (s : State)
    → (mounted_on_root s ≡ none)
      ⊎ ((mounted_on_root s ≡ some true) ⊎ (mounted_on_root s ≡ some false))
mounted_cases s = go (mounted_on_root s) refl
  where
    go :
        (o : Option Bool)
        → mounted_on_root s ≡ o
        → (mounted_on_root s ≡ none)
          ⊎ ((mounted_on_root s ≡ some true) ⊎ (mounted_on_root s ≡ some false))
    go none q = inl q
    go (some true) q = inr (inl q)
    go (some false) q = inr (inr q)

-- A result of a search is the next search's, or comes from the machine.
mounted_in_history-found :
    (n m : Machine) (h : SystemState) (hs : List (Bytes × SystemState)) (otherwise : RootFound)
    → mounted_in_history n hs otherwise ≡ active m h
    → (otherwise ≡ active m h)
      ⊎ ((n ≡ m) × ((id : Bytes) × Memᴰ (id, h) hs) × (mounted_on_root h.state ≡ some true))
unfolding mounted_in_history
mounted_in_history-found n m h [] otherwise e = inl e
mounted_in_history-found n m h ((id, s) ∷ hs) otherwise e = elim (mounted_cases s.state) [
  | inl q ↦ absurd (not_panicked (rw (mounted_in_history, q) at e))
  | inr (inl q) ↦
      let (a, b) = same_active (rw (mounted_in_history, q) at e) in
      inr (a, (id, Memᴰ.head (ap (λ x. (id, x)) (sym b))), mounted_same s h (sym b) q)
  | inr (inr q) ↦
      elim (mounted_in_history-found n m h hs otherwise (rw (mounted_in_history, q) at e)) [
        | inl x ↦ inl x
        | inr (a, (k, i), y) ↦ inr (a, (k, Memᴰ.tail i), y)
      ]
]

mounted_in_machine-found :
    (n m : Machine) (h : SystemState) (otherwise : RootFound)
    → mounted_in_machine n otherwise ≡ active m h
    → (otherwise ≡ active m h) ⊎ ((n ≡ m) × StateOf m h × (mounted_on_root h.state ≡ some true))
unfolding mounted_in_machine
mounted_in_machine-found n m h otherwise e = elim (mounted_cases n.main.state) [
  | inl q ↦ absurd (not_panicked (rw (mounted_in_machine, q) at e))
  | inr (inl q) ↦
      let (a, b) = same_active (rw (mounted_in_machine, q) at e) in
      inr (a, inl (sym b ∙ ap (λ (x : Machine). x.main) a), mounted_same n.main h (sym b) q)
  | inr (inr q) ↦
      elim (mounted_in_history-found n m h n.history otherwise (rw (mounted_in_machine, q) at e)) [
        | inl x ↦ inl x
        | inr (a, (k, i), y) ↦
            inr (a, inr (k, subst (λ (x : Machine). Memᴰ (k, h) x.history) a i), y)
      ]
]

find_mounted-found :
    (ms : List (Bytes × Machine)) (m : Machine) (h : SystemState)
    → find_mounted ms ≡ active m h
    → MachineOf ms m × StateOf m h × (mounted_on_root h.state ≡ some true)
unfolding find_mounted
find_mounted-found [] m h e = absurd cc
find_mounted-found ((id, n) ∷ ms) m h e =
    elim (mounted_in_machine-found n m h (find_mounted ms) e) [
      | inl x ↦ let (i, s, y) = find_mounted-found ms m h x in (further id n m ms i, s, y)
      | inr (a, s, y) ↦ ((id, Memᴰ.head (ap (λ x. (id, x)) (sym a))), s, y)
    ]

find_in_histories-found :
    (root : Bytes) (ms : List (Bytes × Machine)) (m : Machine) (h : SystemState)
    → find_in_histories root ms ≡ active m h
    → MachineOf ms m × (lookup root m.history ≡ some h)
unfolding find_in_histories
find_in_histories-found root [] m h e = absurd cc
find_in_histories-found root ((id, n) ∷ ms) m h e = elim (Option-cases (lookup root n.history)) [
  | inl q ↦
      let (i, y) = find_in_histories-found root ms m h (rw (find_in_histories, q) at e) in
      (further id n m ms i, y)
  | inr (s, q) ↦
      let (a, b) = same_active (rw (find_in_histories, q) at e) in
      (
        (id, Memᴰ.head (ap (λ x. (id, x)) (sym a))),
        subst (λ (x : Machine). lookup root x.history ≡ some h) a (q ∙ ap some b),
      )
]

-- The active machine and state that are found for a root: either the root is the id of the machine
-- and the state is its main one; or the root names no snapshot, and the state is the one that the
-- machine's history has under this name; or the root is a snapshot, and it is a state of the machine
-- whose own dataset is mounted on /.
pub find_from_root-IsActive :
    (root : Bytes) (ms : List (Bytes × Machine)) (m : Machine) (h : SystemState)
    → find_from_root root ms ≡ active m h
    → IsActive root ms m h
unfolding find_from_root
find_from_root-IsActive [] ms m h e = absurd cc
find_from_root-IsActive (c ∷ root) ms m h e = elim (Option-cases (lookup (c ∷ root) ms)) [
  | inr (n, q) ↦
      let (a, b) = same_active (rw (find_from_root, q) at e) in
      main_state (q ∙ ap some a) (sym b ∙ ap (λ (x : Machine). x.main) a)
  | inl q ↦ elim (Bool-cases (has_byte b'@' (c ∷ root))) [
    | inl y ↦
        let (i, s, t) = find_mounted-found ms m h (rw (find_from_root, q, y) at e) in
        mounted_state y i s t
    | inr y ↦
        let (i, s) = find_in_histories-found (c ∷ root) ms m h (rw (find_from_root, q, y) at e) in
        clone_state y i s
  ]
]
