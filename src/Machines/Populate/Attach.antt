-- ===== src/Machines/Populate/Attach.antt =====
-- A dataset that is attached to a machine or to a state of its history.
use zsys.Prelude.{
  ℕ, ◌+◌, Bool, false, Option, none, some, List, [], ◌∷◌, ◌++◌, ◌≡◌, refl, arith, Bool-cases, inl,
  inr, if◌then◌else◌, some_inj,
}
use zsys.Text.{Bytes, text_eq}
use zsys.Zfs.Dataset.{Dataset, name_of}
use zsys.Machines.Model.{SystemState, Machine}
use zsys.Machines.Maps.{lookup}
use zsys.Machines.Maps.Laws.{total, lookup-cons, lookup-other, total-put, lookup-put}
use zsys.Machines.Populate.{
  is_child_of, is_root, state_of, append_route, append_dataset, attach_to_history,
  attach_to_machine, populate_system_and_history, Sorted,
}

-- No state of the history of a machine has the name.
abbrev pub FreshHistories : Bytes → List (Bytes × Machine) → Type 0
FreshHistories name [] = Unit
FreshHistories name ((key, m) ∷ ms) = (lookup name m.history ≡ none) × FreshHistories name ms

-- How many datasets a test holds of.
module _ (p : Dataset → Bool) where
  abbrev pub one : Dataset → ℕ
  one d = if p d then 1 else 0

  abbrev pub count : List Dataset → ℕ
  count [] = 0
  count (d ∷ ds) = one d + count ds

  abbrev pub state_count : SystemState → ℕ
  state_count s = total count s.state.datasets

  abbrev pub machine_count : Machine → ℕ
  machine_count m = state_count m.main + total state_count m.history

  -- In the machines, and in the lists of datasets that are attached later.
  abbrev pub sorted_count : Sorted → ℕ
  sorted_count s =
      total machine_count s.machines
      + ((count s.boots + count s.userdatas) + (count s.persistents + count s.unmanaged))

  pub count-append : (ds : List Dataset) (d : Dataset) → count (ds ++ d ∷ []) ≡ count ds + one d
  count-append [] d = omega arith
  count-append (e ∷ ds) d = omega (arith, count-append ds d)

  pub count-append_route :
      (route : Bytes) (d : Dataset) (rs : List (Bytes × List Dataset))
      → total count (append_route route d rs) ≡ total count rs + one d
  unfolding append_route
  count-append_route route d [] = omega arith
  count-append_route route d ((r, ds) ∷ rs) = elim (Bool-cases (text_eq r route)) [
    | inl y ↦ rw y (omega (arith, count-append ds d))
    | inr n ↦ rw n (omega (arith, count-append_route route d rs))
  ]

  pub count-append_dataset :
      (d : Dataset) (s : SystemState) → state_count (append_dataset d s) ≡ state_count s + one d
  unfolding append_dataset
  count-append_dataset d s = count-append_route s.state.id d s.state.datasets

  -- A history to which a dataset was attached.
  abbrev pub Grown : {A : Type 0} → (A → ℕ) → Dataset → List (Bytes × A) → List (Bytes × A) → Type 0
  Grown f d m m' =
      (total f m' ≡ total f m + one d)
      × ((key : Bytes) → lookup key m ≡ none → lookup key m' ≡ none)

  pub Grown-later :
      {A : Type 0} (f : A → ℕ) (d : Dataset) (k : Bytes) (a : A) (m m' : List (Bytes × A))
      → Grown f d m m'
      → Grown f d ((k, a) ∷ m) ((k, a) ∷ m')
  Grown-later f d k a m m' (e, g) = (
    omega arith,
    λ key h. let (n, later) = lookup-cons key k a m h in lookup-other key k a m' n (g key later),
  )

  pub Grown-here :
      {A : Type 0} (f : A → ℕ) (d : Dataset) (k : Bytes) (a b : A) (m : List (Bytes × A))
      → f b ≡ f a + one d
      → Grown f d ((k, a) ∷ m) ((k, b) ∷ m)
  Grown-here f d k a b m e = (
    omega arith,
    λ key h. let (n, later) = lookup-cons key k a m h in lookup-other key k b m n later,
  )

  pub attach_to_history-Grown :
      (d : Dataset) (hs hs' : List (Bytes × SystemState))
      → attach_to_history d hs ≡ some hs'
      → Grown state_count d hs hs'
  unfolding attach_to_history
  attach_to_history-Grown d [] hs' h = absurd cc
  attach_to_history-Grown d ((key, s) ∷ hs) hs' h = elim (Bool-cases (is_child_of s.state.id d)) [
    | inl y ↦
        rw (← some_inj (rw y at h))
          (Grown-here state_count d key s (append_dataset d s) hs (count-append_dataset d s))
    | inr n ↦ later (attach_to_history d hs) (rw n at h) (attach_to_history-Grown d hs)
  ]
    where
      later :
          (o : Option (List (Bytes × SystemState)))
          → (elim o as (λ o. Option (List (Bytes × SystemState))) [
            | none ↦ none
            | some rest ↦ some ((key, s) ∷ rest)
          ])
            ≡ some hs'
          → ((rest : List (Bytes × SystemState)) → o ≡ some rest → Grown state_count d hs rest)
          → Grown state_count d ((key, s) ∷ hs) hs'
      later none e again = absurd cc
      later (some rest) e again =
          rw (← some_inj e) (Grown-later state_count d key s hs rest (again rest refl))

  pub count-state_of :
      (ref : ℕ) (d : Dataset) → state_count (record { state = state_of ref d; users = [] }) ≡ one d
  unfolding state_of
  count-state_of ref d = omega arith

  -- The machine that a dataset was attached to.
  unfoldable pub MachineGrown : Dataset → Machine → Machine → Type 0
  MachineGrown d m m' =
      (machine_count m' ≡ machine_count m + one d)
      × ((name : Bytes)
          → text_eq (name_of d) name ≡ false
          → lookup name m.history ≡ none
          → lookup name m'.history ≡ none)

  pub attach_to_machine-MachineGrown :
      (ref : ℕ) (d : Dataset) (origin : Option Bytes) (m m' : Machine)
      → lookup (name_of d) m.history ≡ none
      → attach_to_machine ref d origin m ≡ some m'
      → MachineGrown d m m'
  unfolding attach_to_machine MachineGrown
  attach_to_machine-MachineGrown ref d origin m m' f h =
      elim (Bool-cases (is_child_of m.main.state.id d)) [
        | inl y ↦
            rw (← some_inj (rw y at h))
              (omega (arith, count-append_dataset d m.main), λ name n l. l)
        | inr n ↦ elim (Bool-cases (is_root d origin m.main.state.id)) [
          | inl r ↦
              let s : SystemState = record { state = state_of ref d; users = [] } in
              rw (← some_inj (rw (n, r) at h)) (
                omega
                    (arith, total-put state_count (name_of d) s m.history f, count-state_of ref d),
                λ name o l. lookup-put (name_of d) name s m.history o l,
              )
          | inr o ↦
              later (attach_to_history d m.history) (rw (n, o) at h)
                (attach_to_history-Grown d m.history)
        ]
      ]
    where
      later :
          (o : Option (List (Bytes × SystemState)))
          → (elim o as (λ o. Option Machine) [
            | none ↦ none
            | some hs ↦ some (record m { history = hs })
          ])
            ≡ some m'
          → ((hs : List (Bytes × SystemState)) → o ≡ some hs → Grown state_count d m.history hs)
          → MachineGrown d m m'
      later none e again = absurd cc
      later (some hs) e again =
          let (sums, keys) = again hs refl in
          rw (← some_inj e) (omega arith, λ name n l. keys name l)

  unfoldable pub MachinesGrown : Dataset → List (Bytes × Machine) → List (Bytes × Machine) → Type 0
  MachinesGrown d ms ms' =
      Grown machine_count d ms ms'
      × ((name : Bytes)
          → text_eq (name_of d) name ≡ false
          → FreshHistories name ms
          → FreshHistories name ms')

  pub populate_system_and_history-MachinesGrown :
      (ref : ℕ) (d : Dataset) (origin : Option Bytes) (ms ms' : List (Bytes × Machine))
      → FreshHistories (name_of d) ms
      → populate_system_and_history ref d origin ms ≡ some ms'
      → MachinesGrown d ms ms'
  unfolding populate_system_and_history MachinesGrown MachineGrown
  populate_system_and_history-MachinesGrown ref d origin [] ms' f h = absurd cc
  populate_system_and_history-MachinesGrown ref d origin ((key, m) ∷ ms) ms' (f, fs) h =
      go (attach_to_machine ref d origin m) (populate_system_and_history ref d origin ms) h
        (λ m'. attach_to_machine-MachineGrown ref d origin m m' f)
        (λ rest. populate_system_and_history-MachinesGrown ref d origin ms rest fs)
    where
      go :
          (a : Option Machine) (b : Option (List (Bytes × Machine)))
          → (elim a as (λ a. Option (List (Bytes × Machine))) [
            | some m' ↦ some ((key, m') ∷ ms)
            | none ↦ elim b as (λ b. Option (List (Bytes × Machine))) [
              | none ↦ none
              | some rest ↦ some ((key, m) ∷ rest)
            ]
          ])
            ≡ some ms'
          → ((m' : Machine) → a ≡ some m' → MachineGrown d m m')
          → ((rest : List (Bytes × Machine)) → b ≡ some rest → MachinesGrown d ms rest)
          → MachinesGrown d ((key, m) ∷ ms) ms'
      go (some m') b e here later =
          let (sums, keys) = here m' refl in
          rw (← some_inj e)
            (Grown-here machine_count d key m m' ms sums, λ name n g. (keys name n g.0, g.1))
      go none (some rest) e here later =
          let (grown, keys) = later rest refl in
          rw (← some_inj e)
            (Grown-later machine_count d key m ms rest grown, λ name n g. (g.0, keys name n g.1))
      go none none e here later = absurd cc
