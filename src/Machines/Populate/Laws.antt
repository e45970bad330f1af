-- ===== src/Machines/Populate/Laws.antt =====
-- Every dataset is sorted in, once.
use zsys.Prelude.{
  ℕ, suc, ◌+◌, Bool, false, Option, none, some, List, [], ◌∷◌, ◌≡◌, refl, arith, Bool-cases, inl,
  inr, some_inj,
}
use zsys.Text.{Bytes, text_eq}
use zsys.Zfs.Dataset.{Dataset, name_of}
use zsys.Machines.Model.{Machine}
use zsys.Machines.Maps.{lookup, put}
use zsys.Machines.Maps.Laws.{lookup-cons, total-put, lookup-put}
use zsys.Machines.Origin.{Origins}
use zsys.Machines.Populate.{
  is_root, new_machine_from_dataset, populate_system_and_history, Sorted, is_boot_dataset,
  is_userdata, is_persistent, triage, populate_one, populate_loop, populate,
}
use zsys.Machines.Populate.Attach.{
  one, count, machine_count, sorted_count, count-append, count-state_of, FreshHistories,
  MachinesGrown, populate_system_and_history-MachinesGrown,
}

-- A name that is the key of no machine, and of no state of a history.
abbrev pub Fresh : Bytes → Sorted → Type 0
Fresh name s = (lookup name s.machines ≡ none) × FreshHistories name s.machines

-- The names of the datasets are not yet in use, and differ from each other.
abbrev pub AllFresh : List Dataset → Sorted → Type 0
AllFresh [] s = Unit
AllFresh (d ∷ ds) s = Fresh (name_of d) s × AllFresh ds s

abbrev pub Differs : Dataset → List Dataset → Type 0
Differs d [] = Unit
Differs d (e ∷ ds) = (text_eq (name_of d) (name_of e) ≡ false) × Differs d ds

abbrev pub DistinctNames : List Dataset → Type 0
DistinctNames [] = Unit
DistinctNames (d ∷ ds) = Differs d ds × DistinctNames ds

module _ (p : Dataset → Bool) where
  triage-count :
      (d : Dataset) (s : Sorted) → sorted_count p (triage d s) ≡ sorted_count p s + one p d
  unfolding triage
  triage-count d s = elim (Bool-cases (is_boot_dataset d)) [
    | inl b ↦ rw b (omega (arith, count-append p s.boots d))
    | inr n ↦ elim (Bool-cases (is_userdata d)) [
      | inl u ↦ rw (n, u) (omega (arith, count-append p s.userdatas d))
      | inr o ↦ elim (Bool-cases (is_persistent d)) [
        | inl y ↦ rw (n, o, y) (omega (arith, count-append p s.persistents d))
        | inr m ↦ rw (n, o, m) (omega (arith, count-append p s.unmanaged d))
      ]
    ]
  ]

  triage-machines : (d : Dataset) (s : Sorted) → (triage d s).machines ≡ s.machines
  unfolding triage
  triage-machines d s = elim (Bool-cases (is_boot_dataset d)) [
    | inl b ↦ rw b refl
    | inr n ↦ elim (Bool-cases (is_userdata d)) [
      | inl u ↦ rw (n, u) refl
      | inr o ↦ elim (Bool-cases (is_persistent d)) [
        | inl y ↦ rw (n, o, y) refl
        | inr m ↦ rw (n, o, m) refl
      ]
    ]
  ]

  FreshHistories-put :
      (key name : Bytes) (m : Machine) (ms : List (Bytes × Machine))
      → lookup key ms ≡ none
      → m.history ≡ []
      → FreshHistories name ms
      → FreshHistories name (put key m ms)
  unfolding put lookup
  FreshHistories-put key name m [] l e g = (rw e refl, tt)
  FreshHistories-put key name m ((k, n) ∷ ms) l e (g, gs) =
      let (other, later) = lookup-cons key k n ms l in
      rw other (g, FreshHistories-put key name m ms later e gs)

  -- A round that sorted a dataset in.
  SortedIn : Dataset → Sorted → Sorted → Type 0
  SortedIn d s s' =
      (sorted_count p s' ≡ sorted_count p s + one p d)
      × ((name : Bytes) → text_eq (name_of d) name ≡ false → Fresh name s → Fresh name s')

  new_machine-count :
      (ref : ℕ) (d : Dataset) (origin : Option Bytes) (m : Machine)
      → new_machine_from_dataset ref d origin ≡ some m
      → (machine_count p m ≡ one p d) × (m.history ≡ [])
  unfolding new_machine_from_dataset
  new_machine-count ref d origin m h = elim (Bool-cases (is_root d origin [])) [
    | inl y ↦ rw (← some_inj (rw y at h)) (omega (arith, count-state_of p ref d), refl)
    | inr n ↦ absurd (none_some (rw n at h))
  ]
    where
      none_some : ◌≡◌ {A = Option Machine} none (some m) → ⊥
      none_some e = cc

  populate_one-SortedIn :
      (ref : ℕ) (d : Dataset) (origins : Origins) (s : Sorted)
      → Fresh (name_of d) s
      → SortedIn d s (populate_one ref d origins s)
  unfolding populate_one SortedIn MachinesGrown
  populate_one-SortedIn ref d origins s (f, fs) =
      go (new_machine_from_dataset ref d (lookup (name_of d) origins))
        (populate_system_and_history ref d (lookup (name_of d) origins) s.machines)
        (new_machine-count ref d (lookup (name_of d) origins))
        (λ ms.
          populate_system_and_history-MachinesGrown p ref d (lookup (name_of d) origins) s.machines
            ms fs)
    where
      go :
          (a : Option Machine) (b : Option (List (Bytes × Machine)))
          → ((m : Machine) → a ≡ some m → (machine_count p m ≡ one p d) × (m.history ≡ []))
          → ((ms : List (Bytes × Machine)) → b ≡ some ms → MachinesGrown p d s.machines ms)
          → SortedIn d s (elim a as (λ a. Sorted) [
            | some m ↦ record s { machines = put (name_of d) m s.machines }
            | none ↦ elim b as (λ b. Sorted) [
              | some ms ↦ record s { machines = ms }
              | none ↦ triage d s
            ]
          ])
      go (some m) b new old =
          let (sums, empty) = new m refl in
          (
            omega (arith, total-put (machine_count p) (name_of d) m s.machines f),
            λ name o g. (
              lookup-put (name_of d) name m s.machines o g.0,
              FreshHistories-put (name_of d) name m s.machines f empty g.1,
            ),
          )
      go none (some ms) new old =
          let ((sums, keys), histories) = old ms refl in
          (omega arith, λ name o g. (keys name g.0, histories name o g.1))
      go none none new old = (triage-count d s, λ name o g. rw (triage-machines d s) g)

  AllFresh-after :
      (d : Dataset) (ds : List Dataset) (s s' : Sorted)
      → ((name : Bytes) → text_eq (name_of d) name ≡ false → Fresh name s → Fresh name s')
      → Differs d ds
      → AllFresh ds s
      → AllFresh ds s'
  AllFresh-after d [] s s' h n g = tt
  AllFresh-after d (e ∷ ds) s s' h n g = (h (name_of e) n.0 g.0, AllFresh-after d ds s s' h n.1 g.1)

  populate_loop-count :
      (ref : ℕ) (ds : List Dataset) (origins : Origins) (s : Sorted)
      → DistinctNames ds
      → AllFresh ds s
      → sorted_count p (populate_loop ref ds origins s) ≡ sorted_count p s + count p ds
  unfolding populate_loop SortedIn
  populate_loop-count ref [] origins s n g = omega arith
  populate_loop-count ref (d ∷ ds) origins s n g =
      let (sums, fresh) = populate_one-SortedIn ref d origins s g.0 in
      let after = populate_one ref d origins s in
      omega (
        arith,
        populate_loop-count (suc ref) ds origins after n.1
            (AllFresh-after d ds s after fresh n.0 g.1),
      )

  AllFresh-empty : (ds : List Dataset) (s : Sorted) → s.machines ≡ [] → AllFresh ds s
  unfolding lookup
  AllFresh-empty [] s e = tt
  AllFresh-empty (d ∷ ds) s e = ((rw e refl, rw e tt), AllFresh-empty ds s e)

  -- The datasets are sorted without a loss and without a copy: for every test of datasets, those
  -- that hold of it are as many in the machines, in their histories and in the lists that are attached
  -- later, taken together, as among the datasets that were given, if these have different names.
  pub populate-count :
      (ds : List Dataset) (origins : Origins)
      → DistinctNames ds
      → sorted_count p (populate ds origins) ≡ count p ds
  unfolding populate
  populate-count ds origins n =
      let none_yet : Sorted = record {
        machines = [];
        boots = [];
        userdatas = [];
        persistents = [];
        unmanaged = [];
      } in
      omega (arith, populate_loop-count 0 ds origins none_yet n (AllFresh-empty ds none_yet refl))
