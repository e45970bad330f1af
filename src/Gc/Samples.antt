-- ===== src/Gc/Samples.antt =====
-- A sort by time, and the data of the runs at concrete inputs.
use mathlib.Core.List.{Memᴰ}
use zsys.Prelude.{
  ℕ, zero, suc, ◌≤◌, true, false, some, List, [], ◌∷◌, ◌≡◌, refl, arith, get_elem?, if◌then◌else◌,
  ltb, Bool-cases, inl, inr, some_inj, sym,
}
use zsys.Prelude.Int.{pos, negsuc}
use zsys.Text.{codes}
use zsys.Machines.Model.{State, SystemState, Machine}
use zsys.Gc.Buckets.{HistoryRules, Bucket, compute_buckets}
use zsys.Gc.Walk.{Links}
use zsys.Gc.Walk.Laws.{AllStates}
use zsys.Gc.Walk.Safety.{NewestFirst}
use zsys.Gc.Pass.{Policy}
use zsys.Gc.UserPass.Laws.{SortsByTime}

-- Insertion sort in place of `sort.Sort`.
insert_state : State → List State → List State
insert_state s [] = s ∷ []
insert_state s (x ∷ xs) =
    let rest = insert_state s xs in if ltb s.last_used x.last_used then x ∷ rest else s ∷ x ∷ xs

unfoldable pub newest_first : List State → List State
unfolding insert_state
newest_first [] = []
newest_first (s ∷ ss) = insert_state s (newest_first ss)

below-insert_state :
    (t : ℕ) (s : State) (ss : List State)
    → s.last_used ≤ t
    → AllStates (λ x. x.last_used ≤ t) ss
    → AllStates (λ x. x.last_used ≤ t) (insert_state s ss)
unfolding insert_state
below-insert_state t s [] h k = (h, tt)
below-insert_state t s (x ∷ xs) h k = elim (Bool-cases (ltb s.last_used x.last_used)) [
  | inl y ↦ rw y (k.0, below-insert_state t s xs h k.1)
  | inr n ↦ rw n (h, k)
]

weaken :
    (t u : ℕ) (ss : List State)
    → t ≤ u
    → AllStates (λ x. x.last_used ≤ t) ss
    → AllStates (λ x. x.last_used ≤ u) ss
weaken t u [] h k = tt
weaken t u (s ∷ ss) h k = (omega (arith, h, k.0), weaken t u ss h k.1)

insert_state-NewestFirst :
    (s : State) (ss : List State) → NewestFirst ss → NewestFirst (insert_state s ss)
unfolding insert_state
insert_state-NewestFirst s [] h = (tt, tt)
insert_state-NewestFirst s (x ∷ xs) h = elim (Bool-cases (ltb s.last_used x.last_used)) [
  | inl y ↦
      rw y
        (below-insert_state x.last_used s xs (ground arith) h.0, insert_state-NewestFirst s xs h.1)
  | inr n ↦
      let le : x.last_used ≤ s.last_used = ground arith in
      rw n ((le, weaken x.last_used s.last_used xs le h.0), h)
]

pub newest_first-NewestFirst : (ss : List State) → NewestFirst (newest_first ss)
unfolding newest_first
newest_first-NewestFirst [] = tt
newest_first-NewestFirst (s ∷ ss) =
    insert_state-NewestFirst s (newest_first ss) (newest_first-NewestFirst ss)

skip_second : (x s y : State) (ys : List State) → Memᴰ x (s ∷ ys) → Memᴰ x (s ∷ y ∷ ys)
skip_second x s y ys (Memᴰ.head e) = Memᴰ.head e
skip_second x s y ys (Memᴰ.tail i) = Memᴰ.tail (Memᴰ.tail i)

swap_first :
    (x s y : State) (ys : List State)
    → (Memᴰ x (insert_state s ys) → Memᴰ x (s ∷ ys))
    → Memᴰ x (y ∷ insert_state s ys)
    → Memᴰ x (s ∷ y ∷ ys)
swap_first x s y ys ih (Memᴰ.head e) = Memᴰ.tail (Memᴰ.head e)
swap_first x s y ys ih (Memᴰ.tail i) = skip_second x s y ys (ih i)

behind :
    (x s : State) (sorted ss : List State)
    → (Memᴰ x sorted → Memᴰ x ss)
    → Memᴰ x (s ∷ sorted)
    → Memᴰ x (s ∷ ss)
behind x s sorted ss f (Memᴰ.head e) = Memᴰ.head e
behind x s sorted ss f (Memᴰ.tail i) = Memᴰ.tail (f i)

Memᴰ-insert_state : (x s : State) (ss : List State) → Memᴰ x (insert_state s ss) → Memᴰ x (s ∷ ss)
unfolding insert_state
Memᴰ-insert_state x s [] h = h
Memᴰ-insert_state x s (y ∷ ys) h = elim (Bool-cases (ltb s.last_used y.last_used)) [
  | inl later ↦ swap_first x s y ys (Memᴰ-insert_state x s ys) (rw later at h)
  | inr n ↦ rw n at h
]

pub Memᴰ-newest_first : (x : State) (ss : List State) → Memᴰ x (newest_first ss) → Memᴰ x ss
unfolding newest_first
Memᴰ-newest_first x [] h = h
Memᴰ-newest_first x (s ∷ ss) h =
    behind x s (newest_first ss) ss (Memᴰ-newest_first x ss)
      (Memᴰ-insert_state x s (newest_first ss) h)

elem_at : (ss : List State) (j : ℕ) (s : State) → get_elem? ss j ≡ some s → Memᴰ s ss
elem_at [] j s h = cc
elem_at (x ∷ ss) zero s h = Memᴰ.head (sym (some_inj h))
elem_at (x ∷ ss) (suc j) s h = Memᴰ.tail (elem_at ss j s h)

pub newest_first-SortsByTime : SortsByTime newest_first
newest_first-SortsByTime = record {
  newest = newest_first-NewestFirst;
  members = λ ss j s h. Memᴰ-newest_first s ss (elem_at (newest_first ss) j s h);
}

abbrev pub snapshot_at : ℕ → State
snapshot_at t = record {
  ref = t;
  id = codes "rpool/ROOT/u@autozsys_a";
  last_used = t;
  datasets = [];
}

abbrev pub saved : ℕ → SystemState
saved t = record { state = snapshot_at t; users = [] }

abbrev pub machine : Machine
machine = record {
  is_zsys = true;
  main = saved 900000;
  all_users_states = [];
  history =
      (codes "a", saved 698000)
      ∷ (codes "b", saved 800000)
      ∷ (codes "c", saved 700000)
      ∷ (codes "d", saved 699000)
      ∷ [];
  persistent_datasets = [];
}

abbrev pub policy : Policy
policy = record { all = false; keep_last = pos 2; failed = [] }

abbrev pub daily : HistoryRules
daily = record {
  gc_start_after = 1;
  keep_last = pos 2;
  gc_rules =
      record {
        name = codes "PreviousDay";
        buckets = 2;
        bucket_length = 1;
        samples_per_bucket = pos 2;
      }
      ∷ [];
}

abbrev pub buckets : List Bucket
buckets =
    record { start = 777600000000000; end = 864010000000000; samples = negsuc 0 }
    ∷ record { start = 691200000000000; end = 777600000000000; samples = pos 2 }
    ∷ record { start = 604800000000000; end = 691200000000000; samples = pos 2 }
    ∷ record { start = 0; end = 604800000000000; samples = pos 0 }
    ∷ []

abbrev pub no_links : Links
no_links = record { by_origin = []; snapshots_by_ds = [] }

pub buckets_computed : compute_buckets 3 864010000000000 864000000000000 daily ≡ some buckets
unfolding compute_buckets
buckets_computed = refl
