-- ===== src/Gc/Walk/Safety.antt =====
-- A walk selects no state that the newest bucket takes, if that bucket keeps all its states.
use mathlib.Core.Path.{subst}
use zsys.Prelude.{
  ℕ, zero, suc, ◌+◌, ◌≤◌, ◌<◌, some, List, [], ◌∷◌, ◌++◌, ◌≡◌, refl, sym, ap, ◌∙◌, arith, ltb,
  length, get_elem?, Bool-cases, inl, inr, bind_some, some_inj,
}
use zsys.Prelude.Int.{negsuc}
use zsys.Machines.Model.{State}
use zsys.Gc.Buckets.{Bucket}
use zsys.Gc.Walk.{Rules, Links, used_at, purge, inside, outside, Step, bucket_step, walk}
use zsys.Gc.Walk.Laws.{
  Sound, AllStates, Judged, outside-get_elem?, Selected, StandsAt, walk-Selected,
}

-- The states are in the order of their last use, the newest first.
abbrev pub NewestFirst : List State → Type 0
NewestFirst [] = Unit
NewestFirst (s ∷ ss) = AllStates (λ t. t.last_used ≤ s.last_used) ss × NewestFirst ss

AllStates-get_elem? :
    (Q : State → Type 0) (ss : List State) (k : ℕ) (s : State)
    → AllStates Q ss
    → get_elem? ss k ≡ some s
    → Q s
AllStates-get_elem? Q [] k s h e = cc
AllStates-get_elem? Q (x ∷ xs) zero s h e = subst Q (some_inj e) h.0
AllStates-get_elem? Q (x ∷ xs) (suc k) s h e = AllStates-get_elem? Q xs k s h.1 e

-- All that is left behind a bucket is older than its start.
outside-old :
    (start : ℕ) (states : List State) (k : ℕ) (s : State)
    → NewestFirst states
    → get_elem? (outside start states) k ≡ some s
    → used_at s < start
unfolding outside
outside-old start [] k s h e = cc
outside-old start (x ∷ xs) zero s h e = elim (Bool-cases (ltb (used_at x) start)) [
  | inl old ↦ let q : x ≡ s = ground arith in rw (← q) (ground arith)
  | inr new ↦ outside-old start xs zero s h.1 (rw new at e)
]
outside-old start (x ∷ xs) (suc k) s h e = elim (Bool-cases (ltb (used_at x) start)) [
  | inl old ↦
      let below : s.last_used ≤ x.last_used =
        AllStates-get_elem? (λ t. t.last_used ≤ x.last_used) xs k s h.0 (rw old at e) in
      ground arith
  | inr new ↦ outside-old start xs (suc k) s h.1 (rw new at e)
]

-- A bucket that keeps all its states only passes over them.
bucket_step-keeps_all :
    (rules : Rules) (b : Bucket) (states : List State) (i : ℕ) (links : Links) (step : Step)
    → b.samples ≡ negsuc 0
    → bucket_step rules b states i links ≡ some step
    → step ≡ record {
      removed = [];
      rest = outside b.start states;
      index = i + length (inside b.start states);
      links = links;
    }
unfolding bucket_step
bucket_step-keeps_all rules b states i links step keep e = sym (some_inj (rw keep at e))

-- The states selected by a walk whose newest bucket keeps all its states, and the maps that it leaves.
module _ (rules : Rules) (Ok : Links → ℕ → State → Type 0) (sound : Sound rules Ok) (b : Bucket)
    (history : List State) (links : Links) where
  abbrev pub Old : State → Type 0
  Old s = used_at s < b.start

  abbrev pub WalkedOld : List State × Links → Type 0
  WalkedOld out =
      AllStates (Selected (Judged Ok links out.0) history Old) out.0 × (out.1 ≡ purge out.0 links)

  outside-StandsAt :
      NewestFirst history
      → StandsAt history Old (0 + length (inside b.start history)) (outside b.start history)
  outside-StandsAt newest k t q =
      let e : 0 + length (inside b.start history) ≡ length (inside b.start history) = omega arith in
      (
        rw e (sym (outside-get_elem? b.start history k) ∙ q),
        outside-old b.start history k t newest q,
      )

  pub walk-old :
      (bs : List Bucket) (out : List State × Links)
      → b.samples ≡ negsuc 0
      → NewestFirst history
      → walk rules (b ∷ bs) history 0 links ≡ some out
      → WalkedOld out
  unfolding walk purge
  walk-old bs out keep sorted e = go history refl
    where
      behind :
          (s : State) (ss : List State)
          → history ≡ s ∷ ss
          → walk rules (b ∷ bs) (s ∷ ss) 0 links ≡ some out
          → WalkedOld out
      behind s ss same e =
          let (step, done, e1) = bind_some (bucket_step rules b (s ∷ ss) 0 links) _ e in
          let (later, left, e2) = bind_some (walk rules bs step.rest step.index step.links) _ e1 in
          let passed =
            bucket_step-keeps_all rules b history 0 links step keep
              (subst (λ h. bucket_step rules b h 0 links ≡ some step) (sym same) done) in
          let nothing : step.removed ≡ [] = ap (λ x. x.removed) passed in
          let maps : step.links ≡ links = ap (λ x. x.links) passed in
          subst WalkedOld
            (ap (λ removed. (removed ++ later.0, later.1)) (sym nothing) ∙ some_inj e2)
            (subst
              (λ l.
                AllStates (Selected (Judged Ok l later.0) history Old) later.0
                × (later.1 ≡ purge later.0 l))
              maps
              (walk-Selected rules Ok sound history Old bs step.rest step.index step.links later
                (subst (λ (x : Step). StandsAt history Old x.index x.rest) (sym passed)
                  (outside-StandsAt sorted))
                left))

      go : (h : List State) → history ≡ h → WalkedOld out
      go [] same =
          subst WalkedOld (some_inj (subst (λ h. walk rules (b ∷ bs) h 0 links ≡ some out) same e))
            (tt, refl)
      go (s ∷ ss) same =
          behind s ss same (subst (λ h. walk rules (b ∷ bs) h 0 links ≡ some out) same e)
