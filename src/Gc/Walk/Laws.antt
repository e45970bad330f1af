-- ===== src/Gc/Walk/Laws.antt =====
-- Which states a walk over the buckets may select for removal.
use mathlib.Core.List.{Sublistᴰ}
use mathlib.Core.Path.{subst}
use zsys.Prelude.{
  ℕ, zero, suc, ◌+◌, ◌≤◌, false, ◌||◌, some, List, [], ◌∷◌, ◌++◌, ◌≡◌, refl, sym, ap, ◌∙◌, arith,
  ltb, append_assoc, length, get_elem?, Bool-cases, inl, inr, bind_some, some_inj,
}
use zsys.Machines.Model.{State}
use zsys.Gc.Buckets.{Bucket}
use zsys.Gc.Selection.{is_keep_yes, to_place, states_of, select_states_to_remove}
use zsys.Gc.Selection.Quota.{candidates, select_sublist}
use zsys.Gc.Walk.{
  Rules, Links, used_at, purge, inside, outside, judge, keeps_all, no_exceeding, Step, bucket_step,
  walk,
}

-- A state that the rules do not keep is one that may go.
abbrev pub Sound : Rules → (Links → ℕ → State → Type 0) → Type 0
Sound rules Ok =
    (links : Links) (i : ℕ) (s : State) → is_keep_yes (rules links i s) ≡ false → Ok links i s

-- A property of every state of a list.
abbrev pub AllStates : (State → Type 0) → List State → Type 0
AllStates Q [] = Unit
AllStates Q (s ∷ ss) = Q s × AllStates Q ss

pub AllStates-append :
    (Q : State → Type 0) (xs ys : List State)
    → AllStates Q xs
    → AllStates Q ys
    → AllStates Q (xs ++ ys)
AllStates-append Q [] ys h g = g
AllStates-append Q (x ∷ xs) ys h g = (h.0, AllStates-append Q xs ys h.1 g)

pub AllStates-map :
    (Q R : State → Type 0) (ss : List State)
    → ((s : State) → Q s → R s)
    → AllStates Q ss
    → AllStates R ss
AllStates-map Q R [] f h = tt
AllStates-map Q R (s ∷ ss) f h = (f s h.0, AllStates-map Q R ss f h.1)

-- What holds of a state when it is judged: with the maps from which the states selected before it have
-- been purged, in the order in which they were selected.
abbrev pub Judged : (Links → ℕ → State → Type 0) → Links → List State → ℕ → State → Type 0
Judged Ok links selected i s =
    (gone : List State) × (rest : List State) × (selected ≡ gone ++ rest)
    × Ok (purge gone links) i s

pub purge-append :
    (xs ys : List State) (links : Links) → purge (xs ++ ys) links ≡ purge ys (purge xs links)
unfolding purge
purge-append [] ys links = refl
purge-append (x ∷ xs) ys links = purge-append xs ys (purge (x ∷ []) links)

module _ (Ok : Links → ℕ → State → Type 0) (links : Links) where
  pub Judged-here :
      (selected : List State) (i : ℕ) (s : State) → Ok links i s → Judged Ok links selected i s
  unfolding purge
  Judged-here selected i s h = ([], selected, refl, h)

  pub Judged-left :
      (xs ys : List State) (i : ℕ) (s : State)
      → Judged Ok links xs i s
      → Judged Ok links (xs ++ ys) i s
  Judged-left xs ys i s (gone, rest, e, h) =
      (gone, rest ++ ys, ap (λ zs. zs ++ ys) e ∙ append_assoc gone rest ys, h)

  pub Judged-right :
      (xs ys : List State) (i : ℕ) (s : State)
      → Judged Ok (purge xs links) ys i s
      → Judged Ok links (xs ++ ys) i s
  Judged-right xs ys i s (gone, rest, e, h) = (
    xs ++ gone,
    rest,
    ap (λ zs. xs ++ zs) e ∙ sym (append_assoc xs gone rest),
    subst (λ l. Ok l i s) (sym (purge-append xs gone links)) h,
  )

Sublistᴰ-AllStates :
    (Q : State → Type 0) {xs ys : List State} → Sublistᴰ xs ys → AllStates Q ys → AllStates Q xs
Sublistᴰ-AllStates Q Sublistᴰ.slnil h = tt
Sublistᴰ-AllStates Q (Sublistᴰ.cons d) h = Sublistᴰ-AllStates Q d h.1
Sublistᴰ-AllStates Q (Sublistᴰ.cons-cons e d) h = (subst Q (sym e) h.0, Sublistᴰ-AllStates Q d h.1)

inside-get_elem? :
    (start : ℕ) (states : List State) (k : ℕ) (s : State)
    → get_elem? (inside start states) k ≡ some s
    → (get_elem? states k ≡ some s) × (start ≤ used_at s)
unfolding inside
inside-get_elem? start [] k s h = cc
inside-get_elem? start (x ∷ xs) zero s h = elim (Bool-cases (ltb (used_at x) start)) [
  | inl old ↦ absurd (ground arith)
  | inr new ↦ let e : x ≡ s = ground arith in (ap some e, rw (← e) (ground arith))
]
inside-get_elem? start (x ∷ xs) (suc k) s h = elim (Bool-cases (ltb (used_at x) start)) [
  | inl old ↦ absurd (ground arith)
  | inr new ↦ inside-get_elem? start xs k s (rw new at h)
]

pub outside-get_elem? :
    (start : ℕ) (states : List State) (k : ℕ)
    → get_elem? (outside start states) k ≡ get_elem? states (length (inside start states) + k)
unfolding outside inside
outside-get_elem? start [] k = refl
outside-get_elem? start (x ∷ xs) k = elim (Bool-cases (ltb (used_at x) start)) [
  | inl old ↦ let e : 0 + k ≡ k = omega arith in rw old (rw e refl)
  | inr new ↦
      let e : suc (length (inside start xs)) + k ≡ suc (length (inside start xs) + k) =
        omega arith in
      rw new (rw e (outside-get_elem? start xs k))
]

judge-AllStates :
    (rules : Rules) (Ok : Links → ℕ → State → Type 0)
    → Sound rules Ok
    → (Q : State → Type 0) (links : Links) (i : ℕ) (states : List State)
    → ((k : ℕ) (s : State) → get_elem? states k ≡ some s → Ok links (i + k) s → Q s)
    → AllStates Q (candidates (judge rules links i states))
unfolding judge to_place states_of
judge-AllStates rules Ok sound Q links i [] h = tt
judge-AllStates rules Ok sound Q links i (s ∷ ss) h =
    let tail : AllStates Q (candidates (judge rules links (i + 1) ss)) =
      judge-AllStates rules Ok sound Q links (i + 1) ss
        (λ k x e r. let q : i + suc k ≡ i + 1 + k = omega arith in h (suc k) x e (rw q r)) in
    elim (Bool-cases (is_keep_yes (rules links i s))) [
      | inl y ↦ rw y tail
      | inr n ↦
          let e : i + 0 ≡ i = omega arith in rw n (h 0 s refl (rw e (sound links i s n)), tail)
    ]

-- A pass over one history, newest first. `Extra` is a property of the states that are left.
module _ (Ok : ℕ → State → Type 0) (history : List State) (Extra : State → Type 0) where
  abbrev pub Selected : State → Type 0
  Selected s = (j : ℕ) × (get_elem? history j ≡ some s) × Ok j s × Extra s

pub Selected-map :
    (Ok Better : ℕ → State → Type 0) (history : List State) (Extra : State → Type 0)
    → ((j : ℕ) (s : State) → Ok j s → Better j s)
    → (ss : List State) → AllStates (Selected Ok history Extra) ss
    → AllStates (Selected Better history Extra) ss
Selected-map Ok Better history Extra f ss h =
    AllStates-map (Selected Ok history Extra) (Selected Better history Extra) ss
      (λ s x. (x.0, x.1, f x.0 s x.2, x.3)) h

module _ (history : List State) (Extra : State → Type 0) where
  -- The part of the history that is left stands in it from the index i on.
  abbrev pub StandsAt : ℕ → List State → Type 0
  StandsAt i states =
      (k : ℕ) (s : State)
      → get_elem? states k ≡ some s
      → (get_elem? history (i + k) ≡ some s) × Extra s

  StandsAt-outside :
      (start i : ℕ) (states : List State)
      → StandsAt i states
      → StandsAt (i + length (inside start states)) (outside start states)
  StandsAt-outside start i states h k s e =
      let q : i + length (inside start states) + k ≡ i + (length (inside start states) + k) =
        omega arith in
      rw q (h (length (inside start states) + k) s (sym (outside-get_elem? start states k) ∙ e))

module _ (rules : Rules) (Ok : Links → ℕ → State → Type 0) (sound : Sound rules Ok)
    (history : List State) (Extra : State → Type 0) where
  bucket_step-Selected :
      (b : Bucket) (states : List State) (i : ℕ) (links : Links) (step : Step)
      → (StandsAt history Extra) i states
      → bucket_step rules b states i links ≡ some step
      → AllStates (Selected (Ok links) history Extra) step.removed
        × (StandsAt history Extra) step.index step.rest
        × (step.links ≡ purge step.removed links)
  unfolding bucket_step purge
  bucket_step-Selected b states i links step h e =
      let here = inside b.start states in
      elim (Bool-cases (keeps_all b.samples || no_exceeding (length here) b.samples)) [
        | inl skip ↦
            subst Kept (some_inj (rw skip at e))
              (tt, StandsAt-outside history Extra b.start i states h, refl)
        | inr full ↦
            let (removed, chosen, made) =
              bind_some (select_states_to_remove b.samples (judge rules links i here)) _
                (rw full at e) in
            subst Kept (some_inj made) (
              Sublistᴰ-AllStates (Selected (Ok links) history Extra)
                  (select_sublist b.samples (judge rules links i here) removed chosen)
                  (judge-AllStates rules Ok sound (Selected (Ok links) history Extra) links i here
                    (judged here (inside-get_elem? b.start states))),
              StandsAt-outside history Extra b.start i states h,
              refl,
            )
      ]
    where
      Kept : Step → Type 0
      Kept x =
          AllStates (Selected (Ok links) history Extra) x.removed
          × (StandsAt history Extra) x.index x.rest
          × (x.links ≡ purge x.removed links)

      judged :
          (here : List State)
          → ((k : ℕ) (s : State)
              → get_elem? here k ≡ some s
              → (get_elem? states k ≡ some s) × (b.start ≤ used_at s))
          → (k : ℕ) (s : State) → get_elem? here k ≡ some s
          → Ok links (i + k) s
          → (Selected (Ok links) history Extra) s
      judged here within k s q r =
          let (stands, extra) = h k s (within k s q).0 in (i + k, stands, r, extra)

  -- What a walk has selected, and the maps that it leaves.
  abbrev Walked : Links → List State × Links → Type 0
  Walked links out =
      AllStates (Selected (Judged Ok links out.0) history Extra) out.0 × (out.1 ≡ purge out.0 links)

  pub walk-Selected :
      (bs : List Bucket) (states : List State) (i : ℕ) (links : Links) (out : List State × Links)
      → (StandsAt history Extra) i states
      → walk rules bs states i links ≡ some out
      → AllStates (Selected (Judged Ok links out.0) history Extra) out.0
        × (out.1 ≡ purge out.0 links)
  unfolding walk purge
  walk-Selected [] states i links out h e = subst (Walked links) (some_inj e) (tt, refl)
  walk-Selected (b ∷ bs) [] i links out h e = subst (Walked links) (some_inj e) (tt, refl)
  walk-Selected (b ∷ bs) (s ∷ ss) i links out h e =
      let (step, done, e1) = bind_some (bucket_step rules b (s ∷ ss) i links) _ e in
      let (later, left, e2) = bind_some (walk rules bs step.rest step.index step.links) _ e1 in
      let (chosen, stands, maps) = bucket_step-Selected b (s ∷ ss) i links step h done in
      let (rest, after) = walk-Selected bs step.rest step.index step.links later stands left in
      let all = step.removed ++ later.0 in
      subst (Walked links) (some_inj e2) (
        AllStates-append (Selected (Judged Ok links all) history Extra) step.removed later.0
            (Selected-map (Ok links) (Judged Ok links all) history Extra (Judged-here Ok links all)
              step.removed chosen)
            (Selected-map (Judged Ok step.links later.0) (Judged Ok links all) history Extra
              (λ j x g.
                Judged-right Ok links step.removed later.0 j x
                  (subst (λ l. Judged Ok l later.0 j x) maps g))
              later.0 rest),
        after ∙ ap (purge later.0) maps ∙ sym (purge-append step.removed later.0 links),
      )
