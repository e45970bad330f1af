-- ===== src/Gc/Unmanaged/Laws.antt =====
-- What a round over the unmanaged datasets destroys, and in which order.
use zsys.Prelude.{
  ℕ, true, false, ◌||◌, Option, none, some, List, [], ◌∷◌, ◌++◌, ◌≡◌, refl, sym, ap, ◌∙◌, ◌⊎◌, inl,
  inr, Bool-cases, arith,
}
use mathlib.Core.Path.{subst}
use mathlib.Core.List.{Memᴰ}
use zsys.Text.{text_eq}
use zsys.Text.Laws.{text_eq_refl}
use zsys.Zfs.Dataset.{Dataset, name_of, is_snapshot_of}
use zsys.Zfs.Hierarchy.{collect_children}
use zsys.Zfs.Cache.{Cache}
use zsys.Zfs.Destroy.{Backend}
use zsys.Zfs.Dependencies.{name_among, dependencies}
use zsys.Zfs.Dependencies.Laws.{DeepestFirst, DeepestFirst-append, dependencies-DeepestFirst}
use zsys.Gc.Unmanaged.{
  Unmanaged, destroy_candidates, is_blocked, again, destroy_all, refresh_all, try_candidate,
  try_round, unmanaged_round,
}

-- A snapshot, or one of the candidates.
abbrev pub Removable : List Dataset → Dataset → Type 0
Removable candidates d = (is_snapshot_of d ≡ true) ⊎ (name_among (name_of d) candidates ≡ true)

free-Removable :
    (candidates deps : List Dataset)
    → is_blocked candidates deps ≡ false
    → (d : Dataset) → Memᴰ d deps
    → Removable candidates d
unfolding is_blocked
free-Removable candidates [] h d i = elim i [ ]
free-Removable candidates (e ∷ deps) h d (Memᴰ.tail i) =
    free-Removable candidates deps (ground arith) d i
free-Removable candidates (e ∷ deps) h d (Memᴰ.head same) =
    subst (Removable candidates) (sym same) (elim (Bool-cases (is_snapshot_of e)) [
      | inl y ↦ inl y
      | inr n ↦ elim (Bool-cases (name_among (name_of e) candidates)) [
        | inl y ↦ inr y
        | inr m ↦ absurd (ground arith)
      ]
    ])

among_member : (d : Dataset) (ds : List Dataset) → Memᴰ d ds → name_among (name_of d) ds ≡ true
unfolding name_among
among_member d [] i = elim i [ ]
among_member d (e ∷ ds) (Memᴰ.head same) =
    ap (λ x. text_eq (name_of e) (name_of x) || name_among (name_of x) ds) same
    ∙ rw (text_eq_refl (name_of e)) refl
among_member d (e ∷ ds) (Memᴰ.tail i) = elim (Bool-cases (text_eq (name_of e) (name_of d))) [
  | inl y ↦ rw y refl
  | inr n ↦ rw n (among_member d ds i)
]

last_or_before :
    (d c : Dataset) (deps : List Dataset) → Memᴰ d (deps ++ c ∷ []) → Memᴰ d deps ⊎ (d ≡ c)
last_or_before d c [] (Memᴰ.head e) = inr e
last_or_before d c [] (Memᴰ.tail i) = elim i [ ]
last_or_before d c (x ∷ deps) (Memᴰ.head e) = inl (Memᴰ.head e)
last_or_before d c (x ∷ deps) (Memᴰ.tail i) = elim (last_or_before d c deps i) [
  | inl j ↦ inl (Memᴰ.tail j)
  | inr e ↦ inr e
]

module _ (z : Backend) (refresh : Cache → Option (List Dataset))
    (pick : Dataset → List Dataset → Dataset) (fuel : ℕ) where
  -- What a round does before the next one: a candidate is kept, or what is destroyed is removable and
  -- comes deepest first.
  abbrev pub Step : Unmanaged → Unmanaged → Type 0
  Step u v =
      ((c : Dataset) × Memᴰ c (destroy_candidates u) × (v ≡ record u { keep = name_of c ∷ u.keep }))
      ⊎ ((targets : List Dataset) × DeepestFirst (collect_children u.cache) [] targets
          × ((d : Dataset) → Memᴰ d targets → Removable (destroy_candidates u) d)
          × (refresh_all z refresh pick fuel u.keep
                (destroy_all z refresh pick fuel targets u.cache u.keep_due_to_error)
              ≡ again v))

  same_round : {u v : Unmanaged} → again u ≡ again v → u ≡ v
  same_round h = cc

  try_candidate-Step :
      (u v : Unmanaged) (c : Dataset) (o : Option (List Dataset))
      → Memᴰ c (destroy_candidates u)
      → dependencies fuel (collect_children u.cache) c ≡ o
      → try_candidate z refresh pick fuel u c o ≡ again v
      → Step u v
  unfolding try_candidate
  try_candidate-Step u v c none i q h = absurd cc
  try_candidate-Step u v c (some deps) i q h =
      let candidates = destroy_candidates u in
      let all = collect_children u.cache in
      elim (Bool-cases (is_blocked candidates deps)) [
        | inl y ↦ inl (c, i, sym (same_round (rw (try_candidate, y) at h)))
        | inr free ↦
            let (ordered, covered) = dependencies-DeepestFirst all fuel c deps q in
            inr (
              deps ++ c ∷ [],
              DeepestFirst-append all [] deps (c ∷ []) ordered (covered, tt),
              λ d j. elim (last_or_before d c deps j) [
                | inl k ↦ free-Removable candidates deps free d k
                | inr e ↦ subst (Removable candidates) (sym e) (inr (among_member c candidates i))
              ],
              (rw (try_candidate, free) at h),
            )
      ]

  -- A round that is followed by another either keeps a candidate, which it does not destroy, or
  -- destroys datasets, each after all that depend on it, and of filesystem datasets only candidates.
  pub unmanaged_round-Step :
      ((c : Dataset) (cs : List Dataset) → Memᴰ (pick c cs) (c ∷ cs))
      → (u v : Unmanaged) → unmanaged_round z refresh pick fuel u ≡ again v
      → Step u v
  unfolding unmanaged_round try_round
  unmanaged_round-Step picks u v h = go (destroy_candidates u) refl h
    where
      go :
          (cs : List Dataset)
          → destroy_candidates u ≡ cs
          → try_round z refresh pick fuel u cs ≡ again v
          → Step u v
      go [] e k = absurd cc
      go (c ∷ cs) e k =
          try_candidate-Step u v (pick c cs)
            (dependencies fuel (collect_children u.cache) (pick c cs))
            (subst (Memᴰ (pick c cs)) (sym e) (picks c cs)) refl k
