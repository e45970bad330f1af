-- ===== src/Zfs/Dependencies/Laws.antt =====
-- The dependencies of a dataset come deepest first, and none is missing.
use zsys.Prelude.{
  ℕ, zero, suc, true, false, ◌||◌, Option, some, List, [], ◌∷◌, ◌++◌, append-nil, append_assoc,
  bind_some, some_inj, ◌≡◌, refl, sym, ap, ◌∙◌, arith, ◌⊎◌, inl, inr, Bool-cases,
}
use mathlib.Core.Path.{subst}
use mathlib.Core.List.{Memᴰ}
use zsys.Text.{Bytes, text_eq}
use zsys.Text.Laws.{text_eq_refl, text_eq_sound}
use zsys.Zfs.Dataset.{Dataset, name_of}
use zsys.Zfs.Dependencies.{is_dependency, name_among, gather, deduplicate, dependencies}

name_among-append :
    (n : Bytes) (xs ys : List Dataset)
    → name_among n (xs ++ ys) ≡ (name_among n xs || name_among n ys)
unfolding name_among
name_among-append n [] ys = refl
name_among-append n (x ∷ xs) ys = ground (arith, name_among-append n xs ys)

name_among-left :
    (n : Bytes) (xs ys : List Dataset) → name_among n xs ≡ true → name_among n (xs ++ ys) ≡ true
name_among-left n xs ys h = name_among-append n xs ys ∙ rw h refl

name_among-right :
    (n : Bytes) (xs ys : List Dataset) → name_among n ys ≡ true → name_among n (xs ++ ys) ≡ true
unfolding name_among
name_among-right n [] ys h = h
name_among-right n (x ∷ xs) ys h = ground (arith, name_among-right n xs ys h)

name_among-skip :
    (n : Bytes) (xs : List Dataset) (e : Dataset) (ys : List Dataset)
    → text_eq (name_of e) n ≡ false
    → name_among n (xs ++ e ∷ ys) ≡ true
    → name_among n (xs ++ ys) ≡ true
unfolding name_among
name_among-skip n [] e ys t h = ground (arith, t, h)
name_among-skip n (x ∷ xs) e ys t h = elim (Bool-cases (text_eq (name_of x) n)) [
  | inl y ↦ rw y refl
  | inr m ↦ rw m (name_among-skip n xs e ys t (rw m at h))
]

module _ (all : List Dataset) where
  -- The dependencies of a dataset are named in a list.
  abbrev pub Covers : Dataset → List Dataset → Type 0
  Covers d ds =
      (f : Dataset) → Memᴰ f all → is_dependency d f ≡ true → name_among (name_of f) ds ≡ true

  -- Each dataset comes behind all its dependencies; `before` stands in front.
  abbrev pub DeepestFirst : List Dataset → List Dataset → Type 0
  DeepestFirst before [] = Unit
  DeepestFirst before (e ∷ es) = Covers e before × DeepestFirst (before ++ e ∷ []) es

  -- Every name of the first list is in the second.
  abbrev Within : List Dataset → List Dataset → Type 0
  Within xs ys = (n : Bytes) → name_among n xs ≡ true → name_among n ys ≡ true

  Within-append :
      (xs ys : List Dataset) (e : Dataset) → Within xs ys → Within (xs ++ e ∷ []) (ys ++ e ∷ [])
  Within-append xs ys e h n k = go (Bool-cases (name_among n xs))
    where
      go : (name_among n xs ≡ true) ⊎ (name_among n xs ≡ false) → name_among n (ys ++ e ∷ []) ≡ true
      go (inl y) = name_among-left n ys (e ∷ []) (h n y)
      go (inr m) =
          name_among-right n ys (e ∷ []) (
            ap (λ b. b || name_among n (e ∷ [])) (sym m)
            ∙ sym (name_among-append n xs (e ∷ []))
            ∙ k)

  weaken : (xs ys es : List Dataset) → Within xs ys → DeepestFirst xs es → DeepestFirst ys es
  weaken xs ys [] h g = tt
  weaken xs ys (e ∷ es) h g = (
    λ f i y. h (name_of f) (g.0 f i y),
    weaken (xs ++ e ∷ []) (ys ++ e ∷ []) es (Within-append xs ys e h) g.1,
  )

  pub DeepestFirst-append :
      (before xs ys : List Dataset)
      → DeepestFirst before xs
      → DeepestFirst (before ++ xs) ys
      → DeepestFirst before (xs ++ ys)
  DeepestFirst-append before [] ys g h = subst (λ b. DeepestFirst b ys) (append-nil before) h
  DeepestFirst-append before (x ∷ xs) ys g h = (
    g.0,
    DeepestFirst-append (before ++ x ∷ []) xs ys g.1
        (subst (λ b. DeepestFirst b ys) (sym (append_assoc before (x ∷ []) xs)) h),
  )

  -- Lists of dependencies from which the loop gathers.
  abbrev Good : (Dataset → Option (List Dataset)) → Type 0
  Good below =
      (e : Dataset) (ds : List Dataset) → below e ≡ some ds → DeepestFirst [] ds × Covers e ds

  Within-nil : (ys : List Dataset) → Within [] ys
  unfolding name_among
  Within-nil ys n h = absurd cc

  gather-DeepestFirst :
      (below : Dataset → Option (List Dataset)) (d : Dataset) (es deps before : List Dataset)
      → Good below
      → gather below d es ≡ some deps
      → DeepestFirst before deps
  unfolding gather
  gather-DeepestFirst below d [] deps before good h = subst (DeepestFirst before) (some_inj h) tt
  gather-DeepestFirst below d (e ∷ es) deps before good h = elim (Bool-cases (is_dependency d e)) [
    | inr n ↦ gather-DeepestFirst below d es deps before good (rw (gather, n) at h)
    | inl y ↦
        let (xs, first, k) = bind_some (below e) _ (rw (gather, y) at h) in
        let (rest, later, q) = bind_some (gather below d es) _ k in
        let (ordered, covered) = good e xs first in
        subst (DeepestFirst before) (some_inj q) (
          DeepestFirst-append before xs (e ∷ rest) (weaken [] before xs (Within-nil before) ordered)
            (
              λ f i z. name_among-right (name_of f) before xs (covered f i z),
              gather-DeepestFirst below d es rest ((before ++ xs) ++ e ∷ []) good later,
            ))
  ]

  gather-Covers :
      (below : Dataset → Option (List Dataset)) (d : Dataset) (es deps : List Dataset)
      → gather below d es ≡ some deps
      → (f : Dataset) → Memᴰ f es
      → is_dependency d f ≡ true
      → name_among (name_of f) deps ≡ true
  unfolding gather name_among
  gather-Covers below d [] deps h f i y = elim i [ ]
  gather-Covers below d (e ∷ es) deps h f i y = elim (Bool-cases (is_dependency d e)) [
    | inr n ↦ elim i [
      | Memᴰ.head same ↦ absurd (differ (sym (ap (is_dependency d) same ∙ n) ∙ y))
      | Memᴰ.tail j ↦ gather-Covers below d es deps (rw (gather, n) at h) f j y
    ]
    | inl z ↦
        let (xs, first, k) = bind_some (below e) _ (rw (gather, z) at h) in
        let (rest, later, q) = bind_some (gather below d es) _ k in
        subst (λ ds. name_among (name_of f) ds ≡ true) (some_inj q)
          (name_among-right (name_of f) xs (e ∷ rest) (elim i [
            | Memᴰ.head same ↦
                ap (λ x. text_eq (name_of e) (name_of x) || name_among (name_of x) rest) same
                ∙ rw (text_eq_refl (name_of e)) refl
            | Memᴰ.tail j ↦
                let there = gather-Covers below d es rest later f j y in
                elim (Bool-cases (text_eq (name_of e) (name_of f))) [
                  | inl t ↦ rw t refl
                  | inr t ↦ rw t there
                ]
          ]))
  ]
    where
      differ : false ≡ true → ⊥
      differ q = cc

  deduplicate-keeps :
      (kept es : List Dataset) (n : Bytes)
      → name_among n (kept ++ es) ≡ true
      → name_among n (kept ++ deduplicate kept es) ≡ true
  unfolding deduplicate
  deduplicate-keeps kept [] n h = h
  deduplicate-keeps kept (e ∷ es) n h = elim (Bool-cases (name_among (name_of e) kept)) [
    | inl y ↦ rw (deduplicate, y) (deduplicate-keeps kept es n (known y))
    | inr m ↦
        rw (deduplicate, m)
          (subst (λ ds. name_among n ds ≡ true)
            (append_assoc kept (e ∷ []) (deduplicate (kept ++ e ∷ []) es))
            (deduplicate-keeps (kept ++ e ∷ []) es n
              (subst (λ ds. name_among n ds ≡ true) (sym (append_assoc kept (e ∷ []) es)) h)))
  ]
    where
      known : name_among (name_of e) kept ≡ true → name_among n (kept ++ es) ≡ true
      known y = elim (Bool-cases (text_eq (name_of e) n)) [
        | inl t ↦
            name_among-left n kept es
              (subst (λ x. name_among x kept ≡ true) (text_eq_sound (name_of e) n t) y)
        | inr t ↦ name_among-skip n kept e es t h
      ]

  Within-known :
      (before kept : List Dataset) (e : Dataset)
      → Within before kept
      → name_among (name_of e) kept ≡ true
      → Within (before ++ e ∷ []) kept
  Within-known before kept e w y n h = elim (Bool-cases (text_eq (name_of e) n)) [
    | inl t ↦ subst (λ x. name_among x kept ≡ true) (text_eq_sound (name_of e) n t) y
    | inr t ↦ w n (
        subst (λ ds. name_among n ds ≡ true) (append-nil before)
          (name_among-skip n before e [] t h))
  ]

  deduplicate-DeepestFirst :
      (before kept es : List Dataset)
      → Within before kept
      → DeepestFirst before es
      → DeepestFirst kept (deduplicate kept es)
  unfolding deduplicate
  deduplicate-DeepestFirst before kept [] w g = tt
  deduplicate-DeepestFirst before kept (e ∷ es) w g =
      elim (Bool-cases (name_among (name_of e) kept)) [
        | inl y ↦
            rw (deduplicate, y)
              (deduplicate-DeepestFirst (before ++ e ∷ []) kept es (Within-known before kept e w y)
                g.1)
        | inr m ↦
            rw (deduplicate, m)
              (
                λ f i z. w (name_of f) (g.0 f i z),
                deduplicate-DeepestFirst (before ++ e ∷ []) (kept ++ e ∷ []) es
                    (Within-append before kept e w) g.1,
              )
      ]

  -- Where the recursion ends, the dependencies come deepest first: each dataset behind all those that
  -- depend on it, and every dataset that depends on the given one is among them.
  pub dependencies-DeepestFirst :
      (fuel : ℕ) (d : Dataset) (ds : List Dataset)
      → dependencies fuel all d ≡ some ds
      → DeepestFirst [] ds × Covers d ds
  unfolding dependencies
  dependencies-DeepestFirst zero d ds h = absurd cc
  dependencies-DeepestFirst (suc fuel) d ds h =
      let (deps, gathered, q) = bind_some (gather (dependencies fuel all) d all) _ h in
      let ordered =
        gather-DeepestFirst (dependencies fuel all) d all deps []
          (λ e es k. dependencies-DeepestFirst fuel e es k) gathered in
      (
        subst (DeepestFirst []) (some_inj q)
            (deduplicate-DeepestFirst [] [] deps (λ n k. k) ordered),
        λ f i y.
            subst (λ x. name_among (name_of f) x ≡ true) (some_inj q)
              (deduplicate-keeps [] deps (name_of f)
                (gather-Covers (dependencies fuel all) d all deps gathered f i y)),
      )
