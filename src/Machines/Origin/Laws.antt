-- ===== src/Machines/Origin/Laws.antt =====
-- The origins that are found, and the fuel that is enough to find them.
use mathlib.Core.List.{Memᴰ}
use zsys.Prelude.{
  ℕ, zero, suc, true, false, not, ◌&&◌, Option, none, some, List, [], ◌∷◌, ◌≡◌, ◌⊎◌, inl, inr, refl,
  sym, arith, ◌<◌, Bool-cases, if◌then◌else◌,
}
use zsys.Text.{Bytes, text_eq}
use zsys.Text.Laws.{text_eq_sound}
use zsys.Zfs.Dataset.{Dataset, name_of, is_snapshot_of, prop_of}
use zsys.Machines.Origin.{
  strip_snapshot, Hop, next, at_root, unknown, hop, next_origin, Origins, delete, is_left_out,
  first_origin, resolve_one, resolve_loop, resolve_origin,
}

-- The name of a dataset of the list that has no origin.
abbrev pub Root : List Dataset → Bytes → Type 0
Root datasets name =
    (d : Dataset) × Memᴰ d datasets × ((name_of d ≡ name) × (text_eq (prop_of d).origin [] ≡ true))

-- Where a search ended.
abbrev Ended : List Dataset → Bytes → Hop → Type 0
Ended datasets name at_root = Root datasets name
Ended datasets name unknown = Unit
Ended datasets name (next o) =
    (d : Dataset) × Memᴰ d datasets
    × ((name_of d ≡ name) × ((prop_of d).origin ≡ o) × (text_eq o [] ≡ false))

hop-Ended : (datasets : List Dataset) (name : Bytes) → Ended datasets name (hop datasets name)
unfolding hop
hop-Ended [] name = tt
hop-Ended (d ∷ ds) name = elim (Bool-cases (text_eq name (name_of d))) [
  | inl y ↦
      let same : name_of d ≡ name = sym (text_eq_sound name (name_of d) y) in
      elim (Bool-cases (text_eq (prop_of d).origin [])) [
        | inl e ↦ rw (y, e) (d, Memᴰ.head refl, (same, e))
        | inr n ↦ rw (y, n) (d, Memᴰ.head refl, (same, refl, n))
      ]
  | inr m ↦ rw m (later (hop ds name) (hop-Ended ds name))
]
  where
    later : (h : Hop) → Ended ds name h → Ended (d ∷ ds) name h
    later at_root (e, i, p) = (e, Memᴰ.tail i, p)
    later unknown u = tt
    later (next o) (e, i, p) = (e, Memᴰ.tail i, p)

-- What the loop over the origins gives where it ends.
abbrev Found : List Dataset → Option Bytes → Type 0
Found datasets none = Unit
Found datasets (some o) = Root datasets o

-- A rank falls from a clone to the file system of its origin, as a clone is younger than what it is
-- a clone of.
abbrev pub Falls : (Bytes → ℕ) → List Dataset → Type 0
Falls rank datasets =
    (d : Dataset)
    → Memᴰ d datasets
    → text_eq (prop_of d).origin [] ≡ false
    → rank (strip_snapshot (prop_of d).origin) < rank (name_of d)

next_origin-Found :
    (datasets : List Dataset) (rank : Bytes → ℕ) (fuel : ℕ) (name : Bytes)
    → Falls rank datasets
    → rank (strip_snapshot name) < fuel
    → (o : Option Bytes) × (next_origin datasets fuel name ≡ some o) × Found datasets o
unfolding next_origin
next_origin-Found datasets rank zero name f h = absurd (omega arith)
next_origin-Found datasets rank (suc fuel) name f h =
    go (hop datasets (strip_snapshot name)) (hop-Ended datasets (strip_snapshot name))
      (λ origin g. next_origin-Found datasets rank fuel origin f g)
  where
    go :
        (p : Hop)
        → Ended datasets (strip_snapshot name) p
        → ((origin : Bytes)
            → rank (strip_snapshot origin) < fuel
            → (o : Option Bytes) × (next_origin datasets fuel origin ≡ some o) × Found datasets o)
        → (o : Option Bytes) × ((elim p as (λ p. Option (Option Bytes)) [
          | at_root ↦ some (some (strip_snapshot name))
          | unknown ↦ some none
          | next origin ↦
              if text_eq (strip_snapshot name) origin
              then some none
              else next_origin datasets fuel origin
        ])
            ≡ some o)
          × Found datasets o
    go at_root e again = (_, refl, e)
    go unknown e again = (_, refl, tt)
    go (next origin) (d, i, (same, q, n)) again =
        elim (Bool-cases (text_eq (strip_snapshot name) origin)) [
          | inl y ↦ rw y (_, refl, tt)
          | inr m ↦ rw m (again origin (falls d i same q n))
        ]
      where
        falls :
            (d : Dataset)
            → Memᴰ d datasets
            → name_of d ≡ strip_snapshot name
            → (prop_of d).origin ≡ origin
            → text_eq origin [] ≡ false
            → rank (strip_snapshot origin) < fuel
        falls d i same q n =
            let less : rank (strip_snapshot origin) < rank (strip_snapshot name) =
              rw (← q, ← same) (f d i (rw q n)) in
            omega arith

-- An entry is for a dataset that is not left out; it is empty, or the name of a dataset without an
-- origin.
abbrev pub Entry : List Dataset → Bytes → Bytes × Bytes → Type 0
Entry datasets only (name, origin) =
    ((d : Dataset) × Memᴰ d datasets × ((name_of d ≡ name) × (is_left_out only d ≡ false)))
    × ((origin ≡ []) ⊎ Root datasets origin)

abbrev pub Resolved : List Dataset → Bytes → Origins → Type 0
Resolved datasets only [] = Unit
Resolved datasets only (e ∷ r) = Entry datasets only e × Resolved datasets only r

Resolved-delete :
    (datasets : List Dataset) (only name : Bytes) (r : Origins)
    → Resolved datasets only r
    → Resolved datasets only (delete name r)
unfolding delete
Resolved-delete datasets only name [] g = tt
Resolved-delete datasets only name ((key, origin) ∷ r) (e, g) =
    elim (Bool-cases (text_eq key name)) [
      | inl y ↦ rw y (Resolved-delete datasets only name r g)
      | inr m ↦ rw m (e, Resolved-delete datasets only name r g)
    ]

module _ (datasets : List Dataset) (rank : Bytes → ℕ) (fuel : ℕ) (only : Bytes) where
  resolve_one-Resolved :
      Falls rank datasets
      → ((name : Bytes) → rank name < fuel)
      → (d : Dataset) → Memᴰ d datasets
      → (r : Origins) → Resolved datasets only r
      → (r' : Origins) × (resolve_one datasets fuel only d r ≡ some r') × Resolved datasets only r'
  unfolding resolve_one
  resolve_one-Resolved f enough d i r g = elim (Bool-cases (is_left_out only d)) [
    | inl out ↦ rw out (r, refl, g)
    | inr kept ↦
        let less = Resolved-delete datasets only (name_of d) r g in
        elim (Bool-cases (text_eq (first_origin d) [] && not (is_snapshot_of d))) [
          | inl main ↦ rw (kept, main) (_, refl, (((d, i, (refl, kept)), inl refl), less))
          | inr clone ↦
              let (o, q, found) =
                next_origin-Found datasets rank fuel (first_origin d) f
                  (enough (strip_snapshot (first_origin d))) in
              rw (kept, clone, q) (put kept less o found)
        ]
  ]
    where
      put :
          is_left_out only d ≡ false
          → Resolved datasets only (delete (name_of d) r)
          → (o : Option Bytes) → Found datasets o
          → (r' : Origins) × (◌≡◌ {A = Option Origins}
              (some (elim o as (λ o. Origins) [
                | some origin ↦ (name_of d, origin) ∷ delete (name_of d) r
                | none ↦ delete (name_of d) r
              ]))
              (some r'))
            × Resolved datasets only r'
      put kept less none u = (_, refl, less)
      put kept less (some o) root = (_, refl, (((d, i, (refl, kept)), inr root), less))

  resolve_loop-Resolved :
      Falls rank datasets
      → ((name : Bytes) → rank name < fuel)
      → (ds : List Dataset) → ((d : Dataset) → Memᴰ d ds → Memᴰ d datasets)
      → (r : Origins) → Resolved datasets only r
      → (r' : Origins) × (resolve_loop datasets fuel only ds r ≡ some r')
        × Resolved datasets only r'
  unfolding resolve_loop
  resolve_loop-Resolved f enough [] within r g = (r, refl, g)
  resolve_loop-Resolved f enough (d ∷ ds) within r g =
      let (r1, q, g1) = resolve_one-Resolved f enough d (within d (Memᴰ.head refl)) r g in
      let (r2, q2, g2) = resolve_loop-Resolved f enough ds (λ e i. within e (Memᴰ.tail i)) r1 g1 in
      (r2, rw q q2, g2)

-- The search for the origins ends, if a rank below the fuel falls from each dataset to the file system of
-- its origin. Each name that is then in the map belongs to a dataset that is not left out, and its
-- origin is empty or the name of a dataset of the list that has itself no origin: no origin is
-- left half way.
pub resolve_origin-Resolved :
    (datasets : List Dataset) (rank : Bytes → ℕ) (fuel : ℕ) (only : Bytes)
    → Falls rank datasets
    → ((name : Bytes) → rank name < fuel)
    → (r : Origins) × (resolve_origin fuel datasets only ≡ some r) × Resolved datasets only r
unfolding resolve_origin
resolve_origin-Resolved datasets rank fuel only f enough =
    resolve_loop-Resolved datasets rank fuel only f enough datasets (λ d i. i) [] tt
