-- ===== src/Zfs/InverseOrigin/Moved.antt =====
-- Behind the migration of snapshots no dataset stands on a name that is gone.
use mathlib.Core.List.{Memᴰ}
use mathlib.Core.Path.{subst}
use zsys.Prelude.{
  Bool, true, false, none, some, List, [], ◌∷◌, ◌++◌, ◌≡◌, refl, sym, ap, ◌∙◌, Bool-cases, inl, inr,
}
use zsys.Text.{Bytes, text_eq, has_prefix}
use zsys.Zfs.Dataset.{Dataset, dataset, Children, nil, cons, DatasetProp, name_of}
use zsys.Zfs.Cache.{Cache, change_in_children, drop_child}
use zsys.Zfs.InverseOrigin.{
  Handles, Migrated, moved_name, follows, new_prop, move_origins, origins_moved, place, can_remove,
  migrate, migrate_on, migrate_all,
}
use zsys.Zfs.InverseOrigin.Laws.{
  Test, Every, EveryIn, change-EveryIn, append-EveryIn, drop-EveryIn, rename-EveryIn, moves-EveryIn,
}

-- A filesystem dataset that stands on the old name of the snapshot is the one that the snapshot moved to.
abbrev pub Moved : Bytes → Dataset → Test
Moved new t n s p =
    s ≡ false
    → text_eq p.origin (name_of t) ≡ true
    → has_prefix (moved_name new t) (n ++ b'@' ∷ []) ≡ true

abbrev Anything : Test
Anything n s p = Unit

mutual
  unfolding Every EveryIn

  anything : (d : Dataset) → Every Anything d
  anything (dataset n s p cs) = (tt, anything_in cs)

  anything_in : (ds : Children) → EveryIn Anything ds
  anything_in nil = tt
  anything_in (cons d ds) = (anything d, anything_in ds)

module _ (h : Handles) (old new : Bytes) where
  abbrev removed : Dataset → Cache → Cache
  removed s cache = change_in_children old (drop_child (moved_name new s)) (place h old new s cache)

  removed-EveryIn :
      (t s : Dataset) (cache : Cache)
      → EveryIn (Moved new t) cache
      → EveryIn (Moved new t) (removed s cache)
  unfolding place Every EveryIn
  removed-EveryIn t s cache k =
      change-EveryIn (Moved new t) old (drop_child (moved_name new s)) (place h old new s cache)
        (drop-EveryIn (Moved new t) (moved_name new s))
        (change-EveryIn (Moved new t) new _ _
          (λ cs i. append-EveryIn (Moved new t) _ cs ((λ e. absurd cc), tt) i)
          (change-EveryIn (Moved new t) old _ cache
            (λ cs i.
              rename-EveryIn (Moved new t) (name_of s) (moved_name new s) cs (λ n p e. absurd cc) i)
            k))

  moved_whole :
      (r : Children × Bool)
      → (origins_moved h r).1 ≡ none
      → (r.1 ≡ true) × ((origins_moved h r).0 ≡ r.0)
  unfolding origins_moved
  moved_whole (cache, true) e = (refl, refl)
  moved_whole (cache, false) e = absurd cc

  migrate-none :
      (s : Dataset) (cache : Cache)
      → (migrate h old new s cache).1 ≡ none
      → ((move_origins h (name_of s) (moved_name new s) (removed s cache)).1 ≡ true)
        × ((migrate h old new s cache).0
            ≡ (move_origins h (name_of s) (moved_name new s) (removed s cache)).0)
  unfolding migrate
  migrate-none s cache e =
      elim (Bool-cases (can_remove h old (moved_name new s) (place h old new s cache))) [
        | inr n ↦ let f = (rw n at e) in absurd cc
        | inl y ↦ elim (Bool-cases (h.opens (moved_name new s))) [
          | inr n ↦ let f = (rw (y, n) at e) in absurd cc
          | inl o ↦ let f = (rw (y, o) at e) in rw (y, o) (moved_whole _ f)
        ]
      ]

  kept_step :
      (t s : Dataset) (n : Bytes) (b : Bool) (p : DatasetProp)
      → text_eq (moved_name new s) (name_of t) ≡ false
      → Moved new t n b p
      → Moved new t n b (new_prop h (name_of s) (moved_name new s) n p)
  unfolding new_prop
  kept_step t s n b p apart k = elim (Bool-cases (follows h (name_of s) (moved_name new s) n p)) [
    | inl y ↦ rw y (λ e g. absurd cc)
    | inr z ↦ rw z k
  ]

  made_step :
      (s : Dataset) (n : Bytes) (b : Bool) (p : DatasetProp)
      → text_eq (moved_name new s) (name_of s) ≡ false
      → Moved new s n b (new_prop h (name_of s) (moved_name new s) n p)
  unfolding new_prop
  made_step s n b p apart = elim (Bool-cases (follows h (name_of s) (moved_name new s) n p)) [
    | inl y ↦ rw y (λ e g. absurd cc)
    | inr z ↦ rw z (λ e g. stays z g)
  ]
    where
      stays :
          follows h (name_of s) (moved_name new s) n p ≡ false
          → text_eq p.origin (name_of s) ≡ true
          → has_prefix (moved_name new s) (n ++ b'@' ∷ []) ≡ true
      stays z g = elim (Bool-cases (has_prefix (moved_name new s) (n ++ b'@' ∷ []))) [
        | inl y ↦ y
        | inr m ↦ let f = (rw (follows, g, m) at z) in absurd cc
      ]

  migrate-keeps :
      (t s : Dataset) (cache : Cache)
      → text_eq (moved_name new s) (name_of t) ≡ false
      → EveryIn (Moved new t) cache
      → (migrate h old new s cache).1 ≡ none
      → EveryIn (Moved new t) (migrate h old new s cache).0
  migrate-keeps t s cache apart k e =
      let (fine, same) = migrate-none s cache e in
      subst (EveryIn (Moved new t)) (sym same) (
        moves-EveryIn h (name_of s) (moved_name new s) (Moved new t) (Moved new t)
          (λ n b p i. kept_step t s n b p apart i) (removed s cache) (removed-EveryIn t s cache k)
          fine)

  migrate-makes :
      (s : Dataset) (cache : Cache)
      → text_eq (moved_name new s) (name_of s) ≡ false
      → (migrate h old new s cache).1 ≡ none
      → EveryIn (Moved new s) (migrate h old new s cache).0
  migrate-makes s cache apart e =
      let (fine, same) = migrate-none s cache e in
      subst (EveryIn (Moved new s)) (sym same) (
        moves-EveryIn h (name_of s) (moved_name new s) Anything (Moved new s)
          (λ n b p i. made_step s n b p apart) (removed s cache) (anything_in (removed s cache))
          fine)

  on-none :
      (m : Migrated) (next : Cache → Migrated)
      → (migrate_on h m next).1 ≡ none
      → (m.1 ≡ none) × (migrate_on h m next ≡ next m.0)
  unfolding migrate_on
  on-none (cache, none) next e = (refl, refl)
  on-none (cache, some x) next e = absurd cc

  all-keeps :
      (t : Dataset) (ss : List Dataset) (cache : Cache)
      → ((s : Dataset) → Memᴰ s ss → text_eq (moved_name new s) (name_of t) ≡ false)
      → EveryIn (Moved new t) cache
      → (migrate_all h old new ss cache).1 ≡ none
      → EveryIn (Moved new t) (migrate_all h old new ss cache).0
  unfolding migrate_all
  all-keeps t [] cache apart k e = k
  all-keeps t (s ∷ ss) cache apart k e =
      let (fine, on) = on-none (migrate h old new s cache) (migrate_all h old new ss) e in
      subst (λ (r : Migrated). EveryIn (Moved new t) r.0) (sym on)
        (all-keeps t ss (migrate h old new s cache).0 (λ x i. apart x (Memᴰ.tail i))
          (migrate-keeps t s cache (apart s (Memᴰ.head refl)) k fine)
          (ap (λ (r : Migrated). r.1) (sym on) ∙ e))

  -- When the snapshots of a promotion have migrated without an error and no new name is an old one, no
  -- filesystem dataset stands on the old name of any of them, but the dataset that they moved to.
  pub migrate_all-Moved :
      (ss : List Dataset) (cache : Cache) (t : Dataset)
      → ((s u : Dataset) → Memᴰ s ss → Memᴰ u ss → text_eq (moved_name new s) (name_of u) ≡ false)
      → (migrate_all h old new ss cache).1 ≡ none
      → Memᴰ t ss
      → EveryIn (Moved new t) (migrate_all h old new ss cache).0
  unfolding migrate_all
  migrate_all-Moved [] cache t apart e i = elim i [ ]
  migrate_all-Moved (s ∷ ss) cache t apart e (Memᴰ.tail i) =
      let (fine, on) = on-none (migrate h old new s cache) (migrate_all h old new ss) e in
      subst (λ (r : Migrated). EveryIn (Moved new t) r.0) (sym on)
        (migrate_all-Moved ss (migrate h old new s cache).0 t
          (λ x u k l. apart x u (Memᴰ.tail k) (Memᴰ.tail l))
          (ap (λ (r : Migrated). r.1) (sym on) ∙ e) i)
  migrate_all-Moved (s ∷ ss) cache t apart e (Memᴰ.head same) =
      let (fine, on) = on-none (migrate h old new s cache) (migrate_all h old new ss) e in
      let left = (migrate h old new s cache).0 in
      subst (λ (r : Migrated). EveryIn (Moved new t) r.0) (sym on)
        (all-keeps t ss left (λ x j. apart x t (Memᴰ.tail j) (Memᴰ.head same))
          (subst (λ x. EveryIn (Moved new x) left) (sym same)
            (migrate-makes s cache (apart s s (Memᴰ.head refl) (Memᴰ.head refl)) fine))
          (ap (λ (r : Migrated). r.1) (sym on) ∙ e))
