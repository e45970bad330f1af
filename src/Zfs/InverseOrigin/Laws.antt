-- ===== src/Zfs/InverseOrigin/Laws.antt =====
-- Where the origins stand behind the migration of snapshots.
use mathlib.Core.Path.{subst}
use zsys.Prelude.{Bool, true, false, some, ◌≡◌, Bool-cases, Option-cases, inl, inr, some_inj}
use zsys.Text.{Bytes, text_eq}
use zsys.Zfs.Dataset.{Dataset, dataset, Children, nil, cons, DatasetProp, name_of}
use zsys.Zfs.Hierarchy.{remove_child}
use zsys.Zfs.Cache.{change_at, change_in_children, append_child, drop_child}
use zsys.Zfs.InverseOrigin.{Handles, rename_child, new_prop, reloaded, move_origin, move_origins}

abbrev pub Test : Type 1
Test = Bytes → Bool → DatasetProp → Type 0

-- A property of every dataset of some trees.
unfoldable mutual
  pub Every : Test → Dataset → Type 0
  Every P (dataset n s p cs) = P n s p × EveryIn P cs

  pub EveryIn : Test → Children → Type 0
  EveryIn P nil = Unit
  EveryIn P (cons d ds) = Every P d × EveryIn P ds

module _ (P : Test) where
  mutual
    unfolding change_at change_in_children Every EveryIn

    change_at-Every :
        (name : Bytes) (f : Children → Children) (d : Dataset)
        → ((cs : Children) → EveryIn P cs → EveryIn P (f cs))
        → Every P d
        → Every P (change_at name f d)
    change_at-Every name f (dataset n s p cs) k h = elim (Bool-cases (text_eq n name)) [
      | inl y ↦ rw y (h.0, k cs h.1)
      | inr z ↦ rw z (h.0, change-EveryIn name f cs k h.1)
    ]

    pub change-EveryIn :
        (name : Bytes) (f : Children → Children) (ds : Children)
        → ((cs : Children) → EveryIn P cs → EveryIn P (f cs))
        → EveryIn P ds
        → EveryIn P (change_in_children name f ds)
    change-EveryIn name f nil k h = tt
    change-EveryIn name f (cons d ds) k h =
        (change_at-Every name f d k h.0, change-EveryIn name f ds k h.1)

  pub append-EveryIn :
      (d : Dataset) (cs : Children) → Every P d → EveryIn P cs → EveryIn P (append_child d cs)
  unfolding append_child EveryIn
  append-EveryIn d nil h k = (h, tt)
  append-EveryIn d (cons c cs) h k = (k.0, append-EveryIn d cs h k.1)

  remove-EveryIn :
      (name : Bytes) (cs rest : Children)
      → EveryIn P cs
      → remove_child name cs ≡ some rest
      → EveryIn P rest
  unfolding remove_child EveryIn
  remove-EveryIn name nil rest h e = absurd cc
  remove-EveryIn name (cons c cs) rest h e = elim (Bool-cases (text_eq (name_of c) name)) [
    | inl y ↦ subst (EveryIn P) (some_inj (rw y at e)) h.1
    | inr n ↦ elim (Option-cases (remove_child name cs)) [
      | inl none_left ↦ absurd cc
      | inr (r, f) ↦
          subst (EveryIn P) (some_inj (rw (n, f) at e)) (h.0, remove-EveryIn name cs r h.1 f)
    ]
  ]

  pub drop-EveryIn : (name : Bytes) (cs : Children) → EveryIn P cs → EveryIn P (drop_child name cs)
  unfolding drop_child
  drop-EveryIn name cs h = elim (Option-cases (remove_child name cs)) [
    | inl e ↦ rw (drop_child, e) h
    | inr (rest, e) ↦ rw (drop_child, e) (remove-EveryIn name cs rest h e)
  ]

  pub rename-EveryIn :
      (a b : Bytes) (cs : Children)
      → ((n : Bytes) (p : DatasetProp) → P n true p)
      → EveryIn P cs
      → EveryIn P (rename_child a b cs)
  unfolding rename_child Every EveryIn
  rename-EveryIn a b nil k h = tt
  rename-EveryIn a b (cons (dataset n false p cs) ds) k h = (h.0, rename-EveryIn a b ds k h.1)
  rename-EveryIn a b (cons (dataset n true p cs) ds) k h = elim (Bool-cases (text_eq n a)) [
    | inl y ↦ rw y ((k b p, h.0.1), h.1)
    | inr z ↦ rw z (h.0, rename-EveryIn a b ds k h.1)
  ]

-- What the loop over the origins makes of every dataset.
module _ (h : Handles) (from to : Bytes) (P Q : Test)
    (step : (n : Bytes) (s : Bool) (p : DatasetProp)
      → P n s p
      → Q n s (new_prop h from to n p)) where
  mutual
    unfolding move_origin move_origins Every EveryIn

    move-Every :
        (d : Dataset)
        → Every P d
        → (move_origin h from to d).1 ≡ true
        → Every Q (move_origin h from to d).0
    move-Every (dataset n s p cs) k e = elim (Bool-cases (reloaded h from to n p)) [
      | inl y ↦ rw y (step n s p k.0, moves-EveryIn cs k.1 (rw y at e))
      | inr z ↦ let f = (rw z at e) in absurd cc
    ]

    pub moves-EveryIn :
        (ds : Children)
        → EveryIn P ds
        → (move_origins h from to ds).1 ≡ true
        → EveryIn Q (move_origins h from to ds).0
    moves-EveryIn nil k e = tt
    moves-EveryIn (cons d ds) k e = elim (Bool-cases (move_origin h from to d).1) [
      | inl y ↦ rw y (move-Every d k.0 y, moves-EveryIn ds k.1 (rw y at e))
      | inr z ↦ let f = (rw z at e) in absurd cc
    ]
