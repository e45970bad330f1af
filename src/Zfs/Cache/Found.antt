-- ===== src/Zfs/Cache/Found.antt =====
-- What stands below a dataset of the cache is found in the cache.
use zsys.Prelude.{Option, none, some, some_inj, ◌≡◌, refl, sym, ap, ◌∙◌, ◌⊎◌, Bool-cases, inl, inr}
use mathlib.Core.Path.{subst}
use zsys.Text.{Bytes, text_eq}
use zsys.Text.Laws.{text_eq_refl, text_eq_sound}
use zsys.Zfs.Dataset.{Dataset, dataset, Children, nil, cons, name_of, children_of}
use zsys.Zfs.Hierarchy.Reach.{ChildIn, Reach, here, below}
use zsys.Zfs.Cache.{find_dataset, find_in_children}
use zsys.Zfs.Cache.Laws.{clash, neither}

either :
    (a b : Option Dataset) (x : Dataset)
    → (elim a as (λ _. Option Dataset) [ some e ↦ some e | none ↦ b ]) ≡ some x
    → (a ≡ some x) ⊎ (b ≡ some x)
either none b x q = inr q
either (some e) b x q = inl q

-- A search that finds nothing found nothing in the children either.
missing_below :
    (m : Bytes) (d : Dataset) → find_dataset m d ≡ none → find_in_children m (children_of d) ≡ none
unfolding find_dataset
missing_below m (dataset k s p cs) h = elim (Bool-cases (text_eq k m)) [
  | inl y ↦ absurd (clash (rw y at h))
  | inr other ↦ rw other at h
]

missing_child :
    (m : Bytes) (ds : Children) (c : Dataset)
    → find_in_children m ds ≡ none
    → ChildIn c ds
    → find_dataset m c ≡ none
unfolding find_dataset
missing_child m nil c h i = elim i [ ]
missing_child m (cons d ds) c h (inl q) =
    rw q (neither (find_dataset m d) (find_in_children m ds) h).0
missing_child m (cons d ds) c h (inr i) =
    missing_child m ds c (neither (find_dataset m d) (find_in_children m ds) h).1 i

found_itself : (e : Dataset) → find_dataset (name_of e) e ≡ some e
unfolding find_dataset
found_itself (dataset k s p cs) = rw (text_eq_refl k) refl

reached : (d e : Dataset) → Reach d e → find_dataset (name_of e) d ≡ none → ⊥
reached d e (here q) h =
    clash (sym (found_itself e) ∙ subst (λ x. find_dataset (name_of e) x ≡ none) q h)
reached d e (below c i f r) h =
    reached c e r (missing_child (name_of e) (children_of d) c (missing_below (name_of e) d h) i)

mutual
  unfolding find_dataset

  missing_in :
      (n m : Bytes) (t d : Dataset)
      → find_dataset n t ≡ some d
      → find_dataset m t ≡ none
      → find_dataset m d ≡ none
  missing_in n m (dataset k s p cs) d found h = elim (Bool-cases (text_eq k n)) [
    | inl y ↦ subst (λ x. find_dataset m x ≡ none) (some_inj (rw y at found)) h
    | inr other ↦
        missing_in_children n m cs d (rw other at found) (missing_below m (dataset k s p cs) h)
  ]

  missing_in_children :
      (n m : Bytes) (cs : Children) (d : Dataset)
      → find_in_children n cs ≡ some d
      → find_in_children m cs ≡ none
      → find_dataset m d ≡ none
  missing_in_children n m nil d found h = cc
  missing_in_children n m (cons c cs) d found h =
      let (first, later) = neither (find_dataset m c) (find_in_children m cs) h in
      elim (either (find_dataset n c) (find_in_children n cs) d found) [
        | inl q ↦ missing_in n m c d q first
        | inr q ↦ missing_in_children n m cs d q later
      ]

-- Everything reached from a dataset that was found can be found by its name.
pub reached_found :
    (n : Bytes) (cs : Children) (d e : Dataset)
    → find_in_children n cs ≡ some d
    → Reach d e
    → find_in_children (name_of e) cs ≡ none
    → ⊥
reached_found n cs d e found r h = reached d e r (missing_in_children n (name_of e) cs d found h)

-- A dataset that was found has the name that was looked for.
mutual
  unfolding find_dataset

  found_name : (name : Bytes) (t d : Dataset) → find_dataset name t ≡ some d → name_of d ≡ name
  found_name name (dataset n s p cs) d h = elim (Bool-cases (text_eq n name)) [
    | inl y ↦ sym (ap name_of (some_inj (rw y at h))) ∙ text_eq_sound n name y
    | inr m ↦ found_name_children name cs d (rw m at h)
  ]

  pub found_name_children :
      (name : Bytes) (cs : Children) (d : Dataset)
      → find_in_children name cs ≡ some d
      → name_of d ≡ name
  found_name_children name nil d h = absurd cc
  found_name_children name (cons c cs) d h =
      elim (either (find_dataset name c) (find_in_children name cs) d h) [
        | inl q ↦ found_name name c d q
        | inr q ↦ found_name_children name cs d q
      ]
