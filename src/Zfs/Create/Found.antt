-- ===== src/Zfs/Create/Found.antt =====
-- A new child in the cache, where its name was not known.
use zsys.Prelude.{
  Bool, true, false, Option, none, some, ◌≡◌, refl, ap, ◌⊎◌, inl, inr, Bool-cases, no_value,
}
use zsys.Text.{Bytes, text_eq}
use zsys.Text.Laws.{text_eq_refl}
use zsys.Zfs.Dataset.{Dataset, DatasetProp, dataset, Children, nil, cons, name_of}
use zsys.Zfs.Hierarchy.{has_child_named}
use zsys.Zfs.Cache.{
  find_dataset, find_in_children, change_at, change_in_children, append_child, vacant,
  vacant_in_children,
}
use zsys.Zfs.Cache.Laws.{neither}

unnamed : (c : Bytes) (d : Dataset) → find_dataset c d ≡ none → text_eq (name_of d) c ≡ false
unfolding find_dataset
unnamed c (dataset n s p cs) h = elim (Bool-cases (text_eq n c)) [
  | inl y ↦ absurd (no_value (rw y at h))
  | inr m ↦ m
]

in_children :
    (c : Bytes) (n : Bytes) (s : Bool) (p : DatasetProp) (cs : Children)
    → find_dataset c (dataset n s p cs) ≡ none
    → find_in_children c cs ≡ none
unfolding find_dataset
in_children c n s p cs h = elim (Bool-cases (text_eq n c)) [
  | inl y ↦ absurd (no_value (rw y at h))
  | inr m ↦ rw m at h
]

childless :
    (c : Bytes) (cs : Children) → find_in_children c cs ≡ none → has_child_named c cs ≡ false
unfolding has_child_named find_dataset
childless c nil h = refl
childless c (cons d ds) h =
    let (first, later) = neither (find_dataset c d) (find_in_children c ds) h in
    rw (unnamed c d first) (childless c ds later)

-- A name that is not in the cache is vacant everywhere.
mutual
  unfolding vacant find_dataset

  missing_vacant_at : (n c : Bytes) (d : Dataset) → find_dataset c d ≡ none → vacant n c d ≡ true
  missing_vacant_at n c (dataset m s p cs) h =
      let none_below = in_children c m s p cs h in
      elim (Bool-cases (text_eq m n)) [
        | inl y ↦ rw (y, childless c cs none_below) refl
        | inr other ↦ rw other (missing_vacant n c cs none_below)
      ]

  pub missing_vacant :
      (n c : Bytes) (cs : Children)
      → find_in_children c cs ≡ none
      → vacant_in_children n c cs ≡ true
  missing_vacant n c nil h = refl
  missing_vacant n c (cons d ds) h =
      let (first, later) = neither (find_dataset c d) (find_in_children c ds) h in
      rw (missing_vacant_at n c d first) (missing_vacant n c ds later)

-- Either nothing was appended, or what is found is the new child.
abbrev NewOrNone : Dataset → Option Dataset → Type 0
NewOrNone x o = (o ≡ none) ⊎ (o ≡ some x)

first_of :
    (x : Dataset) (a b : Option Dataset)
    → NewOrNone x a
    → NewOrNone x b
    → NewOrNone x (elim a as (λ _. Option Dataset) [ some e ↦ some e | none ↦ b ])
first_of x a b (inl h) k = rw h k
first_of x a b (inr h) k = rw h (inr refl)

found_itself : (x : Dataset) → find_dataset (name_of x) x ≡ some x
unfolding find_dataset
found_itself (dataset n s p cs) = rw (text_eq_refl n) refl

found_later :
    (x : Dataset) (a b : Option Dataset)
    → a ≡ none
    → b ≡ some x
    → (elim a as (λ _. Option Dataset) [ some e ↦ some e | none ↦ b ]) ≡ some x
found_later x a b h k = rw h k

found_first :
    (x : Dataset) (a : Option Dataset)
    → a ≡ some x
    → (elim a as (λ _. Option Dataset) [ some e ↦ some e | none ↦ none ]) ≡ some x
found_first x a h = rw h refl

appended_new :
    (x : Dataset) (cs : Children)
    → find_in_children (name_of x) cs ≡ none
    → find_in_children (name_of x) (append_child x cs) ≡ some x
unfolding find_dataset append_child
appended_new x nil h = found_first x (find_dataset (name_of x) x) (found_itself x)
appended_new x (cons d ds) h =
    let (first, later) = neither (find_dataset (name_of x) d) (find_in_children (name_of x) ds) h in
    found_later x (find_dataset (name_of x) d) (find_in_children (name_of x) (append_child x ds))
      first (appended_new x ds later)

mutual
  unfolding change_at find_dataset

  new_at :
      (n : Bytes) (x d : Dataset)
      → find_dataset (name_of x) d ≡ none
      → NewOrNone x (find_dataset (name_of x) (change_at n (append_child x) d))
  new_at n x (dataset m s p cs) h =
      let below = in_children (name_of x) m s p cs h in
      let other = unnamed (name_of x) (dataset m s p cs) h in
      elim (Bool-cases (text_eq m n)) [
        | inl y ↦ rw (y, other) (inr (appended_new x cs below))
        | inr k ↦ rw (k, other) (new_in_children n x cs below)
      ]

  pub new_in_children :
      (n : Bytes) (x : Dataset) (cs : Children)
      → find_in_children (name_of x) cs ≡ none
      → NewOrNone x (find_in_children (name_of x) (change_in_children n (append_child x) cs))
  new_in_children n x nil h = inl refl
  new_in_children n x (cons d ds) h =
      let (first, later) =
        neither (find_dataset (name_of x) d) (find_in_children (name_of x) ds) h in
      first_of x (find_dataset (name_of x) (change_at n (append_child x) d))
        (find_in_children (name_of x) (change_in_children n (append_child x) ds))
        (new_at n x d first) (new_in_children n x ds later)

mutual
  unfolding change_at find_dataset

  missing_same :
      (n : Bytes) (f : Children → Children) (d : Dataset)
      → find_dataset n d ≡ none
      → change_at n f d ≡ d
  missing_same n f (dataset m s p cs) h =
      rw (unnamed n (dataset m s p cs) h)
        (ap (dataset m s p) (missing_same_children n f cs (in_children n m s p cs h)))

  -- A change at a name that is not in the cache changes nothing.
  pub missing_same_children :
      (n : Bytes) (f : Children → Children) (cs : Children)
      → find_in_children n cs ≡ none
      → change_in_children n f cs ≡ cs
  missing_same_children n f nil h = refl
  missing_same_children n f (cons d ds) h =
      let (first, later) = neither (find_dataset n d) (find_in_children n ds) h in
      rw (missing_same n f d first, missing_same_children n f ds later) refl
