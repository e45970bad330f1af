-- ===== src/Zfs/Cache/Vacant.antt =====
-- Which children a dataset of the cache has after one was appended.
use zsys.Prelude.{
  Bool, true, false, Option, none, some, if◌then◌else◌, ◌≡◌, refl, arith, Bool-cases, inl, inr,
}
use zsys.Text.{Bytes, text_eq}
use zsys.Text.Laws.{text_eq_refl}
use zsys.Zfs.Dataset.{Dataset, dataset, Children, nil, cons, name_of}
use zsys.Zfs.Hierarchy.{has_child_named}
use zsys.Zfs.Cache.{
  find_dataset, find_in_children, change_at, change_in_children, append_child, vacant,
  vacant_in_children,
}
use zsys.Zfs.Cache.Laws.{clash, neither, unless_named}

has_child_named-append_child :
    (x : Dataset) (cs : Children) → has_child_named (name_of x) (append_child x cs) ≡ true
unfolding has_child_named append_child
has_child_named-append_child x nil = rw (text_eq_refl (name_of x)) refl
has_child_named-append_child x (cons d ds) = ground (arith, has_child_named-append_child x ds)

has_child_named-more :
    (c : Bytes) (x : Dataset) (cs : Children)
    → has_child_named c (append_child x cs) ≡ false
    → has_child_named c cs ≡ false
unfolding has_child_named append_child
has_child_named-more c x nil h = refl
has_child_named-more c x (cons d ds) h = ground (arith, has_child_named-more c x ds)

both_vacant : (b c : Bool) → (if b then c else false) ≡ true → (b ≡ true) × (c ≡ true)
both_vacant true c h = (refl, h)
both_vacant false c h = absurd (cc)

vacant-append_child :
    (n c : Bytes) (x : Dataset) (cs : Children)
    → vacant_in_children n c (append_child x cs) ≡ true
    → vacant_in_children n c cs ≡ true
unfolding vacant append_child
vacant-append_child n c x nil h = refl
vacant-append_child n c x (cons d ds) h =
    let (first, later) =
      both_vacant (vacant n c d) (vacant_in_children n c (append_child x ds)) h in
    rw first (vacant-append_child n c x ds later)

nowhere :
    (a b : Option Dataset)
    → a ≡ none
    → b ≡ none
    → (elim a as (λ x. Option Dataset) [ some e ↦ some e | none ↦ b ]) ≡ none
nowhere none b h k = k
nowhere (some e) b h k = absurd (cc)

name_of-change_at :
    (m : Bytes) (f : Children → Children) (d : Dataset) → name_of (change_at m f d) ≡ name_of d
unfolding change_at
name_of-change_at m f (dataset k s p cs) = elim (Bool-cases (text_eq k m)) [
  | inl y ↦ rw y refl
  | inr other ↦ rw other refl
]

has_child_named-change_in_children :
    (c m : Bytes) (f : Children → Children) (cs : Children)
    → has_child_named c (change_in_children m f cs) ≡ has_child_named c cs
unfolding has_child_named change_at
has_child_named-change_in_children c m f nil = refl
has_child_named-change_in_children c m f (cons d ds) =
    rw (name_of-change_at m f d, has_child_named-change_in_children c m f ds) refl

mutual
  unfolding change_at vacant find_dataset

  -- Where the child was appended it is found.
  pub appended :
      (n : Bytes) (x t : Dataset)
      → vacant n (name_of x) (change_at n (append_child x) t) ≡ true
      → find_dataset n t ≡ none
  appended n x (dataset m s p cs) h = elim (Bool-cases (text_eq m n)) [
    | inl y ↦
        let free =
          unless_named (has_child_named (name_of x) (append_child x cs)) (rw y at (rw y at h)) in
        let there = has_child_named-append_child x cs in absurd (cc)
    | inr other ↦ rw other (appended_children n x cs (rw other at (rw other at h)))
  ]

  pub appended_children :
      (n : Bytes) (x : Dataset) (cs : Children)
      → vacant_in_children n (name_of x) (change_in_children n (append_child x) cs) ≡ true
      → find_in_children n cs ≡ none
  appended_children n x nil h = refl
  appended_children n x (cons d ds) h =
      let (first, later) =
        both_vacant (vacant n (name_of x) (change_at n (append_child x) d))
          (vacant_in_children n (name_of x) (change_in_children n (append_child x) ds)) h in
      nowhere (find_dataset n d) (find_in_children n ds) (appended n x d first)
        (appended_children n x ds later)

mutual
  unfolding change_at vacant

  -- No child is lost when one is appended.
  pub still_vacant :
      (n c m : Bytes) (x t : Dataset)
      → vacant n c (change_at m (append_child x) t) ≡ true
      → vacant n c t ≡ true
  still_vacant n c m x (dataset k s p cs) h = elim (Bool-cases (text_eq k m)) [
    | inl y ↦ elim (Bool-cases (text_eq k n)) [
      | inl q ↦
          let free = unless_named (has_child_named c (append_child x cs)) (rw q at (rw y at h)) in
          rw (q, has_child_named-more c x cs free) refl
      | inr other ↦ rw other (vacant-append_child n c x cs (rw other at (rw y at h)))
    ]
    | inr keep ↦ elim (Bool-cases (text_eq k n)) [
      | inl q ↦ rw q (
          rw (has_child_named-change_in_children c m (append_child x) cs) at
            (rw q at (rw keep at h)))
      | inr other ↦ rw other (still_vacant_children n c m x cs (rw other at (rw keep at h)))
    ]
  ]

  pub still_vacant_children :
      (n c m : Bytes) (x : Dataset) (cs : Children)
      → vacant_in_children n c (change_in_children m (append_child x) cs) ≡ true
      → vacant_in_children n c cs ≡ true
  still_vacant_children n c m x nil h = refl
  still_vacant_children n c m x (cons d ds) h =
      let (first, later) =
        both_vacant (vacant n c (change_at m (append_child x) d))
          (vacant_in_children n c (change_in_children m (append_child x) ds)) h in
      rw (still_vacant n c m x d first) (still_vacant_children n c m x ds later)

missing-append_child :
    (n : Bytes) (x : Dataset) (cs : Children)
    → find_in_children n (append_child x cs) ≡ none
    → find_in_children n cs ≡ none
unfolding find_dataset append_child
missing-append_child n x nil h = refl
missing-append_child n x (cons d ds) h =
    let (first, later) = neither (find_dataset n d) (find_in_children n (append_child x ds)) h in
    nowhere (find_dataset n d) (find_in_children n ds) first (missing-append_child n x ds later)

mutual
  unfolding change_at find_dataset

  -- No dataset is lost when a child is appended.
  pub still_missing :
      (n m : Bytes) (x t : Dataset)
      → find_dataset n (change_at m (append_child x) t) ≡ none
      → find_dataset n t ≡ none
  still_missing n m x (dataset k s p cs) h = elim (Bool-cases (text_eq k m)) [
    | inl y ↦ elim (Bool-cases (text_eq k n)) [
      | inl q ↦ absurd (clash (rw q at (rw y at h)))
      | inr other ↦ rw other (missing-append_child n x cs (rw other at (rw y at h)))
    ]
    | inr keep ↦ elim (Bool-cases (text_eq k n)) [
      | inl q ↦ absurd (clash (rw q at (rw keep at h)))
      | inr other ↦ rw other (still_missing_children n m x cs (rw other at (rw keep at h)))
    ]
  ]

  pub still_missing_children :
      (n m : Bytes) (x : Dataset) (cs : Children)
      → find_in_children n (change_in_children m (append_child x) cs) ≡ none
      → find_in_children n cs ≡ none
  still_missing_children n m x nil h = refl
  still_missing_children n m x (cons d ds) h =
      let (first, later) =
        neither (find_dataset n (change_at m (append_child x) d))
          (find_in_children n (change_in_children m (append_child x) ds)) h in
      nowhere (find_dataset n d) (find_in_children n ds) (still_missing n m x d first)
        (still_missing_children n m x ds later)
