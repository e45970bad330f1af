-- ===== src/Zfs/Cache/Laws.antt =====
-- Changing the children of a dataset and changing them back.
use zsys.Prelude.{
  Bool, true, false, not, Option, none, some, ◌≡◌, refl, ap, arith, Bool-cases, inl, inr,
}
use zsys.Text.{Bytes, text_eq}
use zsys.Text.Laws.{text_eq_refl}
use zsys.Zfs.Dataset.{Dataset, dataset, Children, nil, cons, name_of}
use zsys.Zfs.Hierarchy.{has_child_named, remove_child}
use zsys.Zfs.Cache.{
  find_dataset, find_in_children, change_at, change_in_children, append_child, drop_child, vacant,
  vacant_in_children,
}

remove_child-append_child :
    (x : Dataset) (cs : Children)
    → has_child_named (name_of x) cs ≡ false
    → remove_child (name_of x) (append_child x cs) ≡ some cs
unfolding has_child_named remove_child append_child
remove_child-append_child x nil h = rw (text_eq_refl (name_of x)) refl
remove_child-append_child x (cons d ds) h = elim (Bool-cases (text_eq (name_of d) (name_of x))) [
  | inl y ↦ absurd (ground arith)
  | inr n ↦ rw (n, remove_child-append_child x ds (rw n at h)) refl
]

drop_child-append_child :
    (x : Dataset) (cs : Children)
    → has_child_named (name_of x) cs ≡ false
    → drop_child (name_of x) (append_child x cs) ≡ cs
unfolding drop_child
drop_child-append_child x cs h = rw (remove_child-append_child x cs h, drop_child) refl

pub unless_named : (b : Bool) → not b ≡ true → b ≡ false
unless_named true h = absurd (cc)
unless_named false h = refl

mutual
  unfolding change_at vacant

  -- A child that was appended is taken away again.
  pub change_back :
      (n : Bytes) (x t : Dataset)
      → vacant n (name_of x) t ≡ true
      → change_at n (drop_child (name_of x)) (change_at n (append_child x) t) ≡ t
  change_back n x (dataset m s p cs) h = elim (Bool-cases (text_eq m n)) [
    | inl y ↦ rw y (
        rw y (
          ap (dataset m s p) (
            drop_child-append_child x cs
              (unless_named (has_child_named (name_of x) cs) (rw y at h)))))
    | inr other ↦
        rw other (rw other (ap (dataset m s p) (change_back_children n x cs (rw other at h))))
  ]

  pub change_back_children :
      (n : Bytes) (x : Dataset) (cs : Children)
      → vacant_in_children n (name_of x) cs ≡ true
      → change_in_children n (drop_child (name_of x)) (change_in_children n (append_child x) cs)
        ≡ cs
  change_back_children n x nil h = refl
  change_back_children n x (cons d ds) h = elim (Bool-cases (vacant n (name_of x) d)) [
    | inl y ↦ rw (change_back n x d y, change_back_children n x ds (rw y at h)) refl
    | inr other ↦ absurd (ground arith)
  ]

pub clash : {e : Dataset} → some e ≡ none → ⊥
clash h = cc

pub neither :
    (a b : Option Dataset)
    → (elim a [ some e ↦ some e | none ↦ b ]) ≡ none
    → (a ≡ none) × (b ≡ none)
neither none b h = (refl, h)
neither (some e) b h = absurd (clash h)

mutual
  unfolding find_dataset change_at

  -- A change that finds no dataset of the name changes nothing.
  pub change_missed :
      (n : Bytes) (f : Children → Children) (t : Dataset)
      → find_dataset n (change_at n f t) ≡ none
      → change_at n f t ≡ t
  change_missed n f (dataset m s p cs) h = elim (Bool-cases (text_eq m n)) [
    | inl y ↦ absurd (clash (rw y at (rw y at h)))
    | inr other ↦
        rw other (ap (dataset m s p) (change_missed_children n f cs (rw other at (rw other at h))))
  ]

  pub change_missed_children :
      (n : Bytes) (f : Children → Children) (cs : Children)
      → find_in_children n (change_in_children n f cs) ≡ none
      → change_in_children n f cs ≡ cs
  change_missed_children n f nil h = refl
  change_missed_children n f (cons d ds) h =
      let (first, later) =
        neither (find_dataset n (change_at n f d)) (find_in_children n (change_in_children n f ds))
          h in
      rw (change_missed n f d first, change_missed_children n f ds later) refl
