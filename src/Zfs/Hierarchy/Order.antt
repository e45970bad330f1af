-- ===== src/Zfs/Hierarchy/Order.antt =====
-- `Datasets` lists the whole tree, and `removeChild` takes one child out of it.
use mathlib.Core.List.{Memᴰ}
use mathlib.Core.Path.{subst}
use zsys.Prelude.{
  false, none, some, List, [], ◌∷◌, ◌++◌, append-nil, append_assoc, ◌≡◌, refl, sym, ap, ◌∙◌, ◌⊎◌,
  inl, inr, Bool-cases,
}
use zsys.Text.{Bytes, text_eq}
use zsys.Text.Laws.{text_eq_sound}
use zsys.Zfs.Dataset.{Dataset, dataset, Children, nil, cons, name_of, children_of, to_list}
use zsys.Zfs.Hierarchy.{collect_dataset, collect_children, remove_child}
use zsys.Zfs.Hierarchy.Reach.{ChildIn}

-- Down from a dataset over any children.
pub data Under : Dataset → Dataset → Type 0 where
  here : {d e : Dataset} → d ≡ e → Under d e
  below : {d e : Dataset} (c : Dataset) → ChildIn c (children_of d) → Under c e → Under d e

head-collect_dataset : (d : Dataset) → collect_dataset d ≡ d ∷ collect_children (children_of d)
unfolding collect_dataset
head-collect_dataset (dataset n s p cs) = refl

-- The list of a child stands as one piece in the list of the children.
piece_of_children :
    (ds : Children) (c : Dataset)
    → ChildIn c ds
    → (xs ys : List Dataset) × (collect_children ds ≡ xs ++ (collect_dataset c ++ ys))
unfolding collect_children
piece_of_children nil c i = elim i [ ]
piece_of_children (cons d ds) c (inl q) =
    ([], collect_children ds, ap (λ x. collect_dataset x ++ collect_children ds) (sym q))
piece_of_children (cons d ds) c (inr i) =
    let (xs, ys, e) = piece_of_children ds c i in
    (
      collect_dataset d ++ xs,
      ys,
      ap (λ l. collect_dataset d ++ l) e
          ∙ sym (append_assoc (collect_dataset d) xs (collect_dataset c ++ ys)),
    )

-- So does the list of a dataset anywhere below.
piece_of_dataset :
    (d e : Dataset)
    → Under d e
    → (xs ys : List Dataset) × (collect_dataset d ≡ xs ++ (collect_dataset e ++ ys))
piece_of_dataset d e (here q) = ([], [], rw q (sym (append-nil (collect_dataset e))))
piece_of_dataset d e (below c i u) =
    let (xs, ys, p) = piece_of_children (children_of d) c i in
    let (us, vs, q) = piece_of_dataset c e u in
    (
      d ∷ (xs ++ us),
      vs ++ ys,
      head-collect_dataset d
          ∙ ap (λ l. d ∷ l)
              (p
                ∙ ap (λ l. xs ++ (l ++ ys)) q
                ∙ ap (λ l. xs ++ l) (append_assoc us (collect_dataset e ++ vs) ys)
                ∙ ap (λ l. xs ++ (us ++ l)) (append_assoc (collect_dataset e) vs ys)
                ∙ sym (append_assoc xs us (collect_dataset e ++ (vs ++ ys)))),
    )

mem-append : (c : Dataset) (xs ys : List Dataset) → Memᴰ c xs → Memᴰ c (xs ++ ys)
mem-append c [] ys h = elim h [ ]
mem-append c (x ∷ xs) ys (Memᴰ.head e) = Memᴰ.head e
mem-append c (x ∷ xs) ys (Memᴰ.tail h) = Memᴰ.tail (mem-append c xs ys h)

mem-append_right : (c : Dataset) (xs ys : List Dataset) → Memᴰ c ys → Memᴰ c (xs ++ ys)
mem-append_right c [] ys h = h
mem-append_right c (x ∷ xs) ys h = Memᴰ.tail (mem-append_right c xs ys h)

child_listed : (c : Dataset) (ds : Children) → ChildIn c ds → Memᴰ c (collect_children ds)
unfolding collect_children
child_listed c ds i =
    let (xs, ys, e) = piece_of_children ds c i in
    subst (Memᴰ c) (sym e) (
      mem-append_right c xs (collect_dataset c ++ ys)
        (subst (λ l. Memᴰ c (l ++ ys)) (sym (head-collect_dataset c)) (Memᴰ.head refl)))

-- Every dataset below d, over children of any kind, is in the list of d, and each of its children
-- stands behind it there.
pub collect_dataset_order :
    (d p c : Dataset)
    → Under d p
    → ChildIn c (children_of p)
    → (xs ys : List Dataset) × (collect_dataset d ≡ xs ++ (p ∷ ys)) × Memᴰ c ys
collect_dataset_order d p c u i =
    let (xs, ys, e) = piece_of_dataset d p u in
    (
      xs,
      collect_children (children_of p) ++ ys,
      e ∙ ap (λ l. xs ++ (l ++ ys)) (head-collect_dataset p),
      mem-append c (collect_children (children_of p)) ys (child_listed c (children_of p) i),
    )

abbrev pub Unnamed : Bytes → List Dataset → Type 0
Unnamed name [] = Unit
Unnamed name (d ∷ ds) = (text_eq (name_of d) name ≡ false) × Unnamed name ds

-- `removeChild` fails exactly if no child has the name, and else takes the first child of the name
-- out of the children, the others in their order.
pub remove_child_lem :
    (name : Bytes) (ds : Children)
    → ((remove_child name ds ≡ none) × Unnamed name (to_list ds))
      ⊎ ((rest : Children) × (pre post : List Dataset) × (d : Dataset) × (remove_child name ds
            ≡ some rest)
          × (to_list ds ≡ pre ++ (d ∷ post))
          × (to_list rest ≡ pre ++ post)
          × (name_of d ≡ name)
          × Unnamed name pre)
unfolding remove_child
remove_child_lem name nil = inl (refl, tt)
remove_child_lem name (cons d ds) = elim (Bool-cases (text_eq (name_of d) name)) [
  | inl y ↦ inr (ds, [], to_list ds, d, rw y refl, refl, refl, text_eq_sound (name_of d) name y, tt)
  | inr n ↦ elim (remove_child_lem name ds) [
    | inl (e, h) ↦ inl (rw (n, e) refl, (n, h))
    | inr (rest, pre, post, c, e, q, r, named, h) ↦ inr (
      cons d rest,
      d ∷ pre,
      post,
      c,
      rw (n, e) refl,
      ap (λ l. d ∷ l) q,
      ap (λ l. d ∷ l) r,
      named,
      (n, h),
    )
  ]
]
