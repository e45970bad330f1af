-- ===== src/Machines/Unique/Laws.antt =====
-- Appending keeps the names apart and loses nothing.
use mathlib.Core.List.{Memᴰ}
use zsys.Prelude.{
  Bool, true, false, ◌||◌, List, [], ◌∷◌, ◌++◌, ◌≡◌, refl, ◌∙◌, arith, if◌then◌else◌, Bool-cases,
  inl, inr,
}
use zsys.Text.{Bytes, text_eq}
use zsys.Text.Laws.{text_eq_refl, text_eq_sound}
use zsys.Zfs.Dataset.{Dataset, name_of}
use zsys.Machines.Tags.{named_in}
use zsys.Machines.Unique.{is_excluded, append_one, append_dataset_if_not_present}

-- No two datasets have the same name.
abbrev pub DistinctNames : List Dataset → Type 0
DistinctNames [] = Unit
DistinctNames (d ∷ ds) = (named_in (name_of d) ds ≡ false) × DistinctNames ds

named_in-append :
    (n : Bytes) (xs ys : List Dataset) → named_in n (xs ++ ys) ≡ (named_in n xs || named_in n ys)
unfolding named_in
named_in-append n [] ys = refl
named_in-append n (x ∷ xs) ys = ground (arith, named_in-append n xs ys)

text_eq-swap : (s t : Bytes) → text_eq s t ≡ false → text_eq t s ≡ false
text_eq-swap s t h = elim (Bool-cases (text_eq t s)) [
  | inl y ↦
      let same = text_eq_sound t s y in
      let yes : text_eq s t ≡ true = rw same (text_eq_refl s) in absurd (cc)
  | inr n ↦ n
]

DistinctNames-append :
    (main : List Dataset) (d : Dataset)
    → DistinctNames main
    → named_in (name_of d) main ≡ false
    → DistinctNames (main ++ d ∷ [])
unfolding named_in
DistinctNames-append [] d h free = (refl, tt)
DistinctNames-append (x ∷ main) d h free =
    let other = text_eq-swap (name_of x) (name_of d) (ground arith) in
    (
      named_in-append (name_of x) main (d ∷ []) ∙ rw (h.0, other) refl,
      DistinctNames-append main d h.1 (ground arith),
    )

step-DistinctNames :
    (main : List Dataset) (d : Dataset) (skip : Bool)
    → DistinctNames main
    → DistinctNames
        (if skip then main else if named_in (name_of d) main then main else main ++ d ∷ [])
step-DistinctNames main d true h = h
step-DistinctNames main d false h = elim (Bool-cases (named_in (name_of d) main)) [
  | inl named ↦ rw named h
  | inr free ↦ rw free (DistinctNames-append main d h free)
]

append_DistinctNames :
    (main new : List Dataset) (exclude : Bool)
    → DistinctNames main
    → DistinctNames (append_dataset_if_not_present main new exclude)
unfolding append_dataset_if_not_present append_one
append_DistinctNames main [] exclude h = h
append_DistinctNames main (d ∷ new) exclude h =
    append_DistinctNames (append_one exclude main d) new exclude
      (step-DistinctNames main d (is_excluded exclude d) h)

step_keeps :
    (main : List Dataset) (d : Dataset) (skip : Bool) (n : Bytes)
    → named_in n main ≡ true
    → named_in n (if skip then main else if named_in (name_of d) main then main else main ++ d ∷ [])
      ≡ true
step_keeps main d true n h = h
step_keeps main d false n h = elim (Bool-cases (named_in (name_of d) main)) [
  | inl named ↦ rw named h
  | inr free ↦ rw free (named_in-append n main (d ∷ []) ∙ rw h refl)
]

append_keeps :
    (main new : List Dataset) (exclude : Bool) (n : Bytes)
    → named_in n main ≡ true
    → named_in n (append_dataset_if_not_present main new exclude) ≡ true
unfolding append_dataset_if_not_present append_one
append_keeps main [] exclude n h = h
append_keeps main (d ∷ new) exclude n h =
    append_keeps (append_one exclude main d) new exclude n
      (step_keeps main d (is_excluded exclude d) n h)

step_adds :
    (main : List Dataset) (d : Dataset) (skip : Bool)
    → skip ≡ false
    → named_in
        (name_of d)
        (if skip then main else if named_in (name_of d) main then main else main ++ d ∷ [])
      ≡ true
unfolding named_in
step_adds main d true f = absurd (cc)
step_adds main d false f = elim (Bool-cases (named_in (name_of d) main)) [
  | inl named ↦ rw named named
  | inr free ↦
      rw free (named_in-append (name_of d) main (d ∷ []) ∙ rw (free, text_eq_refl (name_of d)) refl)
]

append_adds :
    (main new : List Dataset) (exclude : Bool) (x : Dataset)
    → Memᴰ x new
    → is_excluded exclude x ≡ false
    → named_in (name_of x) (append_dataset_if_not_present main new exclude) ≡ true
unfolding append_dataset_if_not_present append_one
append_adds main [] exclude x i f = elim i [ ]
append_adds main (d ∷ new) exclude x (Memᴰ.head e) f =
    append_keeps (append_one exclude main d) new exclude (name_of x)
      (rw e (step_adds main d (is_excluded exclude d) (rw e at f)))
append_adds main (d ∷ new) exclude x (Memᴰ.tail i) f =
    append_adds (append_one exclude main d) new exclude x i f

-- If the datasets have different names, so have they after the append, with every name that was
-- there and the names of all new datasets that are not excluded.
pub append_dataset_if_not_present_lem :
    (main new : List Dataset) (exclude : Bool)
    → DistinctNames main
    → DistinctNames (append_dataset_if_not_present main new exclude)
      × ((n : Bytes)
          → named_in n main ≡ true
          → named_in n (append_dataset_if_not_present main new exclude) ≡ true)
      × ((x : Dataset)
          → Memᴰ x new
          → is_excluded exclude x ≡ false
          → named_in (name_of x) (append_dataset_if_not_present main new exclude) ≡ true)
append_dataset_if_not_present_lem main new exclude h = (
  append_DistinctNames main new exclude h,
  append_keeps main new exclude,
  append_adds main new exclude,
)
