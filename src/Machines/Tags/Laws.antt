-- ===== src/Machines/Tags/Laws.antt =====
-- What is left of the tags, and of the datasets.
use mathlib.Core.List.{Memᴰ}
use zsys.Prelude.{true, false, List, [], ◌∷◌, ◌++◌, ◌≡◌, refl, Bool-cases, inl, inr}
use zsys.Text.{Bytes, text_eq, join}
use zsys.Text.Split.{Separate, split-join}
use zsys.Zfs.Dataset.{Dataset, name_of}
use zsys.Machines.Tags.{separator, new_tags, new_tag, named_in, diff_datasets}

-- All tags are the one to remove.
abbrev pub AllLinked : Bytes → List Bytes → Type 0
AllLinked linked [] = Unit
AllLinked linked (n ∷ ns) = (text_eq n linked ≡ true) × AllLinked linked ns

new_tags-first :
    (linked x : Bytes) (pre rest : List Bytes)
    → AllLinked linked pre
    → text_eq x linked ≡ false
    → new_tags linked (pre ++ x ∷ rest) ≡ x ∷ []
unfolding new_tags
new_tags-first linked x [] rest h e = rw e refl
new_tags-first linked x (n ∷ pre) rest h e = rw h.0 (new_tags-first linked x pre rest h.1 e)

-- Removing a linked state from the tags leaves only the first of the other tags, and drops all that
-- stand behind it.
pub new_tag-join :
    (linked x : Bytes) (pre rest : List Bytes)
    → Separate separator (pre ++ x ∷ rest)
    → AllLinked linked pre
    → text_eq x linked ≡ false
    → new_tag linked (join (pre ++ x ∷ rest) (separator ∷ [])) ≡ x
unfolding new_tag join
new_tag-join linked x [] rest s h e =
    rw (split-join x rest separator s) (rw (new_tags-first linked x [] rest h e) refl)
new_tag-join linked x (n ∷ pre) rest s h e =
    rw (split-join n (pre ++ x ∷ rest) separator s)
      (rw (new_tags-first linked x (n ∷ pre) rest h e) refl)

kept_or_rest :
    (b us vs : List Dataset) (x u : Dataset)
    → named_in (name_of u) b ≡ false
    → (Memᴰ x us → Memᴰ x vs × (named_in (name_of x) b ≡ false))
    → Memᴰ x (u ∷ us)
    → Memᴰ x (u ∷ vs) × (named_in (name_of x) b ≡ false)
kept_or_rest b us vs x u free h (Memᴰ.head e) = (Memᴰ.head e, rw e free)
kept_or_rest b us vs x u free h (Memᴰ.tail i) = let (j, k) = h i in (Memᴰ.tail j, k)

diff_datasets_sound :
    (a b : List Dataset) (x : Dataset)
    → Memᴰ x (diff_datasets a b)
    → Memᴰ x a × (named_in (name_of x) b ≡ false)
unfolding diff_datasets
diff_datasets_sound [] b x h = elim h [ ]
diff_datasets_sound (y ∷ a) b x h = elim (Bool-cases (named_in (name_of y) b)) [
  | inl named ↦ let (i, k) = diff_datasets_sound a b x (rw named at h) in (Memᴰ.tail i, k)
  | inr free ↦
      kept_or_rest b (diff_datasets a b) a x y free (diff_datasets_sound a b x) (rw free at h)
]

diff_datasets_complete :
    (a b : List Dataset) (x : Dataset)
    → Memᴰ x a
    → named_in (name_of x) b ≡ false
    → Memᴰ x (diff_datasets a b)
unfolding diff_datasets
diff_datasets_complete [] b x h k = elim h [ ]
diff_datasets_complete (y ∷ a) b x (Memᴰ.head e) k = rw (← e) (rw k (Memᴰ.head refl))
diff_datasets_complete (y ∷ a) b x (Memᴰ.tail h) k = elim (Bool-cases (named_in (name_of y) b)) [
  | inl named ↦ rw named (diff_datasets_complete a b x h k)
  | inr free ↦ rw free (Memᴰ.tail (diff_datasets_complete a b x h k))
]

-- A dataset is in the difference exactly if it is in the first list and no dataset of the second
-- has its name.
pub diff_datasets_iff :
    (a b : List Dataset) (x : Dataset)
    → (Memᴰ x (diff_datasets a b) → Memᴰ x a × (named_in (name_of x) b ≡ false))
      × (Memᴰ x a → named_in (name_of x) b ≡ false → Memᴰ x (diff_datasets a b))
diff_datasets_iff a b x = (diff_datasets_sound a b x, diff_datasets_complete a b x)
