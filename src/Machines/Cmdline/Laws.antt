-- ===== src/Machines/Cmdline/Laws.antt =====
-- The root and the revert tag of a command line, against the entries it is written from.
use zsys.Prelude.{
  Bool, false, ◌||◌, List, [], ◌∷◌, ◌++◌, ◌≡◌, ◌≢◌, refl, ap, ◌∙◌, arith, Bool-cases, inl, inr,
  length, length-append, drop,
}
use zsys.Text.{Bytes, text_eq, has_prefix, has_byte, base, join}
use zsys.Text.Laws.{
  text_eq_refl, text_eq_sound, trim_prefix-append, trim_prefix-other, has_prefix_sound,
}
use zsys.Text.Fields.{AllWords, space, fields-join}
use zsys.Machines.Cmdline.{
  kernel_prefix, zfs_root_prefix, zfs_revert_user_data_tag, boot_parameters_step,
  boot_parameters_loop, boot_parameters_from_cmdline, kernel_loop, kernel_from_cmdline,
  has_booted_on_snapshot,
}

-- No entry sets the root.
abbrev pub NoRoot : List Bytes → Type 0
NoRoot [] = Unit
NoRoot (e ∷ es) = (has_prefix e zfs_root_prefix ≡ false) × NoRoot es

-- No entry names the kernel.
abbrev pub NoKernel : List Bytes → Type 0
NoKernel [] = Unit
NoKernel (e ∷ es) = (has_prefix e kernel_prefix ≡ false) × NoKernel es

-- Some entry is the tag.
unfoldable pub has_tag : List Bytes → Bool
has_tag [] = false
has_tag (e ∷ es) = text_eq e zfs_revert_user_data_tag || has_tag es

-- A text is not its own continuation.
text_eq-append : (p r : Bytes) → p ≢ [] → text_eq (p ++ r) r ≡ false
text_eq-append [] r h = absurd (h refl)
text_eq-append (c ∷ p) r h = elim (Bool-cases (text_eq (c ∷ p ++ r) r)) [
  | inl e ↦ absurd (omega (arith, length-append p r, ap length (text_eq_sound (c ∷ p ++ r) r e)))
  | inr e ↦ e
]

step-root :
    (r root : Bytes) (revert : Bool)
    → boot_parameters_step (zfs_root_prefix ++ r) root revert ≡ (r, revert)
unfolding boot_parameters_step
step-root r root revert =
    rw (trim_prefix-append zfs_root_prefix r, text_eq-append zfs_root_prefix r (cc)) refl

step-other :
    (e root : Bytes) (revert : Bool)
    → has_prefix e zfs_root_prefix ≡ false
    → boot_parameters_step e root revert ≡ (root, text_eq e zfs_revert_user_data_tag || revert)
unfolding boot_parameters_step
step-other e root revert h =
    rw (trim_prefix-other e zfs_root_prefix h, text_eq_refl e) (ground arith)

loop-NoRoot :
    (es : List Bytes) (root : Bytes) (revert : Bool)
    → NoRoot es
    → boot_parameters_loop es root revert ≡ (root, has_tag es || revert)
unfolding boot_parameters_loop has_tag
loop-NoRoot [] root revert h = refl
loop-NoRoot (e ∷ es) root revert h =
    rw (step-other e root revert h.0)
      (loop-NoRoot es root (text_eq e zfs_revert_user_data_tag || revert) h.1 ∙ ground arith)

root_entry-text_eq_tag :
    (r : Bytes) → text_eq (zfs_root_prefix ++ r) zfs_revert_user_data_tag ≡ false
unfolding text_eq
root_entry-text_eq_tag r = refl

step-revert :
    (e root : Bytes) (revert : Bool)
    → (boot_parameters_step e root revert).1 ≡ text_eq e zfs_revert_user_data_tag || revert
step-revert e root revert = elim (Bool-cases (has_prefix e zfs_root_prefix)) [
  | inl y ↦ rw (has_prefix_sound e zfs_root_prefix y) (
      rw (step-root (drop (length zfs_root_prefix) e) root revert)
        (rw (root_entry-text_eq_tag (drop (length zfs_root_prefix) e)) refl))
  | inr n ↦ rw (step-other e root revert n) refl
]

loop-revert :
    (es : List Bytes) (root : Bytes) (revert : Bool)
    → (boot_parameters_loop es root revert).1 ≡ has_tag es || revert
unfolding boot_parameters_loop has_tag
loop-revert [] root revert = refl
loop-revert (e ∷ es) root revert =
    let (root', revert') = boot_parameters_step e root revert in
    loop-revert es root' revert' ∙ ground (arith, step-revert e root revert)

loop-append :
    (xs ys : List Bytes) (root : Bytes) (revert : Bool)
    → boot_parameters_loop (xs ++ ys) root revert
      ≡ boot_parameters_loop ys
          (boot_parameters_loop xs root revert).0
          (boot_parameters_loop xs root revert).1
unfolding boot_parameters_loop
loop-append [] ys root revert = refl
loop-append (x ∷ xs) ys root revert =
    let (root', revert') = boot_parameters_step x root revert in loop-append xs ys root' revert'

has_tag-append : (xs ys : List Bytes) → has_tag (xs ++ ys) ≡ has_tag xs || has_tag ys
unfolding has_tag
has_tag-append [] ys = refl
has_tag-append (x ∷ xs) ys = ground (arith, has_tag-append xs ys)

text_eq-shorter : (p r : Bytes) → p ≢ [] → text_eq r (p ++ r) ≡ false
text_eq-shorter [] r h = absurd (h refl)
text_eq-shorter (c ∷ p) r h = elim (Bool-cases (text_eq r (c ∷ p ++ r))) [
  | inl e ↦ absurd (omega (arith, length-append p r, ap length (text_eq_sound r (c ∷ p ++ r) e)))
  | inr e ↦ e
]

-- For a command line of words joined by spaces, whose last entry with the prefix `root=ZFS=` is
-- that of `r`: the root dataset is `r`, and user data are reverted exactly when some entry
-- equals `zsys-revert=userdata`, wherever it stands.
pub boot_parameters-last_root :
    (pre : List Bytes) (r : Bytes) (post : List Bytes)
    → AllWords (pre ++ (zfs_root_prefix ++ r) ∷ post)
    → NoRoot post
    → boot_parameters_from_cmdline (join (pre ++ (zfs_root_prefix ++ r) ∷ post) space)
      ≡ (r, has_tag (pre ++ post))
unfolding boot_parameters_from_cmdline
boot_parameters-last_root pre r post words last =
    rw (fields-join _ words, loop-append pre _ [] false)
      (after (boot_parameters_loop pre [] false).0 (boot_parameters_loop pre [] false).1
        (loop-revert pre [] false))
  where
    after :
        (root : Bytes) (revert : Bool)
        → revert ≡ has_tag pre || false
        → boot_parameters_loop ((zfs_root_prefix ++ r) ∷ post) root revert
          ≡ (r, has_tag (pre ++ post))
    after root revert e =
        unfold boot_parameters_loop in
        rw (step-root r root revert, loop-NoRoot post r revert last)
          (ground (arith, has_tag-append pre post))

-- A boot on a snapshot is recognised from the last root entry of the command line.
pub has_booted_on_snapshot-last_root :
    (pre : List Bytes) (r : Bytes) (post : List Bytes)
    → AllWords (pre ++ (zfs_root_prefix ++ r) ∷ post)
    → NoRoot post
    → has_booted_on_snapshot (join (pre ++ (zfs_root_prefix ++ r) ∷ post) space) ≡ has_byte b'@' r
unfolding has_booted_on_snapshot
has_booted_on_snapshot-last_root pre r post words last =
    ap (λ p. has_byte b'@' p.0) (boot_parameters-last_root pre r post words last)

kernel_loop-first :
    (pre : List Bytes) (k : Bytes) (post : List Bytes)
    → NoKernel pre
    → kernel_loop (pre ++ (kernel_prefix ++ k) ∷ post) ≡ base k
unfolding kernel_loop
kernel_loop-first [] k post h =
    rw (trim_prefix-append kernel_prefix k) (rw (text_eq-shorter kernel_prefix k (cc)) refl)
kernel_loop-first (e ∷ pre) k post h =
    rw (trim_prefix-other e kernel_prefix h.0, text_eq_refl e) (kernel_loop-first pre k post h.1)

-- The kernel is the last path element of the first entry with the prefix `BOOT_IMAGE=`.
pub kernel_from_cmdline-first :
    (pre : List Bytes) (k : Bytes) (post : List Bytes)
    → AllWords (pre ++ (kernel_prefix ++ k) ∷ post)
    → NoKernel pre
    → kernel_from_cmdline (join (pre ++ (kernel_prefix ++ k) ∷ post) space) ≡ base k
unfolding kernel_from_cmdline
kernel_from_cmdline-first pre k post words first =
    rw (fields-join _ words) (kernel_loop-first pre k post first)
