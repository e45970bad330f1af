-- ===== src/Zfs/Refresh/Laws.antt =====
-- What a snapshot of a dataset keeps of the dataset's properties.
use zsys.Prelude.{
  ℕ, Bool, true, false, not, ◌&&◌, ◌||◌, Option, none, some, [], ◌∷◌, ◌++◌, ◌≡◌, ◌⊎◌, inl, inr,
  refl, sym, ap, ◌∙◌, arith, if◌then◌else◌, Bool-cases, some_inj, bind_some,
}
use zsys.Text.{Bytes, codes, text_eq, has_byte, trim_prefix}
use zsys.Text.Laws.{text_eq_sound, last_index-append, take-append, drop-append_suc}
use zsys.Zfs.Dataset.{DatasetProp}
use zsys.Zfs.Refresh.{
  UserName, snapshot_mountpoint_prop, snapshot_canmount_prop, boot_fs_prop, last_booted_kernel_prop,
  Sourced, Raw, local, default, inherited, nothing, sanitize, saved_property, user_property, Mount,
  filesystem_mount, read_mount, read_properties, mountpoint_source, can_mount_source,
  refresh_properties, save, yes_no, user_properties_to_set,
}

-- A source as the program simplifies it.
abbrev pub IsSource : Bytes → Type 0
IsSource s = (s ≡ local) ⊎ ((s ≡ default) ⊎ (s ≡ inherited))

sanitize-IsSource : (s : Bytes) → IsSource (sanitize s)
unfolding sanitize text_eq
sanitize-IsSource s = elim (Bool-cases (text_eq s local)) [
  | inl l ↦ rw (text_eq_sound s local l) (inl refl)
  | inr n ↦ elim (Bool-cases (text_eq s default)) [
    | inl d ↦ rw (text_eq_sound s default d) (inr (inl refl))
    | inr m ↦ rw (n, m) (inr (inr refl))
  ]
]

sanitize_fixed : (s : Bytes) → IsSource s → sanitize s ≡ s
unfolding sanitize text_eq
sanitize_fixed s (inl e) = rw e refl
sanitize_fixed s (inr (inl e)) = rw e refl
sanitize_fixed s (inr (inr e)) = rw e refl

source_has_no_colon : (s : Bytes) → IsSource s → has_byte b':' s ≡ false
unfolding has_byte
source_has_no_colon s (inl e) = rw e refl
source_has_no_colon s (inr (inl e)) = rw e refl
source_has_no_colon s (inr (inr e)) = rw e refl

IsSource-not_empty : (s : Bytes) → IsSource s → text_eq s [] ≡ false
unfolding text_eq
IsSource-not_empty s (inl e) = rw e refl
IsSource-not_empty s (inr (inl e)) = rw e refl
IsSource-not_empty s (inr (inr e)) = rw e refl

saved_property-append :
    (v s : Bytes) → has_byte b':' s ≡ false → saved_property (v ++ b':' ∷ s) ≡ (v, sanitize s)
unfolding saved_property
saved_property-append v s h =
    rw (last_index-append v s b':' h, saved_property)
      (ground (arith, take-append v (b':' ∷ s), drop-append_suc v s b':'))

user_property-local : (text : Bytes) → user_property true (some (text, local)) ≡ saved_property text
unfolding user_property text_eq
user_property-local text = ground arith

-- Reading a saved property gives back its value, and its source simplified.
user_property-save :
    (v s : Bytes) → has_byte b':' s ≡ false → user_property true (save v s) ≡ (v, sanitize s)
unfolding save
user_property-save v s h = user_property-local (v ++ b':' ∷ s) ∙ saved_property-append v s h

-- A property that was read has a simplified source, or neither a value nor a source.
user_property-IsSource :
    (o : Option Sourced) → (user_property false o ≡ nothing) ⊎ IsSource (user_property false o).1
unfolding user_property
user_property-IsSource none = inl refl
user_property-IsSource (some (v, s)) =
    elim (Bool-cases
      (text_eq v (codes "-") && (text_eq s (codes "-") || text_eq s (codes "none")))) [
        | inl e ↦ inl (rw e refl)
        | inr n ↦ inr (rw n (sanitize-IsSource s))
      ]

-- A user property that was read, saved and read again is the same.
saved_again :
    (o : Option Sourced) (x : Sourced)
    → user_property false o ≡ x
    → user_property true (if not (text_eq x.1 []) then save x.0 x.1 else none) ≡ x
unfolding user_property text_eq
saved_again o x e = elim (user_property-IsSource o) [
  | inl n ↦ rw (sym e ∙ n) refl
  | inr h ↦
      let h' : IsSource x.1 = rw e at h in
      rw (IsSource-not_empty x.1 h') (
        user_property-save x.0 x.1 (source_has_no_colon x.1 h')
        ∙ ap (λ s. (x.0, s)) (sanitize_fixed x.1 h'))
]

-- So is a flag, which is saved as yes or no.
flag_again :
    (o : Option Sourced) (x : Sourced)
    → user_property false o ≡ x
    → (let y =
          user_property true (
            if not (text_eq x.1 []) then save (yes_no (text_eq x.0 (codes "yes"))) x.1 else none) in
        (text_eq y.0 (codes "yes") ≡ text_eq x.0 (codes "yes")) × (y.1 ≡ x.1))
unfolding user_property text_eq
flag_again o x e = elim (user_property-IsSource o) [
  | inl n ↦ rw (sym e ∙ n) (refl, refl)
  | inr h ↦
      let h' : IsSource x.1 = rw e at h in
      rw (IsSource-not_empty x.1 h') (
        rw
          (user_property-save (yes_no (text_eq x.0 (codes "yes"))) x.1 (source_has_no_colon x.1 h'))
          (ground arith, sanitize_fixed x.1 h'))
]

rooted : (p : Bytes) → text_eq (if text_eq p [] then codes "/" else p) [] ≡ false
unfolding text_eq
rooted [] = refl
rooted (c ∷ p) = refl

filesystem_mount-point :
    (raw : Raw) (root : Bytes) → text_eq (filesystem_mount raw root).point.0 [] ≡ false
unfolding filesystem_mount
filesystem_mount-point raw root = rooted (trim_prefix raw.mountpoint.0 root)

read_mount-filesystem :
    (raw : Raw) (m : Mount)
    → raw.is_snapshot ≡ false
    → read_mount raw ≡ some m
    → (root : Bytes) × (filesystem_mount raw root ≡ m)
unfolding read_mount
read_mount-filesystem raw m f h =
    let (root, e, q) =
      bind_some raw.altroot (λ root. some (filesystem_mount raw root)) (rw f at h) in
    (root, some_inj q)

-- What a snapshot shows of a dataset: where and how it mounts, whether it boots and with which
-- kernel, with the sources.
abbrev pub Frozen : Type 0
Frozen = (Sourced × Sourced) × ((Bool × Bytes) × Sourced)

abbrev pub frozen : DatasetProp → Frozen
frozen p = (
  ((p.mountpoint, p.sources.mountpoint), (p.can_mount, p.sources.can_mount)),
  ((p.boot_fs, p.sources.boot_fs), (p.last_booted_kernel, p.sources.last_booted_kernel)),
)

-- What libzfs answers on a snapshot for a property that was saved with it, or was not. One that was
-- not is unset or comes from the dataset, or its reading fails.
abbrev pub Answers : Option Sourced → Option Sourced → Type 0
Answers (some saved) answer = answer ≡ some saved
Answers none none = Unit
Answers none (some (value, source)) = text_eq source local ≡ false

answer_unset : (v s : Bytes) → text_eq s local ≡ false → user_property true (some (v, s)) ≡ nothing
unfolding user_property
answer_unset v s h =
    elim (Bool-cases
      (text_eq v (codes "-") && (text_eq s (codes "-") || text_eq s (codes "none")))) [
        | inl y ↦ rw (user_property, y) refl
        | inr n ↦ rw (user_property, n, h) refl
      ]

user_property-Answers :
    (saved answer : Option Sourced)
    → Answers saved answer
    → user_property true answer ≡ user_property true saved
unfolding user_property
user_property-Answers (some x) answer h = ap (user_property true) h
user_property-Answers none none h = refl
user_property-Answers none (some (v, s)) h = answer_unset v s h

-- The snapshot has what is saved for the properties; its other user properties are anything.
abbrev pub Holds : Raw → DatasetProp → Type 0
Holds snap p =
    (snap.user snapshot_mountpoint_prop ≡ user_properties_to_set p snapshot_mountpoint_prop)
    × (snap.user snapshot_canmount_prop ≡ user_properties_to_set p snapshot_canmount_prop)
    × Answers (user_properties_to_set p boot_fs_prop) (snap.user boot_fs_prop)
    × Answers (user_properties_to_set p last_booted_kernel_prop) (snap.user last_booted_kernel_prop)

-- What is read of a snapshot.
abbrev pub shown_point : Sourced → Sourced
shown_point x = (x.0, mountpoint_source x)

abbrev pub shown_can : Sourced → Sourced
shown_can x = (x.0, can_mount_source x.1)

abbrev pub shown_flag : Sourced → Bool × Bytes
shown_flag x = (text_eq x.0 (codes "yes"), x.1)

abbrev pub read_back : Raw → UserName → Sourced
read_back snap n = user_property true (snap.user n)

shown-frozen :
    (snap : Raw) (p : DatasetProp)
    → shown_point (read_back snap snapshot_mountpoint_prop) ≡ (p.mountpoint, p.sources.mountpoint)
    → shown_can (read_back snap snapshot_canmount_prop) ≡ (p.can_mount, p.sources.can_mount)
    → shown_flag (read_back snap boot_fs_prop) ≡ (p.boot_fs, p.sources.boot_fs)
    → read_back snap last_booted_kernel_prop ≡ (p.last_booted_kernel, p.sources.last_booted_kernel)
    → (atoi : Bytes → ℕ × Bool) → snap.is_snapshot ≡ true
    → (q : DatasetProp) × (refresh_properties atoi snap ≡ some q) × (frozen q ≡ frozen p)
unfolding refresh_properties read_mount read_properties
shown-frozen snap p e1 e2 e3 e4 atoi s = rw s (_, refl, λ i. ((e1 i, e2 i), (e3 i, e4 i)))

save-shown_point :
    (v s : Bytes)
    → text_eq v [] ≡ false
    → shown_point (user_property true (save v (mountpoint_source (v, s))))
      ≡ (v, mountpoint_source (v, s))
unfolding mountpoint_source sanitize text_eq has_byte
save-shown_point v s h = elim (Bool-cases (text_eq s local)) [
  | inl l ↦ rw l (rw (user_property-save v local refl) refl)
  | inr n ↦ elim (Bool-cases (text_eq s default)) [
    | inl d ↦ rw (n, d) (rw (user_property-save v inherited refl) (rw h refl))
    | inr m ↦ rw (n, m, h) (rw (user_property-save v inherited refl) (rw h refl))
  ]
]

save-shown_can :
    (v s : Bytes)
    → shown_can (user_property true (save v (can_mount_source s))) ≡ (v, can_mount_source s)
unfolding can_mount_source sanitize text_eq has_byte
save-shown_can v s = elim (Bool-cases (text_eq s local)) [
  | inl l ↦ rw l (rw (user_property-save v local refl) refl)
  | inr n ↦ rw n (rw (user_property-save v [] refl) refl)
]

flag_pair :
    (x : Sourced) {b : Bool} {t : Bytes}
    → (text_eq x.0 (codes "yes") ≡ b) × (x.1 ≡ t)
    → shown_flag x ≡ (b, t)
flag_pair x (e, d) = λ i. (e i, d i)

module _ (atoi : Bytes → ℕ × Bool) where
  filesystem-frozen :
      (raw snap : Raw) (root : Bytes)
      → raw.is_snapshot ≡ false
      → snap.is_snapshot ≡ true
      → Holds snap (read_properties atoi raw (filesystem_mount raw root))
      → (q : DatasetProp) × (refresh_properties atoi snap ≡ some q)
        × (frozen q ≡ frozen (read_properties atoi raw (filesystem_mount raw root)))
  unfolding read_properties user_properties_to_set filesystem_mount
  filesystem-frozen raw snap root f s h =
      shown-frozen snap (read_properties atoi raw (filesystem_mount raw root))
        (rw h.0 (
          save-shown_point (filesystem_mount raw root).point.0 raw.mountpoint.1
            (filesystem_mount-point raw root)))
        (rw h.1 (save-shown_can raw.can_mount.0 raw.can_mount.1))
        (ap shown_flag (user_property-Answers _ _ h.2)
          ∙ rw f (
              flag_pair _ (
                flag_again (raw.user boot_fs_prop) (user_property false (raw.user boot_fs_prop))
                  refl)))
        (user_property-Answers _ _ h.3
          ∙ rw f (
              saved_again (raw.user last_booted_kernel_prop)
                (user_property false (raw.user last_booted_kernel_prop)) refl))
        atoi s

  -- A snapshot that holds the user properties which are saved for the properties read of a filesystem
  -- shows the same mount point, canmount, bootfs and kernel, and the same sources of them, when it is
  -- read. Where bootfs or the kernel was not saved, the snapshot has it unset or not of its own, or its
  -- reading fails; its other user properties are anything.
  pub snapshot-shows_dataset :
      (raw snap : Raw) (p : DatasetProp)
      → raw.is_snapshot ≡ false
      → refresh_properties atoi raw ≡ some p
      → snap.is_snapshot ≡ true
      → Holds snap p
      → (q : DatasetProp) × (refresh_properties atoi snap ≡ some q) × (frozen q ≡ frozen p)
  unfolding refresh_properties
  snapshot-shows_dataset raw snap p f r s h =
      let (m, e, q) =
        bind_some (read_mount raw) (λ mount. some (read_properties atoi raw mount)) r in
      let (root, g) = read_mount-filesystem raw m f e in
      let same : read_properties atoi raw (filesystem_mount raw root) ≡ p =
        ap (read_properties atoi raw) g ∙ some_inj q in
      rw (← same) (filesystem-frozen raw snap root f s (rw same h))
