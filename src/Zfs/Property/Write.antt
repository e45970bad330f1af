-- ===== src/Zfs/Property/Write.antt =====
-- The write of a property: the values and the errors that it gives.
use zsys.Prelude.{
  ℕ, Bool, true, false, not, ◌&&◌, Option, none, some, [], ◌∷◌, ◌++◌, ◌≡◌, ◌⊎◌, inl, inr, refl, sym,
  if◌then◌else◌, Bool-cases,
}
use zsys.Text.{Bytes, text_eq}
use zsys.Zfs.Property.{
  PropName, canmount, mountpoint, bootfs, last_used, last_booted_kernel, bootfs_datasets,
  snapshot_canmount, snapshot_mountpoint, Host, SetError, refused, not_an_int, is_native, user_name,
  is_last_used, or_else, or_zero, checked, write,
}

inl_inj : {v w : Bytes} → ◌≡◌ {A = Bytes ⊎ SetError} (inl v) (inl w) → v ≡ w
inl_inj h = cc

inr-inl : {e : SetError} {w : Bytes} → ◌≡◌ {A = Bytes ⊎ SetError} (inr e) (inl w) → ⊥
inr-inl h = cc

inl-inr : {v : Bytes} {e : SetError} → ◌≡◌ {A = Bytes ⊎ SetError} (inl v) (inr e) → ⊥
inl-inr h = cc

inr_inj : {e x : SetError} → ◌≡◌ {A = Bytes ⊎ SetError} (inr e) (inr x) → e ≡ x
inr_inj h = cc

module _ (host : Host) where
  -- A value that `store` takes.
  abbrev pub Storable : PropName → Bytes → Type 0
  Storable p v = is_last_used p ≡ true → (n : ℕ) × (host.atoi v ≡ some n)

  checked-inl :
      (o : Option ℕ) (next : Bytes ⊎ SetError) (w : Bytes)
      → checked o next ≡ inl w
      → (next ≡ inl w) × ((n : ℕ) × (o ≡ some n))
  unfolding checked
  checked-inl none next w h = absurd cc
  checked-inl (some m) next w h = (h, (m, refl))

  write-last_used :
      (v s n : Bytes) (snap : Bool) (w : Bytes)
      → write host last_used v s n snap ≡ inl w
      → (m : ℕ) × (host.atoi w ≡ some m)
  unfolding write
  write-last_used v s n snap w h =
      let saved = if snap && not (text_eq s []) then v ++ b':' ∷ s else v in
      let (k, first) = checked-inl (host.atoi (or_zero v)) _ w h in
      elim (Bool-cases (host.sets n last_used saved)) [
        | inl y ↦
            let (e, r) =
              checked-inl (host.atoi (or_zero (or_else (host.reads n saved) (or_zero v)))) _ w
                (rw y at k) in
            rw (← inl_inj e) r
        | inr m ↦ absurd (inr-inl (rw m at k))
      ]

  pub write-other :
      (p : PropName) (v s n : Bytes) (snap : Bool) (w : Bytes)
      → is_last_used p ≡ false
      → write host p v s n snap ≡ inl w
      → w ≡ v
  unfolding write
  write-other p v s n snap w l h = elim (Bool-cases (is_native p snap)) [
    | inl y ↦ elim (Bool-cases (host.sets n p v)) [
      | inl a ↦ sym (inl_inj (rw (y, a) at h))
      | inr r ↦ absurd (inr-inl (rw (y, r) at h))
    ]
    | inr m ↦
        elim (Bool-cases (
          host.sets n (user_name p snap)
            (if snap && not (text_eq s []) then v ++ b':' ∷ s else v))) [
              | inl a ↦ sym (inl_inj (rw (m, l, a) at h))
              | inr r ↦ absurd (inr-inl (rw (m, l, r) at h))
            ]
  ]

  pub write-Storable :
      (p : PropName) (v s n : Bytes) (snap : Bool) (w : Bytes)
      → write host p v s n snap ≡ inl w
      → Storable p w
  write-Storable last_used v s n snap w h = λ e. write-last_used v s n snap w h
  write-Storable canmount v s n snap w h = λ e. absurd cc
  write-Storable mountpoint v s n snap w h = λ e. absurd cc
  write-Storable bootfs v s n snap w h = λ e. absurd cc
  write-Storable last_booted_kernel v s n snap w h = λ e. absurd cc
  write-Storable bootfs_datasets v s n snap w h = λ e. absurd cc
  write-Storable snapshot_canmount v s n snap w h = λ e. absurd cc
  write-Storable snapshot_mountpoint v s n snap w h = λ e. absurd cc

  checked-inr :
      (o : Option ℕ) (next : Bytes ⊎ SetError) (x : SetError)
      → checked o next ≡ inr x
      → (x ≡ not_an_int) ⊎ (next ≡ inr x)
  unfolding checked
  checked-inr none next x h = inl (sym (inr_inj h))
  checked-inr (some m) next x h = inr h

  -- The write panics with no error.
  pub write-inr :
      (p : PropName) (v s n : Bytes) (snap : Bool) (x : SetError)
      → write host p v s n snap ≡ inr x
      → (x ≡ not_an_int) ⊎ (x ≡ refused)
  unfolding write
  write-inr p v s n snap x h = elim (Bool-cases (is_native p snap)) [
    | inl y ↦ elim (Bool-cases (host.sets n p v)) [
      | inl a ↦ absurd (inl-inr (rw (y, a) at h))
      | inr r ↦ inr (sym (inr_inj (rw (y, r) at h)))
    ]
    | inr m ↦ elim (Bool-cases (is_last_used p)) [
      | inl l ↦ elim (checked-inr (host.atoi (or_zero v)) _ x (rw (m, l) at h)) [
        | inl e ↦ inl e
        | inr k ↦ elim (Bool-cases (host.sets n p saved)) [
          | inl a ↦
              elim (checked-inr (host.atoi (or_zero (or_else (host.reads n saved) (or_zero v)))) _ x
                (rw a at k)) [ inl e ↦ inl e | inr c ↦ absurd (inl-inr c) ]
          | inr r ↦ inr (sym (inr_inj (rw r at k)))
        ]
      ]
      | inr o ↦ elim (Bool-cases (host.sets n (user_name p snap) saved)) [
        | inl a ↦ absurd (inl-inr (rw (m, o, a) at h))
        | inr r ↦ inr (sym (inr_inj (rw (m, o, r) at h)))
      ]
    ]
  ]
    where
      saved : Bytes
      saved = if snap && not (text_eq s []) then v ++ b':' ∷ s else v
