-- ===== src/Machines/Boot/Clones/Name.antt =====
-- The names in `createClones` of internal/machines/boot.go, and the ones that `Clone` gives.
use zsys.Prelude.{
  ◌+◌, false, Option, none, some, [], ◌∷◌, ◌++◌, ◌≡◌, ◌≢◌, refl, sym, ap, ◌∙◌, arith, if◌then◌else◌,
  take, drop, length, length-append, append-nil, append_assoc,
}
use zsys.Text.{index_byte, Bytes, has_byte, has_suffix, last_index}
use zsys.Text.Laws.{index_byte-append, last_index-append, take-append, has_byte-append}
use zsys.Zfs.Names.{split_snapshot_name, snapshot_of, split_snapshot_name-snapshot_of}
use zsys.Zfs.Clone.Name.{subdatasets, new_root_name}

-- The suffix that the initramfs has put behind the booted state.
unfoldable pub booted_suffix : Bytes → Option Bytes
booted_suffix id = elim (last_index id b'_') [
  | none ↦ none
  | some j ↦ if has_suffix id (b'_' ∷ []) then none else some (drop (j + 1) id)
]

-- The name under which the clone of a user's snapshot is tagged. A name with no underscore panics.
unfoldable pub with_suffix : Bytes → Bytes → Option Bytes
with_suffix base suffix = elim (last_index base b'_') [
  | none ↦ none
  | some i ↦ some (take i base ++ b'_' ∷ suffix)
]

unfoldable pub user_dataset_name : Bytes → Bytes → Option Bytes
unfolding split_snapshot_name with_suffix
user_dataset_name id suffix = with_suffix (split_snapshot_name id).0 suffix

drop-length : (p r : Bytes) → drop (length p) (p ++ r) ≡ r
drop-length [] r = refl
drop-length (c ∷ p) r = drop-length p r

no_subdatasets : (r : Bytes) → has_byte b'/' r ≡ false → index_byte r b'/' ≡ none
unfolding index_byte has_byte
no_subdatasets [] h = refl
no_subdatasets (c ∷ r) h = ground (arith, no_subdatasets r)

new_root_name-underscore :
    (a r suffix : Bytes)
    → has_byte b'_' a ≡ false
    → has_byte b'/' r ≡ false
    → new_root_name (a ++ b'_' ∷ r) suffix ≡ a ++ b'_' ∷ suffix
unfolding new_root_name subdatasets has_byte
new_root_name-underscore a r suffix h k =
    rw
      (
        new_root_name,
        index_byte-append a r b'_' h,
        take-append a (b'_' ∷ r),
        drop-length a (b'_' ∷ r),
        subdatasets,
        no_subdatasets (b'_' ∷ r) k,
        append-nil suffix,
      )
      refl

with_suffix-underscore :
    (a r suffix : Bytes)
    → has_byte b'_' r ≡ false
    → with_suffix (a ++ b'_' ∷ r) suffix ≡ some (a ++ b'_' ∷ suffix)
unfolding with_suffix
with_suffix-underscore a r suffix k =
    rw (with_suffix, last_index-append a r b'_' k, take-append a (b'_' ∷ r)) refl

user_dataset_name-underscore :
    (snap suffix a r : Bytes)
    → has_byte b'@' snap ≡ false
    → has_byte b'_' r ≡ false
    → user_dataset_name (snapshot_of (a ++ b'_' ∷ r) snap) suffix ≡ some (a ++ b'_' ∷ suffix)
unfolding user_dataset_name
user_dataset_name-underscore snap suffix a r h k =
    ap (λ x. with_suffix x.0 suffix) (split_snapshot_name-snapshot_of (a ++ b'_' ∷ r) snap h)
    ∙ with_suffix-underscore a r suffix k

longer : (a b s : Bytes) → a ++ b'_' ∷ s ≢ (a ++ b'_' ∷ b) ++ b'_' ∷ s
longer a b s e =
    let sizes : length (a ++ b'_' ∷ s) ≡ length ((a ++ b'_' ∷ b) ++ b'_' ∷ s) = ap length e in
    omega (
      arith,
      sizes,
      length-append a (b'_' ∷ s),
      length-append (a ++ b'_' ∷ b) (b'_' ∷ s),
      length-append a (b'_' ∷ b),
    )

-- Where the dataset of a user has two underscores in its name, as that of the user `a_b` has, and the
-- text from the first one on has no slash, then `Clone` gives the clone a name that is not the one
-- under which `createClones` tags it: the clone's name is cut at the first underscore, the tag's at
-- the last one.
pub clone_name-differs :
    (a b c snap suffix : Bytes)
    → has_byte b'_' a ≡ false
    → has_byte b'/' b ≡ false
    → has_byte b'/' c ≡ false
    → has_byte b'_' c ≡ false
    → has_byte b'@' snap ≡ false
    → (tagged : Bytes) × (user_dataset_name (snapshot_of ((a ++ b'_' ∷ b) ++ b'_' ∷ c) snap) suffix
        ≡ some tagged)
      × (new_root_name ((a ++ b'_' ∷ b) ++ b'_' ∷ c) suffix ≢ tagged)
unfolding has_byte
clone_name-differs a b c snap suffix ha hb hc hu hs =
    let base = (a ++ b'_' ∷ b) ++ b'_' ∷ c in
    let shape : base ≡ a ++ b'_' ∷ (b ++ b'_' ∷ c) = append_assoc a (b'_' ∷ b) (b'_' ∷ c) in
    let cloned : new_root_name base suffix ≡ a ++ b'_' ∷ suffix =
      ap (λ x. new_root_name x suffix) shape
      ∙ new_root_name-underscore a (b ++ b'_' ∷ c) suffix ha
          (has_byte-append b'/' b (b'_' ∷ c) hb hc) in
    (
      (a ++ b'_' ∷ b) ++ b'_' ∷ suffix,
      user_dataset_name-underscore snap suffix (a ++ b'_' ∷ b) c hs hu,
      λ e. longer a b suffix (sym cloned ∙ e),
    )
