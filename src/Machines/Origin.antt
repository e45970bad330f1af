-- ===== src/Machines/Origin.antt =====
-- `resolveOrigin` of internal/machines/helpers.go: the dataset without an origin that a clone or a
-- snapshot comes from. The loop over the origins runs on fuel; `none` is a run that has not ended.
pub mod Laws
mod Tests
use zsys.Prelude.{
  ℕ, zero, suc, Bool, true, false, not, ◌&&◌, ◌||◌, Option, none, some, List, [], ◌∷◌, ◌≡◌, refl,
  take, if◌then◌else◌, ◌>>=◌,
}
use zsys.Text.{Bytes, codes, text_eq, last_index}
use zsys.Zfs.Dataset.{Dataset, name_of, is_snapshot_of, prop_of}

-- The file system of a snapshot. An @ at the start of the name is left.
unfoldable pub strip_snapshot : Bytes → Bytes
strip_snapshot name = elim (last_index name b'@') [
  | none ↦ name
  | some zero ↦ name
  | some (suc i) ↦ take (suc i) name
]

-- Where one search through the datasets ends: at a dataset with an origin, at one without, or at
-- none of the name.
pub data Hop : Type 0 where
  next : Bytes → Hop
  at_root : Hop
  unknown : Hop

unfoldable pub hop : List Dataset → Bytes → Hop
hop [] name = unknown
hop (d ∷ ds) name =
    if not (text_eq name (name_of d))
    then hop ds name
    else if not (text_eq (prop_of d).origin [])
    then next (prop_of d).origin
    else at_root

-- The loop `nextOrigin`: the last origin, or `none` where no dataset matches.
unfoldable pub next_origin : List Dataset → ℕ → Bytes → Option (Option Bytes)
unfolding strip_snapshot hop
next_origin datasets zero name = none
next_origin datasets (suc fuel) name = elim (hop datasets (strip_snapshot name)) [
  | at_root ↦ some (some (strip_snapshot name))
  | unknown ↦ some none
  | next origin ↦
      if text_eq (strip_snapshot name) origin then some none else next_origin datasets fuel origin
]

-- A map from names, in which the last value that is set counts.
abbrev pub Origins : Type 0
Origins = List (Bytes × Bytes)

unfoldable pub delete : Bytes → Origins → Origins
delete name [] = []
delete name ((key, origin) ∷ r) =
    let rest = delete name r in if text_eq key name then rest else (key, origin) ∷ rest

unfoldable pub is_left_out : Bytes → Dataset → Bool
is_left_out only_on_mountpoint d =
    (not (text_eq only_on_mountpoint []) && not (text_eq (prop_of d).mountpoint only_on_mountpoint))
    || text_eq (prop_of d).can_mount (codes "off")

-- Where the search for the origin of a dataset begins.
unfoldable pub first_origin : Dataset → Bytes
first_origin d = if is_snapshot_of d then name_of d else (prop_of d).origin

unfoldable pub resolve_one : List Dataset → ℕ → Bytes → Dataset → Origins → Option Origins
unfolding delete is_left_out first_origin next_origin
resolve_one datasets fuel only d r =
    if is_left_out only d
    then some r
    else if text_eq (first_origin d) [] && not (is_snapshot_of d)
    then some ((name_of d, []) ∷ delete (name_of d) r)
    else (next_origin datasets fuel (first_origin d) >>= λ found. some (elim found [
      | some origin ↦ (name_of d, origin) ∷ delete (name_of d) r
      | none ↦ delete (name_of d) r
    ]))

unfoldable pub resolve_loop : List Dataset → ℕ → Bytes → List Dataset → Origins → Option Origins
unfolding resolve_one
resolve_loop datasets fuel only [] r = some r
resolve_loop datasets fuel only (d ∷ ds) r =
    resolve_one datasets fuel only d r >>= λ r'. resolve_loop datasets fuel only ds r'

unfoldable pub resolve_origin : ℕ → List Dataset → Bytes → Option Origins
unfolding resolve_loop
resolve_origin fuel datasets only = resolve_loop datasets fuel only datasets []
