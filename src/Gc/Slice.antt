-- ===== src/Gc/Slice.antt =====
-- `removeFromSlice` of internal/machines/gc.go, and the maps of names that it updates. An absent key
-- and a nil slice are both the empty list.
pub mod Laws
use zsys.Prelude.{
  ℕ, zero, suc, ◌+◌, ◌-◌, Bool, true, false, not, Option, none, some, List, [], ◌∷◌, ◌++◌, ◌≡◌,
  refl, if◌then◌else◌, length, get_or, set, take,
}
use zsys.Text.{Bytes, text_eq}

-- The index at which the search loop stops, if the name is found.
unfoldable pub index_of : Bytes → List Bytes → Option ℕ
index_of name [] = none
index_of name (v ∷ s) =
    let rest = index_of name s in
    if text_eq v name then some 0 else elim rest [ none ↦ none | some i ↦ some (i + 1) ]

-- The last element takes the place of the one removed.
unfoldable pub remove_from_slice : List Bytes → Bytes → List Bytes
unfolding index_of
remove_from_slice s name = elim (index_of name s) [
  | none ↦ s
  | some i ↦ take (length s - 1) (set s i (get_or s (length s - 1) []))
]

abbrev pub NameMap : Type 0
NameMap = List (Bytes × List Bytes)

unfoldable pub names_at : Bytes → NameMap → List Bytes
names_at k [] = []
names_at k ((j, names) ∷ m) = if text_eq j k then names else names_at k m

-- `m[k] = append(m[k], name)`.
unfoldable pub add_name : Bytes → Bytes → NameMap → NameMap
add_name k name [] = (k, name ∷ []) ∷ []
add_name k name ((j, names) ∷ m) =
    if text_eq j k then (j, names ++ name ∷ []) ∷ m else (j, names) ∷ add_name k name m

-- `m[k] = removeFromSlice(m[k], name)`.
unfoldable pub remove_name : Bytes → Bytes → NameMap → NameMap
unfolding remove_from_slice
remove_name k name [] = (k, []) ∷ []
remove_name k name ((j, names) ∷ m) =
    if text_eq j k then (j, remove_from_slice names name) ∷ m else (j, names) ∷ remove_name k name m

-- The same for every key of the map.
unfoldable pub remove_name_everywhere : Bytes → NameMap → NameMap
unfolding remove_from_slice
remove_name_everywhere name [] = []
remove_name_everywhere name ((j, names) ∷ m) =
    (j, remove_from_slice names name) ∷ remove_name_everywhere name m
