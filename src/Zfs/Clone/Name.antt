-- ===== src/Zfs/Clone/Name.antt =====
-- The name of a clone, in `Clone` of internal/zfs/zfs.go, and the functions of Go's `strings` package
-- on which it stands.
use zsys.Prelude.{none, some, [], ◌∷◌, ◌++◌, if◌then◌else◌, take, drop, length}
use zsys.Text.{index_byte, Bytes, has_prefix}

-- strings.Replace of the first occurrence of a text that is not empty.
unfoldable pub replace_first : Bytes → Bytes → Bytes → Bytes
unfolding has_prefix
replace_first [] old new = []
replace_first (c ∷ s) old new =
    let rest = replace_first s old new in
    if has_prefix (c ∷ s) old then new ++ drop (length old) (c ∷ s) else c ∷ rest

-- The subdatasets: the text from the first slash on.
unfoldable pub subdatasets : Bytes → Bytes
unfolding index_byte
subdatasets s = elim (index_byte s b'/') [ none ↦ [] | some i ↦ drop i s ]

-- The suffix of the root is replaced, or put behind it.
unfoldable pub new_root_name : Bytes → Bytes → Bytes
unfolding index_byte subdatasets
new_root_name root suffix = elim (index_byte root b'_') [
  | none ↦ root ++ b'_' ∷ suffix
  | some i ↦ take i root ++ b'_' ∷ (suffix ++ subdatasets (drop i root))
]
