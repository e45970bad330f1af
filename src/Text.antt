-- ===== src/Text.antt =====
-- Texts as lists of bytes, with the functions of Go's `strings` and `path/filepath` packages that
-- the program calls on dataset names, state names and the kernel's command line.
pub mod Laws
pub mod Fields
pub mod Split
pub mod Base
pub mod Numbers
use Prim.Native.Char.{code}
use Prim.Native.String.{String}
use mathlib.Core.List.{reverse}
use zsys.Prelude.{
  ℕ, zero, suc, ◌+◌, ◌-◌, Bool, true, false, not, ◌&&◌, ◌||◌, Option, none, some, List, [], ◌∷◌,
  ◌++◌, map, ◌≡◌, refl, if◌then◌else◌, ◌==◌, leb, length, take, drop,
}

abbrev pub Bytes : Type 0
Bytes = List ℕ

-- The code points of a literal: its bytes, as all literals here are ASCII.
abbrev pub codes : String → Bytes
codes String.[] = []
codes (String.◌∷◌ c s) = code c ∷ codes s

-- `a == b` on strings.
unfoldable pub text_eq : Bytes → Bytes → Bool
text_eq [] [] = true
text_eq [] (b ∷ t) = false
text_eq (a ∷ s) [] = false
text_eq (a ∷ s) (b ∷ t) = a == b && text_eq s t

-- strings.HasPrefix, HasSuffix, Contains and TrimPrefix.
unfoldable pub has_prefix : Bytes → Bytes → Bool
has_prefix s [] = true
has_prefix [] (p ∷ ps) = false
has_prefix (c ∷ s) (p ∷ ps) = c == p && has_prefix s ps

unfoldable pub has_suffix : Bytes → Bytes → Bool
unfolding text_eq
has_suffix [] t = text_eq [] t
has_suffix (c ∷ s) t = text_eq (c ∷ s) t || has_suffix s t

unfoldable pub contains : Bytes → Bytes → Bool
unfolding has_prefix
contains [] t = has_prefix [] t
contains (c ∷ s) t = has_prefix (c ∷ s) t || contains s t

unfoldable pub trim_prefix : Bytes → Bytes → Bytes
unfolding has_prefix
trim_prefix s p = if has_prefix s p then drop (length p) s else s

-- strings.TrimSuffix.
unfoldable pub trim_suffix : Bytes → Bytes → Bytes
unfolding has_suffix
trim_suffix s t = if has_suffix s t then take (length s - length t) s else s

-- strings.Contains and strings.Count of a one-byte text.
unfoldable pub has_byte : ℕ → Bytes → Bool
has_byte b [] = false
has_byte b (c ∷ s) = c == b || has_byte b s

unfoldable pub count_byte : ℕ → Bytes → ℕ
count_byte b [] = 0
count_byte b (c ∷ s) = let n = count_byte b s in if c == b then n + 1 else n

-- strings.IndexByte; `none` stands for -1.
unfoldable pub index_byte : Bytes → ℕ → Option ℕ
index_byte [] b = none
index_byte (c ∷ s) b = elim (c == b) [
  | true ↦ some 0
  | false ↦ elim (index_byte s b) [ none ↦ none | some i ↦ some (i + 1) ]
]

-- strings.LastIndex of a one-byte text; `none` stands for -1.
unfoldable pub last_index : Bytes → ℕ → Option ℕ
last_index [] b = none
last_index (c ∷ s) b = elim (last_index s b) [
  | some i ↦ some (i + 1)
  | none ↦ if c == b then some 0 else none
]

-- strings.Split at a one-byte separator: always at least one part.
unfoldable pub split : Bytes → ℕ → List Bytes
split [] sep = [] ∷ []
split (c ∷ s) sep = elim (split s sep) [
  | [] ↦ (c ∷ []) ∷ []
  | p ∷ ps ↦ if c == sep then [] ∷ p ∷ ps else (c ∷ p) ∷ ps
]

-- strings.Join.
unfoldable pub join : List Bytes → Bytes → Bytes
join [] sep = []
join (p ∷ []) sep = p
join (p ∷ q ∷ ps) sep = p ++ (sep ++ join (q ∷ ps) sep)

-- The white space of strings.Fields that is ASCII.
abbrev pub is_space : ℕ → Bool
is_space c = c == 32 || (leb 9 c && leb c 13)

-- strings.Fields: the maximal runs of bytes that are no white space.
fields_from : Bytes → Bytes → List Bytes
fields_from [] [] = []
fields_from [] (c ∷ cur) = reverse (c ∷ cur) ∷ []
fields_from (c ∷ s) cur = elim (is_space c) [
  | true ↦ elim cur [ [] ↦ fields_from s [] | k ∷ ks ↦ reverse (k ∷ ks) ∷ fields_from s [] ]
  | false ↦ fields_from s (c ∷ cur)
]

unfoldable pub fields : Bytes → List Bytes
unfolding fields_from
fields s = fields_from s []

-- filepath.Base: the last element of a path.
strip_slashes : Bytes → Bytes
strip_slashes [] = []
strip_slashes (c ∷ s) = elim (strip_slashes s) [
  | [] ↦ if c == b'/' then [] else c ∷ []
  | d ∷ t ↦ c ∷ d ∷ t
]

after_slash : Bytes → Bytes
unfolding last_index
after_slash s = elim (last_index s b'/') [ none ↦ s | some i ↦ drop (i + 1) s ]

base_of : Bytes → Bytes → Bytes
unfolding after_slash
base_of [] stripped = codes "."
base_of (c ∷ s) [] = codes "/"
base_of (c ∷ s) (d ∷ t) = after_slash (d ∷ t)

unfoldable pub base : Bytes → Bytes
unfolding base_of strip_slashes
base s = base_of s (strip_slashes s)
