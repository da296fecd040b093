-- ===== src/Log/Reader.antt =====
-- `IndexedFileReader` of src/util/log.hpp, over the bytes of the file.
use castle_plus.Prelude.{
  ℕ, suc, ◌+◌, List, [], ◌∷◌, Option, none, some, Bytes, length, drop, take, get_elem?,
}
use castle_plus.Ini.{lines}

-- The offsets that `tellg` gives between two calls of `getline`, from the offset `pos` on.
unfoldable pub offsets_from : ℕ → List Bytes → List ℕ
offsets_from pos [] = []
offsets_from pos (l ∷ ls) = pos ∷ offsets_from (pos + suc (length l)) ls

-- `reindex`: the offsets of the lines of a file, and none where there is no file.
unfoldable pub reindex : Option Bytes → List ℕ
unfolding offsets_from lines
reindex none = []
reindex (some text) = offsets_from 0 (lines text)

-- One `getline`; it leaves the line empty at the end of the file.
unfoldable pub first_line : List Bytes → Bytes
first_line [] = []
first_line (l ∷ ls) = l

-- `get_line`; `none` is the exception.
unfoldable pub get_line : List ℕ → Bytes → ℕ → Option Bytes
unfolding first_line lines
get_line offsets text ind = elim (get_elem? offsets ind) [
  | none ↦ none
  | some off ↦ some (first_line (lines (drop off text)))
]

-- The last of the offsets, and those before it.
unfoldable pub last_offset : List ℕ → Option ℕ
last_offset [] = none
last_offset (o ∷ []) = some o
last_offset (o ∷ p ∷ os) = last_offset (p ∷ os)

unfoldable pub but_last_offset : List ℕ → List ℕ
but_last_offset [] = []
but_last_offset (o ∷ []) = []
but_last_offset (o ∷ p ∷ os) = o ∷ but_last_offset (p ∷ os)

-- `remove_last_line`: the offsets and the file that are left.
unfoldable pub remove_last_line : List ℕ → Bytes → List ℕ × Bytes
unfolding last_offset but_last_offset
remove_last_line offsets text = elim (last_offset offsets) [
  | none ↦ (offsets, text)
  | some off ↦ (but_last_offset offsets, take off text)
]
