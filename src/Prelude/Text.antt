-- ===== src/Prelude/Text.antt =====
-- Texts as lists of bytes, and the parts of <string>, <cctype> and <cstdlib> that the sources use.
use Prim.Native.Nat.{ℕ, zero, suc, ◌+◌, ◌-◌}
use Prim.Native.Char.{code}
use Prim.Native.String.{String}
use mathlib.Core.Path.{◌≡◌, refl}
use mathlib.Core.Logic.{◌↔◌}
use mathlib.Core.Bool.{Bool, true, false, ◌&&◌}
use mathlib.Core.List.{List, [], ◌∷◌, ◌++◌}
use mathlib.Core.Option.{Option, none, some}
use native.Mathlib.Omega.{arith}
use castle_plus.Prelude.Lists.{length}
use castle_plus.Prelude.Tests.{leb, ◌==◌, if◌then◌else◌}

abbrev pub Bytes : Type 0
Bytes = List ℕ

-- The bytes of an ASCII literal.
abbrev pub codes : String → Bytes
codes String.[] = []
codes (String.◌∷◌ c s) = code c ∷ codes s

-- `std::string::operator==`.
unfoldable pub equal : Bytes → Bytes → Bool
equal [] [] = true
equal (x ∷ xs) (y ∷ ys) = x == y && equal xs ys
equal _ _ = false

-- `equal` decides equality.
pub equal_iff : (s t : Bytes) → (equal s t ≡ true) ↔ (s ≡ t)
unfolding equal
equal_iff [] [] = ground arith
equal_iff [] (d ∷ t) = ground arith
equal_iff (c ∷ s) [] = ground arith
equal_iff (c ∷ s) (d ∷ t) = ground (equal_iff s t, arith)

pub equal_refl : (a : Bytes) → equal a a ≡ true
equal_refl a = (equal_iff a a).1 refl

-- `std::string::empty`.
unfoldable pub is_empty : Bytes → Bool
is_empty [] = true
is_empty (c ∷ cs) = false

-- The first byte, and 0 where there is none.
unfoldable pub front : Bytes → ℕ
front [] = 0
front (c ∷ cs) = c

-- The last byte, and 0 where there is none.
unfoldable pub back : Bytes → ℕ
back [] = 0
back (c ∷ []) = c
back (c ∷ d ∷ cs) = back (d ∷ cs)

-- All but the last byte.
unfoldable pub but_last : Bytes → Bytes
but_last [] = []
but_last (c ∷ []) = []
but_last (c ∷ d ∷ cs) = c ∷ but_last (d ∷ cs)

-- `s.rfind(prefix, 0) == 0`.
unfoldable pub starts_with : Bytes → Bytes → Bool
starts_with [] s = true
starts_with (p ∷ ps) [] = false
starts_with (p ∷ ps) (c ∷ cs) = p == c && starts_with ps cs

-- `s.find(c)`, as the text before the first `c` and the text behind it.
unfoldable pub split_first : ℕ → Bytes → Option (Bytes × Bytes)
split_first k [] = none
split_first k (c ∷ cs) =
    let rest = split_first k cs in
    if c == k then some ([], cs) else elim rest [ none ↦ none | some (a, b) ↦ some (c ∷ a, b) ]

-- `s.rfind(c)`, as the text before the last `c` and the text behind it.
unfoldable pub split_last : ℕ → Bytes → Option (Bytes × Bytes)
split_last k [] = none
split_last k (c ∷ cs) = elim (split_last k cs) [
  | some (a, b) ↦ some (c ∷ a, b)
  | none ↦ if c == k then some ([], cs) else none
]

unfoldable pub drop_while : (ℕ → Bool) → Bytes → Bytes
drop_while p [] = []
drop_while p (c ∷ cs) = if p c then drop_while p cs else c ∷ cs

unfoldable pub drop_last_while : (ℕ → Bool) → Bytes → Bytes
drop_last_while p [] = []
drop_last_while p (c ∷ cs) = elim (drop_last_while p cs) [
  | [] ↦ if p c then [] else c ∷ []
  | d ∷ ds ↦ c ∷ d ∷ ds
]

-- `std::tolower` in the C locale.
unfoldable pub to_lower : ℕ → ℕ
to_lower c = if leb b'A' c && leb c b'Z' then c + 32 else c

unfoldable pub is_digit : ℕ → Bool
is_digit c = leb b'0' c && leb c b'9'

-- `n` times the byte `c`.
unfoldable pub replicate : ℕ → ℕ → Bytes
replicate zero c = []
replicate (suc n) c = c ∷ replicate n c

-- `%-20s` for 20: blanks up to a width.
unfoldable pub pad : ℕ → Bytes → Bytes
unfolding replicate
pad width s = s ++ replicate (width - length s) b' '

-- Pieces of a text, one after the other.
abbrev pub cat : List Bytes → Bytes
cat [] = []
cat (s ∷ ss) = s ++ cat ss
