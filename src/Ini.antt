-- ===== src/Ini.antt =====
-- The line syntax that src/http/router.cpp and src/config/service_config.cpp share: both files hold
-- the same `trim`, the same `std::getline` loop and the same tests on a line.
pub mod Laws
use castle_plus.Prelude.{
  ℕ, Bool, ◌||◌, List, [], ◌∷◌, none, some, Bytes, ◌==◌, if◌then◌else◌, not, is_empty, front, back,
  but_last, split_first, drop_while, drop_last_while, map, to_lower, is_digit,
}

-- One of " \t\r\n".
unfoldable pub is_blank : ℕ → Bool
is_blank c = c == b' ' || c == b'\t' || c == b'\r' || c == b'\n'

unfoldable pub trim : Bytes → Bytes
unfolding is_blank drop_while drop_last_while
trim s = drop_last_while is_blank (drop_while is_blank s)

unfoldable pub lower : Bytes → Bytes
unfolding to_lower
lower = map to_lower

-- The lines that `std::getline` takes from a file.
unfoldable pub lines : Bytes → List Bytes
lines [] = []
lines (c ∷ cs) =
    let rest = lines cs in
    if c == b'\n' then [] ∷ rest else elim rest [ [] ↦ (c ∷ []) ∷ [] | l ∷ ls ↦ (c ∷ l) ∷ ls ]

-- What a line says, before the key is looked at.
pub data Line : Type 0 where
  skip malformed_header empty_name no_equals : Line
  header : Bytes → Line
  pair : Bytes → Bytes → Line

header_line : Bytes → Line
header_line name = if is_empty name then empty_name else header name

pair_line : Bytes → Line
pair_line t = elim (split_first b'=' t) [
  | none ↦ no_equals
  | some (key, val) ↦ pair (trim key) (trim val)
]

-- The tests on a trimmed line, in the order of the source. `t.substr(1, t.size() - 2)` is the text
-- between the brackets; the text "[" is its own last byte and no "]".
unfoldable pub classify_trimmed : Bytes → Line
unfolding header_line pair_line is_empty front back but_last split_first
classify_trimmed [] = skip
classify_trimmed (c ∷ cs) =
    if c == b'#' || c == b';'
    then skip
    else if c == b'['
    then if not (back (c ∷ cs) == b']') then malformed_header else header_line (trim (but_last cs))
    else pair_line (c ∷ cs)

unfoldable pub classify : Bytes → Line
unfolding trim classify_trimmed
classify line = classify_trimmed (trim line)
