-- ===== src/Autocorrect.antt =====
-- src/util/autocorrect.hpp: the filter that corrects a mistyped command. A byte is taken as
-- `std::tolower` takes an unsigned char in the C locale. The map from lengths to words is a function, empty
-- where the map has no key. Sizes do not overflow: they are lengths of strings in memory.

pub mod Keys
pub mod Walk
pub mod Pool
pub mod Nearest
mod Tests
use castle_plus.Prelude.{
  ℕ, zero, suc, ◌+◌, ◌-◌, ◌*◌, ◌^◌, Bool, true, false, ◌&&◌, ◌||◌, List, [], ◌∷◌, ◌++◌, Option,
  none, some, Bytes, ltb, leb, ◌==◌, if◌then◌else◌, length, get_elem?, drop, to_lower,
}

-- `kMaxDistance`.
abbrev pub max_distance : ℕ
max_distance = 255

-- `lookupGrid`, by rows.
abbrev pub lookup_grid : List (List ℕ)
lookup_grid =
    (0 ∷ 5 ∷ 3 ∷ 2 ∷ 2 ∷ 3 ∷ 4 ∷ 5 ∷ 7 ∷ 6 ∷ 7 ∷ 8 ∷ 7 ∷ 6 ∷ 8 ∷ 9 ∷ 1 ∷ 3 ∷ 1 ∷ 4 ∷ 6 ∷ 4 ∷ 1 ∷ 2
      ∷ 5 ∷ 1 ∷ [])
    ∷ (5 ∷ 0 ∷ 2 ∷ 3 ∷ 4 ∷ 2 ∷ 1 ∷ 1 ∷ 3 ∷ 2 ∷ 3 ∷ 4 ∷ 2 ∷ 1 ∷ 4 ∷ 5 ∷ 5 ∷ 3 ∷ 4 ∷ 3 ∷ 3 ∷ 1 ∷ 4 ∷ 3
        ∷ 2 ∷ 4 ∷ [])
    ∷ (3 ∷ 2 ∷ 0 ∷ 1 ∷ 3 ∷ 1 ∷ 2 ∷ 3 ∷ 5 ∷ 4 ∷ 5 ∷ 6 ∷ 4 ∷ 3 ∷ 6 ∷ 7 ∷ 4 ∷ 2 ∷ 2 ∷ 3 ∷ 4 ∷ 1 ∷ 3 ∷ 1
        ∷ 3 ∷ 2 ∷ [])
    ∷ (2 ∷ 3 ∷ 1 ∷ 0 ∷ 1 ∷ 1 ∷ 2 ∷ 3 ∷ 5 ∷ 4 ∷ 5 ∷ 6 ∷ 5 ∷ 4 ∷ 6 ∷ 7 ∷ 3 ∷ 1 ∷ 1 ∷ 2 ∷ 4 ∷ 2 ∷ 2 ∷ 1
        ∷ 3 ∷ 2 ∷ [])
    ∷ (2 ∷ 4 ∷ 3 ∷ 1 ∷ 0 ∷ 2 ∷ 3 ∷ 3 ∷ 5 ∷ 4 ∷ 5 ∷ 6 ∷ 5 ∷ 4 ∷ 6 ∷ 7 ∷ 2 ∷ 1 ∷ 1 ∷ 2 ∷ 4 ∷ 3 ∷ 1 ∷ 2
        ∷ 3 ∷ 3 ∷ [])
    ∷ (3 ∷ 2 ∷ 1 ∷ 1 ∷ 2 ∷ 0 ∷ 1 ∷ 2 ∷ 4 ∷ 3 ∷ 4 ∷ 5 ∷ 4 ∷ 3 ∷ 5 ∷ 6 ∷ 3 ∷ 1 ∷ 2 ∷ 1 ∷ 3 ∷ 1 ∷ 3 ∷ 2
        ∷ 2 ∷ 3 ∷ [])
    ∷ (4 ∷ 1 ∷ 2 ∷ 2 ∷ 3 ∷ 1 ∷ 0 ∷ 1 ∷ 3 ∷ 2 ∷ 3 ∷ 4 ∷ 3 ∷ 2 ∷ 4 ∷ 5 ∷ 4 ∷ 2 ∷ 3 ∷ 1 ∷ 2 ∷ 1 ∷ 3 ∷ 3
        ∷ 1 ∷ 4 ∷ [])
    ∷ (5 ∷ 1 ∷ 3 ∷ 3 ∷ 3 ∷ 2 ∷ 1 ∷ 0 ∷ 2 ∷ 1 ∷ 2 ∷ 3 ∷ 2 ∷ 1 ∷ 3 ∷ 4 ∷ 5 ∷ 3 ∷ 4 ∷ 2 ∷ 1 ∷ 2 ∷ 4 ∷ 4
        ∷ 1 ∷ 5 ∷ [])
    ∷ (7 ∷ 3 ∷ 5 ∷ 5 ∷ 5 ∷ 4 ∷ 3 ∷ 2 ∷ 0 ∷ 1 ∷ 1 ∷ 2 ∷ 2 ∷ 3 ∷ 1 ∷ 2 ∷ 7 ∷ 4 ∷ 6 ∷ 3 ∷ 1 ∷ 4 ∷ 6 ∷ 6
        ∷ 2 ∷ 7 ∷ [])
    ∷ (6 ∷ 2 ∷ 4 ∷ 4 ∷ 4 ∷ 3 ∷ 2 ∷ 1 ∷ 1 ∷ 0 ∷ 1 ∷ 2 ∷ 1 ∷ 1 ∷ 2 ∷ 3 ∷ 6 ∷ 3 ∷ 5 ∷ 3 ∷ 1 ∷ 3 ∷ 5 ∷ 5
        ∷ 2 ∷ 6 ∷ [])
    ∷ (7 ∷ 3 ∷ 5 ∷ 5 ∷ 5 ∷ 4 ∷ 3 ∷ 2 ∷ 1 ∷ 1 ∷ 0 ∷ 1 ∷ 1 ∷ 2 ∷ 1 ∷ 2 ∷ 7 ∷ 4 ∷ 6 ∷ 3 ∷ 2 ∷ 4 ∷ 6 ∷ 6
        ∷ 3 ∷ 7 ∷ [])
    ∷ (8 ∷ 4 ∷ 6 ∷ 6 ∷ 6 ∷ 5 ∷ 4 ∷ 3 ∷ 2 ∷ 2 ∷ 1 ∷ 0 ∷ 2 ∷ 3 ∷ 1 ∷ 1 ∷ 8 ∷ 5 ∷ 7 ∷ 4 ∷ 3 ∷ 5 ∷ 7 ∷ 7
        ∷ 3 ∷ 8 ∷ [])
    ∷ (7 ∷ 2 ∷ 4 ∷ 5 ∷ 5 ∷ 4 ∷ 3 ∷ 2 ∷ 2 ∷ 1 ∷ 1 ∷ 2 ∷ 0 ∷ 1 ∷ 3 ∷ 3 ∷ 7 ∷ 4 ∷ 6 ∷ 4 ∷ 3 ∷ 3 ∷ 6 ∷ 5
        ∷ 3 ∷ 6 ∷ [])
    ∷ (6 ∷ 1 ∷ 3 ∷ 4 ∷ 4 ∷ 3 ∷ 2 ∷ 1 ∷ 3 ∷ 1 ∷ 2 ∷ 3 ∷ 1 ∷ 0 ∷ 3 ∷ 4 ∷ 6 ∷ 4 ∷ 5 ∷ 3 ∷ 2 ∷ 2 ∷ 5 ∷ 4
        ∷ 3 ∷ 5 ∷ [])
    ∷ (8 ∷ 4 ∷ 6 ∷ 6 ∷ 6 ∷ 5 ∷ 4 ∷ 3 ∷ 1 ∷ 2 ∷ 1 ∷ 1 ∷ 3 ∷ 3 ∷ 0 ∷ 1 ∷ 8 ∷ 5 ∷ 7 ∷ 4 ∷ 2 ∷ 5 ∷ 7 ∷ 7
        ∷ 3 ∷ 8 ∷ [])
    ∷ (9 ∷ 5 ∷ 7 ∷ 7 ∷ 7 ∷ 6 ∷ 5 ∷ 4 ∷ 2 ∷ 3 ∷ 2 ∷ 1 ∷ 3 ∷ 4 ∷ 1 ∷ 0 ∷ 9 ∷ 6 ∷ 8 ∷ 5 ∷ 3 ∷ 6 ∷ 8 ∷ 8
        ∷ 4 ∷ 9 ∷ [])
    ∷ (1 ∷ 5 ∷ 4 ∷ 3 ∷ 2 ∷ 3 ∷ 4 ∷ 5 ∷ 7 ∷ 6 ∷ 7 ∷ 8 ∷ 7 ∷ 6 ∷ 8 ∷ 9 ∷ 0 ∷ 3 ∷ 2 ∷ 4 ∷ 6 ∷ 4 ∷ 1 ∷ 3
        ∷ 5 ∷ 3 ∷ [])
    ∷ (3 ∷ 3 ∷ 2 ∷ 1 ∷ 1 ∷ 1 ∷ 2 ∷ 3 ∷ 4 ∷ 3 ∷ 4 ∷ 5 ∷ 4 ∷ 4 ∷ 5 ∷ 6 ∷ 3 ∷ 0 ∷ 2 ∷ 1 ∷ 3 ∷ 3 ∷ 2 ∷ 3
        ∷ 2 ∷ 3 ∷ [])
    ∷ (1 ∷ 4 ∷ 2 ∷ 1 ∷ 1 ∷ 2 ∷ 3 ∷ 4 ∷ 6 ∷ 5 ∷ 6 ∷ 7 ∷ 6 ∷ 5 ∷ 7 ∷ 8 ∷ 2 ∷ 2 ∷ 0 ∷ 3 ∷ 5 ∷ 3 ∷ 1 ∷ 1
        ∷ 4 ∷ 1 ∷ [])
    ∷ (4 ∷ 3 ∷ 3 ∷ 2 ∷ 2 ∷ 1 ∷ 1 ∷ 2 ∷ 3 ∷ 3 ∷ 3 ∷ 4 ∷ 4 ∷ 3 ∷ 4 ∷ 5 ∷ 4 ∷ 1 ∷ 3 ∷ 0 ∷ 2 ∷ 2 ∷ 3 ∷ 3
        ∷ 1 ∷ 4 ∷ [])
    ∷ (6 ∷ 3 ∷ 4 ∷ 4 ∷ 4 ∷ 3 ∷ 2 ∷ 1 ∷ 1 ∷ 1 ∷ 2 ∷ 3 ∷ 3 ∷ 2 ∷ 2 ∷ 3 ∷ 6 ∷ 3 ∷ 5 ∷ 2 ∷ 0 ∷ 3 ∷ 5 ∷ 5
        ∷ 1 ∷ 6 ∷ [])
    ∷ (4 ∷ 1 ∷ 1 ∷ 2 ∷ 3 ∷ 1 ∷ 1 ∷ 2 ∷ 4 ∷ 3 ∷ 4 ∷ 5 ∷ 3 ∷ 2 ∷ 5 ∷ 6 ∷ 4 ∷ 3 ∷ 3 ∷ 2 ∷ 3 ∷ 0 ∷ 4 ∷ 2
        ∷ 3 ∷ 3 ∷ [])
    ∷ (1 ∷ 4 ∷ 3 ∷ 2 ∷ 1 ∷ 3 ∷ 3 ∷ 4 ∷ 6 ∷ 5 ∷ 6 ∷ 7 ∷ 6 ∷ 5 ∷ 7 ∷ 8 ∷ 1 ∷ 2 ∷ 1 ∷ 3 ∷ 5 ∷ 4 ∷ 0 ∷ 3
        ∷ 4 ∷ 2 ∷ [])
    ∷ (2 ∷ 3 ∷ 1 ∷ 1 ∷ 2 ∷ 2 ∷ 3 ∷ 4 ∷ 6 ∷ 5 ∷ 6 ∷ 7 ∷ 5 ∷ 4 ∷ 7 ∷ 8 ∷ 3 ∷ 3 ∷ 1 ∷ 3 ∷ 5 ∷ 2 ∷ 3 ∷ 0
        ∷ 4 ∷ 1 ∷ [])
    ∷ (5 ∷ 2 ∷ 3 ∷ 3 ∷ 3 ∷ 2 ∷ 1 ∷ 1 ∷ 2 ∷ 2 ∷ 3 ∷ 3 ∷ 3 ∷ 3 ∷ 3 ∷ 4 ∷ 5 ∷ 2 ∷ 4 ∷ 1 ∷ 1 ∷ 3 ∷ 4 ∷ 4
        ∷ 0 ∷ 5 ∷ [])
    ∷ (1 ∷ 4 ∷ 2 ∷ 2 ∷ 3 ∷ 3 ∷ 4 ∷ 5 ∷ 7 ∷ 6 ∷ 7 ∷ 8 ∷ 6 ∷ 5 ∷ 8 ∷ 9 ∷ 3 ∷ 3 ∷ 1 ∷ 4 ∷ 6 ∷ 3 ∷ 2 ∷ 1
        ∷ 5 ∷ 0 ∷ [])
    ∷ []

-- The index of a letter, in either case.
unfoldable pub letter : ℕ → Option ℕ
unfolding to_lower
letter c = if leb b'a' (to_lower c) && leb (to_lower c) b'z' then some (to_lower c - b'a') else none

unfoldable pub cell : ℕ → Option (List ℕ) → ℕ
cell b none = max_distance
cell b (some row) = elim (get_elem? row b) [ none ↦ max_distance | some d ↦ d ]

unfoldable pub grid_at : Option ℕ → Option ℕ → ℕ
unfolding cell
grid_at none b = max_distance
grid_at (some a) none = max_distance
grid_at (some a) (some b) = cell b (get_elem? lookup_grid a)

-- `findLetterDistance`.
unfoldable pub find_letter_distance : ℕ → ℕ → ℕ
unfolding grid_at letter
find_letter_distance c d = grid_at (letter c) (letter d)

-- The lambda `same`.
abbrev pub same : ℕ → ℕ → Bool
same x y = find_letter_distance x y == 0

-- A test on the byte behind a cursor, which fails if there is none.
abbrev pub next : (ℕ → Bool) → Bytes → Bool
next p [] = false
next p (c ∷ cs) = p c

abbrev pub swap_cost : ℕ
swap_cost = 1

abbrev pub gap_cost : ℕ
gap_cost = 2

-- What a round of the loop does.
pub data Move : Type 0 where
  keep swap skip_word skip_input replace : Move

-- The tests of a round, in their order: `c` and `w` are the bytes at the cursors, `cs` and `ws` the
-- bytes behind them.
unfoldable pub move : ℕ → Bytes → ℕ → Bytes → Move
move c cs w ws =
    if same c w
    then keep
    else if next (same c) ws && next (λ x. same x w) cs
    then swap
    else if ltb (length cs) (length ws) && next (same c) ws
    then skip_word
    else if ltb (length ws) (length cs) && next (λ x. same x w) cs
    then skip_input
    else replace

-- The loop, and the charge for what is left on either side.
unfoldable pub walk : ℕ → Bytes → Bytes → ℕ
unfolding move
walk zero input word = gap_cost * (length input + length word)
walk (suc fuel) [] word = gap_cost * length word
walk (suc fuel) (c ∷ cs) [] = gap_cost * length (c ∷ cs)
walk (suc fuel) (c ∷ cs) (w ∷ ws) = elim (move c cs w ws) [
  | keep ↦ walk fuel cs ws
  | swap ↦ swap_cost + walk fuel (drop 1 cs) (drop 1 ws)
  | skip_word ↦ gap_cost + walk fuel (c ∷ cs) ws
  | skip_input ↦ gap_cost + walk fuel cs (w ∷ ws)
  | replace ↦ find_letter_distance c w + walk fuel cs ws
]

-- `totalDistance` behind the loop: a round moves a cursor, so there are not more rounds than bytes.
unfoldable pub total_distance : Bytes → Bytes → ℕ
unfolding walk
total_distance input word = walk (length input + length word) input word

-- `fixHelper`.
unfoldable pub fix_helper : ℕ → Bytes → Bytes → Option ℕ
fix_helper sensitivity input word =
    if ltb sensitivity (total_distance input word) then none else some (total_distance input word)

-- `_dictionary`.
abbrev pub Dictionary : Type 0
Dictionary = ℕ → List Bytes

-- `_dictionary[str.length()].push_back(str)`.
unfoldable pub push_word : Bytes → Dictionary → Dictionary
push_word word d len = if length word == len then d len ++ (word ∷ []) else d len

-- The loop of the constructor.
unfoldable pub fill : List Bytes → Dictionary → Dictionary
unfolding push_word
fill [] d = d
fill (w ∷ ws) d = fill ws (push_word w d)

pub record Filter : Type 0 where
  pub sensitivity : ℕ
  pub dictionary : Dictionary

-- The constructor.
unfoldable pub make_filter : ℕ → List Bytes → Filter
unfolding fill
make_filter sensitivity words = record {
  sensitivity = sensitivity;
  dictionary = fill words (λ len. []);
}

-- The loop that fills `pool`: `rounds` lengths from `len` on.
unfoldable pub gather : Dictionary → ℕ → ℕ → List Bytes
gather d len zero = []
gather d len (suc rounds) = d len ++ gather d (suc len) rounds

-- The candidates: `strLen - _sensitivity` stops at 0 as `minFind` does.
unfoldable pub pool : Filter → ℕ → List Bytes
unfolding gather
pool f len =
    gather f.dictionary (len - f.sensitivity) (suc (len + f.sensitivity) - (len - f.sensitivity))

-- `bestMatch` and `bestMatchDistance`.
pub record Candidate : Type 0 where
  pub word : Bytes
  pub distance : ℕ

abbrev pub size_max : ℕ
size_max = 2 ^ 64 - 1

unfoldable pub challenge : Candidate → Bytes → Option ℕ → Candidate
challenge best word none = best
challenge best word (some count) =
    if ltb count best.distance || (count == best.distance && ltb (length best.word) (length word))
    then record { word = word; distance = count }
    else best

-- The loop over the pool.
unfoldable pub pick : ℕ → Bytes → Candidate → List Bytes → Candidate
unfolding challenge
pick sensitivity str best [] = best
pick sensitivity str best (w ∷ ws) =
    pick sensitivity str (challenge best w (fix_helper sensitivity str w)) ws

-- `fix`.
unfoldable pub fix : Filter → Bytes → Bytes
unfolding pick pool
fix f str =
    (pick f.sensitivity str (record { word = str; distance = size_max }) (pool f (length str))).word
