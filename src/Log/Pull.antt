-- ===== src/Log/Pull.antt =====
-- The lines that are pulled from the log.
use castle_plus.Prelude.{
  ℕ, zero, suc, ◌+◌, ◌-◌, ◌≤◌, ◌≡◌, ◌≢◌, refl, sym, ap, ◌∙◌, Bool, true, false, List, [], ◌∷◌, ◌++◌,
  append_assoc, Option, none, some, Bytes, length, drop, take, take_all, length-drop, get_elem?,
  ◌==◌, arith,
}
use castle_plus.Ini.{lines}
use castle_plus.Log.Reader.{reindex}
use castle_plus.Log.Messages.{content, cons_line, get_lines}
use castle_plus.Log.Offsets.{longer, lines-longer, longer_some, length-offsets_from, get_line-lines}

abbrev pub end_of_line : Bytes
end_of_line = b'\n' ∷ []

longer-append :
    (c : ℕ) (b : Bool) (xs ys : List Bytes) → xs ≢ [] → longer c b (xs ++ ys) ≡ longer c b xs ++ ys
longer-append c b [] ys h = absurd (h refl)
longer-append c true (x ∷ xs) ys h = refl
longer-append c false (x ∷ xs) ys h = refl

-- What follows the end of a line has its own lines.
lines_some : (c : ℕ) (cs : Bytes) → lines (c ∷ cs) ≢ []
lines_some c cs e = longer_some c (c == b'\n') (lines cs) (sym (lines-longer c cs) ∙ e)

lines_ended : (a : Bytes) → lines (a ++ end_of_line) ≢ []
lines_ended [] = lines_some b'\n' []
lines_ended (c ∷ cs) = lines_some c (cs ++ end_of_line)

lines-append : (a b : Bytes) → lines (a ++ (end_of_line ++ b)) ≡ lines (a ++ end_of_line) ++ lines b
unfolding lines
lines-append [] b = lines-longer b'\n' b ∙ ap (λ xs. xs ++ lines b) (sym (lines-longer b'\n' []))
lines-append (c ∷ cs) b =
    lines-longer c (cs ++ (end_of_line ++ b))
    ∙ ap (longer c (c == b'\n')) (lines-append cs b)
    ∙ longer-append c (c == b'\n') (lines (cs ++ end_of_line)) (lines b) (lines_ended cs)
    ∙ ap (λ xs. xs ++ lines b) (sym (lines-longer c (cs ++ end_of_line)))

-- The file ends with the end of a line.
abbrev pub Ends : Bytes → Type 0
Ends text = (a : Bytes) × (text ≡ a ++ end_of_line)

pub lines-grow : (text more : Bytes) → Ends text → lines (text ++ more) ≡ lines text ++ lines more
lines-grow text more (a, e) =
    ap (λ t. lines (t ++ more)) e
    ∙ ap lines (append_assoc a end_of_line more)
    ∙ lines-append a more
    ∙ ap (λ t. lines t ++ lines more) (sym e)

-- The first `k` elements from `i` on.
picks : List Bytes → ℕ → ℕ → Option (List Bytes)
picks ls i zero = some []
picks ls i (suc k) = cons_line (get_elem? ls i) (picks ls (suc i) k)

picks_behind : (l : Bytes) (ls : List Bytes) (i k : ℕ) → picks (l ∷ ls) (suc i) k ≡ picks ls i k
unfolding picks
picks_behind l ls i zero = refl
picks_behind l ls i (suc k) = ap (cons_line (get_elem? ls i)) (picks_behind l ls (suc i) k)

picks_all :
    (ls : List Bytes) (i k : ℕ) → i + k ≤ length ls → picks ls i k ≡ some (take k (drop i ls))
unfolding picks
picks_all ls i zero h = refl
picks_all [] i (suc k) h = absurd (omega arith)
picks_all (l ∷ ls) zero (suc k) h =
    ap (cons_line (some l)) (picks_behind l ls 0 k ∙ picks_all ls 0 k (omega arith))
picks_all (l ∷ ls) (suc i) (suc k) h =
    picks_behind l ls i (suc k) ∙ picks_all ls i (suc k) (omega arith)

get_lines-picks :
    (text : Bytes) (i k : ℕ) → get_lines (reindex (some text)) text i k ≡ picks (lines text) i k
unfolding get_lines picks
get_lines-picks text i zero = refl
get_lines-picks text i (suc k) =
    ap (λ o. cons_line o (get_lines (reindex (some text)) text (suc i) k)) (get_line-lines text i)
    ∙ ap (cons_line (get_elem? (lines text) i)) (get_lines-picks text (suc i) k)

pub length-reindex : (text : Bytes) → length (reindex (some text)) ≡ length (lines text)
unfolding reindex
length-reindex text = length-offsets_from 0 (lines text)

pub reindex-content : (o : Option Bytes) → reindex o ≡ reindex (some (content o))
unfolding reindex lines
reindex-content none = refl
reindex-content (some text) = refl

-- The loop from the watermark on fetches the lines behind it.
pub get_lines-drop :
    (text : Bytes) (i : ℕ)
    → i ≤ length (lines text)
    → get_lines (reindex (some text)) text i (length (lines text) - i) ≡ some (drop i (lines text))
get_lines-drop text i h =
    let n : i + (length (lines text) - i) ≤ length (lines text) = omega arith in
    let m : length (drop i (lines text)) ≤ length (lines text) - i =
      omega (arith, length-drop i (lines text)) in
    get_lines-picks text i (length (lines text) - i)
    ∙ picks_all (lines text) i (length (lines text) - i) n
    ∙ ap some (take_all (length (lines text) - i) (drop i (lines text)) m)
