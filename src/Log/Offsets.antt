-- ===== src/Log/Offsets.antt =====
-- The reader's lines by their offsets.
use castle_plus.Prelude.{
  ℕ, zero, suc, ◌+◌, ◌≡◌, refl, sym, ap, subst, ◌∙◌, Bool, true, false, List, [], ◌∷◌, some, Bytes,
  length, drop, get_elem?, ◌==◌, if◌then◌else◌, drop-drop, ◌≢◌,
}
use castle_plus.Ini.{lines}
use castle_plus.Log.Reader.{offsets_from, reindex, first_line, get_line}

-- The lines of `c` and of what follows it, whose lines are `rest`.
abbrev pub longer : ℕ → Bool → List Bytes → List Bytes
longer c true rest = [] ∷ rest
longer c false [] = (c ∷ []) ∷ []
longer c false (l ∷ ls) = (c ∷ l) ∷ ls

pub lines-longer : (c : ℕ) (cs : Bytes) → lines (c ∷ cs) ≡ longer c (c == b'\n') (lines cs)
unfolding lines
lines-longer c cs = split (c == b'\n') (lines cs)
  where
    split :
        (b : Bool) (rest : List Bytes)
        → (if b then [] ∷ rest else elim rest [ [] ↦ (c ∷ []) ∷ [] | l ∷ ls ↦ (c ∷ l) ∷ ls ])
          ≡ longer c b rest
    split true rest = refl
    split false [] = refl
    split false (l ∷ ls) = refl

pub longer_some : (c : ℕ) (b : Bool) (rest : List Bytes) → longer c b rest ≢ []
longer_some c true rest e = cc e
longer_some c false [] e = cc e
longer_some c false (l ∷ ls) e = cc e

lines-nil : (text : Bytes) → lines text ≡ [] → text ≡ []
lines-nil [] e = refl
lines-nil (c ∷ cs) e = absurd (longer_some c (c == b'\n') (lines cs) (sym (lines-longer c cs) ∙ e))

-- Behind the first line and its end are the other lines.
lines_behind :
    (c : ℕ) (cs l : Bytes) (ls : List Bytes)
    → ((m : Bytes) (ms : List Bytes) → lines cs ≡ m ∷ ms → lines (drop (suc (length m)) cs) ≡ ms)
    → (b : Bool) (rest : List Bytes) → lines cs ≡ rest
    → longer c b rest ≡ l ∷ ls
    → lines (drop (length l) cs) ≡ ls
unfolding lines
lines_behind c cs l ls ih true rest r e =
    let p : [] ≡ l = cc e in subst (λ m. lines (drop (length m) cs) ≡ ls) p (cc (r, e))
lines_behind c cs l ls ih false [] r e =
    let p : (c ∷ []) ≡ l = cc e in
    let q : [] ≡ ls = cc e in
    subst (λ m. lines (drop (length m) cs) ≡ ls) p (ap (λ s. lines (drop 1 s)) (lines-nil cs r) ∙ q)
lines_behind c cs l ls ih false (m ∷ ms) r e =
    let p : (c ∷ m) ≡ l = cc e in
    let q : ms ≡ ls = cc e in subst (λ n. lines (drop (length n) cs) ≡ ls) p (ih m ms r ∙ q)

lines-drop :
    (text l : Bytes) (ls : List Bytes)
    → lines text ≡ l ∷ ls
    → lines (drop (suc (length l)) text) ≡ ls
unfolding lines
lines-drop [] l ls e = absurd cc e
lines-drop (c ∷ cs) l ls e =
    lines_behind c cs l ls (lines-drop cs) (c == b'\n') (lines cs) refl
      (sym (lines-longer c cs) ∙ e)

pub length-offsets_from : (pos : ℕ) (ls : List Bytes) → length (offsets_from pos ls) ≡ length ls
unfolding offsets_from
length-offsets_from pos [] = refl
length-offsets_from pos (l ∷ ls) = ap suc (length-offsets_from (pos + suc (length l)) ls)

get_line_from :
    (text : Bytes) (pos : ℕ) (ls : List Bytes)
    → lines (drop pos text) ≡ ls
    → (i : ℕ) → get_line (offsets_from pos ls) text i ≡ get_elem? ls i
unfolding get_line offsets_from first_line
get_line_from text pos [] e i = refl
get_line_from text pos (l ∷ ls) e zero = ap (λ x. some (first_line x)) e
get_line_from text pos (l ∷ ls) e (suc i) =
    get_line_from text (pos + suc (length l)) ls
      (ap lines (sym (drop-drop pos (suc (length l)) text)) ∙ lines-drop (drop pos text) l ls e) i

-- A line fetched by its offset is the line of that number.
pub get_line-lines :
    (text : Bytes) (i : ℕ) → get_line (reindex (some text)) text i ≡ get_elem? (lines text) i
unfolding reindex
get_line-lines text i = get_line_from text 0 (lines text) refl i
