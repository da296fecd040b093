-- ===== src/Autocorrect/Tests.antt =====
-- The filter of the control server, with a part of its words.
use mathlib.Core.List.{Memᴰ}
use castle_plus.Prelude.{ℕ, ◌≡◌, refl, List, [], ◌∷◌, none, Bytes, codes, arith, ◌⊎◌}
use castle_plus.Autocorrect.{
  make_filter, fix, fix_helper, walk, total_distance, pool, pick, challenge, fill,
  find_letter_distance, letter,
}
use castle_plus.Autocorrect.Nearest.{IsNearest, fix-IsNearest}

abbrev words : List Bytes
words = codes "stats" ∷ codes "help" ∷ codes "quit" ∷ []

fix-typo : fix (make_filter 3 words) (codes "hlep") ≡ codes "help"
unfolding fix make_filter pool pick challenge fix_helper total_distance walk fill
    find_letter_distance letter
fix-typo = refl

fix-IsNearest_example :
    ((fix (make_filter 3 words) (codes "hlep") ≡ codes "hlep")
      × ((w : Bytes) → Memᴰ w words → fix_helper 3 (codes "hlep") w ≡ none))
    ⊎ ((c : ℕ) × IsNearest 3 words (codes "hlep") (fix (make_filter 3 words) (codes "hlep")) c)
fix-IsNearest_example = fix-IsNearest 3 words (codes "hlep") (omega arith)
