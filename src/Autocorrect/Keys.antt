-- ===== src/Autocorrect/Keys.antt =====
-- The key grid: only a letter and itself are at distance 0.
use castle_plus.Prelude.{
  ℕ, zero, suc, ◌+◌, ◌<◌, ◌≡◌, refl, sym, ap, ◌∙◌, Bool, true, not, ◌&&◌, List, [], ◌∷◌, some,
  arith, ◌==◌, if◌then◌else◌, get_elem?, to_lower, Option-cases, inl, inr,
}
use castle_plus.Autocorrect.{lookup_grid, letter, cell, grid_at, find_letter_distance}

abbrev row_ok : ℕ → ℕ → List ℕ → Bool
row_ok i j [] = j == 26
row_ok i j (d ∷ ds) = (if i == j then d == 0 else not (d == 0)) && row_ok i (suc j) ds

abbrev rows_ok : ℕ → List (List ℕ) → Bool
rows_ok i [] = i == 26
rows_ok i (r ∷ rs) = row_ok i 0 r && rows_ok (suc i) rs

grid_ok : rows_ok 0 lookup_grid ≡ true
grid_ok = refl

-- A row holds a number at every column `m`, and 0 only at column `i`.
row_lem :
    (i j k m : ℕ) (ds : List ℕ)
    → row_ok i j ds ≡ true
    → m ≡ j + k
    → m < 26
    → (d : ℕ) × (get_elem? ds k ≡ some d) × (d ≡ 0 → i ≡ m) × (i ≡ m → d ≡ 0)
row_lem i j k m [] h e lt = ground arith
row_lem i j zero m (d ∷ ds) h e lt = (d, refl, (λ z. ground arith), (λ z. ground arith))
row_lem i j (suc k) m (d ∷ ds) h e lt =
    row_lem i (suc j) k m ds (ground arith) (omega (arith, e)) lt

rows_lem :
    (i k n : ℕ) (rs : List (List ℕ))
    → rows_ok i rs ≡ true
    → n ≡ i + k
    → n < 26
    → (r : List ℕ) × (get_elem? rs k ≡ some r) × (row_ok n 0 r ≡ true)
rows_lem i k n [] h e lt = ground arith
rows_lem i zero n (r ∷ rs) h e lt =
    let f : n ≡ i = omega (arith, e) in (r, refl, rw f (ground arith))
rows_lem i (suc k) n (r ∷ rs) h e lt = rows_lem (suc i) k n rs (ground arith) (omega (arith, e)) lt

letter_lem : (c a : ℕ) → letter c ≡ some a → (a < 26) × (to_lower c ≡ a + b'a')
unfolding letter
letter_lem c a h = ground arith

cell_lem :
    (a b : ℕ)
    → a < 26
    → b < 26
    → (grid_at (some a) (some b) ≡ 0 → a ≡ b) × (a ≡ b → grid_at (some a) (some b) ≡ 0)
unfolding grid_at cell
cell_lem a b ha hb =
    let (r, e, p) = rows_lem 0 a a lookup_grid grid_ok (omega arith) ha in
    let (d, f, z, s) = row_lem a 0 b b r p (omega arith) hb in rw (e, cell, f) (z, s)

-- Keys at distance 0 are the same letter.
pub zero_distance : (c d : ℕ) → find_letter_distance c d ≡ 0 → to_lower c ≡ to_lower d
unfolding find_letter_distance grid_at
zero_distance c d h = elim (Option-cases (letter c)) [
  | inl e ↦ absurd cc (rw e at h)
  | inr (a, e) ↦ elim (Option-cases (letter d)) [
    | inl f ↦ absurd cc (rw (e, f) at h)
    | inr (b, f) ↦
        let p = letter_lem c a e in
        let q = letter_lem d b f in
        p.1 ∙ ap (λ x. x + b'a') ((cell_lem a b p.0 q.0).0 (rw (e, f) at h)) ∙ sym q.1
  ]
]

-- A letter is at distance 0 from itself.
pub own_distance : (c a : ℕ) → letter c ≡ some a → find_letter_distance c c ≡ 0
unfolding find_letter_distance
own_distance c a e = let p = letter_lem c a e in rw e ((cell_lem a a p.0 p.0).1 refl)
