-- ===== src/Autocorrect/Walk.antt =====
-- The distance of two words.
use castle_plus.Prelude.{
  ℕ, zero, suc, ◌+◌, ◌*◌, ◌≤◌, ◌<◌, ◌≡◌, ◌≢◌, refl, ap, [], ◌∷◌, ◌++◌, some, arith, length, drop,
  to_lower, Bytes, map, All, length-append,
}
use castle_plus.Autocorrect.{
  Move, keep, swap, skip_word, skip_input, replace, move, walk, total_distance,
  find_letter_distance, gap_cost, swap_cost, letter,
}
use castle_plus.Autocorrect.Keys.{zero_distance, own_distance}

-- To split on a move that stands inside a goal.
move_case {ℓ κ} :
    {A : Type ℓ} (P : A → Type κ) (m : Move) {k s w i r : A}
    → (m ≡ keep → P k)
    → (m ≡ swap → P s)
    → (m ≡ skip_word → P w)
    → (m ≡ skip_input → P i)
    → (m ≡ replace → P r)
    → P (elim m [ keep ↦ k | swap ↦ s | skip_word ↦ w | skip_input ↦ i | replace ↦ r ])
move_case P keep a b c d e = a refl
move_case P swap a b c d e = b refl
move_case P skip_word a b c d e = c refl
move_case P skip_input a b c d e = d refl
move_case P replace a b c d e = e refl

move-keep : (c w : ℕ) (cs ws : Bytes) → move c cs w ws ≡ keep → find_letter_distance c w ≡ 0
unfolding move
move-keep c w cs ws h = ground arith

move-replace : (c w : ℕ) (cs ws : Bytes) → move c cs w ws ≡ replace → find_letter_distance c w ≢ 0
unfolding move
move-replace c w cs ws h z = ground arith

move-swap : (c w : ℕ) (cs ws : Bytes) → move c cs w ws ≡ swap → (0 < length cs) × (0 < length ws)
unfolding move
move-swap c w [] [] h = ground arith
move-swap c w [] (x ∷ ws) h = ground arith
move-swap c w (x ∷ cs) [] h = ground arith
move-swap c w (x ∷ cs) (y ∷ ws) h = omega arith

length-drop_one : (cs : Bytes) → 0 < length cs → suc (length (drop 1 cs)) ≡ length cs
length-drop_one [] h = absurd (omega arith)
length-drop_one (c ∷ cs) h = refl

abbrev GapBound : Bytes → Bytes → ℕ → Type 0
GapBound xs ys d = (2 * length xs ≤ d + 2 * length ys) × (2 * length ys ≤ d + 2 * length xs)

walk-GapBound : (fuel : ℕ) (xs ys : Bytes) → GapBound xs ys (walk fuel xs ys)
unfolding walk
walk-GapBound zero xs ys = omega arith
walk-GapBound (suc fuel) [] ys = omega arith
walk-GapBound (suc fuel) (c ∷ cs) [] = omega arith
walk-GapBound (suc fuel) (c ∷ cs) (w ∷ ws) =
    move_case (GapBound (c ∷ cs) (w ∷ ws)) (move c cs w ws)
      (λ _. omega (arith, walk-GapBound fuel cs ws))
      (λ h.
        let p = move-swap c w cs ws h in
        omega (
          arith,
          walk-GapBound fuel (drop 1 cs) (drop 1 ws),
          length-drop_one cs p.0,
          length-drop_one ws p.1,
        ))
      (λ _. omega (arith, walk-GapBound fuel (c ∷ cs) ws))
      (λ _. omega (arith, walk-GapBound fuel cs (w ∷ ws)))
      (λ _. omega (arith, walk-GapBound fuel cs ws))

-- A byte more or less in length costs at least 2.
pub total_distance_gap :
    (xs ys : Bytes)
    → (2 * length xs ≤ total_distance xs ys + 2 * length ys)
      × (2 * length ys ≤ total_distance xs ys + 2 * length xs)
unfolding total_distance
total_distance_gap xs ys = walk-GapBound (length xs + length ys) xs ys

walk_zero : (fuel : ℕ) (xs ys : Bytes) → walk fuel xs ys ≡ 0 → map to_lower xs ≡ map to_lower ys
unfolding walk
walk_zero zero [] [] h = refl
walk_zero zero [] (y ∷ ys) h = absurd (omega (arith, h))
walk_zero zero (x ∷ xs) ys h = absurd (omega (arith, h))
walk_zero (suc fuel) [] [] h = refl
walk_zero (suc fuel) [] (y ∷ ys) h = absurd (omega (arith, h))
walk_zero (suc fuel) (c ∷ cs) [] h = absurd (omega (arith, h))
walk_zero (suc fuel) (c ∷ cs) (w ∷ ws) h =
    move_case (λ d. d ≡ 0 → map to_lower (c ∷ cs) ≡ map to_lower (w ∷ ws)) (move c cs w ws)
      (λ h z. cc (zero_distance c w (move-keep c w cs ws h), walk_zero fuel cs ws z))
      (λ _ z. absurd (omega (arith, z))) (λ _ z. absurd (omega (arith, z)))
      (λ _ z. absurd (omega (arith, z)))
      (λ h z. absurd (move-replace c w cs ws h (omega (arith, z)))) h

-- Words at distance 0 differ in case alone.
pub total_distance_zero :
    (xs ys : Bytes) → total_distance xs ys ≡ 0 → map to_lower xs ≡ map to_lower ys
unfolding total_distance
total_distance_zero xs ys h = walk_zero (length xs + length ys) xs ys h

-- Every byte is a letter.
abbrev pub AllLetters : Bytes → Type 0
AllLetters = All (λ c. (a : ℕ) × (letter c ≡ some a))

move_kept : (c : ℕ) (cs ws : Bytes) → find_letter_distance c c ≡ 0 → move c cs c ws ≡ keep
unfolding move
move_kept c cs ws h = rw h refl

walk_self : (fuel : ℕ) (xs : Bytes) → length xs ≤ fuel → AllLetters xs → walk fuel xs xs ≡ 0
unfolding walk
walk_self zero [] h v = refl
walk_self zero (c ∷ cs) h v = absurd (omega arith)
walk_self (suc fuel) [] h v = refl
walk_self (suc fuel) (c ∷ cs) h v =
    rw (move_kept c cs cs (own_distance c v.0.0 v.0.1), walk) (walk_self fuel cs (omega arith) v.1)

-- A word of letters is at distance 0 from itself.
pub total_distance_self : (xs : Bytes) → AllLetters xs → total_distance xs xs ≡ 0
unfolding total_distance
total_distance_self xs v = walk_self (length xs + length xs) xs (omega arith) v

walk_fuel :
    (f g : ℕ) (xs ys : Bytes)
    → length xs + length ys ≤ f
    → length xs + length ys ≤ g
    → walk f xs ys ≡ walk g xs ys
unfolding walk
walk_fuel zero zero xs ys h k = refl
walk_fuel zero (suc g) [] [] h k = refl
walk_fuel zero (suc g) [] (y ∷ ys) h k = absurd (omega arith)
walk_fuel zero (suc g) (x ∷ xs) ys h k = absurd (omega arith)
walk_fuel (suc f) zero [] [] h k = refl
walk_fuel (suc f) zero [] (y ∷ ys) h k = absurd (omega arith)
walk_fuel (suc f) zero (x ∷ xs) ys h k = absurd (omega arith)
walk_fuel (suc f) (suc g) [] ys h k = refl
walk_fuel (suc f) (suc g) (c ∷ cs) [] h k = refl
walk_fuel (suc f) (suc g) (c ∷ cs) (w ∷ ws) h k =
    both_moves (move c cs w ws) (walk_fuel f g cs ws (omega arith) (omega arith))
      (λ e.
        let p = move-swap c w cs ws e in
        let a = length-drop_one cs p.0 in
        let b = length-drop_one ws p.1 in
        ap (λ d. swap_cost + d)
          (walk_fuel f g (drop 1 cs) (drop 1 ws) (omega (arith, a, b)) (omega (arith, a, b))))
      (ap (λ d. gap_cost + d) (walk_fuel f g (c ∷ cs) ws (omega arith) (omega arith)))
      (ap (λ d. gap_cost + d) (walk_fuel f g cs (w ∷ ws) (omega arith) (omega arith)))
      (ap (λ d. find_letter_distance c w + d) (walk_fuel f g cs ws (omega arith) (omega arith)))
  where
    both_moves :
        (m : Move) {k s w i r k' s' w' i' r' : ℕ}
        → k ≡ k'
        → (m ≡ swap → s ≡ s')
        → w ≡ w'
        → i ≡ i'
        → r ≡ r'
        → elim m [ keep ↦ k | swap ↦ s | skip_word ↦ w | skip_input ↦ i | replace ↦ r ]
          ≡ elim m [ keep ↦ k' | swap ↦ s' | skip_word ↦ w' | skip_input ↦ i' | replace ↦ r' ]
    both_moves keep a b c d e = a
    both_moves swap a b c d e = b refl
    both_moves skip_word a b c d e = c
    both_moves skip_input a b c d e = d
    both_moves replace a b c d e = e

-- The loop ends: as many rounds as there are bytes are enough, and any more of them change nothing.
total_distance_fuel :
    (fuel : ℕ) (xs ys : Bytes)
    → length xs + length ys ≤ fuel
    → walk fuel xs ys ≡ total_distance xs ys
unfolding total_distance
total_distance_fuel fuel xs ys h = walk_fuel fuel (length xs + length ys) xs ys h (omega arith)

move_swapped :
    (a b : ℕ) (ys : Bytes)
    → find_letter_distance a b ≢ 0
    → find_letter_distance a a ≡ 0
    → find_letter_distance b b ≡ 0
    → move a (b ∷ ys) b (a ∷ ys) ≡ swap
unfolding move
move_swapped a b ys n p q = ground (arith, n, p, q)

walk_swapped :
    (fuel a b : ℕ) (xs ys : Bytes)
    → length xs + suc (suc (length ys)) ≤ fuel
    → to_lower a ≢ to_lower b
    → AllLetters xs
    → AllLetters (a ∷ b ∷ ys)
    → walk fuel (xs ++ (a ∷ b ∷ ys)) (xs ++ (b ∷ a ∷ ys)) ≡ swap_cost
unfolding walk
walk_swapped zero a b xs ys h n v w = absurd (omega arith)
walk_swapped (suc fuel) a b [] ys h n v w =
    rw
      (
        move_swapped a b ys (λ z. n (zero_distance a b z)) (own_distance a w.0.0 w.0.1)
            (own_distance b w.1.0.0 w.1.0.1),
        walk,
      )
      (ap (λ d. swap_cost + d) (walk_self fuel ys (omega arith) w.1.1))
walk_swapped (suc fuel) a b (c ∷ cs) ys h n v w =
    let d = own_distance c v.0.0 v.0.1 in
    rw (move_kept c (cs ++ (a ∷ b ∷ ys)) (cs ++ (b ∷ a ∷ ys)) d, walk)
      (walk_swapped fuel a b cs ys (omega arith) n v.1 w)

-- Two different letters swapped, in a word of letters, cost 1.
total_distance_swapped :
    (a b : ℕ) (xs ys : Bytes)
    → to_lower a ≢ to_lower b
    → AllLetters xs
    → AllLetters (a ∷ b ∷ ys)
    → total_distance (xs ++ (a ∷ b ∷ ys)) (xs ++ (b ∷ a ∷ ys)) ≡ swap_cost
unfolding total_distance
total_distance_swapped a b xs ys n v w =
    walk_swapped (length (xs ++ (a ∷ b ∷ ys)) + length (xs ++ (b ∷ a ∷ ys))) a b xs ys
      (omega (arith, length-append xs (a ∷ b ∷ ys))) n v w
