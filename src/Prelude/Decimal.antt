-- ===== src/Prelude/Decimal.antt =====
-- Decimal numbers: what `std::to_string` and `%d` print, and what `strtol` reads.
use native.Mathlib.Nat.{pow-suc}
use castle_plus.Prelude.{
  ℕ, zero, suc, ◌+◌, ◌-◌, ◌*◌, ◌/◌, ◌%◌, ◌^◌, ◌≤◌, ◌<◌, ◌≡◌, ◌∙◌, ap, inl, inr, Bool, true, ◌||◌,
  ◌&&◌, [], ◌∷◌, arith, ltb, leb, ◌==◌, if◌then◌else◌, Bool-cases, Bytes, is_digit, drop_while,
  length, All,
}
use castle_plus.Prelude.Int.{ℤ, pos, negsuc}

decimal_onto : ℕ → ℕ → Bytes → Bytes
decimal_onto zero n rest = rest
decimal_onto (suc fuel) n rest =
    let more = decimal_onto fuel (n / 10) ((48 + n % 10) ∷ rest) in
    if ltb n 10 then (48 + n) ∷ rest else more

-- `std::to_string` of an unsigned number.
unfoldable pub decimal : ℕ → Bytes
unfolding decimal_onto
decimal n = decimal_onto (suc n) n []

-- The value of the leading digits, behind digits worth `acc`.
unfoldable pub read_digits : ℕ → Bytes → ℕ
read_digits acc [] = acc
read_digits acc (c ∷ cs) =
    let rest = read_digits (acc * 10 + (c - 48)) cs in if is_digit c then rest else acc

-- `isspace` in the C locale.
unfoldable pub is_space : ℕ → Bool
is_space c = c == b' ' || (leb 9 c && leb c 13)

-- A `long` keeps to its range.
clamp_pos : ℕ → ℤ
clamp_pos n = if ltb n (2 ^ 63) then pos n else pos (2 ^ 63 - 1)

clamp_neg : ℕ → ℤ
clamp_neg zero = pos 0
clamp_neg (suc n) = if ltb n (2 ^ 63) then negsuc n else negsuc (2 ^ 63 - 1)

strtol_signed : Bytes → ℤ
strtol_signed [] = pos 0
strtol_signed (c ∷ cs) =
    if c == b'-'
    then clamp_neg (read_digits 0 cs)
    else if c == b'+'
    then clamp_pos (read_digits 0 cs)
    else clamp_pos (read_digits 0 (c ∷ cs))

-- `strtol(s, nullptr, 10)`, on a 64-bit `long`.
unfoldable pub strtol : Bytes → ℤ
unfolding strtol_signed clamp_pos clamp_neg read_digits is_space is_digit drop_while
strtol s = strtol_signed (drop_while is_space s)

read_digits-digit :
    (acc c : ℕ) (cs : Bytes)
    → is_digit c ≡ true
    → read_digits acc (c ∷ cs) ≡ read_digits (acc * 10 + (c - 48)) cs
unfolding read_digits
read_digits-digit acc c cs h = rw h

is_digit_code : (d : ℕ) → d < 10 → is_digit (48 + d) ≡ true
unfolding is_digit
is_digit_code d h = ground arith

read_digits-decimal_onto :
    (fuel n : ℕ) (rest : Bytes)
    → n < fuel
    → read_digits 0 (decimal_onto fuel n rest) ≡ read_digits n rest
unfolding decimal_onto
read_digits-decimal_onto zero n rest h = elim h [ ]
read_digits-decimal_onto (suc fuel) n rest h = elim (Bool-cases (ltb n 10)) [
  | inl small ↦ rw small (
      read_digits-digit 0 (48 + n) rest (is_digit_code n (ground arith))
      ∙ ap (λ k. read_digits k rest) (omega arith))
  | inr large ↦ rw large (
      read_digits-decimal_onto fuel (n / 10) ((48 + n % 10) ∷ rest) (ground arith)
      ∙ read_digits-digit (n / 10) (48 + n % 10) rest (is_digit_code (n % 10) (omega arith))
      ∙ ap (λ k. read_digits k rest) (omega arith))
]

-- Printing and reading digits are inverse.
pub read_digits-decimal : (n : ℕ) → read_digits 0 (decimal n) ≡ n
unfolding decimal read_digits
read_digits-decimal n = read_digits-decimal_onto (suc n) n [] (omega arith)

decimal_onto-digits :
    (fuel n : ℕ) (rest : Bytes)
    → All (λ c. is_digit c ≡ true) rest
    → All (λ c. is_digit c ≡ true) (decimal_onto fuel n rest)
unfolding decimal_onto
decimal_onto-digits zero n rest h = h
decimal_onto-digits (suc fuel) n rest h = elim (Bool-cases (ltb n 10)) [
  | inl small ↦ rw small (is_digit_code n (ground arith), h)
  | inr large ↦ rw large (
      decimal_onto-digits fuel (n / 10) ((48 + n % 10) ∷ rest)
        (is_digit_code (n % 10) (omega arith), h))
]

pub decimal_digits : (n : ℕ) → All (λ c. is_digit c ≡ true) (decimal n)
unfolding decimal
decimal_digits n = decimal_onto-digits (suc n) n [] tt

length-decimal_onto :
    (k fuel n : ℕ) (rest : Bytes)
    → n < 10 ^ suc k
    → n < fuel
    → (length rest < length (decimal_onto fuel n rest))
      × (length (decimal_onto fuel n rest) ≤ length rest + suc k)
unfolding decimal_onto
length-decimal_onto k zero n rest h lt = elim lt [ ]
length-decimal_onto zero (suc fuel) n rest h lt = ground arith
length-decimal_onto (suc k) (suc fuel) n rest h lt = elim (Bool-cases (ltb n 10)) [
  | inl small ↦ rw small (omega arith)
  | inr large ↦ rw large (
      omega (
        arith,
        length-decimal_onto k fuel (n / 10) ((48 + n % 10) ∷ rest)
            (omega (arith, pow-suc 10 (suc k))) (ground arith),
      ))
]

-- A number below 10 ^ k takes between one and k digits.
pub length-decimal :
    (k n : ℕ) → n < 10 ^ suc k → (0 < length (decimal n)) × (length (decimal n) ≤ suc k)
unfolding decimal
length-decimal k n h = omega (arith, length-decimal_onto k (suc n) n [] h (omega arith))

-- Digits are neither white space nor a sign.
strtol_digits :
    (s : Bytes)
    → 0 < length s
    → All (λ c. is_digit c ≡ true) s
    → strtol s ≡ clamp_pos (read_digits 0 s)
unfolding strtol strtol_signed is_space drop_while is_digit
strtol_digits [] h d = absurd (omega arith)
strtol_digits (c ∷ cs) h d = ground arith

pub strtol-decimal : (n : ℕ) → n < 2 ^ 63 → strtol (decimal n) ≡ pos n
unfolding clamp_pos
strtol-decimal n h =
    strtol_digits (decimal n) (length-decimal 18 n (omega arith)).0 (decimal_digits n)
    ∙ ap clamp_pos (read_digits-decimal n)
    ∙ ground arith
