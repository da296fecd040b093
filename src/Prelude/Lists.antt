-- ===== src/Prelude/Lists.antt =====
-- Lists measured and indexed by native numbers, under the library's names.
use Prim.Native.Nat.{◌≤◌, ℕ, zero, suc, ◌+◌, ◌-◌, min}
use mathlib.Core.Path.{◌≡◌, refl, sym, ap, ◌∙◌}
use mathlib.Core.List.{List, [], ◌∷◌, ◌++◌, reverse, reverse-cons}
use mathlib.Core.Option.{Option, none, some}
use native.Mathlib.Omega.{arith}

module _ {ℓ} {A : Type ℓ} where
  abbrev pub length : List A → ℕ
  length [] = 0
  length (x ∷ xs) = suc (length xs)

  pub length-append : (xs ys : List A) → length (xs ++ ys) ≡ length xs + length ys
  length-append [] ys = omega arith
  length-append (x ∷ xs) ys = omega (arith, length-append xs ys)

  abbrev pub get_elem? : List A → ℕ → Option A
  get_elem? [] i = none
  get_elem? (x ∷ xs) zero = some x
  get_elem? (x ∷ xs) (suc i) = get_elem? xs i

  -- A write out of bounds changes nothing.
  abbrev pub set : List A → ℕ → A → List A
  set [] i v = []
  set (x ∷ xs) zero v = v ∷ xs
  set (x ∷ xs) (suc i) v = x ∷ set xs i v

module _ {ℓ} {A : Type ℓ} where
  abbrev pub take : ℕ → List A → List A
  take zero xs = []
  take (suc n) [] = []
  take (suc n) (x ∷ xs) = x ∷ take n xs

  abbrev pub drop : ℕ → List A → List A
  drop zero xs = xs
  drop (suc n) [] = []
  drop (suc n) (x ∷ xs) = drop n xs

  pub take-append-drop : (n : ℕ) (xs : List A) → take n xs ++ drop n xs ≡ xs
  take-append-drop zero xs = refl
  take-append-drop (suc n) [] = refl
  take-append-drop (suc n) (x ∷ xs) = rw (take-append-drop n xs)

  pub take_all : (n : ℕ) (xs : List A) → length xs ≤ n → take n xs ≡ xs
  take_all zero [] h = refl
  take_all zero (x ∷ xs) h = absurd (omega arith)
  take_all (suc n) [] h = refl
  take_all (suc n) (x ∷ xs) h = rw (take_all n xs (omega arith))

  pub take-append : (n : ℕ) (xs ys : List A) → n ≤ length xs → take n (xs ++ ys) ≡ take n xs
  take-append zero xs ys h = refl
  take-append (suc n) [] ys h = absurd (omega arith)
  take-append (suc n) (x ∷ xs) ys h = rw (take-append n xs ys (omega arith))

  pub length-take : (n : ℕ) (xs : List A) → length (take n xs) ≡ min n (length xs)
  length-take zero xs = omega arith
  length-take (suc n) [] = omega arith
  length-take (suc n) (x ∷ xs) = omega (arith, length-take n xs)

  pub length-drop : (n : ℕ) (xs : List A) → length (drop n xs) ≡ length xs - n
  length-drop zero xs = omega arith
  length-drop (suc n) [] = omega arith
  length-drop (suc n) (x ∷ xs) = omega (arith, length-drop n xs)

  pub take-nil : (n : ℕ) → ◌≡◌ {A = List A} (take n []) []
  take-nil zero = refl
  take-nil (suc n) = refl

  pub drop-nil : (n : ℕ) → ◌≡◌ {A = List A} (drop n []) []
  drop-nil zero = refl
  drop-nil (suc n) = refl

  pub drop-drop : (a b : ℕ) (s : List A) → drop b (drop a s) ≡ drop (a + b) s
  drop-drop zero b s = let e : b ≡ 0 + b = omega arith in ap (λ n. drop n s) e
  drop-drop (suc a) b [] = drop-nil b ∙ sym (drop-nil (suc a + b))
  drop-drop (suc a) b (c ∷ s) =
      let e : suc (a + b) ≡ suc a + b = omega arith in drop-drop a b s ∙ ap (λ n. drop n (c ∷ s)) e

  pub drop-append : (n : ℕ) (xs ys : List A) → n ≤ length xs → drop n (xs ++ ys) ≡ drop n xs ++ ys
  drop-append zero xs ys h = refl
  drop-append (suc n) [] ys h = absurd (omega arith)
  drop-append (suc n) (x ∷ xs) ys h = drop-append n xs ys (omega arith)

  take-min : (k : ℕ) (xs : List A) → take k xs ≡ take (min k (length xs)) xs
  take-min zero xs = let e : 0 ≡ min 0 (length xs) = omega arith in ap (λ n. take n xs) e
  take-min (suc k) [] = sym (take-nil (min (suc k) 0))
  take-min (suc k) (x ∷ xs) =
      let e : suc (min k (length xs)) ≡ min (suc k) (suc (length xs)) = omega arith in
      ap (x ∷◌) (take-min k xs) ∙ ap (λ n. take n (x ∷ xs)) e

  -- A prefix and a further piece are a longer prefix.
  pub take_none : (n : ℕ) (xs : List A) → min (length xs) n ≡ 0 → take n xs ≡ []
  take_none zero xs h = refl
  take_none (suc n) [] h = refl
  take_none (suc n) (x ∷ xs) h = absurd (omega (arith, h))

  pub take_cut : (n : ℕ) (xs : List A) → take (min (length xs) n) xs ≡ take n xs
  take_cut n [] = take-nil (min 0 n) ∙ sym (take-nil n)
  take_cut zero (x ∷ xs) =
      let e : min (suc (length xs)) 0 ≡ 0 = omega arith in ap (λ m. take m (x ∷ xs)) e
  take_cut (suc n) (x ∷ xs) =
      let e : min (suc (length xs)) (suc n) ≡ suc (min (length xs) n) = omega arith in
      ap (λ m. take m (x ∷ xs)) e ∙ ap (x ∷◌) (take_cut n xs)

  -- What a prefix lacks is taken from what follows.
  pub take_rest :
      (n r : ℕ) (xs ys : List A)
      → length (take n xs) + r ≡ n
      → take n (xs ++ ys) ≡ take n xs ++ take r ys
  take_rest zero r xs ys h = let e : 0 ≡ r = omega (arith, h) in ap (λ m. take m ys) e
  take_rest (suc n) r [] ys h = let e : suc n ≡ r = omega (arith, h) in ap (λ m. take m ys) e
  take_rest (suc n) r (x ∷ xs) ys h = ap (x ∷◌) (take_rest n r xs ys (omega (arith, h)))

  pub take_further :
      (n k : ℕ) (xs : List A)
      → take n xs ++ take k (drop n xs) ≡ take (n + min k (length xs - n)) xs
  take_further zero k xs =
      let e : min k (length xs) ≡ 0 + min k (length xs - 0) = omega arith in
      take-min k xs ∙ ap (λ m. take m xs) e
  take_further (suc n) k [] = take-nil k ∙ sym (take-nil (suc n + min k (0 - suc n)))
  take_further (suc n) k (x ∷ xs) =
      let e : suc (n + min k (length xs - n)) ≡ suc n + min k (suc (length xs) - suc n) =
        omega arith in
      ap (x ∷◌) (take_further n k xs) ∙ ap (λ m. take m (x ∷ xs)) e

  -- Every element satisfies `P`.
  abbrev pub All {κ} : (A → Type κ) → List A → Type κ
  All P [] = Unit
  All P (x ∷ xs) = P x × All P xs

  pub All-append {κ} : (P : A → Type κ) (xs ys : List A) → All P xs → All P ys → All P (xs ++ ys)
  All-append P [] ys h k = k
  All-append P (x ∷ xs) ys h k = (h.0, All-append P xs ys h.1 k)

  pub All-reverse {κ} : (P : A → Type κ) (xs : List A) → All P xs → All P (reverse xs)
  All-reverse P [] h = tt
  All-reverse P (x ∷ xs) h =
      rw (reverse-cons x xs) (All-append P (reverse xs) (x ∷ []) (All-reverse P xs h.1) (h.0, tt))
