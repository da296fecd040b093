-- ===== src/Prelude/Result.antt =====
-- Results of code that reports an error, and `do` blocks over them.
use castle_plus.Prelude.{◌≡◌, refl, subst, ◌⊎◌, inl, inr, Bool, true, false, if◌then◌else◌}

pub data Result {ℓ} (E : Type 0) (A : Type ℓ) : Type ℓ where
  err : E → Result E A
  ok : A → Result E A

pub ok-injective {ℓ} :
    {E : Type 0} {A : Type ℓ} {a b : A} → ◌≡◌ {A = Result E A} (ok a) (ok b) → a ≡ b
ok-injective h = cc

module _ {ℓ κ} {E : Type 0} {A : Type ℓ} {B : Type κ} where
  infixl 5 ◌>>=◌
  abbrev pub ◌>>=◌ : Result E A → (A → Result E B) → Result E B
  err why >>= next = err why
  ok x >>= next = next x

  -- The first step of a `do` block that fails did, or the steps behind it did.
  pub bind-eq-err :
      (step : Result E A) (next : A → Result E B) {why : E}
      → (step >>= next) ≡ err why
      → (step ≡ err why) ⊎ ((x : A) × (step ≡ ok x) × (next x ≡ err why))
  bind-eq-err (err _) next h = inl cc
  bind-eq-err (ok x) next h = inr (x, refl, h)

  -- In a `do` block that succeeds, the first step did.
  pub bind-eq-ok :
      (step : Result E A) (next : A → Result E B) {y : B}
      → (step >>= next) ≡ ok y
      → (x : A) × (step ≡ ok x) × (next x ≡ ok y)
  bind-eq-ok (err _) next h = cc
  bind-eq-ok (ok x) next h = (x, refl, h)

-- What holds of the result of both branches holds of the result of the test.
pub if-eq-ok {ℓ κ} :
    {E : Type 0} {A : Type ℓ} (P : A → Type κ) (b : Bool) {m n : Result E A} {a : A}
    → (m ≡ ok a → P a)
    → (n ≡ ok a → P a)
    → (if b then m else n) ≡ ok a
    → P a
if-eq-ok P true f g h = f h
if-eq-ok P false f g h = g h

pub ok-eq-ok {ℓ κ} :
    {E : Type 0} {A : Type ℓ} (P : A → Type κ) {a b : A}
    → P a
    → ◌≡◌ {A = Result E A} (ok a) (ok b)
    → P b
ok-eq-ok P p h = subst P (ok-injective h) p

pub err-eq-ok {ℓ κ} :
    {E : Type 0} {A : Type ℓ} (P : A → Type κ) {e : E} {a : A}
    → ◌≡◌ {A = Result E A} (err e) (ok a)
    → P a
err-eq-ok P h = absurd cc
