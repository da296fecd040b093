-- ===== src/RateLimiter/Bound.antt =====
-- How many connections an address gets.
use native.Mathlib.Nat.{add-mul}
use castle_plus.Prelude.{
  ℕ, ◌+◌, ◌-◌, ◌*◌, ◌≤◌, ◌≡◌, refl, sym, ap, ◌∙◌, inl, inr, Bool, ◌&&◌, List, [], ◌∷◌, Option, none,
  some, arith, ◌==◌, if◌then◌else◌, All, ℕ_discrete,
}
use castle_plus.RateLimiter.Level.{level_of, level, IsValid, Charges}
use castle_plus.RateLimiter.Allow.{allow-IsValid, allow-Charges}
use castle_plus.RateLimiter.{Bucket, RateLimiter, one, find, allow}

-- The calls that are granted to `ip` out of a history of calls.
unfoldable pub grants : ℕ → RateLimiter → List (ℕ × ℕ) → ℕ
grants ip l [] = 0
grants ip l ((j, now) ∷ cs) =
    let (l', granted) = allow l j now in (if j == ip && granted then 1 else 0) + grants ip l' cs

-- The instants of a history do not fall, and lie between two instants.
abbrev pub IsOrdered : ℕ → List (ℕ × ℕ) → ℕ → Type 0
IsOrdered t [] end = t ≤ end
IsOrdered t ((j, now) ∷ cs) end = (t ≤ now) × IsOrdered now cs end

IsOrdered-le : (t end : ℕ) (cs : List (ℕ × ℕ)) → IsOrdered t cs end → t ≤ end
IsOrdered-le t end [] h = h
IsOrdered-le t end ((j, now) ∷ cs) h = omega (arith, h.0, IsOrdered-le now end cs h.1)

split_product :
    (last t t' r : ℕ) → last ≤ t → t ≤ t' → (t' - last) * r ≡ (t - last) * r + (t' - t) * r
split_product last t t' r h k = ap (λ (x : ℕ). x * r) (omega arith) ∙ add-mul (t - last) (t' - t) r

level_of-later :
    (l : RateLimiter) (o : Option Bucket) (t t' : ℕ)
    → ((b : Bucket) → o ≡ some b → b.last ≤ t)
    → t ≤ t'
    → level_of l o t' ≤ level_of l o t + (t' - t) * l.rate
level_of-later l none t t' h k = omega arith
level_of-later l (some b) t t' h k = omega (arith, split_product b.last t t' l.rate (h b refl) k)

find-past :
    (ip t : ℕ) (m : List (ℕ × Bucket)) (b : Bucket)
    → All (λ e. e.1.last ≤ t) m
    → find ip m ≡ some b
    → b.last ≤ t
unfolding find
find-past ip t [] b v h = cc
find-past ip t ((k, c) ∷ m) b v h = ground (arith, find-past ip t m b v.1)

level-later :
    (l : RateLimiter) (ip t t' : ℕ)
    → IsValid t l
    → t ≤ t'
    → level l ip t' ≤ level l ip t + (t' - t) * l.rate
unfolding level
level-later l ip t t' v k =
    level_of-later l (find ip l.buckets) t t' (λ b e. find-past ip t l.buckets b v.past e) k

past-later :
    (t t' : ℕ) (m : List (ℕ × Bucket))
    → t ≤ t'
    → All (λ e. e.1.last ≤ t) m
    → All (λ e. e.1.last ≤ t') m
past-later t t' [] h v = tt
past-later t t' ((k, b) ∷ m) h v = (omega arith, past-later t t' m h v.1)

IsValid-later : (l : RateLimiter) (t t' : ℕ) → IsValid t l → t ≤ t' → IsValid t' l
IsValid-later l t t' v h = record {
  is_map = v.is_map;
  bounded = v.bounded;
  past = past-later t t' l.buckets h v.past;
  overflow_past = omega (arith, v.overflow_past);
}

-- What an address can draw on: its own bucket and the overflow bucket.
abbrev pub reserve : RateLimiter → ℕ → ℕ → ℕ
reserve l ip now = level l ip now + level_of l (some l.overflow) now

reserve-later :
    (l : RateLimiter) (ip t t' : ℕ)
    → IsValid t l
    → t ≤ t'
    → reserve l ip t' ≤ reserve l ip t + 2 * ((t' - t) * l.rate)
reserve-later l ip t t' v h = omega (
  arith,
  level-later l ip t t' v h,
  level_of-later l (some l.overflow) t t' (λ b e. ground (arith, v.overflow_past)) h,
)

-- A call that charges the overflow bucket or the caller's, and no other.
reserve-Charges :
    (l l' : RateLimiter) (g : Bool) (ip j now : ℕ)
    → Charges j now l l' g
    → reserve l' ip now + (if j == ip && g then 1 else 0) * one ≤ reserve l ip now
reserve-Charges l l' g ip j now c = elim c.charged [
  | inl (o, p) ↦ elim (ℕ_discrete j ip) [
    | yes e ↦ rw (o, c.same_burst, c.same_rate) (ground (arith, rw e at p))
    | no n ↦ rw (o, c.same_burst, c.same_rate) (ground (arith, c.others ip (λ e. n (sym e))))
  ]
  | inr (_, _, p, o) ↦ elim (ℕ_discrete j ip) [
    | yes e ↦ ground (arith, rw e at p)
    | no n ↦ ground (arith, c.others ip (λ e. n (sym e)))
  ]
]

-- The connections of one address that are let through, whatever the other addresses do and whatever
-- is pruned, take no more tokens than its own bucket and the overflow bucket hold at the start and
-- earn until the end. The bucket size is at least one token, and the instants of the calls do not fall.
pub grants_bound :
    (ip t end : ℕ) (l : RateLimiter) (calls : List (ℕ × ℕ))
    → one ≤ l.burst
    → IsValid t l
    → IsOrdered t calls end
    → grants ip l calls * one ≤ reserve l ip t + 2 * ((end - t) * l.rate)
unfolding grants
grants_bound ip t end l [] h v o = omega arith
grants_bound ip t end l ((j, now) ∷ cs) h v o =
    let l' = (allow l j now).0 in
    let w = IsValid-later l t now v o.0 in
    let c = allow-Charges l j now h w in
    let rest = grants_bound ip now end l' cs (rw c.same_burst h) (allow-IsValid l j now w) o.1 in
    omega (
      arith,
      rest,
      reserve-Charges l l' (allow l j now).1 ip j now c,
      reserve-later l ip t now v o.0,
      ap (λ (r : ℕ). (end - now) * r) c.same_rate,
      split_product t now end l.rate o.0 (IsOrdered-le now end cs o.1),
    )
