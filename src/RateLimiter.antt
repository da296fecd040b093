-- ===== src/RateLimiter.antt =====
-- src/gateway/rate_limiter.h and src/gateway/rate_limiter.cpp: one token bucket per IPv4 address.
-- The doubles are exact here: an instant is a number of nanoseconds of the steady clock, a rate is in
-- tokens per second, and an amount of tokens is in billionths of a token, so that
-- `elapsed * rate_` is a product of whole numbers. The calls are those of one holder of the mutex after
-- the other, and the instants that they read do not fall from one call to the next. The hash map is
-- an association list. `main` makes the limiter with a burst of one token or more, so `burst_ - 1.0` is
-- not negative.
pub mod Level
pub mod Allow
pub mod Bound
mod Tests
use castle_plus.Prelude.{
  ℕ, ◌+◌, ◌-◌, ◌*◌, ◌^◌, Bool, true, false, List, [], ◌∷◌, Option, none, some, leb, ◌==◌,
  if◌then◌else◌, length, min,
}

pub record Bucket : Type 0 where
  pub tokens : ℕ
  pub last : ℕ

pub record RateLimiter : Type 0 where
  pub rate : ℕ
  pub burst : ℕ
  pub buckets : List (ℕ × Bucket)
  pub overflow : Bucket

-- One token.
abbrev pub one : ℕ
one = 10 ^ 9

abbrev pub max_buckets : ℕ
max_buckets = 100_000

-- The constructor, at the instant `now`.
abbrev pub init : ℕ → ℕ → ℕ → RateLimiter
init rate burst now = record {
  rate = rate;
  burst = burst;
  buckets = [];
  overflow = record { tokens = burst; last = now };
}

-- `buckets_.find`.
unfoldable pub find : ℕ → List (ℕ × Bucket) → Option Bucket
find ip [] = none
find ip ((k, b) ∷ m) = if k == ip then some b else find ip m

-- A write through the iterator that `find` gave.
unfoldable pub update : ℕ → Bucket → List (ℕ × Bucket) → List (ℕ × Bucket)
update ip b [] = []
update ip b ((k, c) ∷ m) = if k == ip then (k, b) ∷ m else (k, c) ∷ update ip b m

-- The refill, without the cap.
abbrev pub refilled : RateLimiter → Bucket → ℕ → ℕ
refilled l b now = b.tokens + (now - b.last) * l.rate

unfoldable pub spend : RateLimiter → Bucket → ℕ → Bucket × Bool
spend l b now =
    let tokens = min l.burst (refilled l b now) in
    if leb one tokens
    then (record { tokens = tokens - one; last = now }, true)
    else (record { tokens = tokens; last = now }, false)

-- The loop of `prune_locked`.
unfoldable pub prune : RateLimiter → ℕ → List (ℕ × Bucket) → List (ℕ × Bucket)
prune l now [] = []
prune l now ((k, b) ∷ m) =
    let rest = prune l now m in if leb l.burst (refilled l b now) then rest else (k, b) ∷ rest

abbrev pub prune_locked : RateLimiter → ℕ → RateLimiter
prune_locked l now = record l { buckets = prune l now l.buckets }

-- `if (buckets_.size() >= kMaxBuckets) prune_locked(now);`
unfoldable pub make_room : RateLimiter → ℕ → RateLimiter
unfolding prune
make_room l now = if leb max_buckets (length l.buckets) then prune_locked l now else l

unfoldable pub spend_overflow : RateLimiter → ℕ → RateLimiter × Bool
unfolding spend
spend_overflow l now =
    let (b, granted) = spend l l.overflow now in (record l { overflow = b }, granted)

unfoldable pub admit_new : RateLimiter → ℕ → ℕ → RateLimiter × Bool
unfolding spend_overflow
admit_new l ip now = if leb max_buckets (length l.buckets) then spend_overflow l now else (
  record l { buckets = (ip, record { tokens = l.burst - one; last = now }) ∷ l.buckets },
  true,
)

unfoldable pub spend_own : RateLimiter → ℕ → Bucket → ℕ → RateLimiter × Bool
unfolding spend
spend_own l ip b now =
    let (b', granted) = spend l b now in (record l { buckets = update ip b' l.buckets }, granted)

-- `RateLimiter::allow` at the instant `now`.
unfoldable pub allow : RateLimiter → ℕ → ℕ → RateLimiter × Bool
unfolding find update make_room admit_new spend_own
allow l ip now = elim (find ip l.buckets) [
  | none ↦ admit_new (make_room l now) ip now
  | some b ↦ spend_own l ip b now
]
