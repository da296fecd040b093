-- ===== src/RateLimiter/Level.antt =====
-- The limiter seen as a level of tokens for every address, tracked or not.
use castle_plus.Prelude.{
  ℕ, ◌+◌, ◌≤◌, ◌≡◌, ◌≢◌, refl, ◌⊎◌, Bool, true, false, List, [], ◌∷◌, Option, none, some, arith,
  length, min, All,
}
use castle_plus.RateLimiter.{
  Bucket, RateLimiter, one, max_buckets, find, update, refilled, spend, prune,
}

-- What the bucket of an address would hold: a full one, if it has none.
abbrev pub level_of : RateLimiter → Option Bucket → ℕ → ℕ
level_of l none now = l.burst
level_of l (some b) now = min l.burst (refilled l b now)

unfoldable pub level : RateLimiter → ℕ → ℕ → ℕ
level l ip now = level_of l (find ip l.buckets) now

-- Each address has one bucket at most.
abbrev pub Fresh : ℕ → List (ℕ × Bucket) → Type 0
Fresh ip = All (λ e. e.0 ≢ ip)

abbrev pub IsMap : List (ℕ × Bucket) → Type 0
IsMap [] = Unit
IsMap ((k, b) ∷ m) = Fresh k m × IsMap m

find-Fresh : (ip : ℕ) (m : List (ℕ × Bucket)) → Fresh ip m → find ip m ≡ none
unfolding find
find-Fresh ip [] h = refl
find-Fresh ip ((k, b) ∷ m) h = ground (arith, find-Fresh ip m h.1)

prune-Fresh :
    (l : RateLimiter) (now ip : ℕ) (m : List (ℕ × Bucket)) → Fresh ip m → Fresh ip (prune l now m)
unfolding prune
prune-Fresh l now ip [] h = tt
prune-Fresh l now ip ((k, b) ∷ m) h = ground (arith, prune-Fresh l now ip m h.1)

pub prune-IsMap :
    (l : RateLimiter) (now : ℕ) (m : List (ℕ × Bucket)) → IsMap m → IsMap (prune l now m)
unfolding prune
prune-IsMap l now [] h = tt
prune-IsMap l now ((k, b) ∷ m) h =
    ground (arith, prune-IsMap l now m h.1, prune-Fresh l now k m h.0)

pub length-prune :
    (l : RateLimiter) (now : ℕ) (m : List (ℕ × Bucket)) → length (prune l now m) ≤ length m
unfolding prune
length-prune l now [] = omega arith
length-prune l now ((k, b) ∷ m) = ground (arith, length-prune l now m)

pub level_of-prune :
    (l : RateLimiter) (now ip : ℕ) (m : List (ℕ × Bucket))
    → IsMap m
    → level_of l (find ip (prune l now m)) now ≡ level_of l (find ip m) now
unfolding find prune
level_of-prune l now ip [] h = refl
level_of-prune l now ip ((k, b) ∷ m) h =
    ground (
      arith,
      level_of-prune l now ip m h.1,
      find-Fresh ip (prune l now m),
      prune-Fresh l now k m h.0,
    )

update-Fresh : (ip j : ℕ) (b : Bucket) (m : List (ℕ × Bucket)) → Fresh j m → Fresh j (update ip b m)
unfolding update
update-Fresh ip j b [] h = tt
update-Fresh ip j b ((k, c) ∷ m) h = ground (arith, update-Fresh ip j b m h.1)

pub update-IsMap : (ip : ℕ) (b : Bucket) (m : List (ℕ × Bucket)) → IsMap m → IsMap (update ip b m)
unfolding update
update-IsMap ip b [] h = tt
update-IsMap ip b ((k, c) ∷ m) h =
    ground (arith, update-IsMap ip b m h.1, update-Fresh ip k b m h.0)

pub length-update :
    (ip : ℕ) (b : Bucket) (m : List (ℕ × Bucket)) → length (update ip b m) ≡ length m
unfolding update
length-update ip b [] = refl
length-update ip b ((k, c) ∷ m) = ground (arith, length-update ip b m)

pub find-update_self :
    (ip : ℕ) (b c : Bucket) (m : List (ℕ × Bucket))
    → find ip m ≡ some c
    → find ip (update ip b m) ≡ some b
unfolding find update
find-update_self ip b c [] h = cc
find-update_self ip b c ((k, d) ∷ m) h = ground (arith, find-update_self ip b c m)

pub find-update_ne :
    (ip j : ℕ) (b : Bucket) (m : List (ℕ × Bucket)) → j ≢ ip → find j (update ip b m) ≡ find j m
unfolding find update
find-update_ne ip j b [] h = refl
find-update_ne ip j b ((k, d) ∷ m) h = ground (arith, find-update_ne ip j b m h)

pub find-none-Fresh : (ip : ℕ) (m : List (ℕ × Bucket)) → find ip m ≡ none → Fresh ip m
unfolding find
find-none-Fresh ip [] h = tt
find-none-Fresh ip ((k, b) ∷ m) h = ground (arith, find-none-Fresh ip m)

-- What a call costs.
abbrev pub cost : Bool → ℕ
cost true = one
cost false = 0

pub spend_lem :
    (l : RateLimiter) (b : Bucket) (now : ℕ)
    → (level_of l (some (spend l b now).0) now + cost (spend l b now).1 ≡ level_of l (some b) now)
      × ((spend l b now).0.last ≡ now)
      × ((spend l b now).0.tokens ≤ l.burst)
unfolding spend
spend_lem l b now = ground arith

-- The state of a limiter between two calls, the last of them at the instant `now`.
pub record IsValid (now : ℕ) (l : RateLimiter) : Type 0 where
  pub is_map : IsMap l.buckets
  pub bounded : length l.buckets ≤ max_buckets
  pub past : All (λ e. e.1.last ≤ now) l.buckets
  pub overflow_past : l.overflow.last ≤ now

pub update-past :
    (now ip : ℕ) (b : Bucket) (m : List (ℕ × Bucket))
    → b.last ≤ now
    → All (λ e. e.1.last ≤ now) m
    → All (λ e. e.1.last ≤ now) (update ip b m)
unfolding update
update-past now ip b [] h v = tt
update-past now ip b ((k, c) ∷ m) h v = ground (arith, update-past now ip b m h v.1)

pub prune-past :
    (l : RateLimiter) (now t : ℕ) (m : List (ℕ × Bucket))
    → All (λ e. e.1.last ≤ t) m
    → All (λ e. e.1.last ≤ t) (prune l now m)
unfolding prune
prune-past l now t [] v = tt
prune-past l now t ((k, b) ∷ m) v = ground (arith, prune-past l now t m v.1)

pub find-prune-none :
    (l : RateLimiter) (now ip : ℕ) (m : List (ℕ × Bucket))
    → find ip m ≡ none
    → find ip (prune l now m) ≡ none
find-prune-none l now ip m h =
    find-Fresh ip (prune l now m) (prune-Fresh l now ip m (find-none-Fresh ip m h))

-- What a call does to the levels: it charges the caller's own bucket, or, only where the caller has
-- none and the table is full, the overflow bucket.
pub record Charges (ip now : ℕ) (l l' : RateLimiter) (granted : Bool) : Type 0 where
  pub same_rate : l'.rate ≡ l.rate
  pub same_burst : l'.burst ≡ l.burst
  pub others : (j : ℕ) → j ≢ ip → level l' j now ≡ level l j now
  pub charged :
      ((l'.overflow ≡ l.overflow) × (level l' ip now + cost granted ≡ level l ip now))
      ⊎ ((find ip l.buckets ≡ none)
          × (length l'.buckets ≡ max_buckets)
          × (level l' ip now ≡ level l ip now)
          × (level_of l' (some l'.overflow) now + cost granted ≡ level_of l (some l.overflow) now))
