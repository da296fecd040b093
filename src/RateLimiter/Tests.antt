-- ===== src/RateLimiter/Tests.antt =====
-- A limiter of one connection a second with bursts of two.
use castle_plus.Prelude.{◌+◌, ◌-◌, ◌*◌, ◌≤◌, ◌≡◌, refl, true, false, [], ◌∷◌, arith}
use castle_plus.RateLimiter.Allow.{prune_locked-level}
use castle_plus.RateLimiter.Bound.{grants, reserve, grants_bound}
use castle_plus.RateLimiter.Level.{level, IsValid}
use castle_plus.RateLimiter.{RateLimiter, one, find, spend, prune_locked, make_room, allow}

abbrev small : RateLimiter
small = record {
  rate = 1;
  burst = 2 * one;
  buckets = (7, record { tokens = one; last = 5 }) ∷ (9, record { tokens = 3; last = 0 }) ∷ [];
  overflow = record { tokens = 2 * one; last = 0 };
}

small-IsValid : IsValid 6 small
small-IsValid = record {
  is_map = omega arith;
  bounded = omega arith;
  past = omega arith;
  overflow_past = omega arith;
}

allow_runs :
    ((allow small 7 6).1 ≡ true) × ((allow small 9 6).1 ≡ false) × ((allow small 8 6).1 ≡ true)
unfolding allow find spend make_room
allow_runs = (refl, refl, refl)

prune_locked-level_example :
    level (prune_locked small (3 * one)) 9 (3 * one) ≡ level small 9 (3 * one)
prune_locked-level_example = prune_locked-level small (3 * one) 9 small-IsValid.is_map

grants_bound_example :
    grants 7 small ((7, 6) ∷ (9, 6) ∷ (7, one) ∷ []) * one
    ≤ reserve small 7 6 + 2 * ((one - 6) * small.rate)
grants_bound_example =
    grants_bound 7 6 one small ((7, 6) ∷ (9, 6) ∷ (7, one) ∷ []) (omega arith) small-IsValid
      (omega arith)
