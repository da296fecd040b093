-- ===== src/Listener.antt =====
-- src/net/listener.h, src/net/listener.cpp and src/net/conn_limit.h: the accept loop, with the rate of each
-- address and the cap on all connections. What `accept4` and the factory answer are arguments.
use castle_plus.Prelude.{
  ℕ, suc, ◌-◌, ◌+◌, Bool, true, false, not, ◌||◌, List, [], ◌∷◌, Option, none, some, ◌==◌, ltb,
  if◌then◌else◌,
}
use castle_plus.RateLimiter.{RateLimiter, allow}
pub mod Bound
mod Tests

-- What `accept4` answers: a descriptor, with its address and the instant, whether the factory makes a
-- connection of it, and whether epoll accepts that; or an error.
pub data Accept : Type 0 where
  accepted : (cfd ip now : ℕ) (made registered : Bool) → Accept
  again interrupted aborted accept_failed : Accept

-- The limiter, `active_conn_count` and `max_conn_limit`, and what became of the descriptors: the connections
-- that the loop has, with their addresses, and those that were closed here.
pub record Listener : Type 0 where
  pub limiter : Option RateLimiter
  pub active : ℕ
  pub limit : ℕ
  pub served : List (ℕ × ℕ)
  pub closed : List ℕ

-- `conn_slot_available`.
unfoldable pub conn_slot_available : Listener → Bool
conn_slot_available s = s.limit == 0 || ltb s.active s.limit

-- `limiter_->allow`, where there is a limiter.
unfoldable pub ask : Option RateLimiter → ℕ → ℕ → Option RateLimiter × Bool
ask none ip now = (none, true)
ask (some l) ip now = let (l', granted) = allow l ip now in (some l', granted)

abbrev pub close : ℕ → Listener → Listener
close cfd s = record s { closed = cfd ∷ s.closed }

-- A connection counts itself while it lives; the loop drops one that epoll does not accept.
unfoldable pub hand_over : ℕ → ℕ → Bool → Bool → Listener → Listener
hand_over cfd ip made registered s =
    if not made
    then close cfd s
    else if not registered
    then close cfd s
    else record s { active = suc s.active; served = (cfd, ip) ∷ s.served }

-- Behind the limiter's answer.
unfoldable pub admit : ℕ → ℕ → Bool → Bool → Bool → Listener → Listener
unfolding conn_slot_available hand_over
admit cfd ip made registered granted s =
    if not granted
    then close cfd s
    else if not (conn_slot_available s)
    then close cfd s
    else hand_over cfd ip made registered s

-- One accepted connection.
unfoldable pub on_accepted : ℕ → ℕ → ℕ → Bool → Bool → Listener → Listener
unfolding ask admit
on_accepted cfd ip now made registered s =
    let (limiter, granted) = ask s.limiter ip now in
    admit cfd ip made registered granted (record s { limiter = limiter })

-- `on_readable`.
unfoldable pub on_readable : List Accept → Listener → Listener
unfolding on_accepted
on_readable [] s = s
on_readable (accepted cfd ip now made registered ∷ rs) s =
    on_readable rs (on_accepted cfd ip now made registered s)
on_readable (again ∷ rs) s = s
on_readable (interrupted ∷ rs) s = on_readable rs s
on_readable (aborted ∷ rs) s = on_readable rs s
on_readable (accept_failed ∷ rs) s = s

-- The loop wakes the listener, or a connection ends.
pub data Event : Type 0 where
  wake : List Accept → Event
  gone : Event

unfoldable pub run : List Event → Listener → Listener
unfolding on_readable
run [] s = s
run (wake rs ∷ es) s = run es (on_readable rs s)
run (gone ∷ es) s = run es (record s { active = s.active - 1 })
