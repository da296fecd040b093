-- ===== src/Listener/Tests.antt =====
-- An accept loop with a limiter and a cap of two connections.
use castle_plus.Prelude.{◌+◌, ◌-◌, ◌*◌, ◌≤◌, ◌≡◌, refl, true, List, [], ◌∷◌, some, arith}
use castle_plus.RateLimiter.{
  RateLimiter, one, init, allow, find, make_room, admit_new, spend_own, spend,
}
use castle_plus.RateLimiter.Level.{IsValid}
use castle_plus.RateLimiter.Bound.{reserve}
use castle_plus.Listener.{
  accepted, again, interrupted, Listener, conn_slot_available, ask, hand_over, admit, on_accepted,
  on_readable, Event, wake, gone, run,
}
use castle_plus.Listener.Bound.{served_from, run_capped, run_served}

-- One token at once, and one each second.
abbrev limiter : RateLimiter
limiter = init 1 one 0

abbrev listener : Listener
listener = record { limiter = some limiter; active = 0; limit = 2; served = []; closed = [] }

limiter-IsValid : IsValid 0 limiter
limiter-IsValid = record {
  is_map = omega arith;
  bounded = omega arith;
  past = omega arith;
  overflow_past = omega arith;
}

-- The address 8 asks twice at once, and the address 9 finds the cap reached.
abbrev events : List Event
events =
    wake (accepted 4 8 0 true true ∷ interrupted ∷ accepted 5 8 0 true true ∷ again ∷ [])
    ∷ wake (accepted 6 7 5 true true ∷ accepted 7 9 6 true true ∷ again ∷ [])
    ∷ gone
    ∷ wake (accepted 5 6 7 true true ∷ again ∷ [])
    ∷ []

run-events : (run events listener).closed ≡ 7 ∷ 5 ∷ []
unfolding run on_readable on_accepted admit hand_over conn_slot_available ask allow find make_room
    admit_new spend_own spend
run-events = refl

run_capped_example : (run events listener).active ≤ 2
run_capped_example = run_capped events listener (omega arith) (omega arith)

run_served_example :
    served_from 8 (run events listener).served * one
    ≤ reserve limiter 8 0 + 2 * ((7 - 0) * limiter.rate)
run_served_example =
    run_served 8 0 7 limiter events listener refl refl (omega arith) limiter-IsValid (omega arith)
