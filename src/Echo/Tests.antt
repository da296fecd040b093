-- ===== src/Echo/Tests.antt =====
-- A peer that sends two words, reads slowly and ends its input.
use castle_plus.Prelude.{◌≡◌, refl, true, List, [], ◌∷◌, codes, is_empty}
use castle_plus.Proxy.State.{read_bytes, read_eof, read_again, wrote, write_again}
use castle_plus.Echo.{
  new_echo, Event, readable, writable, run, handle, on_readable, flush, write_loop, after_writes,
  settle,
}
use castle_plus.Echo.Order.{IsSettled, run-IsSettled}

abbrev events : List Event
events =
    readable (read_bytes (codes "hello ") ∷ read_again ∷ []) (wrote 4 ∷ write_again ∷ [])
    ∷ readable (read_bytes (codes "you") ∷ read_eof ∷ []) (write_again ∷ [])
    ∷ writable (wrote 1 ∷ wrote 99 ∷ [])
    ∷ []

run-events :
    ((run events new_echo).echoed ≡ codes "hello you")
    × ((run events new_echo).close_requested ≡ true)
unfolding run handle on_readable flush write_loop after_writes settle is_empty
run-events = (refl, refl)

run-IsSettled_example : IsSettled (run events new_echo)
run-IsSettled_example = run-IsSettled events
