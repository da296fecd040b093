-- ===== src/Echo.antt =====
-- src/net/echo_connection.h and src/net/echo_connection.cpp: the connection that sends back what it reads.
use castle_plus.Prelude.{
  ℕ, ◌+◌, ◌-◌, Bool, true, false, not, List, [], ◌∷◌, ◌++◌, Bytes, is_empty, if◌then◌else◌, ltb,
  length, take, drop, min,
}
use castle_plus.Proxy.State.{
  Interest, Read, read_bytes, read_eof, read_again, read_interrupted, read_error, Write, wrote,
  write_again, write_interrupted, write_error,
}
pub mod Order
mod Tests

-- The connection, with what it asked the loop for, and what has happened: the bytes that were read and those
-- that were written, and whether a system call failed.
pub record EchoConnection : Type 0 where
  pub out : Bytes
  pub want_write : Bool
  pub closing : Bool
  pub interest : Interest
  pub close_requested : Bool
  pub received : Bytes
  pub echoed : Bytes
  pub failed : Bool

abbrev pub watch : Bool → Interest
watch wants_out = record { wants_in = true; wants_out = wants_out }

-- The constructor, as the listener registers it.
abbrev pub new_echo : EchoConnection
new_echo = record {
  out = [];
  want_write = false;
  closing = false;
  interest = watch false;
  close_requested = false;
  received = [];
  echoed = [];
  failed = false;
}

abbrev pub give_up : EchoConnection → EchoConnection
give_up e = record e { close_requested = true; failed = true }

-- The loop of `flush` over `size` bytes: the offset, and whether a write failed.
unfoldable pub write_loop : List Write → ℕ → ℕ → ℕ × Bool
write_loop [] size off = (off, false)
write_loop (wrote k ∷ ws) size off =
    let rest = write_loop ws size (off + min k (size - off)) in
    if ltb off size then rest else (off, false)
write_loop (write_again ∷ ws) size off = (off, false)
write_loop (write_interrupted ∷ ws) size off =
    let rest = write_loop ws size off in if ltb off size then rest else (off, false)
write_loop (write_error ∷ ws) size off = if ltb off size then (off, true) else (off, false)

-- The end of `flush`.
unfoldable pub settle : EchoConnection → EchoConnection
settle e =
    if is_empty e.out
    then if e.closing
      then record e { close_requested = true }
      else if e.want_write
      then record e { interest = watch false; want_write = false }
      else e
    else if not e.want_write
    then record e { interest = watch true; want_write = true }
    else e

unfoldable pub after_writes : EchoConnection → ℕ × Bool → EchoConnection
unfolding settle
after_writes e (off, true) = give_up (record e { echoed = e.echoed ++ take off e.out })
after_writes e (off, false) =
    settle (record e { echoed = e.echoed ++ take off e.out; out = drop off e.out })

unfoldable pub flush : List Write → EchoConnection → EchoConnection
unfolding write_loop after_writes
flush ws e = after_writes e (write_loop ws (length e.out) 0)

abbrev pub append : Bytes → EchoConnection → EchoConnection
append text e = record e { out = e.out ++ text; received = e.received ++ text }

-- `on_readable`: the reads, and the flush behind them.
unfoldable pub on_readable : List Read → List Write → EchoConnection → EchoConnection
unfolding flush
on_readable [] ws e = flush ws e
on_readable (read_bytes text ∷ rs) ws e = on_readable rs ws (append text e)
on_readable (read_eof ∷ rs) ws e = flush ws (record e { closing = true })
on_readable (read_again ∷ rs) ws e = flush ws e
on_readable (read_interrupted ∷ rs) ws e = on_readable rs ws e
on_readable (read_error ∷ rs) ws e = give_up e

-- The loop's callbacks, with the answers of their system calls.
pub data Event : Type 0 where
  readable : List Read → List Write → Event
  writable : List Write → Event
  error : Event

unfoldable pub handle : Event → EchoConnection → EchoConnection
unfolding on_readable flush
handle (readable rs ws) e = on_readable rs ws e
handle (writable ws) e = flush ws e
handle error e = give_up e

-- A connection that has asked to be closed is not called again.
unfoldable pub run : List Event → EchoConnection → EchoConnection
unfolding handle
run [] e = e
run (v ∷ vs) e = elim e.close_requested [ true ↦ e | false ↦ run vs (handle v e) ]
