-- ===== src/Proxy/Download.antt =====
-- The way back to the client: `pump_write`, the replies, the callbacks of the backend, and the backend's
-- reads. A call of `backend_->resume_reads()` comes back into these functions; it is their argument
-- `resume`, and `on_readable` ties the knot with one unit of fuel for each `read`.
use castle_plus.Prelude.{
  ℕ, zero, suc, Bool, true, false, not, ◌&&◌, List, [], ◌∷◌, ◌++◌, Bytes, codes, is_empty,
  if◌then◌else◌, ltb, length, take, drop,
}
use castle_plus.Http.Head.{Reply}
use castle_plus.Http.Reply.{response_text}
use castle_plus.Proxy.State.{
  closing, is_state, IoStatus, ok, would_block_read, would_block_write, peer_closed, failed,
  BackendConnection, Send, sent, send_block_read, send_block_write, send_closed, send_error, Read,
  read_bytes, read_eof, read_again, read_interrupted, read_error, Pair, high, recompute_interest,
  apply_interest, touch_http, touch_back, close_both,
}

abbrev pub set_sends : List Send → Pair → Pair
set_sends ss p = record p { io = record (p.io) { sends = ss } }

abbrev pub set_reads : List Read → Pair → Pair
set_reads rs p = record p { io = record (p.io) { reads = rs } }

-- `k` bytes of `out_` reach the client.
abbrev pub sent_bytes : ℕ → Pair → Pair
sent_bytes k p = touch_http (record p {
  http = record (p.http) { out = drop k p.http.out };
  trace = record (p.trace) { to_client = p.trace.to_client ++ take k p.http.out };
})

-- The loop of `pump_write`; `ok` is a drained buffer.
unfoldable pub send_loop : List Send → Pair → Pair × IoStatus
send_loop [] p = (set_sends [] p, if is_empty p.http.out then ok else would_block_write)
send_loop (sent k ∷ ss) p = elim (is_empty p.http.out) [
  | true ↦ (set_sends (sent k ∷ ss) p, ok)
  | false ↦ send_loop ss (sent_bytes k p)
]
send_loop (send_block_read ∷ ss) p =
    if is_empty p.http.out
    then (set_sends (send_block_read ∷ ss) p, ok)
    else (set_sends ss p, would_block_read)
send_loop (send_block_write ∷ ss) p =
    if is_empty p.http.out
    then (set_sends (send_block_write ∷ ss) p, ok)
    else (set_sends ss p, would_block_write)
send_loop (send_closed ∷ ss) p =
    if is_empty p.http.out
    then (set_sends (send_closed ∷ ss) p, ok)
    else (set_sends ss p, peer_closed)
send_loop (send_error ∷ ss) p =
    if is_empty p.http.out then (set_sends (send_error ∷ ss) p, ok) else (set_sends ss p, failed)

-- `if (backend_paused_ && backend_)`, behind the loop.
unfoldable pub resume_backend : (Pair → Pair) → Pair → Pair
resume_backend resume p =
    if p.http.backend_paused && p.http.backend
    then resume (record p { http = record (p.http) { backend_paused = false } })
    else p

-- `if (state_ == State::Closing) close_both();`
unfoldable pub close_if_closing : Pair → Pair
unfolding close_both
close_if_closing p = if is_state p.http.state closing then close_both p else p

unfoldable pub after_loop : (Pair → Pair) → Pair → IoStatus → Pair × IoStatus
unfolding resume_backend close_if_closing close_both
after_loop resume p ok = (close_if_closing (resume_backend resume p), ok)
after_loop resume p would_block_read = (p, would_block_read)
after_loop resume p would_block_write = (p, would_block_write)
after_loop resume p peer_closed = (close_both p, peer_closed)
after_loop resume p failed = (close_both p, failed)

unfoldable pub pump_write : (Pair → Pair) → Pair → Pair × IoStatus
unfolding send_loop after_loop
pump_write resume p = let (q, st) = send_loop p.io.sends p in after_loop resume q st

abbrev pub set_write_block : IoStatus → Pair → Pair
set_write_block st p = record p { http = record (p.http) { write_block = st } }

abbrev pub recompute : Pair → Pair
recompute p = record p { http = recompute_interest p.http }

-- `write_block_ = pump_write(); if (closed_) return; recompute_interest();`
unfoldable pub pump_and_recompute : (Pair → Pair) → Pair → Pair
unfolding pump_write recompute_interest
pump_and_recompute resume p =
    let (q, st) = pump_write resume p in
    let r = set_write_block st q in if r.http.closed then r else recompute r

-- `out_` takes `text`.
abbrev pub append_out : Bytes → Pair → Pair
append_out text p = record p {
  http = record (p.http) { out = p.http.out ++ text; responded = true };
}

-- `send_response`: `out_` is overwritten.
unfoldable pub send_response : (Pair → Pair) → Reply → Bool → Pair → Pair
unfolding response_text pump_and_recompute
send_response resume r head_only p = pump_and_recompute resume (record p {
  http = record (p.http) { out = response_text r head_only; responded = true; state = closing };
  trace = record (p.trace) { replied = p.trace.replied ++ response_text r head_only };
})

abbrev pub bad_gateway : Bytes → Reply
bad_gateway why = record { code = 502; status = codes "Bad Gateway"; body = why }

-- `BackendConnection::pause_reads`.
unfoldable pub pause_reads : BackendConnection → BackendConnection
unfolding apply_interest
pause_reads b = if b.read_paused then b else apply_interest (record b { read_paused = true })

-- Download backpressure.
unfoldable pub hold_backend : Pair → Pair
unfolding pause_reads
hold_backend p =
    if p.http.backend && (not p.http.backend_paused && ltb high (length p.http.out))
    then record p { http = record (p.http) { backend_paused = true }; back = pause_reads p.back }
    else p

unfoldable pub after_deliver : Pair → Pair
unfolding hold_backend recompute_interest
after_deliver p = if p.http.closed then p else recompute (hold_backend p)

unfoldable pub deliver_to_client : (Pair → Pair) → Bytes → Pair → Pair
unfolding pump_write after_deliver
deliver_to_client resume text p =
    if p.http.closed
    then p
    else (let (q, st) = pump_write resume (append_out text p) in
        after_deliver (set_write_block st q))

unfoldable pub on_backend_closed : (Pair → Pair) → Pair → Pair
unfolding pump_and_recompute
on_backend_closed resume p =
    pump_and_recompute resume
      (record p { http = record (p.http) { backend = false; state = closing } })

unfoldable pub on_backend_error : (Pair → Pair) → Bytes → Pair → Pair
unfolding send_response close_both
on_backend_error resume why p =
    let q = record p { http = record (p.http) { backend = false } } in
    if not q.http.responded then send_response resume (bad_gateway why) false q else close_both q

abbrev pub request_close : Pair → Pair
request_close p = record p { back = record (p.back) { close_requested = true } }

abbrev pub drop_client : Pair → Pair
drop_client p = record p { back = record (p.back) { client = false } }

-- `BackendConnection::fail`.
unfoldable pub fail : (Pair → Pair) → Bytes → Pair → Pair
unfolding on_backend_error
fail resume why p =
    request_close (if p.back.client then on_backend_error resume why (drop_client p) else p)

-- The end of the response.
unfoldable pub end_of_response : (Pair → Pair) → Pair → Pair
unfolding on_backend_closed
end_of_response resume p =
    request_close (if p.back.client then on_backend_closed resume (drop_client p) else p)

-- `if (client_) client_->deliver_to_client(...)`.
unfoldable pub hand_over : (Pair → Pair) → Bytes → Pair → Pair
unfolding deliver_to_client
hand_over resume text p = if p.back.client then deliver_to_client resume text p else p

-- `BackendConnection::resume_reads`, with its call of `on_readable`.
unfoldable pub resume_reads : (Pair → Pair) → Pair → Pair
unfolding apply_interest
resume_reads readable p =
    if not p.back.read_paused
    then p
    else readable (record p { back = apply_interest (record (p.back) { read_paused = false }) })

-- The backend's socket gives `text`; `linked` is whether there is a client to hand it to.
abbrev pub got_if : Bool → Bytes → Pair → Pair
got_if linked text p = record p {
  trace = record (p.trace) {
    delivered = if linked then p.trace.delivered ++ text else p.trace.delivered;
  };
}

abbrev pub got : Bytes → Pair → Pair
got text p = got_if p.back.client text p

-- One round of the loop of `on_readable`: `again` is the rest of the loop, and `readable` the call of
-- `on_readable` that comes back in through `resume_reads`.
unfoldable pub read_round : (Pair → Pair) → (Pair → Pair) → List Read → Pair → Pair
unfolding hand_over end_of_response fail resume_reads
read_round again readable [] p = p
read_round again readable (read_bytes text ∷ rs) p =
    again (hand_over (resume_reads readable) text (touch_back (got text (set_reads rs p))))
read_round again readable (read_eof ∷ rs) p =
    end_of_response (resume_reads readable) (set_reads rs p)
read_round again readable (read_again ∷ rs) p = set_reads rs p
read_round again readable (read_interrupted ∷ rs) p = again (set_reads rs p)
read_round again readable (read_error ∷ rs) p =
    fail (resume_reads readable) (codes "backend read failed") (set_reads rs p)

-- `BackendConnection::on_readable`.
unfoldable pub read_loop : ℕ → Pair → Pair
unfolding read_round
read_loop zero p = p
read_loop (suc fuel) p = elim p.back.read_paused [
  | true ↦ p
  | false ↦ read_round (read_loop fuel) (read_loop fuel) p.io.reads p
]

unfoldable pub on_readable : Pair → Pair
unfolding read_loop
on_readable p = read_loop (suc (length p.io.reads)) p

-- The call of `backend_->resume_reads()` at the top.
unfoldable pub resume : Pair → Pair
unfolding resume_reads on_readable
resume p = resume_reads on_readable p
