-- ===== src/Proxy/Upload.antt =====
-- The way to the backend: the buffer of the backend connection, and the body. The flush of that buffer comes
-- back into the client's reads through `on_backend_drained`; that call is the argument `drained`.
use castle_plus.Prelude.{
  ℕ, ◌+◌, ◌-◌, Bool, true, false, not, ◌&&◌, ◌||◌, List, [], ◌∷◌, ◌++◌, Bytes, codes, if◌then◌else◌,
  ltb, ◌==◌, length, take, drop, min,
}
use castle_plus.Router.{Backend, Route}
use castle_plus.Http.Head.{Parsed}
use castle_plus.Http.Reply.{Readings}
use castle_plus.Proxy.State.{
  State, streaming, Recv, Write, wrote, write_again, write_interrupted, write_error, Pair, high,
  low, apply_interest, touch_back,
}
use castle_plus.Proxy.Download.{resume, fail}

-- What a connection is given when it is made, and picohttpparser.
pub record Site : Type 0 where
  pub routes : List Route
  pub max_body : ℕ
  pub probe : Backend → Bool
  pub readings : Readings
  pub parse : Bytes → Parsed

abbrev pub set_recvs : List Recv → Pair → Pair
set_recvs rs p = record p { io = record (p.io) { recvs = rs } }

abbrev pub set_writes : List Write → Pair → Pair
set_writes ws p = record p { io = record (p.io) { writes = ws } }

-- The bytes of `out_` from `off` on, `k` of which reach the backend.
abbrev pub wrote_bytes : ℕ → ℕ → Pair → Pair
wrote_bytes off k p = touch_back (record p {
  trace = record (p.trace) { to_backend = p.trace.to_backend ++ take k (drop off p.back.out) };
})

-- The loop of `flush`: the offset, and whether a write failed.
unfoldable pub write_loop : List Write → ℕ → Pair → Pair × (ℕ × Bool)
write_loop [] off p = (set_writes [] p, (off, false))
write_loop (wrote k ∷ ws) off p = elim (ltb off (length p.back.out)) [
  | true ↦ write_loop ws (off + min k (length p.back.out - off)) (wrote_bytes off k p)
  | false ↦ (set_writes (wrote k ∷ ws) p, (off, false))
]
write_loop (write_again ∷ ws) off p =
    if ltb off (length p.back.out)
    then (set_writes ws p, (off, false))
    else (set_writes (write_again ∷ ws) p, (off, false))
write_loop (write_interrupted ∷ ws) off p = elim (ltb off (length p.back.out)) [
  | true ↦ write_loop ws off p
  | false ↦ (set_writes (write_interrupted ∷ ws) p, (off, false))
]
write_loop (write_error ∷ ws) off p =
    if ltb off (length p.back.out)
    then (set_writes ws p, (off, true))
    else (set_writes (write_error ∷ ws) p, (off, false))

abbrev pub apply : Pair → Pair
apply p = record p { back = apply_interest p.back }

abbrev pub erase_out : ℕ → Pair → Pair
erase_out off p = record p { back = record (p.back) { out = drop off p.back.out } }

-- Upload backpressure: the call of `client_->on_backend_drained()`.
unfoldable pub release : (Pair → Pair) → Pair → Pair
release drained p =
    if p.back.high_water_hit && ltb (length p.back.out) low
    then (let q = record p { back = record (p.back) { high_water_hit = false } } in
        if q.back.client then drained q else q)
    else p

unfoldable pub after_writes : (Pair → Pair) → Pair → ℕ → Bool → Pair
unfolding release apply_interest fail
after_writes drained p off true = fail resume (codes "backend write failed") p
after_writes drained p off false = apply (release drained (erase_out off p))

-- `BackendConnection::flush`.
unfoldable pub flush : (Pair → Pair) → Pair → Pair
unfolding write_loop after_writes
flush drained p = let (q, (off, bad)) = write_loop p.io.writes 0 p in after_writes drained q off bad

-- `out_` of the backend takes `text`.
unfoldable pub queue : Bytes → Pair → Pair
queue text p = record p {
  back = record (p.back) {
    out = p.back.out ++ text;
    high_water_hit = p.back.high_water_hit || ltb high (length (p.back.out ++ text));
  };
}

-- `BackendConnection::send`.
unfoldable pub send : (Pair → Pair) → Bytes → Pair → Pair
unfolding queue flush
send drained text p = let q = queue text p in if q.back.connected then flush drained q else q

abbrev pub set_state : State → Pair → Pair
set_state s p = record p { http = record (p.http) { state = s } }

-- The tests behind the call of `send`: `backend_` is followed without a test.
unfoldable pub after_send : Pair → Pair
after_send p =
    if p.http.body_remaining == 0
    then set_state streaming p
    else if not p.http.backend
    then record p { trace = record (p.trace) { null_followed = true } }
    else if ltb high (length p.back.out)
    then record p { http = record (p.http) { read_paused = true } }
    else p

abbrev pub lower_remaining : ℕ → Pair → Pair
lower_remaining n p = record p {
  http = record (p.http) { body_remaining = p.http.body_remaining - n };
}

unfoldable pub forward_body : (Pair → Pair) → Bytes → Pair → Pair
unfolding send after_send
forward_body drained bytes p =
    let n = min (length bytes) p.http.body_remaining in
    if not p.http.backend
    then p
    else if ltb 0 n
    then after_send (lower_remaining n (send drained (take n bytes) p))
    else after_send p
