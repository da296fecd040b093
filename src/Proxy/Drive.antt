-- ===== src/Proxy/Drive.antt =====
-- The client's side from the first byte on: the head, the start of the backend connection, the reads and
-- `drive`. `pump_read` ties the knot of the calls that come back through `on_backend_drained`, with one unit
-- of fuel for each `recv`.
use castle_plus.Prelude.{
  ℕ, zero, suc, ◌-◌, Bool, true, false, not, ◌||◌, List, [], ◌∷◌, ◌++◌, Bytes, codes, if◌then◌else◌,
  ltb, ◌==◌, length, drop,
}
use castle_plus.Http.Head.{Verdict, wait, reject, internal, forward, decide_head}
use castle_plus.Http.Reply.{handle_internal}
use castle_plus.Proxy.State.{
  State, reading_head, streaming_up, streaming, closing, is_state, IoStatus, ok, would_block_read,
  would_block_write, peer_closed, failed, Recv, received, recv_block_read, recv_block_write,
  recv_closed, recv_error, Connect, no_socket, bad_address, refused, in_progress, Pair, new_backend,
  recompute_interest, touch_http, touch_back, close_both,
}
use castle_plus.Proxy.Download.{
  resume, fail, send_response, bad_gateway, pump_write, set_write_block, recompute,
}
use castle_plus.Proxy.Upload.{Site, set_recvs, flush, send, set_state, forward_body}

-- The backend connection is made, and linked to the client.
abbrev pub link : Pair → Pair
link p = record p { http = record (p.http) { backend = true }; back = new_backend p.io.now }

-- The early returns of `start_backend`, and its end.
unfoldable pub try_connect : (Pair → Pair) → Connect → Pair → Pair
unfolding send_response send
try_connect drained no_socket p =
    send_response resume (bad_gateway (codes "cannot create upstream socket")) false p
try_connect drained bad_address p =
    send_response resume (bad_gateway (codes "bad backend address")) false p
try_connect drained refused p =
    send_response resume (bad_gateway (codes "cannot connect to backend")) false p
try_connect drained in_progress p = send drained p.http.upstream (link p)

unfoldable pub start_backend : (Pair → Pair) → Pair → Pair
unfolding try_connect
start_backend drained p = try_connect drained p.io.connect p

-- The client's socket gives `bytes`.
abbrev pub took_in : Bytes → Pair → Pair
took_in bytes p = record p { trace = record (p.trace) { received = p.trace.received ++ bytes } }

abbrev pub clear_input : Pair → Pair
clear_input p = record p { http = record (p.http) { input = [] } }

-- The end of `process_head`, behind `start_backend`.
unfoldable pub after_start : (Pair → Pair) → Pair → Pair
unfolding forward_body
after_start drained p =
    if is_state p.http.state closing || p.http.closed
    then p
    else if p.http.body_remaining == 0
    then clear_input (set_state streaming p)
    else (let q = set_state streaming_up p in
        if ltb 0 (length q.http.input - q.http.head_len)
        then clear_input (forward_body drained (drop q.http.head_len q.http.input) q)
        else clear_input q)

module _ (site : Site) where
  unfoldable pub obey : (Pair → Pair) → Verdict → Pair → Pair
  unfolding send_response handle_internal start_backend after_start
  obey drained wait p = p
  obey drained (reject r) p = send_response resume r false p
  obey drained (internal method path) p =
      let (r, head_only) = handle_internal site.probe site.routes site.readings method path in
      send_response resume r head_only p
  obey drained (forward head_len f) p = after_start drained (
      start_backend drained (record p {
        http = record (p.http) {
          head_len = head_len;
          upstream = f.head;
          body_remaining = f.content_length;
        };
        trace = record (p.trace) { promised = f.content_length };
      }))

  -- `process_head`.
  unfoldable pub process_head : (Pair → Pair) → Pair → Pair
  unfolding obey decide_head
  process_head drained p =
      obey drained
        (decide_head site.routes site.max_body (length p.http.input) (site.parse p.http.input)) p

  -- The cases of `handle_client_bytes`.
  unfoldable pub bytes_in : State → (Pair → Pair) → Bytes → Pair → Pair
  unfolding process_head forward_body
  bytes_in reading_head drained bytes p =
      process_head drained (record p { http = record (p.http) { input = p.http.input ++ bytes } })
  bytes_in streaming_up drained bytes p = forward_body drained bytes p
  bytes_in streaming drained bytes p = p
  bytes_in closing drained bytes p = p

  unfoldable pub handle_client_bytes : (Pair → Pair) → Bytes → Pair → Pair
  unfolding bytes_in
  handle_client_bytes drained bytes p = bytes_in p.http.state drained bytes p

  -- The end of the client's input.
  unfoldable pub on_client_eof : Pair → Pair × IoStatus
  unfolding close_both
  on_client_eof p =
      if is_state p.http.state streaming || is_state p.http.state closing
      then (record p { http = record (p.http) { client_eof = true } }, would_block_read)
      else (close_both p, peer_closed)

  -- One round of the loop of `pump_read`.
  unfoldable pub recv_round :
      (Pair → Pair × IoStatus) → (Pair → Pair) → List Recv → Pair → Pair × IoStatus
  unfolding handle_client_bytes on_client_eof close_both
  recv_round again drained [] p = (p, would_block_read)
  recv_round again drained (received bytes ∷ rs) p =
      let q = handle_client_bytes drained bytes (touch_http (took_in bytes (set_recvs rs p))) in
      if q.http.closed then (q, peer_closed) else again q
  recv_round again drained (recv_closed ∷ rs) p = on_client_eof (set_recvs rs p)
  recv_round again drained (recv_error ∷ rs) p = (close_both (set_recvs rs p), failed)
  recv_round again drained (recv_block_read ∷ rs) p = (set_recvs rs p, would_block_read)
  recv_round again drained (recv_block_write ∷ rs) p = (set_recvs rs p, would_block_write)

  -- The pumps of `drive`, behind the handshake.
  unfoldable pub pump : (Pair → Pair × IoStatus) → Pair → Pair
  unfolding pump_write recompute_interest
  pump pump_read p =
      let (q, st) = pump_read p in
      let r = record q { http = record (q.http) { read_block = st } } in
      if r.http.closed
      then r
      else (let (s, st') = pump_write resume r in
          let t = set_write_block st' s in if t.http.closed then t else recompute t)

  abbrev pub set_interest : Bool → Bool → Pair → Pair
  set_interest i o p = record p {
    http = record (p.http) { interest = record { wants_in = i; wants_out = o } };
  }

  abbrev pub set_handshakes : List IoStatus → Pair → Pair
  set_handshakes hs p = record p { io = record (p.io) { handshakes = hs } }

  -- The answers of `handshake`; plain text has none to give, and goes on.
  unfoldable pub shake : (Pair → Pair × IoStatus) → List IoStatus → Pair → Pair
  unfolding pump close_both
  shake pump_read [] p =
      pump pump_read (touch_http (record p { http = record (p.http) { handshake_done = true } }))
  shake pump_read (ok ∷ hs) p = pump pump_read (
      touch_http
        (record (set_handshakes hs p) { http = record (p.http) { handshake_done = true } }))
  shake pump_read (would_block_read ∷ hs) p = set_interest true false (set_handshakes hs p)
  shake pump_read (would_block_write ∷ hs) p = set_interest false true (set_handshakes hs p)
  shake pump_read (peer_closed ∷ hs) p = close_both (set_handshakes hs p)
  shake pump_read (failed ∷ hs) p = close_both (set_handshakes hs p)

  -- `drive`, with its call of `pump_read`.
  unfoldable pub drive_with : (Pair → Pair × IoStatus) → Pair → Pair
  unfolding shake pump
  drive_with pump_read p =
      if p.http.closed
      then p
      else if p.http.handshake_done
      then pump pump_read p
      else shake pump_read p.io.handshakes p

  -- `on_backend_drained`, with its call of `drive`.
  unfoldable pub drained_with : (Pair → Pair) → Pair → Pair
  drained_with drive p =
      if p.http.closed || not p.http.read_paused
      then p
      else drive (record p { http = record (p.http) { read_paused = false } })

  unfoldable pub recv_loop : ℕ → Pair → Pair × IoStatus
  unfolding recv_round drained_with drive_with
  recv_loop zero p = (p, would_block_read)
  recv_loop (suc fuel) p = elim (p.http.read_paused || p.http.client_eof) [
    | true ↦ (p, would_block_read)
    | false ↦ recv_round (recv_loop fuel) (drained_with (drive_with (recv_loop fuel))) p.io.recvs p
  ]

  unfoldable pub pump_read : Pair → Pair × IoStatus
  unfolding recv_loop
  pump_read p = recv_loop (suc (length p.io.recvs)) p

  unfoldable pub drive : Pair → Pair
  unfolding drive_with pump_read
  drive p = drive_with pump_read p

  unfoldable pub on_backend_drained : Pair → Pair
  unfolding drained_with drive
  on_backend_drained p = drained_with drive p

  -- `BackendConnection::on_writable`; `connects` is whether SO_ERROR is 0.
  unfoldable pub on_writable : Bool → Pair → Pair
  unfolding flush fail on_backend_drained
  on_writable connects p =
      if p.back.connected
      then flush on_backend_drained p
      else if not connects
      then fail resume (codes "connect failed") p
      else flush on_backend_drained
          (touch_back (record p { back = record (p.back) { connected = true } }))
