-- ===== src/Proxy/UploadFuel.antt =====
-- The fuel of `pump_read`: what the functions of the upload ask their argument `drained`, by the number of
-- answers to `recv` that are left.
use castle_plus.Prelude.{
  ℕ, zero, suc, ◌-◌, ◌<◌, ◌≤◌, ◌≡◌, refl, sym, ap, ◌∙◌, Bool, true, false, not, ◌&&◌, ◌||◌, List,
  [], ◌∷◌, ◌++◌, Bytes, if◌then◌else◌, ltb, ◌==◌, length, take, drop, min, append-nil, elim_same,
  elim_if, if_same, arith,
}
use castle_plus.Http.Head.{Verdict, wait, reject, internal, forward}
use castle_plus.Proxy.State.{
  State, reading_head, streaming_up, streaming, closing, is_state, IoStatus, ok, would_block_read,
  would_block_write, peer_closed, failed, Recv, received, recv_block_read, recv_block_write,
  recv_closed, recv_error, Connect, no_socket, bad_address, refused, in_progress, Pair, low,
  touch_http,
}
use castle_plus.Proxy.Download.{resume, send_response, pump_write, set_write_block, recompute}
use castle_plus.Proxy.Upload.{
  Site, set_recvs, write_loop, apply, erase_out, release, after_writes, flush, queue, send,
  set_state, after_send, lower_remaining, forward_body,
}
use castle_plus.Proxy.Drive.{
  took_in, link, try_connect, start_backend, clear_input, after_start, obey, process_head, bytes_in,
  handle_client_bytes, recv_round, pump, shake, drive_with, drained_with, recv_loop, pump_read,
  drive, on_backend_drained,
}
use castle_plus.Proxy.Steps.{Core, as_is, Reach-answers}
use castle_plus.Proxy.DownloadSteps.{pump_and_recompute-Goes, resume-Resumes}
use castle_plus.Proxy.UploadSteps.{write_loop-Writes}
use castle_plus.Proxy.DriveSteps.{drained_with-Quiet, bytes_in-Goes}

-- Two functions that agree where less than `n` answers to `recv` are left.
abbrev Agree : ℕ → (Pair → Pair) → (Pair → Pair) → Type 0
Agree n f g = (q : Pair) → length q.io.recvs < n → f q ≡ g q

-- The loop of `flush` leaves the client's socket alone.
write_loop_recvs : (p : Pair) → length (write_loop p.io.writes 0 p).0.io.recvs ≡ length p.io.recvs
write_loop_recvs p =
    let base = p.trace.to_backend in
    ap (λ (c : Core). c.recvs)
      (write_loop-Writes as_is base p.io.writes 0 p (sym (append-nil base))).0

try_connect_recvs :
    (d : Pair → Pair) (a : Connect) (p : Pair)
    → length (try_connect d a p).io.recvs ≤ length p.io.recvs
unfolding try_connect send_response send queue
try_connect_recvs d no_socket p =
    (Reach-answers (pump_and_recompute-Goes as_is resume (resume-Resumes as_is) _)).1
try_connect_recvs d bad_address p =
    (Reach-answers (pump_and_recompute-Goes as_is resume (resume-Resumes as_is) _)).1
try_connect_recvs d refused p =
    (Reach-answers (pump_and_recompute-Goes as_is resume (resume-Resumes as_is) _)).1
try_connect_recvs d in_progress p = omega arith

module _ (n : ℕ) (f g : Pair → Pair) (h : Agree n f g) where
  release-Agree : Agree n (release f) (release g)
  unfolding release
  release-Agree p l =
      let q = record p { back = record (p.back) { high_water_hit = false } } in
      ap
        (λ r.
          if p.back.high_water_hit && ltb (length p.back.out) low
          then (if q.back.client then r else q)
          else p)
        (h q l)

  after_writes_agree :
      (p : Pair) (off : ℕ) (bad : Bool)
      → length p.io.recvs < n
      → after_writes f p off bad ≡ after_writes g p off bad
  unfolding after_writes
  after_writes_agree p off true l = refl
  after_writes_agree p off false l = ap apply (release-Agree (erase_out off p) l)

  flush-Agree : Agree n (flush f) (flush g)
  unfolding flush
  flush-Agree p l =
      let r = write_loop p.io.writes 0 p in
      after_writes_agree r.0 r.1.0 r.1.1 (omega (arith, write_loop_recvs p))

  send-Agree : (text : Bytes) → Agree n (send f text) (send g text)
  unfolding send queue
  send-Agree text p l =
      ap (λ r. if p.back.connected then r else queue text p) (flush-Agree (queue text p) l)

  forward_body-Agree : (bytes : Bytes) → Agree n (forward_body f bytes) (forward_body g bytes)
  unfolding forward_body
  forward_body-Agree bytes p l =
      let m = min (length bytes) p.http.body_remaining in
      ap
        (λ r.
          if not p.http.backend
          then p
          else if ltb 0 m
          then after_send (lower_remaining m r)
          else after_send p)
        (send-Agree (take m bytes) p l)

  try_connect-Agree : (a : Connect) → Agree n (try_connect f a) (try_connect g a)
  unfolding try_connect
  try_connect-Agree no_socket p l = refl
  try_connect-Agree bad_address p l = refl
  try_connect-Agree refused p l = refl
  try_connect-Agree in_progress p l = send-Agree p.http.upstream (link p) l

  after_start-Agree : Agree n (after_start f) (after_start g)
  unfolding after_start
  after_start-Agree p l =
      let q = set_state streaming_up p in
      ap
        (λ r.
          if is_state p.http.state closing || p.http.closed
          then p
          else if p.http.body_remaining == 0
          then clear_input (set_state streaming p)
          else if ltb 0 (length q.http.input - q.http.head_len)
          then clear_input r
          else clear_input q)
        (forward_body-Agree (drop q.http.head_len q.http.input) q l)

  module _ (site : Site) where
    obey-Agree : (v : Verdict) → Agree n (obey site f v) (obey site g v)
    unfolding obey start_backend
    obey-Agree wait p l = refl
    obey-Agree (reject r) p l = refl
    obey-Agree (internal method path) p l = refl
    obey-Agree (forward len k) p l =
        let q = record p {
          http = record (p.http) {
            head_len = len;
            upstream = k.head;
            body_remaining = k.content_length;
          };
          trace = record (p.trace) { promised = k.content_length };
        } in
        after_start-Agree (try_connect f p.io.connect q)
          (omega (arith, try_connect_recvs f p.io.connect q))
        ∙ ap (after_start g) (try_connect-Agree p.io.connect q l)

    bytes_in-Agree :
        (s : State) (bytes : Bytes) → Agree n (bytes_in site s f bytes) (bytes_in site s g bytes)
    unfolding bytes_in process_head
    bytes_in-Agree reading_head bytes p l =
        obey-Agree _ (record p { http = record (p.http) { input = p.http.input ++ bytes } }) l
    bytes_in-Agree streaming_up bytes p l = forward_body-Agree bytes p l
    bytes_in-Agree streaming bytes p l = refl
    bytes_in-Agree closing bytes p l = refl

module _ (site : Site) where
  -- Two pumps that agree on open pairs where less than `n` answers to `recv` are left.
  abbrev AgreeOpen : ℕ → (Pair → Pair × IoStatus) → (Pair → Pair × IoStatus) → Type 0
  AgreeOpen n a b = (q : Pair) → length q.io.recvs < n → q.http.closed ≡ false → a q ≡ b q

  module _ (n : ℕ) (a b : Pair → Pair × IoStatus) (h : AgreeOpen n a b) where
    pump_agree :
        (p : Pair) → length p.io.recvs < n → p.http.closed ≡ false → pump site a p ≡ pump site b p
    unfolding pump
    pump_agree p l c =
        ap
          (λ (x : Pair × IoStatus).
            let r = record (x.0) { http = record (x.0.http) { read_block = x.1 } } in
            if r.http.closed
            then r
            else (let y = pump_write resume r in
                let t = set_write_block y.1 y.0 in if t.http.closed then t else recompute t))
          (h p l c)

    shake_agree :
        (hs : List IoStatus) (p : Pair)
        → length p.io.recvs < n
        → p.http.closed ≡ false
        → shake site a hs p ≡ shake site b hs p
    unfolding shake
    shake_agree [] p l c = pump_agree _ l c
    shake_agree (ok ∷ hs) p l c = pump_agree _ l c
    shake_agree (would_block_read ∷ hs) p l c = refl
    shake_agree (would_block_write ∷ hs) p l c = refl
    shake_agree (peer_closed ∷ hs) p l c = refl
    shake_agree (failed ∷ hs) p l c = refl

    drive_with-Agree : Agree n (drive_with site a) (drive_with site b)
    unfolding drive_with
    drive_with-Agree p l =
        if_same p.http.closed (λ _. refl)
          (λ c.
            if_same p.http.handshake_done (λ _. pump_agree p l c)
              (λ _. shake_agree p.io.handshakes p l c))

    abbrev drains : (Pair → Pair × IoStatus) → Pair → Pair
    drains pump_read = drained_with site (drive_with site pump_read)

    drains-Agree : Agree n (drains a) (drains b)
    unfolding drained_with
    drains-Agree p l =
        ap (λ q. if p.http.closed || not p.http.read_paused then p else q)
          (drive_with-Agree (record p { http = record (p.http) { read_paused = false } }) l)

    recv_round_agree :
        (rs : List Recv) (p : Pair)
        → length rs ≤ n
        → p.http.closed ≡ false
        → p.http.read_paused ≡ false
        → recv_round site a (drains a) rs p ≡ recv_round site b (drains b) rs p
    unfolding recv_round handle_client_bytes
    recv_round_agree [] p l c i = refl
    recv_round_agree (received bytes ∷ rs) p l c i =
        let q = touch_http (set_recvs rs p) in
        let ds = drained_with-Quiet site (drive_with site a) in
        let t = took_in bytes q in
        let r = bytes_in site q.http.state (drains a) bytes t in
        let s =
          (Reach-answers (bytes_in-Goes site (drains a) ds q.http.state bytes q refl c i)).1 in
        if_same r.http.closed (λ _. refl) (λ e. h r (omega arith) e)
        ∙ ap (λ (x : Pair). if x.http.closed then (x, peer_closed) else b x)
            (bytes_in-Agree n (drains a) (drains b) drains-Agree site q.http.state bytes t
              (omega arith))
    recv_round_agree (recv_closed ∷ rs) p l c i = refl
    recv_round_agree (recv_error ∷ rs) p l c i = refl
    recv_round_agree (recv_block_read ∷ rs) p l c i = refl
    recv_round_agree (recv_block_write ∷ rs) p l c i = refl

  -- More fuel than answers is enough.
  recv_loop_fuel :
      (f g : ℕ) (p : Pair)
      → length p.io.recvs < f
      → length p.io.recvs < g
      → p.http.closed ≡ false
      → recv_loop site f p ≡ recv_loop site g p
  unfolding recv_loop
  recv_loop_fuel zero g p k l c = absurd (omega arith)
  recv_loop_fuel (suc f) zero p k l c = absurd (omega arith)
  recv_loop_fuel (suc f) (suc g) p k l c =
      elim_same (p.http.read_paused || p.http.client_eof) (λ _. refl)
        (λ i.
          recv_round_agree (length p.io.recvs) (recv_loop site f) (recv_loop site g)
            (λ q h. recv_loop_fuel f g q (omega arith) (omega arith)) p.io.recvs p (omega arith) c
            (ground arith))

  -- The fuel of `pump_read` never runs out: on an open connection it is the loop of the source, with
  -- `pump_read` itself as the rest of the loop and `on_backend_drained` as what a flush comes back into.
  pub pump_read_unrolled :
      (p : Pair)
      → p.http.closed ≡ false
      → pump_read site p ≡ (
          if p.http.read_paused || p.http.client_eof
          then (p, would_block_read)
          else recv_round site (pump_read site) (on_backend_drained site) p.io.recvs p)
  unfolding pump_read recv_loop on_backend_drained drive
  pump_read_unrolled p c =
      elim_if (p.http.read_paused || p.http.client_eof) (λ _. refl)
        (λ i.
          recv_round_agree (length p.io.recvs) (recv_loop site (length p.io.recvs)) (pump_read site)
            (λ q h. recv_loop_fuel (length p.io.recvs) (suc (length q.io.recvs)) q h (omega arith))
            p.io.recvs p (omega arith) c (ground arith))
