-- ===== src/Proxy/HalfClose.antt =====
-- What a client can still do while its response streams: end its input, or send more.
use castle_plus.Prelude.{
  ℕ, zero, suc, ◌≡◌, refl, sym, ap, subst, false, ◌||◌, List, [], ◌∷◌, Bytes, All, length,
  elim_case, if_case, if◌then◌else◌,
}
use castle_plus.Proxy.State.{
  State, reading_head, streaming_up, streaming, closing, is_state, IoStatus, peer_closed, Recv,
  received, recv_block_read, recv_block_write, recv_closed, recv_error, Pair, touch_http,
}
use castle_plus.Proxy.Upload.{Site, set_recvs}
use castle_plus.Proxy.Drive.{
  took_in, handle_client_bytes, bytes_in, on_client_eof, recv_round, drained_with, drive_with,
  recv_loop, pump_read,
}

-- An answer that is no failure.
abbrev pub IsGentle : Recv → Type 0
IsGentle (received bytes) = Unit {0}
IsGentle recv_block_read = Unit {0}
IsGentle recv_block_write = Unit {0}
IsGentle recv_closed = Unit {0}
IsGentle recv_error = ⊥

-- The response goes on: the connection is open and streaming, and its output and its backend are as they were.
pub record GoesOn (p q : Pair) : Type 0 where
  pub state : q.http.state ≡ streaming
  pub closed : q.http.closed ≡ false
  pub backend : q.http.backend ≡ p.http.backend
  pub out : q.http.out ≡ p.http.out
  pub back : q.back ≡ p.back

module _ (site : Site) where
  skipped :
      (drained : Pair → Pair) (bytes : Bytes) (p : Pair)
      → p.http.state ≡ streaming
      → handle_client_bytes site drained bytes p ≡ p
  unfolding handle_client_bytes bytes_in
  skipped drained bytes p e = ap (λ s. bytes_in site s drained bytes p) e

  eof-GoesOn :
      (p : Pair)
      → p.http.state ≡ streaming
      → p.http.closed ≡ false
      → GoesOn p (on_client_eof site p).0
  unfolding on_client_eof
  eof-GoesOn p e c =
      if_case (λ (r : Pair × IoStatus). GoesOn p r.0)
        (is_state p.http.state streaming || is_state p.http.state closing)
        (λ _. record { state = e; closed = c; backend = refl; out = refl; back = refl })
        (λ h. absurd (streams p.http.state e h))
    where
      streams :
          (s : State) → s ≡ streaming → (is_state s streaming || is_state s closing) ≡ false → ⊥
      streams reading_head e h = cc
      streams streaming_up e h = cc
      streams streaming e h = cc
      streams closing e h = cc

  recv_round-GoesOn :
      (again : Pair → Pair × IoStatus) (drained : Pair → Pair) (rs : List Recv) (p : Pair)
      → ((q : Pair)
          → q.http.state ≡ streaming
          → q.http.closed ≡ false
          → All IsGentle q.io.recvs
          → GoesOn q (again q).0)
      → p.http.state ≡ streaming
      → p.http.closed ≡ false
      → All IsGentle rs
      → GoesOn p (recv_round site again drained rs p).0
  unfolding recv_round
  recv_round-GoesOn again drained [] p k e c g = record {
    state = e;
    closed = c;
    backend = refl;
    out = refl;
    back = refl;
  }
  recv_round-GoesOn again drained (received bytes ∷ rs) p k e c g =
      let q = touch_http (took_in bytes (set_recvs rs p)) in
      let n = k q e c g.1 in
      let m : GoesOn p (again q).0 = record {
        state = n.state;
        closed = n.closed;
        backend = n.backend;
        out = n.out;
        back = n.back;
      } in
      subst (λ (r : Pair). GoesOn p (if r.http.closed then (r, peer_closed) else again r).0)
        (sym (skipped drained bytes q e))
        (subst (λ b. GoesOn p (if b then (q, peer_closed) else again q).0) (sym c) m)
  recv_round-GoesOn again drained (recv_closed ∷ rs) p k e c g =
      let n = eof-GoesOn (set_recvs rs p) e c in
      record { state = n.state; closed = n.closed; backend = n.backend; out = n.out; back = n.back }
  recv_round-GoesOn again drained (recv_error ∷ rs) p k e c g = absurd (g.0)
  recv_round-GoesOn again drained (recv_block_read ∷ rs) p k e c g = record {
    state = e;
    closed = c;
    backend = refl;
    out = refl;
    back = refl;
  }
  recv_round-GoesOn again drained (recv_block_write ∷ rs) p k e c g = record {
    state = e;
    closed = c;
    backend = refl;
    out = refl;
    back = refl;
  }

  recv_loop-GoesOn :
      (fuel : ℕ) (p : Pair)
      → p.http.state ≡ streaming
      → p.http.closed ≡ false
      → All IsGentle p.io.recvs
      → GoesOn p (recv_loop site fuel p).0
  unfolding recv_loop
  recv_loop-GoesOn zero p e c g = record {
    state = e;
    closed = c;
    backend = refl;
    out = refl;
    back = refl;
  }
  recv_loop-GoesOn (suc fuel) p e c g =
      elim_case (λ (r : Pair × IoStatus). GoesOn p r.0) (p.http.read_paused || p.http.client_eof)
        (λ _. record { state = e; closed = c; backend = refl; out = refl; back = refl })
        (λ _.
          recv_round-GoesOn (recv_loop site fuel)
            (drained_with site (drive_with site (recv_loop site fuel))) p.io.recvs p
            (recv_loop-GoesOn fuel) e c g)

-- A client that ends its input while the response streams, or sends more, does not end the response: as long as no
-- `recv` fails, reading from it leaves an open connection open, with the same output and the same backend.
pub pump_read-GoesOn :
    (site : Site) (p : Pair)
    → p.http.state ≡ streaming
    → p.http.closed ≡ false
    → All IsGentle p.io.recvs
    → GoesOn p (pump_read site p).0
unfolding pump_read
pump_read-GoesOn site p e c g = recv_loop-GoesOn site (suc (length p.io.recvs)) p e c g
