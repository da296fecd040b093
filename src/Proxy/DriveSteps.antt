-- ===== src/Proxy/DriveSteps.antt =====
-- The client's reads, `drive` and the handlers take steps.
use castle_plus.Prelude.{
  ℕ, zero, suc, ◌≤◌, ◌≡◌, refl, ap, subst, ◌∙◌, Bool, true, false, not, ◌||◌, List, [], ◌∷◌, ◌++◌,
  Bytes, codes, length, if_case, if_both, elim_case, inl, inr, ◌⊎◌, arith,
}
use castle_plus.Http.Head.{Verdict, wait, reject, internal, forward, decide_head}
use castle_plus.Http.Reply.{handle_internal}
use castle_plus.Proxy.State.{
  State, reading_head, streaming_up, streaming, closing, is_state, IoStatus, ok, would_block_read,
  would_block_write, peer_closed, failed, Recv, received, recv_block_read, recv_block_write,
  recv_closed, recv_error, Io, Pair, recompute_interest, touch_http, touch_back,
}
use castle_plus.Proxy.Download.{resume, pump_write}
use castle_plus.Proxy.Upload.{Site, set_recvs, flush}
use castle_plus.Proxy.Drive.{
  took_in, start_backend, obey, process_head, bytes_in, handle_client_bytes, on_client_eof,
  recv_round, pump, set_handshakes, shake, drive_with, drained_with, recv_loop, pump_read, drive,
  on_backend_drained, on_writable,
}
use castle_plus.Proxy.Events.{
  Event, client_ready, client_error, client_sweep, backend_readable, backend_writable,
  backend_error, backend_sweep, client_destroyed, backend_destroyed, is_idle, react, handle, run,
}
use castle_plus.Proxy.Steps.{
  Core, core, core_at, as_is, Step, Reach, here, Reach-trans, one_step, Goes, Runs, start, event,
  Runs-trans,
}
use castle_plus.Proxy.DownloadSteps.{
  fail-Goes, resume-Resumes, pump_write-Goes, send_response-Goes, close_both-Goes, on_readable-Goes,
  destroy_http-Goes, destroy_backend-Goes,
}
use castle_plus.Proxy.UploadSteps.{DrainsAt, Quiet, flush-Goes, forward_body-Goes}
use castle_plus.Proxy.StartSteps.{started-Goes}

module _ (site : Site) where
  obey-Goes :
      (drained : Pair → Pair) (v : Verdict) (p : Pair)
      → p.http.state ≡ reading_head
      → p.http.closed ≡ false
      → Goes p (obey site drained v p)
  unfolding obey start_backend
  obey-Goes drained wait p e h = here
  obey-Goes drained (reject r) p e h =
      send_response-Goes as_is resume (resume-Resumes as_is) r false p (inl e)
  obey-Goes drained (internal method path) p e h =
      let r = handle_internal site.probe site.routes site.readings method path in
      send_response-Goes as_is resume (resume-Resumes as_is) r.0 r.1 p (inl e)
  obey-Goes drained (forward len f) p e h = started-Goes drained p.io.connect len f p e h

  pub bytes_in-Goes :
      (drained : Pair → Pair)
      → Quiet drained
      → (s : State) (bytes : Bytes) (p : Pair) → p.http.state ≡ s
      → p.http.closed ≡ false
      → p.http.read_paused ≡ false
      → Goes p (bytes_in site s drained bytes (took_in bytes p))
  unfolding bytes_in process_head
  bytes_in-Goes drained ds reading_head bytes p e h r =
      let q = record (took_in bytes p) {
        http = record (p.http) { input = p.http.input ++ bytes };
      } in
      Reach-trans (one_step (Step.take_head (core p) bytes e)) (
        obey-Goes drained
          (decide_head site.routes site.max_body (length q.http.input) (site.parse q.http.input)) q
          e h)
  bytes_in-Goes drained ds streaming_up bytes p e h r = forward_body-Goes drained ds bytes p e r
  bytes_in-Goes drained ds streaming bytes p e h r =
      one_step (Step.skip (core p) bytes (λ k. cc) (inr (inr (inl e))))
  bytes_in-Goes drained ds closing bytes p e h r =
      one_step (Step.skip (core p) bytes (λ k. cc) (inr (inr (inr e))))

  on_client_eof-Goes : (p : Pair) → Goes p (on_client_eof site p).0
  unfolding on_client_eof
  on_client_eof-Goes p =
      if_both (λ (r : Pair × IoStatus). Goes p r.0)
        (is_state p.http.state streaming || is_state p.http.state closing) here
        (close_both-Goes as_is p)

  -- A pump that takes steps while the connection is open.
  abbrev pub Pumps : (Pair → Pair × IoStatus) → Type 0
  Pumps again = (q : Pair) → q.http.closed ≡ false → Goes q (again q).0

  recv_step : (rs : List Recv) (p : Pair) → length rs ≤ length p.io.recvs → Goes p (set_recvs rs p)
  recv_step rs p h = one_step (Step.recv (core p) (length rs) h)

  recv_round-Goes :
      (again : Pair → Pair × IoStatus) (drained : Pair → Pair)
      → Pumps again
      → Quiet drained
      → (rs : List Recv) (p : Pair) → length rs ≤ length p.io.recvs
      → p.http.closed ≡ false
      → p.http.read_paused ≡ false
      → Goes p (recv_round site again drained rs p).0
  unfolding recv_round handle_client_bytes
  recv_round-Goes again drained ag ds [] p l h i = here
  recv_round-Goes again drained ag ds (received bytes ∷ rs) p l h i =
      let q = touch_http (set_recvs rs p) in
      let r = bytes_in site q.http.state drained bytes (took_in bytes q) in
      let g : Goes p r =
        Reach-trans (recv_step rs p (omega arith))
          (bytes_in-Goes drained ds q.http.state bytes q refl h i) in
      if_case (λ (r : Pair × IoStatus). Goes p r.0) r.http.closed (λ _. g)
        (λ f. Reach-trans g (ag r f))
  recv_round-Goes again drained ag ds (recv_closed ∷ rs) p l h i =
      Reach-trans (recv_step rs p (omega arith)) (on_client_eof-Goes (set_recvs rs p))
  recv_round-Goes again drained ag ds (recv_error ∷ rs) p l h i =
      Reach-trans (recv_step rs p (omega arith)) (close_both-Goes as_is (set_recvs rs p))
  recv_round-Goes again drained ag ds (recv_block_read ∷ rs) p l h i = recv_step rs p (omega arith)
  recv_round-Goes again drained ag ds (recv_block_write ∷ rs) p l h i = recv_step rs p (omega arith)

  pump-Goes :
      (again : Pair → Pair × IoStatus)
      → Pumps again
      → (p : Pair) → p.http.closed ≡ false
      → Goes p (pump site again p)
  unfolding pump recompute_interest
  pump-Goes again ag p h =
      let r = record ((again p).0) {
        http = record ((again p).0.http) { read_block = (again p).1 };
      } in
      if_case (Goes p) r.http.closed (λ _. ag p h)
        λ _.
          let g : Goes p (pump_write resume r).0 =
            Reach-trans (ag p h) (pump_write-Goes as_is resume (resume-Resumes as_is) r) in
          if_both (Goes p) (pump_write resume r).0.http.closed g g

  shake-Goes :
      (again : Pair → Pair × IoStatus)
      → Pumps again
      → (hs : List IoStatus) (p : Pair) → p.http.closed ≡ false
      → Goes p (shake site again hs p)
  unfolding shake
  shake-Goes again ag [] p h =
      pump-Goes again ag
        (touch_http (record p { http = record (p.http) { handshake_done = true } })) h
  shake-Goes again ag (ok ∷ hs) p h =
      pump-Goes again ag
        (touch_http
          (record (set_handshakes site hs p) { http = record (p.http) { handshake_done = true } }))
        h
  shake-Goes again ag (would_block_read ∷ hs) p h = here
  shake-Goes again ag (would_block_write ∷ hs) p h = here
  shake-Goes again ag (peer_closed ∷ hs) p h = close_both-Goes as_is (set_handshakes site hs p)
  shake-Goes again ag (failed ∷ hs) p h = close_both-Goes as_is (set_handshakes site hs p)

  pub drive_with-Goes :
      (again : Pair → Pair × IoStatus) → Pumps again → (p : Pair) → Goes p (drive_with site again p)
  unfolding drive_with
  drive_with-Goes again ag p =
      if_case (Goes p) p.http.closed (λ _. here)
        λ h.
          if_case (Goes p) p.http.handshake_done (λ _. pump-Goes again ag p h)
            (λ _. shake-Goes again ag p.io.handshakes p h)

  either : (a b : Bool) → (a || not b) ≡ true → (a ≡ true) ⊎ (b ≡ false)
  either true b h = inl refl
  either false true h = absurd cc h
  either false false h = inr refl

  pub drained_with-Drains :
      (d : Pair → Pair) (paused : Bool)
      → ((q : Pair) → Goes q (d q))
      → DrainsAt as_is paused (drained_with site d)
  unfolding drained_with
  drained_with-Drains d paused dg c off q r k e =
      if_case (λ r. Reach c (core r)) (q.http.closed || not q.http.read_paused)
        (λ h. subst (Reach c) e (one_step (Step.write_release c off k (inr (idle h)))))
        (λ _.
          Reach-trans
            (subst (Reach c) (ap (λ (x : Core). record x { read_paused = false }) e)
              (one_step (Step.write_resume c off k)))
            (dg (record q { http = record (q.http) { read_paused = false } })))
    where
      idle :
          (q.http.closed || not q.http.read_paused) ≡ true
          → (c.closed ≡ true) ⊎ (c.read_paused ≡ false)
      idle h = elim (either q.http.closed q.http.read_paused h) [
        | inl a ↦ inl (ap (λ (x : Core). x.closed) e ∙ a)
        | inr b ↦ inr (ap (λ (x : Core). x.read_paused) e ∙ b)
      ]

  pub drained_with-Quiet : (d : Pair → Pair) → Quiet (drained_with site d)
  unfolding drained_with
  drained_with-Quiet d late c off q r k e =
      if_case (λ r. Reach c (core_at late r)) (q.http.closed || not q.http.read_paused)
        (λ _. subst (Reach c) e (
          one_step
            (Step.write_release c off k (inr (inr (ap (λ (x : Core). x.read_paused) e ∙ r))))))
        (λ h. absurd (reading q.http.closed q.http.read_paused r h))
    where
      reading : (a b : Bool) → b ≡ false → (a || not b) ≡ false → ⊥
      reading a true e h = cc
      reading true false e h = cc
      reading false false e h = cc

  pub recv_loop-Goes : (fuel : ℕ) → Pumps (recv_loop site fuel)
  unfolding recv_loop
  recv_loop-Goes zero p h = here
  recv_loop-Goes (suc fuel) p h =
      elim_case (λ (r : Pair × IoStatus). Goes p r.0) (p.http.read_paused || p.http.client_eof)
        (λ _. here)
        (λ i.
          recv_round-Goes (recv_loop site fuel)
            (drained_with site (drive_with site (recv_loop site fuel))) (recv_loop-Goes fuel)
            (drained_with-Quiet (drive_with site (recv_loop site fuel))) p.io.recvs p (omega arith)
            h (ground arith))

  drive-Goes : (p : Pair) → Goes p (drive site p)
  unfolding drive pump_read
  drive-Goes p =
      drive_with-Goes (pump_read site) (λ q h. recv_loop-Goes (suc (length q.io.recvs)) q h) p

  flush_drained-Goes : (p : Pair) → Goes p (flush (on_backend_drained site) p)
  unfolding on_backend_drained
  flush_drained-Goes p =
      flush-Goes as_is (on_backend_drained site) p.http.read_paused
        (drained_with-Drains (drive site) p.http.read_paused drive-Goes) p refl

  on_writable-Goes : (connects : Bool) (p : Pair) → Goes p (on_writable site connects p)
  unfolding on_writable
  on_writable-Goes connects p =
      if_case (Goes p) p.back.connected (λ _. flush_drained-Goes p)
        λ _.
          if_case (Goes p) (not connects)
            (λ _. fail-Goes as_is resume (resume-Resumes as_is) (codes "connect failed") p)
            λ _.
              flush_drained-Goes
                (touch_back (record p { back = record (p.back) { connected = true } }))

  module _ (timeout : ℕ) where
    react-Goes : (e : Event) (p : Pair) → Goes p (react site timeout e p)
    unfolding react
    react-Goes client_ready p = drive-Goes p
    react-Goes client_error p = close_both-Goes as_is p
    react-Goes client_sweep p =
        if_both (Goes p) (is_idle timeout p.io.now p.http.last_activity) (close_both-Goes as_is p)
          here
    react-Goes backend_readable p = on_readable-Goes as_is p
    react-Goes (backend_writable connects) p = on_writable-Goes connects p
    react-Goes backend_error p =
        fail-Goes as_is resume (resume-Resumes as_is) (codes "backend socket error") p
    react-Goes backend_sweep p =
        if_both (Goes p) (is_idle timeout p.io.now p.back.last_activity)
          (fail-Goes as_is resume (resume-Resumes as_is) (codes "upstream timeout") p) here
    react-Goes client_destroyed p = destroy_http-Goes as_is p
    react-Goes backend_destroyed p = destroy_backend-Goes as_is p

-- Whatever the events and the answers of the system calls, a proxied connection moves by steps of the
-- relation `Step`, event by event.
pub run-Runs :
    (site : Site) (timeout : ℕ) (es : List (Event × Io)) (p : Pair)
    → Runs (core p) (core (run site timeout es p))
unfolding run handle
run-Runs site timeout [] p = start
run-Runs site timeout ((e, io) ∷ es) p =
    Runs-trans
      (event (length io.reads) (length io.recvs) start
        (react-Goes site timeout e (record p { io = io })))
      (run-Runs site timeout es (react site timeout e (record p { io = io })))
