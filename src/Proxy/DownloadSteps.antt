-- ===== src/Proxy/DownloadSteps.antt =====
-- The functions of the download take steps.
use castle_plus.Prelude.{
  ℕ, zero, suc, ◌≤◌, ◌≡◌, refl, sym, subst, Bool, true, false, not, ◌&&◌, List, [], ◌∷◌, ◌++◌,
  Bytes, codes, append-nil, is_empty, ltb, length, take, if_case, if_both, elim_case, inr, ◌⊎◌,
  arith,
}
use castle_plus.Http.Head.{Reply}
use castle_plus.Proxy.State.{
  reading_head, closing, is_state, IoStatus, ok, would_block_read, would_block_write, peer_closed,
  failed, BackendConnection, Send, sent, send_block_read, send_block_write, send_closed, send_error,
  Read, read_bytes, read_eof, read_again, read_interrupted, read_error, Pair, high,
  recompute_interest, apply_interest, touch_back, close_both, destroy_http, destroy_backend,
}
use castle_plus.Proxy.Download.{
  set_reads, sent_bytes, send_loop, resume_backend, close_if_closing, after_loop, pump_write,
  pump_and_recompute, append_out, send_response, pause_reads, hold_backend, after_deliver,
  deliver_to_client, on_backend_closed, on_backend_error, bad_gateway, request_close, drop_client,
  fail, end_of_response, hand_over, resume_reads, got_if, got, read_round, read_loop, on_readable,
  resume,
}
use castle_plus.Proxy.Steps.{core_at, Step, Reach, here, Reach-trans, one_step, GoesAt}

-- The backend's socket has taken `text` in all.
abbrev pub took : Bytes → Pair → Pair
took text p = record p { trace = record (p.trace) { to_backend = text } }

-- Some of the backend's buffer was written before.
abbrev pub Wrote : Pair → ℕ → Bytes → Type 0
Wrote p off text = text ≡ p.trace.to_backend ++ take off p.back.out

-- `late` is how the client's `body_remaining_` is read, which the download leaves alone.
module _ (late : ℕ → ℕ) where
  abbrev unpaused : Pair → Pair
  unpaused p = record p { http = record (p.http) { backend_paused = false } }

  -- What is asked of a call of `backend_->resume_reads()`.
  abbrev pub Resumes : (Pair → Pair) → Type 0
  Resumes resume = (q : Pair) → q.http.backend ≡ true → GoesAt late q (resume (unpaused q))

  pub send_loop-Goes : (ss : List Send) (p : Pair) → GoesAt late p (send_loop ss p).0
  unfolding send_loop
  send_loop-Goes [] p = here
  send_loop-Goes (sent k ∷ ss) p =
      elim_case (λ (r : Pair × IoStatus). GoesAt late p r.0) (is_empty p.http.out) (λ _. here)
        (λ _.
          Reach-trans (one_step (Step.send (core_at late p) k))
            (send_loop-Goes ss (sent_bytes k p)))
  send_loop-Goes (send_block_read ∷ ss) p =
      if_both (λ (r : Pair × IoStatus). GoesAt late p r.0) (is_empty p.http.out) here here
  send_loop-Goes (send_block_write ∷ ss) p =
      if_both (λ (r : Pair × IoStatus). GoesAt late p r.0) (is_empty p.http.out) here here
  send_loop-Goes (send_closed ∷ ss) p =
      if_both (λ (r : Pair × IoStatus). GoesAt late p r.0) (is_empty p.http.out) here here
  send_loop-Goes (send_error ∷ ss) p =
      if_both (λ (r : Pair × IoStatus). GoesAt late p r.0) (is_empty p.http.out) here here

  pub close_both-Goes : (p : Pair) → GoesAt late p (close_both p)
  unfolding close_both
  close_both-Goes p =
      if_case (GoesAt late p) p.http.closed (λ _. here)
        λ _.
          if_case (GoesAt late p) p.http.backend
            (λ e. one_step (Step.close_linked (core_at late p) e))
            (λ e. one_step (Step.close_alone (core_at late p) e))

  close_if_closing-Goes : (p : Pair) → GoesAt late p (close_if_closing p)
  unfolding close_if_closing
  close_if_closing-Goes p =
      if_both (GoesAt late p) (is_state p.http.state closing) (close_both-Goes p) here

  resume_backend-Goes :
      (f : Pair → Pair) → Resumes f → (p : Pair) → GoesAt late p (resume_backend f p)
  unfolding resume_backend
  resume_backend-Goes f rs p =
      if_case (GoesAt late p) (p.http.backend_paused && p.http.backend) (λ e. rs p (ground arith))
        (λ _. here)

  after_loop-Goes :
      (f : Pair → Pair)
      → Resumes f
      → (p : Pair) (st : IoStatus) → GoesAt late p (after_loop f p st).0
  unfolding after_loop
  after_loop-Goes f rs p ok =
      Reach-trans (resume_backend-Goes f rs p) (close_if_closing-Goes (resume_backend f p))
  after_loop-Goes f rs p would_block_read = here
  after_loop-Goes f rs p would_block_write = here
  after_loop-Goes f rs p peer_closed = close_both-Goes p
  after_loop-Goes f rs p failed = close_both-Goes p

  pub pump_write-Goes :
      (f : Pair → Pair) → Resumes f → (p : Pair) → GoesAt late p (pump_write f p).0
  unfolding pump_write
  pump_write-Goes f rs p =
      Reach-trans (send_loop-Goes p.io.sends p)
        (after_loop-Goes f rs (send_loop p.io.sends p).0 (send_loop p.io.sends p).1)

  pub pump_and_recompute-Goes :
      (f : Pair → Pair) → Resumes f → (p : Pair) → GoesAt late p (pump_and_recompute f p)
  unfolding pump_and_recompute recompute_interest
  pump_and_recompute-Goes f rs p =
      if_both (GoesAt late p) (pump_write f p).0.http.closed (pump_write-Goes f rs p)
        (pump_write-Goes f rs p)

  pub send_response-Goes :
      (f : Pair → Pair)
      → Resumes f
      → (r : Reply) (head_only : Bool) (p : Pair)
      → (p.http.state ≡ reading_head) ⊎ ((p.http.responded ≡ false) × (p.back.client ≡ false))
      → GoesAt late p (send_response f r head_only p)
  unfolding send_response
  send_response-Goes f rs r head_only p h =
      Reach-trans (one_step (Step.reply (core_at late p) _ h)) (pump_and_recompute-Goes f rs _)

  abbrev held : Pair → BackendConnection → Pair
  held p b = record p { http = record (p.http) { backend_paused = true }; back = b }

  hold_backend-Goes : (p : Pair) → GoesAt late p (hold_backend p)
  unfolding hold_backend pause_reads apply_interest
  hold_backend-Goes p =
      if_case (GoesAt late p)
        (p.http.backend && (not p.http.backend_paused && ltb high (length p.http.out)))
        (λ e.
          let s = one_step (Step.hold (core_at late p) (ground arith) (ground arith)) in
          if_case (λ b. GoesAt late p (held p b)) p.back.read_paused
            (λ f.
              subst
                (λ b.
                  Reach (core_at late p)
                    (record (core_at late p) { backend_paused = true; back_paused = b }))
                (sym f) s)
            (λ _. s))
        (λ _. here)

  after_deliver-Goes : (p : Pair) → GoesAt late p (after_deliver p)
  unfolding after_deliver recompute_interest
  after_deliver-Goes p = if_both (GoesAt late p) p.http.closed here (hold_backend-Goes p)

  deliver_to_client-Goes :
      (f : Pair → Pair)
      → Resumes f
      → (text : Bytes) (p : Pair) → p.back.client ≡ true
      → GoesAt late p (deliver_to_client f text (got_if true text p))
  unfolding deliver_to_client
  deliver_to_client-Goes f rs text p c =
      let q = got_if true text p in
      if_case (GoesAt late p) p.http.closed
        (λ e. one_step (Step.deliver_late (core_at late p) text c e))
        (λ _.
          Reach-trans (one_step (Step.deliver (core_at late p) text c))
            (Reach-trans (pump_write-Goes f rs (append_out text q)) (after_deliver-Goes _)))

  end_of_response-Goes :
      (f : Pair → Pair) → Resumes f → (p : Pair) → GoesAt late p (end_of_response f p)
  unfolding end_of_response on_backend_closed
  end_of_response-Goes f rs p =
      if_case (λ q. GoesAt late p (request_close q)) p.back.client
        (λ c.
          Reach-trans (one_step (Step.finish (core_at late p) c)) (pump_and_recompute-Goes f rs _))
        (λ _. here)

  unlinked : Bytes → Pair → Pair
  unlinked text p = record (drop_client (took text p)) {
    http = record (p.http) { backend = false };
  }

  unlinked-Goes :
      (text : Bytes) (off : ℕ) (p : Pair)
      → Wrote p off text
      → p.back.client ≡ true
      → GoesAt late p (unlinked text p)
  unfolding unlinked
  unlinked-Goes text off p w c =
      subst
        (λ b.
          Reach (core_at late p)
            (record (core_at late p) { client = false; backend = false; to_backend = b }))
        (sym w) (one_step (Step.unlink (core_at late p) off c))

  on_backend_error-Goes :
      (f : Pair → Pair)
      → Resumes f
      → (why text : Bytes) (off : ℕ) (p : Pair) → Wrote p off text
      → p.back.client ≡ true
      → GoesAt late p (on_backend_error f why (drop_client (took text p)))
  unfolding on_backend_error unlinked
  on_backend_error-Goes f rs why text off p w c =
      if_case (GoesAt late p) (not p.http.responded)
        (λ e. Reach-trans (unlinked-Goes text off p w c) (
          send_response-Goes f rs (bad_gateway why) false (unlinked text p)
            (inr (ground arith, refl))))
        (λ _. Reach-trans (unlinked-Goes text off p w c) (close_both-Goes (unlinked text p)))

  pub fail_after-Goes :
      (f : Pair → Pair)
      → Resumes f
      → (why text : Bytes) (off : ℕ) (p : Pair) → Wrote p off text
      → GoesAt late p (fail f why (took text p))
  unfolding fail
  fail_after-Goes f rs why text off p w =
      if_case (λ q. GoesAt late p (request_close q)) p.back.client
        (λ c. on_backend_error-Goes f rs why text off p w c)
        (λ c.
          subst (λ b. Reach (core_at late p) (record (core_at late p) { to_backend = b })) (sym w)
            (one_step (Step.lose (core_at late p) off c)))

  pub fail-Goes :
      (f : Pair → Pair) → Resumes f → (why : Bytes) (p : Pair) → GoesAt late p (fail f why p)
  fail-Goes f rs why p =
      fail_after-Goes f rs why p.trace.to_backend 0 p (sym (append-nil p.trace.to_backend))

  pub resume_reads-Resumes :
      (g : Pair → Pair) → ((q : Pair) → GoesAt late q (g q)) → Resumes (resume_reads g)
  unfolding resume_reads apply_interest
  resume_reads-Resumes g gs p b =
      if_case (GoesAt late p) (not p.back.read_paused)
        (λ e.
          subst
            (λ r.
              Reach (core_at late p)
                (record (core_at late p) { backend_paused = false; back_paused = r }))
            (sym (not_true p.back.read_paused e)) (one_step (Step.unhold (core_at late p) b)))
        (λ _. Reach-trans (one_step (Step.unhold (core_at late p) b)) (gs _))
    where
      not_true : (r : Bool) → not r ≡ true → r ≡ false
      not_true r e = ground arith

  -- The answer to a `read` is used up.
  read_step :
      (rs : List Read) (p : Pair) → length rs ≤ length p.io.reads → GoesAt late p (set_reads rs p)
  read_step rs p h = one_step (Step.read (core_at late p) (length rs) h)

  pub hand_over-Goes :
      (f : Pair → Pair)
      → Resumes f
      → (text : Bytes) (p : Pair) → GoesAt late p (hand_over f text (got text p))
  unfolding hand_over
  hand_over-Goes f rs text p =
      if_case (GoesAt late p) p.back.client
        (λ c.
          subst (λ b. GoesAt late p (deliver_to_client f text (got_if b text p))) (sym c)
            (deliver_to_client-Goes f rs text p c))
        (λ c. subst (λ b. GoesAt late p (got_if b text p)) (sym c) here)

  read_round-Goes :
      (again readable : Pair → Pair)
      → ((q : Pair) → GoesAt late q (again q))
      → ((q : Pair) → GoesAt late q (readable q))
      → (rs : List Read) (p : Pair) → length rs ≤ length p.io.reads
      → GoesAt late p (read_round again readable rs p)
  unfolding read_round
  read_round-Goes again readable ag rd [] p h = here
  read_round-Goes again readable ag rd (read_bytes text ∷ rs) p h =
      Reach-trans (read_step rs p (omega arith)) (
        Reach-trans
          (hand_over-Goes (resume_reads readable) (resume_reads-Resumes readable rd) text
            (touch_back (set_reads rs p)))
          (ag (hand_over (resume_reads readable) text (touch_back (got text (set_reads rs p))))))
  read_round-Goes again readable ag rd (read_eof ∷ rs) p h =
      Reach-trans (read_step rs p (omega arith)) (
        end_of_response-Goes (resume_reads readable) (resume_reads-Resumes readable rd)
          (set_reads rs p))
  read_round-Goes again readable ag rd (read_again ∷ rs) p h = read_step rs p (omega arith)
  read_round-Goes again readable ag rd (read_interrupted ∷ rs) p h =
      Reach-trans (read_step rs p (omega arith)) (ag (set_reads rs p))
  read_round-Goes again readable ag rd (read_error ∷ rs) p h =
      Reach-trans (read_step rs p (omega arith)) (
        fail-Goes (resume_reads readable) (resume_reads-Resumes readable rd)
          (codes "backend read failed") (set_reads rs p))

  pub read_loop-Goes : (fuel : ℕ) (p : Pair) → GoesAt late p (read_loop fuel p)
  unfolding read_loop
  read_loop-Goes zero p = here
  read_loop-Goes (suc fuel) p =
      elim_case (GoesAt late p) p.back.read_paused (λ _. here)
        (λ _.
          read_round-Goes (read_loop fuel) (read_loop fuel) (read_loop-Goes fuel)
            (read_loop-Goes fuel) p.io.reads p (omega arith))

  pub on_readable-Goes : (p : Pair) → GoesAt late p (on_readable p)
  unfolding on_readable
  on_readable-Goes p = read_loop-Goes (suc (length p.io.reads)) p

  pub resume-Resumes : Resumes resume
  unfolding resume
  resume-Resumes = resume_reads-Resumes on_readable on_readable-Goes

  pub destroy_http-Goes : (p : Pair) → GoesAt late p (destroy_http p)
  unfolding destroy_http
  destroy_http-Goes p =
      if_case (GoesAt late p) p.http.backend (λ e. one_step (Step.close_linked (core_at late p) e))
        (λ e. one_step (Step.close_alone (core_at late p) e))

  pub destroy_backend-Goes : (p : Pair) → GoesAt late p (destroy_backend p)
  unfolding destroy_backend
  destroy_backend-Goes p =
      if_case (GoesAt late p) p.back.client
        (λ c.
          subst
            (λ b.
              Reach (core_at late p)
                (record (core_at late p) { client = false; backend = false; to_backend = b }))
            (append-nil p.trace.to_backend) (one_step (Step.unlink (core_at late p) 0 c)))
        (λ _. here)
