-- ===== src/Proxy/DownloadFuel.antt =====
-- The fuel of `on_readable`: what the functions of the download ask their argument `resume`, by the number
-- of answers to `read` that are left.
use castle_plus.Prelude.{
  ℕ, zero, suc, ◌<◌, ◌≤◌, ◌≡◌, refl, ap, ◌∙◌, Bool, false, not, ◌&&◌, List, [], ◌∷◌, Bytes, codes,
  if◌then◌else◌, length, elim_same, elim_if, arith,
}
use castle_plus.Http.Head.{Reply}
use castle_plus.Proxy.State.{
  IoStatus, ok, would_block_read, would_block_write, peer_closed, failed, Read, read_bytes,
  read_eof, read_again, read_interrupted, read_error, Pair, touch_back, close_both,
}
use castle_plus.Proxy.Download.{
  set_reads, send_loop, resume_backend, close_if_closing, after_loop, pump_write, set_write_block,
  recompute, pump_and_recompute, append_out, send_response, after_deliver, deliver_to_client,
  on_backend_closed, on_backend_error, bad_gateway, request_close, drop_client, fail,
  end_of_response, hand_over, got, resume_reads, read_round, read_loop, on_readable,
}
use castle_plus.Proxy.Steps.{as_is, Goes, Reach-answers}
use castle_plus.Proxy.DownloadSteps.{
  send_loop-Goes, hand_over-Goes, read_loop-Goes, resume_reads-Resumes,
}

-- Two functions that agree where less than `n` answers to `read` are left.
abbrev Agree : ℕ → (Pair → Pair) → (Pair → Pair) → Type 0
Agree n f g = (q : Pair) → length q.io.reads < n → f q ≡ g q

module _ (n : ℕ) (f g : Pair → Pair) (h : Agree n f g) where
  resume_backend-Agree : Agree n (resume_backend f) (resume_backend g)
  unfolding resume_backend
  resume_backend-Agree p l =
      ap (λ q. if p.http.backend_paused && p.http.backend then q else p)
        (h (record p { http = record (p.http) { backend_paused = false } }) l)

  after_loop_agree :
      (p : Pair) (st : IoStatus) → length p.io.reads < n → after_loop f p st ≡ after_loop g p st
  unfolding after_loop
  after_loop_agree p ok l = ap (λ q. (close_if_closing q, ok)) (resume_backend-Agree p l)
  after_loop_agree p would_block_read l = refl
  after_loop_agree p would_block_write l = refl
  after_loop_agree p peer_closed l = refl
  after_loop_agree p failed l = refl

  pump_write_agree : (p : Pair) → length p.io.reads < n → pump_write f p ≡ pump_write g p
  unfolding pump_write
  pump_write_agree p l =
      let r = send_loop p.io.sends p in
      after_loop_agree r.0 r.1 (omega (arith, Reach-answers (send_loop-Goes as_is p.io.sends p)))

  pump_and_recompute-Agree : Agree n (pump_and_recompute f) (pump_and_recompute g)
  unfolding pump_and_recompute
  pump_and_recompute-Agree p l =
      ap
        (λ (r : Pair × IoStatus).
          let q = set_write_block r.1 r.0 in if q.http.closed then q else recompute q)
        (pump_write_agree p l)

  send_response-Agree :
      (r : Reply) (head_only : Bool)
      → Agree n (send_response f r head_only) (send_response g r head_only)
  unfolding send_response
  send_response-Agree r head_only p l = pump_and_recompute-Agree _ l

  on_backend_error-Agree : (why : Bytes) → Agree n (on_backend_error f why) (on_backend_error g why)
  unfolding on_backend_error
  on_backend_error-Agree why p l =
      let q = record p { http = record (p.http) { backend = false } } in
      ap (λ r. if not q.http.responded then r else close_both q)
        (send_response-Agree (bad_gateway why) false q l)

  fail-Agree : (why : Bytes) → Agree n (fail f why) (fail g why)
  unfolding fail
  fail-Agree why p l =
      ap (λ q. request_close (if p.back.client then q else p))
        (on_backend_error-Agree why (drop_client p) l)

  end_of_response-Agree : Agree n (end_of_response f) (end_of_response g)
  unfolding end_of_response on_backend_closed
  end_of_response-Agree p l =
      ap (λ q. request_close (if p.back.client then q else p)) (pump_and_recompute-Agree _ l)

  hand_over-Agree : (text : Bytes) → Agree n (hand_over f text) (hand_over g text)
  unfolding hand_over deliver_to_client
  hand_over-Agree text p l =
      ap
        (λ (r : Pair × IoStatus).
          if p.back.client
          then (if p.http.closed then p else after_deliver (set_write_block r.1 r.0))
          else p)
        (pump_write_agree (append_out text p) l)

resume_reads-Agree :
    (n : ℕ) (f g : Pair → Pair) → Agree n f g → Agree n (resume_reads f) (resume_reads g)
unfolding resume_reads
resume_reads-Agree n f g h p l = ap (λ q. if not p.back.read_paused then p else q) (h _ l)

-- A round asks about pairs with one answer less.
read_round-Agree :
    (n : ℕ) (f g : Pair → Pair)
    → Agree n f g
    → ((q : Pair) → Goes q (f q))
    → (rs : List Read) (p : Pair) → length rs ≤ n
    → read_round f f rs p ≡ read_round g g rs p
unfolding read_round
read_round-Agree n f g h fs [] p l = refl
read_round-Agree n f g h fs (read_bytes text ∷ rs) p l =
    let q = touch_back (set_reads rs p) in
    let r = hand_over (resume_reads f) text (got text q) in
    let k =
      hand_over-Agree n (resume_reads f) (resume_reads g) (resume_reads-Agree n f g h) text
        (got text q) (omega arith) in
    h r (
      omega (
        arith,
        Reach-answers
            (hand_over-Goes as_is (resume_reads f) (resume_reads-Resumes as_is f fs) text q),
      ))
    ∙ ap g k
read_round-Agree n f g h fs (read_eof ∷ rs) p l =
    end_of_response-Agree n (resume_reads f) (resume_reads g) (resume_reads-Agree n f g h)
      (set_reads rs p) (omega arith)
read_round-Agree n f g h fs (read_again ∷ rs) p l = refl
read_round-Agree n f g h fs (read_interrupted ∷ rs) p l = h (set_reads rs p) (omega arith)
read_round-Agree n f g h fs (read_error ∷ rs) p l =
    fail-Agree n (resume_reads f) (resume_reads g) (resume_reads-Agree n f g h)
      (codes "backend read failed") (set_reads rs p) (omega arith)

-- More fuel than answers is enough.
read_loop_fuel :
    (f g : ℕ) (p : Pair)
    → length p.io.reads < f
    → length p.io.reads < g
    → read_loop f p ≡ read_loop g p
unfolding read_loop
read_loop_fuel zero g p k l = absurd (omega arith)
read_loop_fuel (suc f) zero p k l = absurd (omega arith)
read_loop_fuel (suc f) (suc g) p k l =
    elim_same p.back.read_paused (λ _. refl)
      (λ _.
        read_round-Agree (length p.io.reads) (read_loop f) (read_loop g)
          (λ q h. read_loop_fuel f g q (omega arith) (omega arith)) (read_loop-Goes as_is f)
          p.io.reads p (omega arith))

-- The fuel of `on_readable` never runs out: it is the loop of the source, with `on_readable` itself both as the
-- rest of the loop and as what a call of `resume_reads` comes back into.
pub on_readable_unrolled :
    (p : Pair)
    → on_readable p
      ≡ (if p.back.read_paused then p else read_round on_readable on_readable p.io.reads p)
unfolding on_readable read_loop
on_readable_unrolled p =
    elim_if p.back.read_paused (λ _. refl)
      (λ _.
        read_round-Agree (length p.io.reads) (read_loop (length p.io.reads)) on_readable
          (λ q h. read_loop_fuel (length p.io.reads) (suc (length q.io.reads)) q h (omega arith))
          (read_loop-Goes as_is (length p.io.reads)) p.io.reads p (omega arith))
