-- ===== src/Proxy/UploadSteps.antt =====
-- The functions of the upload take steps.
use castle_plus.Prelude.{
  ℕ, ◌+◌, ◌-◌, ◌≡◌, ◌≢◌, refl, sym, ap, subst, ◌∙◌, Bool, true, false, not, ◌&&◌, List, [], ◌∷◌,
  ◌++◌, Bytes, codes, ltb, ◌==◌, length, take, drop, min, take_further, append_assoc, append-nil,
  if_case, if_both, elim_case, inl, inr, arith, ltb→lt,
}
use castle_plus.Proxy.State.{
  reading_head, streaming_up, Write, wrote, write_again, write_interrupted, write_error, Pair, high,
  low, apply_interest,
}
use castle_plus.Proxy.Download.{resume}
use castle_plus.Proxy.Upload.{
  wrote_bytes, write_loop, apply, erase_out, release, after_writes, flush, queue, send, after_send,
  lower_remaining, forward_body,
}
use castle_plus.Proxy.Drive.{took_in}
use castle_plus.Proxy.Steps.{
  Core, core, core_at, written, is_drained, Step, Reach, here, Reach-trans, one_step, GoesAt, Goes,
}
use castle_plus.Proxy.DownloadSteps.{took, fail_after-Goes, resume-Resumes}

-- `late` is how the client's `body_remaining_` is read.
module _ (late : ℕ → ℕ) where
  -- What the loop of `flush` changes: what the backend's socket has taken, from `base` on.
  abbrev Writes : Bytes → Pair → Pair × (ℕ × Bool) → Type 0
  Writes base p r =
      (core_at late (took base r.0) ≡ core_at late (took base p))
      × (r.0.trace.to_backend ≡ base ++ take r.1.0 r.0.back.out)

  pub write_loop-Writes :
      (base : Bytes) (ws : List Write) (off : ℕ) (p : Pair)
      → p.trace.to_backend ≡ base ++ take off p.back.out
      → Writes base p (write_loop ws off p)
  unfolding write_loop
  write_loop-Writes base [] off p h = (refl, h)
  write_loop-Writes base (wrote k ∷ ws) off p h =
      elim_case (Writes base p) (ltb off (length p.back.out))
        (λ _.
          write_loop-Writes base ws (off + min k (length p.back.out - off)) (wrote_bytes off k p) (
            ap (λ t. t ++ take k (drop off p.back.out)) h
            ∙ append_assoc base (take off p.back.out) (take k (drop off p.back.out))
            ∙ ap (λ t. base ++ t) (take_further off k p.back.out)))
        (λ _. (refl, h))
  write_loop-Writes base (write_again ∷ ws) off p h =
      if_both (Writes base p) (ltb off (length p.back.out)) (refl, h) (refl, h)
  write_loop-Writes base (write_interrupted ∷ ws) off p h =
      elim_case (Writes base p) (ltb off (length p.back.out))
        (λ _. write_loop-Writes base ws off p h) (λ _. (refl, h))
  write_loop-Writes base (write_error ∷ ws) off p h =
      if_both (Writes base p) (ltb off (length p.back.out)) (refl, h) (refl, h)

  -- What is asked of a call of `client_->on_backend_drained()`: it goes on from where the buffer was flushed, with a
  -- client whose reads are paused or not, as `paused` says.
  abbrev pub DrainsAt : Bool → (Pair → Pair) → Type 0
  DrainsAt paused drained =
      (c : Core) (off : ℕ) (q : Pair)
      → q.http.read_paused ≡ paused
      → is_drained (written off c) ≡ true
      → record (written off c) { high_water_hit = false } ≡ core_at late q
      → Reach c (core_at late (drained q))

  abbrev flushed : ℕ → Pair → Pair
  flushed off p = record (erase_out off p) {
    back = record (p.back) { out = drop off p.back.out; high_water_hit = false };
  }

  after_writes-Goes :
      (drained : Pair → Pair) (paused : Bool)
      → DrainsAt paused drained
      → (base : Bytes) (p : Pair) (off : ℕ) (bad : Bool)
      → p.trace.to_backend ≡ base ++ take off p.back.out
      → p.http.read_paused ≡ paused
      → GoesAt late (took base p) (after_writes drained p off bad)
  unfolding after_writes release apply_interest
  after_writes-Goes drained paused ds base p off true h r =
      fail_after-Goes late resume (resume-Resumes late) (codes "backend write failed")
        p.trace.to_backend off (took base p) h
  after_writes-Goes drained paused ds base p off false h r =
      if_case (λ q. GoesAt late (took base p) (apply q))
        (p.back.high_water_hit && ltb (length (drop off p.back.out)) low)
        (λ e.
          if_case (λ q. GoesAt late (took base p) (apply q)) p.back.client
            (λ _. ds (core_at late (took base p)) off (flushed off p) r e (ap after_flush (sym h)))
            (λ c.
              subst (λ b. Reach (core_at late (took base p)) (after_flush b)) (sym h)
                (one_step (Step.write_release (core_at late (took base p)) off e (inl c)))))
        (λ e.
          subst (λ b. Reach (core_at late (took base p)) (after_plain b)) (sym h)
            (one_step (Step.write (core_at late (took base p)) off e)))
    where
      after_plain : Bytes → Core
      after_plain b = record (core_at late p) { queued = drop off p.back.out; to_backend = b }

      after_flush : Bytes → Core
      after_flush b = record (core_at late p) {
        queued = drop off p.back.out;
        to_backend = b;
        high_water_hit = false;
      }

  pub flush-Goes :
      (drained : Pair → Pair) (paused : Bool)
      → DrainsAt paused drained
      → (p : Pair) → p.http.read_paused ≡ paused
      → GoesAt late p (flush drained p)
  unfolding flush
  flush-Goes drained paused ds p e =
      let base = p.trace.to_backend in
      let r = write_loop p.io.writes 0 p in
      let w = write_loop-Writes base p.io.writes 0 p (sym (append-nil base)) in
      subst (λ c. Reach c (core_at late (flush drained p))) w.0
        (after_writes-Goes drained paused ds base r.0 r.1.0 r.1.1 w.1
          (ap (λ (c : Core). c.read_paused) w.0 ∙ e))

-- A flush under a client that reads calls nothing back.
abbrev pub Quiet : (Pair → Pair) → Type 0
Quiet drained = (late : ℕ → ℕ) → DrainsAt late false drained

pub after_send-Goes : (p : Pair) → Goes p (after_send p)
unfolding after_send
after_send-Goes p =
    if_case (Goes p) (p.http.body_remaining == 0)
      (λ e. one_step (Step.proceed (core p) (ground arith)))
      λ _.
        if_case (Goes p) (not p.http.backend)
          (λ e. one_step (Step.follow_null (core p) (ground arith)))
          λ _.
            if_case (Goes p) (ltb high (length p.back.out))
              (λ e. one_step (Step.pause (core p) (ltb→lt high (length p.back.out) e))) (λ _. here)

-- A chunk of the body: `rest` is what is still to come behind it.
send-Goes :
    (drained : Pair → Pair)
    → Quiet drained
    → (bytes : Bytes) (p : Pair) → p.http.state ≡ streaming_up
    → p.http.backend ≡ true
    → p.http.read_paused ≡ false
    → let n = min (length bytes) p.http.body_remaining in
      Reach (core p) (core_at (λ r. r - n) (send drained (take n bytes) (took_in bytes p)))
unfolding send queue
send-Goes drained ds bytes p e b r =
    let n = min (length bytes) p.http.body_remaining in
    let late : ℕ → ℕ = λ r. r - n in
    let s = one_step (Step.upload (core p) bytes e b) in
    if_case (λ q. Reach (core p) (core_at late q)) p.back.connected
      (λ _.
        Reach-trans s
          (flush-Goes late drained false (ds late) (queue (take n bytes) (took_in bytes p)) r))
      (λ _. s)

pub forward_body-Goes :
    (drained : Pair → Pair)
    → Quiet drained
    → (bytes : Bytes) (p : Pair) → p.http.state ≡ streaming_up
    → p.http.read_paused ≡ false
    → Goes p (forward_body drained bytes (took_in bytes p))
unfolding forward_body
forward_body-Goes drained ds bytes p e r =
    let n = min (length bytes) p.http.body_remaining in
    let q = send drained (take n bytes) (took_in bytes p) in
    let past : p.http.state ≢ reading_head = λ h. cc in
    if_case (Goes p) (not p.http.backend)
      (λ b. one_step (Step.skip (core p) bytes past (inl (ground arith))))
      λ b.
        if_case (Goes p) (ltb 0 n)
          (λ _.
            Reach-trans (send-Goes drained ds bytes p e (ground arith) r)
              (after_send-Goes (lower_remaining n q)))
          (λ z.
            Reach-trans (one_step (Step.skip (core p) bytes past (inr (inl (ground arith)))))
              (after_send-Goes (took_in bytes p)))
