-- ===== src/Proxy/StartSteps.antt =====
-- The start of the backend connection takes steps.
use castle_plus.Prelude.{
  ℕ, ◌-◌, ◌≤◌, ◌<◌, ◌≡◌, refl, sym, ap, ◌∙◌, Bool, true, false, ◌||◌, [], ◌++◌, Bytes, codes, ltb,
  ◌==◌, length, take, drop, min, take_cut, take_none, length-take, length-drop, length-append,
  append-nil, if_case, inl, inr, ◌⊎◌, arith,
}
use castle_plus.Http.Head.{Forward}
use castle_plus.Http.Reply.{response_text}
use castle_plus.Proxy.State.{
  State, reading_head, streaming_up, streaming, closing, is_state, Connect, no_socket, bad_address,
  refused, in_progress, Pair, high, low,
}
use castle_plus.Proxy.Download.{resume, pump_and_recompute, send_response, bad_gateway}
use castle_plus.Proxy.Upload.{queue, send, set_state, after_send, lower_remaining, forward_body}
use castle_plus.Proxy.Drive.{link, clear_input, try_connect, after_start}
use castle_plus.Proxy.Steps.{core, as_is, Step, Reach, next, Reach-trans, one_step, Goes}
use castle_plus.Proxy.Persist.{past_head, Reach-past, Reach-IsClosing}
use castle_plus.Proxy.DownloadSteps.{resume-Resumes, pump_and_recompute-Goes, send_response-Goes}
use castle_plus.Proxy.UploadSteps.{after_send-Goes}

refused_first :
    (s : State) (b : Bool) → s ≡ reading_head → b ≡ false → (is_state s closing || b) ≡ true → ⊥
refused_first reading_head b e f h = cc
refused_first streaming_up b e f h = cc
refused_first streaming b e f h = cc
refused_first closing b e f h = cc

-- The marks on a buffer that has just been filled.
raised :
    (q : Bytes)
    → (high < length q → ltb high (length q) ≡ true) × (ltb high (length q) ≡ true → low ≤ length q)
raised q = (λ h. ground arith, λ h. ground arith)

raised_twice :
    (q r : Bytes)
    → length q ≤ length r
    → (high < length r → (ltb high (length q) || ltb high (length r)) ≡ true)
      × ((ltb high (length q) || ltb high (length r)) ≡ true → low ≤ length r)
raised_twice q r l = (λ h. ground arith, λ h. ground arith)

-- A request that is to be forwarded.
abbrev framed : ℕ → Forward → Pair → Pair
framed len f p = record p {
  http = record (p.http) { head_len = len; upstream = f.head; body_remaining = f.content_length };
  trace = record (p.trace) { promised = f.content_length };
}

-- The backend is being connected, with the head in its buffer.
abbrev begun : ℕ → Forward → Pair → Pair
begun len f p = queue f.head (link (framed len f p))

module _ (p : Pair) (len : ℕ) (f : Forward) (e : p.http.state ≡ reading_head)
    (h : p.http.closed ≡ false) where
  -- Nothing of the body is there.
  bare :
      (s : State)
      → (s ≡ streaming_up) ⊎ (s ≡ streaming)
      → (s ≡ streaming → f.content_length ≡ 0)
      → [] ≡ take f.content_length (drop len p.http.input)
      → Goes p (clear_input (set_state s (begun len f p)))
  unfolding queue
  bare s t z n =
      next
        (one_step (
          Step.begin (core p) len f.head [] f.head f.content_length f.content_length
            (ltb high (length f.head)) s e h t z (sym (append-nil f.head)) n (omega arith)
            (raised f.head)))
        (Step.clear (core (set_state s (begun len f p))) (past_head s t))

  -- What has come of it goes to the backend's buffer.
  filled :
      (bytes : Bytes)
      → bytes ≡ drop len p.http.input
      → Reach (core p) (
          core (
            lower_remaining (min (length bytes) f.content_length) (
              queue
                (take (min (length bytes) f.content_length) bytes)
                (set_state streaming_up (begun len f p)))))
  unfolding queue
  filled bytes b =
      let n = min (length bytes) f.content_length in
      let text = take n bytes in
      one_step (
        Step.begin (core p) len f.head text (f.head ++ text) f.content_length (f.content_length - n)
          (ltb high (length f.head) || ltb high (length (f.head ++ text))) streaming_up e h
          (inl refl) (λ k. absurd (cc k)) refl
          (take_cut f.content_length bytes ∙ ap (take f.content_length) b)
          (omega (arith, length-take n bytes))
          (raised_twice f.head (f.head ++ text) (omega (arith, length-append f.head text))))

  filled-Goes :
      (drained : Pair → Pair) (bytes : Bytes)
      → bytes ≡ drop len p.http.input
      → ltb 0 (min (length bytes) f.content_length) ≡ true
      → Goes p (clear_input (forward_body drained bytes (set_state streaming_up (begun len f p))))
  unfolding forward_body send queue
  filled-Goes drained bytes b z =
      let n = min (length bytes) f.content_length in
      let q = lower_remaining n (queue (take n bytes) (set_state streaming_up (begun len f p))) in
      if_case (λ r. Goes p (clear_input r)) (ltb 0 n)
        (λ _. next (Reach-trans (filled bytes b) (after_send-Goes q)) (
          Step.clear (core (after_send q))
            (Reach-past (after_send-Goes q) (past_head streaming_up (inl refl)))))
        (λ y. absurd (cc (y, z)))

  begun-Goes : (drained : Pair → Pair) → Goes p (after_start drained (begun len f p))
  unfolding after_start queue
  begun-Goes drained =
      if_case (Goes p) (is_state p.http.state closing || p.http.closed)
        (λ k. absurd (refused_first p.http.state p.http.closed e h k))
        λ _.
          if_case (Goes p) (f.content_length == 0)
            (λ z.
              let none_left : f.content_length ≡ 0 = ground arith in
              bare streaming (inr refl) (λ _. none_left)
                (sym (take_none f.content_length (drop len p.http.input) (omega arith))))
            λ z.
              if_case (Goes p) (ltb 0 (length p.http.input - len))
                (λ y.
                  filled-Goes drained (drop len p.http.input) refl
                    (ground (arith, length-drop len p.http.input)))
                (λ y.
                  let empty : length (drop len p.http.input) ≡ 0 =
                    ground (arith, length-drop len p.http.input) in
                  bare streaming_up (inl refl) (λ k. absurd (cc k))
                    (sym (take_none f.content_length (drop len p.http.input) (omega arith))))

-- The reply of a backend that could not be reached: the connection closes, and nothing follows.
replied : Bytes → Pair → Pair
replied text p = record p {
  http = record (p.http) { out = text; responded = true; state = closing };
  trace = record (p.trace) { replied = p.trace.replied ++ text };
}

stays_closing :
    (p : Pair) (text : Bytes) → (pump_and_recompute resume (replied text p)).http.state ≡ closing
unfolding replied
stays_closing p text =
    let late : ℕ → ℕ = λ _. 1 in
    (Reach-IsClosing (pump_and_recompute-Goes late resume (resume-Resumes late) (replied text p))
      (refl, refl)).0

closes :
    (why : Bytes) (len : ℕ) (f : Forward) (p : Pair)
    → (send_response resume (bad_gateway why) false (framed len f p)).http.state ≡ closing
unfolding send_response replied
closes why len f p = stays_closing (framed len f p) (response_text (bad_gateway why) false)

unreached-Goes :
    (drained : Pair → Pair) (why : Bytes) (len : ℕ) (f : Forward) (p : Pair)
    → p.http.state ≡ reading_head
    → Goes p (after_start drained (send_response resume (bad_gateway why) false (framed len f p)))
unfolding after_start
unreached-Goes drained why len f p e =
    let q = send_response resume (bad_gateway why) false (framed len f p) in
    if_case (Goes p) (is_state q.http.state closing || q.http.closed)
      (λ _. Reach-trans (one_step (Step.frame (core p) len f.head f.content_length e)) (
        send_response-Goes as_is resume (resume-Resumes as_is) (bad_gateway why) false
          (framed len f p) (inl e)))
      (λ k. absurd (still_closing q.http.state q.http.closed (closes why len f p) k))
  where
    still_closing : (s : State) (b : Bool) → s ≡ closing → (is_state s closing || b) ≡ false → ⊥
    still_closing reading_head b e h = cc
    still_closing streaming_up b e h = cc
    still_closing streaming b e h = cc
    still_closing closing b e h = cc

pub started-Goes :
    (drained : Pair → Pair) (a : Connect) (len : ℕ) (f : Forward) (p : Pair)
    → p.http.state ≡ reading_head
    → p.http.closed ≡ false
    → Goes p (after_start drained (try_connect drained a (framed len f p)))
unfolding try_connect send queue
started-Goes drained in_progress len f p e h = begun-Goes p len f e h drained
started-Goes drained no_socket len f p e h =
    unreached-Goes drained (codes "cannot create upstream socket") len f p e
started-Goes drained bad_address len f p e h =
    unreached-Goes drained (codes "bad backend address") len f p e
started-Goes drained refused len f p e h =
    unreached-Goes drained (codes "cannot connect to backend") len f p e
