-- ===== src/Proxy/Forwarded.antt =====
-- The bytes for the backend: what its socket has taken and what waits in its `out_` is the head and what the client has
-- sent of the body.
use mathlib.Core.Bool.{true≢false}
use castle_plus.Prelude.{
  ℕ, ◌+◌, ◌≡◌, refl, sym, ap, ◌∙◌, Bool, true, false, [], ◌++◌, Bytes, length, take, drop, min,
  append-nil, append_assoc, length-append, length-take, take-append-drop, take-nil, drop-nil,
  take_cut, take_rest, inl, inr, ◌⊎◌, arith,
}
use castle_plus.Proxy.State.{State, reading_head, streaming_up, streaming, closing}
use castle_plus.Proxy.Steps.{Core, part_of, rest_of, Step}
use castle_plus.Proxy.Persist.{past_head, closing≢reading_head}
use castle_plus.Proxy.Invariant.{Linked, reply_alone}

-- The body as it has come so far: what stands behind the head in the bytes that it was found in, and what has come since.
-- It is cut at its length, and what is still to come of it is counted.
pub record IsForwarded (queued to_backend received upstream : Bytes)
    (head_len promised remaining : ℕ) : Type 0 where
  pub seen : Bytes
  pub later : Bytes
  pub split : received ≡ seen ++ later
  pub sent : to_backend ++ queued ≡ upstream ++ take promised (drop head_len seen ++ later)
  pub left : length (take promised (drop head_len seen ++ later)) + remaining ≡ promised

pub record IsSent (state : State) (backend : Bool)
    (queued to_backend input received upstream : Bytes) (head_len promised remaining : ℕ)
    : Type 0 where
  pub fresh : state ≡ reading_head → (to_backend ≡ []) × (queued ≡ []) × (input ≡ received)
  pub whole :
      backend ≡ true → IsForwarded queued to_backend received upstream head_len promised remaining
  pub through : backend ≡ true → (state ≡ streaming) ⊎ (state ≡ closing) → remaining ≡ 0

abbrev pub Sent : Core → Type 0
Sent c =
    IsSent c.state c.backend c.queued c.to_backend c.input c.received c.upstream c.head_len
      c.promised c.remaining

nothing_taken :
    (sent queued : Bytes) (off : ℕ) → sent ≡ [] → queued ≡ [] → sent ++ take off queued ≡ []
nothing_taken sent queued off a b =
    ap (λ t. t ++ take off queued) a ∙ ap (take off) b ∙ take-nil off

counted :
    (before bytes : Bytes) (promised r : ℕ)
    → length before + r ≡ promised
    → length (before ++ part_of r bytes) + rest_of r bytes ≡ promised
counted before bytes promised r h =
    omega (arith, length-append before (part_of r bytes), length-take (min (length bytes) r) bytes)

nothing_due :
    (c : Core) (bytes : Bytes)
    → (c.backend ≡ false)
      ⊎ ((min (length bytes) c.remaining ≡ 0) ⊎ ((c.state ≡ streaming) ⊎ (c.state ≡ closing)))
    → (c.backend ≡ true → (c.state ≡ streaming) ⊎ (c.state ≡ closing) → c.remaining ≡ 0)
    → c.backend ≡ true
    → min (length bytes) c.remaining ≡ 0
nothing_due c bytes (inl f) t b = absurd (true≢false (sym b ∙ f))
nothing_due c bytes (inr (inl z)) t b = z
nothing_due c bytes (inr (inr s)) t b = omega (arith, t b s)

through_first :
    (s : State) (left : ℕ)
    → (s ≡ streaming_up) ⊎ (s ≡ streaming)
    → (s ≡ streaming → left ≡ 0)
    → (s ≡ streaming) ⊎ (s ≡ closing)
    → left ≡ 0
through_first s left g z (inl e) = z e
through_first s left (inl f) z (inr e) = absurd (cc (e, f))
through_first s left (inr f) z (inr e) = z f

-- A connection without a backend.
Sent-alone :
    (c : Core) (s : State) (text : Bytes)
    → (s ≡ reading_head → (text ≡ []) × (c.queued ≡ []) × (c.input ≡ c.received))
    → IsSent s false c.queued text c.input c.received c.upstream c.head_len c.promised c.remaining
Sent-alone c s text f = record { fresh = f; whole = λ b. absurd cc b; through = λ b. absurd cc b }

Sent-written :
    (c : Core) (off : ℕ)
    → Sent c
    → IsSent c.state c.backend
        (drop off c.queued)
        (c.to_backend ++ take off c.queued)
        c.input
        c.received
        c.upstream
        c.head_len
        c.promised
        c.remaining
Sent-written c off h = record {
  fresh = λ e.
      let (a, b, d) = h.fresh e in
      (nothing_taken c.to_backend c.queued off a b, ap (drop off) b ∙ drop-nil off, d);
  whole = λ b.
      let w = h.whole b in
      record {
        seen = w.seen;
        later = w.later;
        split = w.split;
        sent =
            append_assoc c.to_backend (take off c.queued) (drop off c.queued)
            ∙ ap (λ t. c.to_backend ++ t) (take-append-drop off c.queued)
            ∙ w.sent;
        left = w.left;
      };
  through = h.through;
}

-- More has come from the client: `r` is what was to come before it.
Forwarded-more :
    (queued to_backend received upstream bytes : Bytes) (head_len promised r : ℕ)
    → IsForwarded queued to_backend received upstream head_len promised r
    → IsForwarded
        (queued ++ part_of r bytes)
        to_backend
        (received ++ bytes)
        upstream
        head_len
        promised
        (rest_of r bytes)
Forwarded-more queued to_backend received upstream bytes head_len promised r w =
    let body = drop head_len w.seen ++ w.later in
    let grown : drop head_len w.seen ++ (w.later ++ bytes) ≡ body ++ bytes =
      sym (append_assoc (drop head_len w.seen) w.later bytes) in
    let cut : take promised (body ++ bytes) ≡ take promised body ++ part_of r bytes =
      take_rest promised r body bytes w.left
      ∙ ap (λ t. take promised body ++ t) (sym (take_cut r bytes)) in
    record {
      seen = w.seen;
      later = w.later ++ bytes;
      split = ap (λ t. t ++ bytes) w.split ∙ append_assoc w.seen w.later bytes;
      sent =
          sym (append_assoc to_backend queued (part_of r bytes))
          ∙ ap (λ t. t ++ part_of r bytes) w.sent
          ∙ append_assoc upstream (take promised body) (part_of r bytes)
          ∙ ap (λ t. upstream ++ t) (sym cut)
          ∙ ap (λ t. upstream ++ take promised t) (sym grown);
      left =
          ap (λ t. length (take promised t) + rest_of r bytes) grown
          ∙ ap (λ t. length t + rest_of r bytes) cut
          ∙ counted (take promised body) bytes promised r w.left;
    }

-- Nothing of it is body.
Forwarded-skip :
    (queued to_backend received upstream bytes : Bytes) (head_len promised r : ℕ)
    → min (length bytes) r ≡ 0
    → IsForwarded queued to_backend received upstream head_len promised r
    → IsForwarded queued to_backend (received ++ bytes) upstream head_len promised r
Forwarded-skip queued to_backend received upstream bytes head_len promised r z w =
    let m = Forwarded-more queued to_backend received upstream bytes head_len promised r w in
    record {
      seen = m.seen;
      later = m.later;
      split = m.split;
      sent =
          ap (λ t. to_backend ++ t)
            (sym (append-nil queued) ∙ ap (λ t. queued ++ t) (sym (ap (λ n. take n bytes) z)))
          ∙ m.sent;
      left = omega (arith, m.left, z);
    }

pub Step-Sent : {c d : Core} → Step c d → Linked c → Sent c → Sent d
Step-Sent (Step.read c n k) l h = h
Step-Sent (Step.recv c n k) l h = h
Step-Sent (Step.send c k) l h = h
Step-Sent (Step.close_alone c e) l h = h
Step-Sent (Step.close_linked c e) l h = Sent-alone c c.state c.to_backend h.fresh
Step-Sent (Step.reply c text e) l h =
    let alone = reply_alone c l e in
    record {
      fresh = λ k. absurd (closing≢reading_head k);
      whole = λ b. absurd (true≢false (sym b ∙ alone));
      through = λ b. absurd (true≢false (sym b ∙ alone));
    }
Step-Sent (Step.deliver c text e) l h = h
Step-Sent (Step.deliver_late c text e f) l h = h
Step-Sent (Step.hold c e k) l h = h
Step-Sent (Step.unhold c e) l h = h
Step-Sent (Step.finish c e) l h =
    Sent-alone c closing c.to_backend (λ k. absurd (closing≢reading_head k))
Step-Sent (Step.unlink c off e) l h = Sent-alone c c.state _ (λ k. absurd (l.begun (l.agree ∙ e) k))
Step-Sent (Step.lose c off e) l h = record {
  fresh = λ s. let (a, b, d) = h.fresh s in (nothing_taken c.to_backend c.queued off a b, b, d);
  whole = λ b. absurd (true≢false (sym b ∙ l.agree ∙ e));
  through = h.through;
}
Step-Sent (Step.write c off e) l h = Sent-written c off h
Step-Sent (Step.write_release c off e k) l h = Sent-written c off h
Step-Sent (Step.write_resume c off e) l h = Sent-written c off h
Step-Sent (Step.take_head c bytes e) l h = record {
  fresh = λ k. let (a, b, d) = h.fresh k in (a, b, ap (λ t. t ++ bytes) d);
  whole = λ b. absurd (l.begun b e);
  through = λ b. absurd (l.begun b e);
}
Step-Sent (Step.upload c bytes e f) l h = record {
  fresh = λ k. absurd (l.begun f k);
  whole = λ b.
      Forwarded-more c.queued c.to_backend c.received c.upstream bytes c.head_len c.promised
        c.remaining (h.whole b);
  through = λ b s. omega (arith, h.through b s);
}
Step-Sent (Step.skip c bytes e f) l h = record {
  fresh = λ k. absurd (e k);
  whole = λ b.
      Forwarded-skip c.queued c.to_backend c.received c.upstream bytes c.head_len c.promised
        c.remaining (nothing_due c bytes f h.through b) (h.whole b);
  through = h.through;
}
Step-Sent (Step.pause c e) l h = h
Step-Sent (Step.proceed c e) l h = record {
  fresh = λ k. absurd (past_head streaming (inr refl) k);
  whole = h.whole;
  through = λ _ _. e;
}
Step-Sent (Step.follow_null c e) l h = h
Step-Sent (Step.frame c len head n e) l h = record {
  fresh = h.fresh;
  whole = λ b. absurd (l.begun b e);
  through = λ b. absurd (l.begun b e);
}
Step-Sent (Step.begin c len head text q n left hit s e f g z i j k m) l h =
    let (a, b, d) = h.fresh e in
    let body : take n (drop len c.received ++ []) ≡ text =
      ap (take n) (append-nil (drop len c.received))
      ∙ ap (λ t. take n (drop len t)) (sym d)
      ∙ sym j in
    record {
      fresh = λ r. absurd (past_head s g r);
      whole = λ _. record {
        seen = c.received;
        later = [];
        split = sym (append-nil c.received);
        sent = ap (λ t. t ++ q) a ∙ i ∙ ap (λ t. head ++ t) (sym body);
        left = ap (λ t. length t + left) body ∙ k;
      };
      through = λ _ r. through_first s left g z r;
    }
Step-Sent (Step.clear c e) l h = record {
  fresh = λ k. absurd (e k);
  whole = h.whole;
  through = h.through;
}
