-- ===== src/Proxy/Invariant.antt =====
-- What holds of a proxied connection between any two steps.
use mathlib.Core.Bool.{true≢false}
use castle_plus.Prelude.{
  ◌≡◌, ◌≢◌, refl, sym, ap, ◌∙◌, Bool, true, false, [], ◌++◌, Bytes, take, drop, append-nil,
  append_assoc, take-append-drop, drop-nil, inl, inr, ◌⊎◌, Bool-cases,
}
use castle_plus.Proxy.State.{State, reading_head, streaming, closing}
use castle_plus.Proxy.Steps.{Core, Step}
use castle_plus.Proxy.Persist.{past_head, closing≢reading_head}

-- The two ends agree on whether they are linked; a closed connection is not, and one that reads the
-- head is not yet.
pub record IsLinked (backend client closed : Bool) (state : State) : Type 0 where
  pub agree : backend ≡ client
  pub shut : closed ≡ true → backend ≡ false
  pub begun : backend ≡ true → state ≢ reading_head

abbrev pub Linked : Core → Type 0
Linked c = IsLinked c.backend c.client c.closed c.state

unlinked : (b s : Bool) (st : State) → IsLinked false false s st
unlinked b s st = record { agree = refl; shut = λ _. refl; begun = λ h. absurd (cc h) }

pub Step-Linked : {c d : Core} → Step c d → Linked c → Linked d
Step-Linked (Step.read c n k) h = h
Step-Linked (Step.recv c n k) h = h
Step-Linked (Step.send c k) h = h
Step-Linked (Step.close_alone c e) h = record { agree = h.agree; shut = λ _. e; begun = h.begun }
Step-Linked (Step.close_linked c e) h = unlinked false true c.state
Step-Linked (Step.reply c text e) h = record {
  agree = h.agree;
  shut = h.shut;
  begun = λ _. closing≢reading_head;
}
Step-Linked (Step.deliver c text e) h = h
Step-Linked (Step.hold c e k) h = h
Step-Linked (Step.unhold c e) h = h
Step-Linked (Step.finish c e) h = unlinked false c.closed closing
Step-Linked (Step.unlink c off e) h = unlinked false c.closed c.state
Step-Linked (Step.lose c off e) h = h
Step-Linked (Step.write c off e) h = h
Step-Linked (Step.write_release c off e k) h = h
Step-Linked (Step.write_resume c off e) h = h
Step-Linked (Step.deliver_late c text e f) h = h
Step-Linked (Step.take_head c bytes e) h = h
Step-Linked (Step.upload c bytes e f) h = h
Step-Linked (Step.skip c bytes e f) h = h
Step-Linked (Step.pause c e) h = h
Step-Linked (Step.proceed c e) h = record {
  agree = h.agree;
  shut = h.shut;
  begun = λ _. past_head streaming (inr refl);
}
Step-Linked (Step.follow_null c e) h = h
Step-Linked (Step.frame c len head n e) h = h
Step-Linked (Step.begin c len head text q n left hit s e f g z i j k m) h = record {
  agree = refl;
  shut = λ k. absurd (true≢false (sym k ∙ f));
  begun = λ _. past_head s g;
}
Step-Linked (Step.clear c e) h = h

-- A reply of castle's own is made without a backend.
pub reply_alone :
    (c : Core)
    → Linked c
    → (c.state ≡ reading_head) ⊎ ((c.responded ≡ false) × (c.client ≡ false))
    → c.backend ≡ false
reply_alone c l (inl s) = elim (Bool-cases c.backend) [ inl b ↦ absurd (l.begun b s) | inr b ↦ b ]
reply_alone c l (inr r) = l.agree ∙ r.1

-- The bytes for the client: what has been sent and what waits in `out_` is what the backend has delivered, or a reply
-- of castle's own.
pub record IsKept (state : State) (responded backend : Bool)
    (out to_client delivered replied : Bytes) : Type 0 where
  pub whole : to_client ++ out ≡ replied ++ delivered
  pub fresh : responded ≡ false → (out ≡ []) × (delivered ≡ []) × (replied ≡ [])
  pub first : state ≡ reading_head → responded ≡ false
  pub own : backend ≡ true → replied ≡ []
  pub one : (replied ≡ []) ⊎ (delivered ≡ [])

abbrev pub Kept : Core → Type 0
Kept c = IsKept c.state c.responded c.backend c.out c.to_client c.delivered c.replied

Kept-past :
    (c : Core) (s : State) (b : Bool)
    → s ≢ reading_head
    → (b ≡ true → c.backend ≡ true)
    → Kept c
    → IsKept s c.responded b c.out c.to_client c.delivered c.replied
Kept-past c s b n k h = record {
  whole = h.whole;
  fresh = h.fresh;
  first = λ e. absurd (n e);
  own = λ e. h.own (k e);
  one = h.one;
}

Kept-alone :
    (c : Core) → Kept c → IsKept c.state c.responded false c.out c.to_client c.delivered c.replied
Kept-alone c h = record {
  whole = h.whole;
  fresh = h.fresh;
  first = h.first;
  own = λ e. absurd cc e;
  one = h.one;
}

unanswered :
    (c : Core)
    → Kept c
    → (c.state ≡ reading_head) ⊎ ((c.responded ≡ false) × (c.client ≡ false))
    → (c.out ≡ []) × (c.delivered ≡ []) × (c.replied ≡ [])
unanswered c h (inl s) = h.fresh (h.first s)
unanswered c h (inr r) = h.fresh r.0

pub Step-Kept : {c d : Core} → Step c d → Linked c → Kept c → Kept d
Step-Kept (Step.read c n k) l h = h
Step-Kept (Step.recv c n k) l h = h
Step-Kept (Step.send c k) l h = record {
  whole =
      append_assoc c.to_client (take k c.out) (drop k c.out)
      ∙ ap (λ t. c.to_client ++ t) (take-append-drop k c.out)
      ∙ h.whole;
  fresh = λ e. let (a, b, d) = h.fresh e in (ap (drop k) a ∙ drop-nil k, b, d);
  first = h.first;
  own = h.own;
  one = h.one;
}
Step-Kept (Step.close_alone c e) l h = h
Step-Kept (Step.close_linked c e) l h = Kept-alone c h
Step-Kept (Step.reply c text e) l h =
    let (a, b, d) = unanswered c h e in
    record {
      whole =
          ap (λ t. t ++ text)
            (sym (append-nil c.to_client)
              ∙ ap (λ t. c.to_client ++ t) (sym a)
              ∙ h.whole
              ∙ ap (λ t. c.replied ++ t) b
              ∙ append-nil c.replied)
          ∙ sym (append-nil (c.replied ++ text))
          ∙ ap (λ t. (c.replied ++ text) ++ t) (sym b);
      fresh = λ k. absurd (true≢false k);
      first = λ k. absurd (closing≢reading_head k);
      own = λ k. absurd (true≢false (sym k ∙ reply_alone c l e));
      one = inr b;
    }
Step-Kept (Step.deliver c text e) l h = record {
  whole =
      sym (append_assoc c.to_client c.out text)
      ∙ ap (λ t. t ++ text) h.whole
      ∙ append_assoc c.replied c.delivered text;
  fresh = λ k. absurd (true≢false k);
  first = λ k. absurd (l.begun (l.agree ∙ e) k);
  own = h.own;
  one = inl (h.own (l.agree ∙ e));
}
Step-Kept (Step.deliver_late c text e f) l h = absurd (true≢false (sym (l.agree ∙ e) ∙ l.shut f))
Step-Kept (Step.hold c e k) l h = h
Step-Kept (Step.unhold c e) l h = h
Step-Kept (Step.finish c e) l h =
    Kept-past c closing false closing≢reading_head (λ k. absurd cc k) h
Step-Kept (Step.unlink c off e) l h = Kept-alone c h
Step-Kept (Step.lose c off e) l h = h
Step-Kept (Step.write c off e) l h = h
Step-Kept (Step.write_release c off e k) l h = h
Step-Kept (Step.write_resume c off e) l h = h
Step-Kept (Step.take_head c bytes e) l h = h
Step-Kept (Step.upload c bytes e f) l h = h
Step-Kept (Step.skip c bytes e f) l h = h
Step-Kept (Step.pause c e) l h = h
Step-Kept (Step.proceed c e) l h =
    Kept-past c streaming c.backend (past_head streaming (inr refl)) (λ b. b) h
Step-Kept (Step.follow_null c e) l h = h
Step-Kept (Step.frame c len head n e) l h = h
Step-Kept (Step.begin c len head text q n left hit s e f g z i j k m) l h =
    let (a, b, d) = h.fresh (h.first e) in
    record {
      whole = h.whole;
      fresh = h.fresh;
      first = λ k. absurd (past_head s g k);
      own = λ _. d;
      one = h.one;
    }
Step-Kept (Step.clear c e) l h = h
