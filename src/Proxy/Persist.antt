-- ===== src/Proxy/Persist.antt =====
-- What no step of a proxied connection undoes.
use castle_plus.Prelude.{◌≡◌, ◌≢◌, refl, inl, inr, ◌⊎◌, arith}
use castle_plus.Proxy.State.{State, reading_head, streaming_up, streaming, closing}
use castle_plus.Proxy.Steps.{Core, Step, Reach, here, next}

pub past_head : (s : State) → (s ≡ streaming_up) ⊎ (s ≡ streaming) → s ≢ reading_head
past_head s (inl e) h = cc
past_head s (inr e) h = cc

pub closing≢reading_head : closing ≢ reading_head
closing≢reading_head h = cc

streaming≢reading_head : streaming ≢ reading_head
streaming≢reading_head h = cc

-- The head is read once.
Step-past : {c d : Core} → Step c d → c.state ≢ reading_head → d.state ≢ reading_head
Step-past (Step.read c n k) h = h
Step-past (Step.recv c n k) h = h
Step-past (Step.send c k) h = h
Step-past (Step.close_alone c e) h = h
Step-past (Step.close_linked c e) h = h
Step-past (Step.reply c text e) h = closing≢reading_head
Step-past (Step.deliver c text e) h = h
Step-past (Step.deliver_late c text e f) h = h
Step-past (Step.hold c e k) h = h
Step-past (Step.unhold c e) h = h
Step-past (Step.finish c e) h = closing≢reading_head
Step-past (Step.unlink c off e) h = h
Step-past (Step.lose c off e) h = h
Step-past (Step.write c off e) h = h
Step-past (Step.write_release c off e k) h = h
Step-past (Step.write_resume c off e) h = h
Step-past (Step.take_head c bytes e) h = h
Step-past (Step.upload c bytes e f) h = h
Step-past (Step.skip c bytes e f) h = h
Step-past (Step.pause c e) h = h
Step-past (Step.proceed c e) h = streaming≢reading_head
Step-past (Step.follow_null c e) h = h
Step-past (Step.frame c len head n e) h = h
Step-past (Step.begin c len head text q n left hit s e f g i j k l m) h = past_head s g
Step-past (Step.clear c e) h = h

pub Reach-past : {c d : Core} → Reach c d → c.state ≢ reading_head → d.state ≢ reading_head
Reach-past here h = h
Reach-past (next r s) h = Step-past s (Reach-past r h)

-- As long as the body is not through, a connection that is closing stays so.
abbrev IsClosing : Core → Type 0
IsClosing c = (c.state ≡ closing) × (c.remaining ≡ 1)

Step-IsClosing : {c d : Core} → Step c d → IsClosing c → IsClosing d
Step-IsClosing (Step.read c n k) h = h
Step-IsClosing (Step.recv c n k) h = h
Step-IsClosing (Step.send c k) h = h
Step-IsClosing (Step.close_alone c e) h = h
Step-IsClosing (Step.close_linked c e) h = h
Step-IsClosing (Step.reply c text e) h = (refl, h.1)
Step-IsClosing (Step.deliver c text e) h = h
Step-IsClosing (Step.deliver_late c text e f) h = h
Step-IsClosing (Step.hold c e k) h = h
Step-IsClosing (Step.unhold c e) h = h
Step-IsClosing (Step.finish c e) h = (refl, h.1)
Step-IsClosing (Step.unlink c off e) h = h
Step-IsClosing (Step.lose c off e) h = h
Step-IsClosing (Step.write c off e) h = h
Step-IsClosing (Step.write_release c off e k) h = h
Step-IsClosing (Step.write_resume c off e) h = h
Step-IsClosing (Step.take_head c bytes e) h = h
Step-IsClosing (Step.upload c bytes e f) h = absurd (cc (e, h.0))
Step-IsClosing (Step.skip c bytes e f) h = h
Step-IsClosing (Step.pause c e) h = h
Step-IsClosing (Step.proceed c e) h = absurd (omega arith)
Step-IsClosing (Step.follow_null c e) h = h
Step-IsClosing (Step.frame c len head n e) h = absurd (cc (e, h.0))
Step-IsClosing (Step.begin c len head text q n left hit s e f g i j k l m) h = absurd (cc (e, h.0))
Step-IsClosing (Step.clear c e) h = h

pub Reach-IsClosing : {c d : Core} → Reach c d → IsClosing c → IsClosing d
Reach-IsClosing here h = h
Reach-IsClosing (next r s) h = Step-IsClosing s (Reach-IsClosing r h)
