-- ===== src/Proxy/Steps.antt =====
-- The proxied connection as a step relation: what is left of its state when clocks, epoll masks and the
-- parsing of the head are forgotten, and the steps that it takes.
use castle_plus.Prelude.{
  ℕ, arith, ◌+◌, ◌-◌, ◌<◌, ◌≤◌, ◌≡◌, ◌≢◌, Bool, true, false, ◌&&◌, ◌||◌, [], ◌++◌, Bytes, ltb,
  length, take, drop, min, ◌⊎◌,
}
use castle_plus.Proxy.State.{State, reading_head, streaming_up, streaming, closing, Pair, high, low}

pub record Core : Type 0 where
  -- Of the client's side.
  pub state : State
  pub input : Bytes
  pub head_len : ℕ
  pub upstream : Bytes
  pub out : Bytes
  pub remaining : ℕ
  pub responded : Bool
  pub closed : Bool
  pub read_paused : Bool
  pub backend_paused : Bool
  pub backend : Bool
  -- Of the backend's side.
  pub client : Bool
  pub queued : Bytes
  pub back_paused : Bool
  pub high_water_hit : Bool
  -- The answers of `read` and of `recv` that are left.
  pub reads : ℕ
  pub recvs : ℕ
  -- Of the trace.
  pub to_client : Bytes
  pub received : Bytes
  pub to_backend : Bytes
  pub delivered : Bytes
  pub replied : Bytes
  pub promised : ℕ
  pub null_followed : Bool

-- `late` is how `body_remaining_` is read: while a chunk of the body is sent, it is not lowered yet.
abbrev pub core_at : (ℕ → ℕ) → Pair → Core
core_at late p = record {
  state = p.http.state;
  input = p.http.input;
  head_len = p.http.head_len;
  upstream = p.http.upstream;
  out = p.http.out;
  remaining = late p.http.body_remaining;
  responded = p.http.responded;
  closed = p.http.closed;
  read_paused = p.http.read_paused;
  backend_paused = p.http.backend_paused;
  backend = p.http.backend;
  client = p.back.client;
  queued = p.back.out;
  back_paused = p.back.read_paused;
  high_water_hit = p.back.high_water_hit;
  reads = length p.io.reads;
  recvs = length p.io.recvs;
  to_client = p.trace.to_client;
  received = p.trace.received;
  to_backend = p.trace.to_backend;
  delivered = p.trace.delivered;
  replied = p.trace.replied;
  promised = p.trace.promised;
  null_followed = p.trace.null_followed;
}

abbrev pub as_is : ℕ → ℕ
as_is n = n

abbrev pub core : Pair → Core
core p = core_at as_is p

-- The part of a chunk that is body, and what it leaves to come.
abbrev pub part_of : ℕ → Bytes → Bytes
part_of n bytes = take (min (length bytes) n) bytes

abbrev pub rest_of : ℕ → Bytes → ℕ
rest_of n bytes = n - min (length bytes) n

-- `off` bytes of the backend's buffer are written and erased.
abbrev pub written : ℕ → Core → Core
written off c = record c {
  queued = drop off c.queued;
  to_backend = c.to_backend ++ take off c.queued;
}

-- What a flush that ends well finds of the upload backpressure.
abbrev pub is_drained : Core → Bool
is_drained c = c.high_water_hit && ltb (length c.queued) low

pub data Step : Core → Core → Type 0 where
  -- A system call answers.
  read : (c : Core) (n : ℕ) → n ≤ c.reads → Step c (record c { reads = n })
  recv : (c : Core) (n : ℕ) → n ≤ c.recvs → Step c (record c { recvs = n })
  -- Bytes reach the client.
  send :
      (c : Core) (k : ℕ)
      → Step c (record c { out = drop k c.out; to_client = c.to_client ++ take k c.out })
  -- The connection closes, without a backend and with one.
  close_alone : (c : Core) → c.backend ≡ false → Step c (record c { closed = true })
  close_linked :
      (c : Core)
      → c.backend ≡ true
      → Step c (record c { closed = true; backend = false; client = false })
  -- A reply of castle's own.
  reply :
      (c : Core) (text : Bytes)
      → (c.state ≡ reading_head) ⊎ ((c.responded ≡ false) × (c.client ≡ false))
      → Step c
          (record c { out = text; responded = true; state = closing; replied = c.replied ++ text })
  -- Bytes come from the backend: to a client, and to one that is closed.
  deliver :
      (c : Core) (text : Bytes)
      → c.client ≡ true
      → Step c (record c { out = c.out ++ text; responded = true; delivered = c.delivered ++ text })
  deliver_late :
      (c : Core) (text : Bytes)
      → c.client ≡ true
      → c.closed ≡ true
      → Step c (record c { delivered = c.delivered ++ text })
  -- Download backpressure.
  hold :
      (c : Core)
      → c.backend ≡ true
      → high < length c.out
      → Step c (record c { backend_paused = true; back_paused = true })
  unhold :
      (c : Core)
      → c.backend ≡ true
      → Step c (record c { backend_paused = false; back_paused = false })
  -- The backend ends the response, or fails; a write may have gone before.
  finish :
      (c : Core)
      → c.client ≡ true
      → Step c (record c { client = false; backend = false; state = closing })
  unlink :
      (c : Core) (off : ℕ)
      → c.client ≡ true
      → Step c (record c {
        client = false;
        backend = false;
        to_backend = c.to_backend ++ take off c.queued;
      })
  lose :
      (c : Core) (off : ℕ)
      → c.client ≡ false
      → Step c (record c { to_backend = c.to_backend ++ take off c.queued })
  -- A flush that ends well: nothing to release, a release that nobody waits for, and one that
  -- resumes the client's reads.
  write : (c : Core) (off : ℕ) → is_drained (written off c) ≡ false → Step c (written off c)
  write_release :
      (c : Core) (off : ℕ)
      → is_drained (written off c) ≡ true
      → (c.client ≡ false) ⊎ ((c.closed ≡ true) ⊎ (c.read_paused ≡ false))
      → Step c (record (written off c) { high_water_hit = false })
  write_resume :
      (c : Core) (off : ℕ)
      → is_drained (written off c) ≡ true
      → Step c (record (written off c) { high_water_hit = false; read_paused = false })
  -- Bytes come from the client: for the head, for the body, and for nothing.
  take_head :
      (c : Core) (bytes : Bytes)
      → c.state ≡ reading_head
      → Step c (record c { received = c.received ++ bytes; input = c.input ++ bytes })
  upload :
      (c : Core) (bytes : Bytes)
      → c.state ≡ streaming_up
      → c.backend ≡ true
      → Step c (record c {
        received = c.received ++ bytes;
        remaining = rest_of c.remaining bytes;
        queued = c.queued ++ part_of c.remaining bytes;
        high_water_hit =
            c.high_water_hit || ltb high (length (c.queued ++ part_of c.remaining bytes));
      })
  skip :
      (c : Core) (bytes : Bytes)
      → c.state ≢ reading_head
      → (c.backend ≡ false)
        ⊎ ((min (length bytes) c.remaining ≡ 0) ⊎ ((c.state ≡ streaming) ⊎ (c.state ≡ closing)))
      → Step c (record c { received = c.received ++ bytes })
  -- Upload backpressure.
  pause : (c : Core) → high < length c.queued → Step c (record c { read_paused = true })
  -- The body is through.
  proceed : (c : Core) → c.remaining ≡ 0 → Step c (record c { state = streaming })
  follow_null : (c : Core) → c.backend ≡ false → Step c (record c { null_followed = true })
  -- A head is to be forwarded.
  frame :
      (c : Core) (len : ℕ) (head : Bytes) (n : ℕ)
      → c.state ≡ reading_head
      → Step c (record c { head_len = len; upstream = head; promised = n; remaining = n })
  -- The backend is connected, with the head in its buffer and what has come of the body.
  begin :
      (c : Core) (len : ℕ) (head text queued : Bytes) (n left : ℕ) (hit : Bool) (s : State)
      → c.state ≡ reading_head
      → c.closed ≡ false
      → (s ≡ streaming_up) ⊎ (s ≡ streaming)
      → (s ≡ streaming → left ≡ 0)
      → queued ≡ head ++ text
      → text ≡ take n (drop len c.input)
      → length text + left ≡ n
      → (high < length queued → hit ≡ true) × (hit ≡ true → low ≤ length queued)
      → Step c (record c {
        state = s;
        head_len = len;
        upstream = head;
        promised = n;
        remaining = left;
        backend = true;
        client = true;
        queued = queued;
        back_paused = false;
        high_water_hit = hit;
      })
  clear : (c : Core) → c.state ≢ reading_head → Step c (record c { input = [] })

pub data Reach (c : Core) : Core → Type 0 where
  here : Reach c c
  next : {d e : Core} → Reach c d → Step d e → Reach c e

pub Reach-trans : {a b c : Core} → Reach a b → Reach b c → Reach a c
Reach-trans r here = r
Reach-trans r (next s t) = next (Reach-trans r s) t

pub one_step : {a b : Core} → Step a b → Reach a b
one_step s = next here s

-- No step brings an answer back.
Step-answers : {c d : Core} → Step c d → (d.reads ≤ c.reads) × (d.recvs ≤ c.recvs)
Step-answers (Step.read c n h) = omega arith
Step-answers (Step.recv c n h) = omega arith
Step-answers (Step.send c k) = omega arith
Step-answers (Step.close_alone c e) = omega arith
Step-answers (Step.close_linked c e) = omega arith
Step-answers (Step.reply c text e) = omega arith
Step-answers (Step.deliver c text e) = omega arith
Step-answers (Step.hold c e k) = omega arith
Step-answers (Step.unhold c e) = omega arith
Step-answers (Step.finish c e) = omega arith
Step-answers (Step.unlink c off e) = omega arith
Step-answers (Step.lose c off e) = omega arith
Step-answers (Step.write c off e) = omega arith
Step-answers (Step.write_release c off e k) = omega arith
Step-answers (Step.write_resume c off e) = omega arith
Step-answers (Step.deliver_late c text e f) = omega arith
Step-answers (Step.take_head c bytes e) = omega arith
Step-answers (Step.upload c bytes e f) = omega arith
Step-answers (Step.skip c bytes e f) = omega arith
Step-answers (Step.pause c e) = omega arith
Step-answers (Step.proceed c e) = omega arith
Step-answers (Step.follow_null c e) = omega arith
Step-answers (Step.frame c len head n e) = omega arith
Step-answers (Step.begin c len head text q n left hit s e f g h i j k m) = omega arith
Step-answers (Step.clear c e) = omega arith

pub Reach-answers : {c d : Core} → Reach c d → (d.reads ≤ c.reads) × (d.recvs ≤ c.recvs)
Reach-answers here = omega arith
Reach-answers (next r s) = omega (arith, Reach-answers r, Step-answers s)

-- The connection goes from `p` to `q` by steps.
abbrev pub GoesAt : (ℕ → ℕ) → Pair → Pair → Type 0
GoesAt late p q = Reach (core_at late p) (core_at late q)

abbrev pub Goes : Pair → Pair → Type 0
Goes p q = GoesAt as_is p q

-- A history of events, each with its own answers.
pub data Runs (c : Core) : Core → Type 0 where
  start : Runs c c
  event :
      {d e : Core} (reads recvs : ℕ)
      → Runs c d
      → Reach (record d { reads = reads; recvs = recvs }) e
      → Runs c e

pub Runs-trans : {a b c : Core} → Runs a b → Runs b c → Runs a c
Runs-trans r start = r
Runs-trans r (event n m s t) = event n m (Runs-trans r s) t
