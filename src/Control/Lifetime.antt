-- ===== src/Control/Lifetime.antt =====
-- What a client gets from the server's loop, and what the server leaves behind.
use castle_plus.Prelude.{
  ◌≡◌, refl, sym, ap, subst, ◌∙◌, Bool, true, false, List, [], ◌∷◌, ◌++◌, none, some, Bytes,
  is_empty, leb, length, if_both,
}
use castle_plus.Proxy.State.{Write}
use castle_plus.Control.{Castle, Session, serve, serve_all, split_lines, on_read, on_reads}
use castle_plus.Control.Chunks.{joined, on_reads-joined}
use castle_plus.Control.Server.{
  Server, new_server, Calls, start, stop, Turn, interrupted, poll_failed, stopped, no_input, input,
  greeted, client_loop, handle_client,
}

-- The server holds no descriptor and no thread, and nothing of it is open in the process.
pub record IsReleased (s : Server) : Type 0 where
  pub no_listen_fd : s.listen_fd ≡ false
  pub no_stop_fd : s.stop_fd ≡ false
  pub listen_closed : s.listen_open ≡ false
  pub stop_closed : s.stop_open ≡ false
  pub no_thread : s.thread ≡ false

-- A server that has not been started, with or without a stale file of a socket.
abbrev pub idle : Bool → Server
idle stale = record new_server { socket_file = stale }

-- What is left behind a start and behind the stop after it.
abbrev Clean : Bytes → Server × Bool → Type 0
Clean path r =
    (r.1 ≡ false → IsReleased r.0)
    × IsReleased (stop path r.0)
    × (r.1 ≡ true → (stop path r.0).socket_file ≡ false)

refused-Clean : (path : Bytes) (file : Bool) → Clean path (idle file, false)
unfolding stop
refused-Clean path file =
    let released : IsReleased (idle file) = record {
      no_listen_fd = refl;
      no_stop_fd = refl;
      listen_closed = refl;
      stop_closed = refl;
      no_thread = refl;
    } in
    (λ e. released, released, λ t. absurd cc t)

start-Clean :
    (made binds listens events : Bool) (path : Bytes) (stale : Bool)
    → is_empty path ≡ false
    → Clean path (
        start
          (record { socket = made; bind = binds; listen = listens; eventfd = events })
          path
          (idle stale))
unfolding start stop
start-Clean false binds listens events path stale h = refused-Clean path stale
start-Clean true false listens events path stale h =
    if_both (Clean path) (leb 108 (length path)) (refused-Clean path stale)
      (refused-Clean path false)
start-Clean true true false events path stale h =
    if_both (Clean path) (leb 108 (length path)) (refused-Clean path stale)
      (refused-Clean path false)
start-Clean true true true false path stale h =
    if_both (Clean path) (leb 108 (length path)) (refused-Clean path stale)
      (refused-Clean path false)
start-Clean true true true true path stale h =
    let released : IsReleased (idle false) = record {
      no_listen_fd = refl;
      no_stop_fd = refl;
      listen_closed = refl;
      stop_closed = refl;
      no_thread = refl;
    } in
    let kept : IsReleased (idle true) = record {
      no_listen_fd = refl;
      no_stop_fd = refl;
      listen_closed = refl;
      stop_closed = refl;
      no_thread = refl;
    } in
    if_both (Clean path) (leb 108 (length path)) (refused-Clean path stale)
      (λ e. absurd cc e, if_both IsReleased (is_empty path) kept released, λ t. rw h refl)

-- The path of the socket not being empty: a start that is refused leaves no open descriptor, none in the members
-- and no thread, and so does `stop` behind any start; behind one that succeeded it has also removed the file of the
-- socket.
pub start-stop-IsReleased :
    (c : Calls) (path : Bytes) (stale : Bool)
    → is_empty path ≡ false
    → let r = start c path (idle stale) in
      (r.1 ≡ false → IsReleased r.0)
      × IsReleased (stop path r.0)
      × (r.1 ≡ true → (stop path r.0).socket_file ≡ false)
start-stop-IsReleased c path stale h = start-Clean c.socket c.bind c.listen c.eventfd path stale h

-- The bytes that are read before the loop ends.
abbrev pub reads : List Turn → List Bytes
reads [] = []
reads (interrupted ∷ ts) = reads ts
reads (poll_failed ∷ ts) = []
reads (stopped ∷ ts) = []
reads (no_input ∷ ts) = reads ts
reads (input none ∷ ts) = []
reads (input (some bytes) ∷ ts) = bytes ∷ reads ts

module _ {W : Type 0} (castle : Castle W) where
  -- The client was sent the same, and castle was asked the same.
  abbrev pub Alike : Session W → Session W → Type 0
  Alike s t = (s.written ≡ t.written) × (s.world ≡ t.world)

  serve_over : (line : Bytes) (s : Session W) → s.is_over ≡ true → serve castle line s ≡ s
  unfolding serve
  serve_over line s h = rw h refl

  serve_all_over : (ls : List Bytes) (s : Session W) → s.is_over ≡ true → serve_all castle ls s ≡ s
  unfolding serve_all
  serve_all_over [] s h = refl
  serve_all_over (l ∷ ls) s h = ap (serve_all castle ls) (serve_over l s h) ∙ serve_all_over ls s h

  on_read_over :
      (s : Session W) (r : Bytes)
      → s.is_over ≡ true
      → on_read castle s r ≡ record s { inbuf = (split_lines (s.inbuf ++ r)).1 }
  unfolding on_read
  on_read_over s r h =
      let (ls, rest) = split_lines (s.inbuf ++ r) in serve_all_over ls (record s { inbuf = rest }) h

  on_reads_over :
      (rs : List Bytes) (s : Session W) → s.is_over ≡ true → Alike s (on_reads castle s rs)
  unfolding on_reads
  on_reads_over [] s h = (refl, refl)
  on_reads_over (r ∷ rs) s h =
      let t = record s { inbuf = (split_lines (s.inbuf ++ r)).1 } in
      subst (λ (u : Session W). Alike s (on_reads castle u rs)) (sym (on_read_over s r h))
        (on_reads_over rs t h)

  goes_on :
      (b : Bool) (t u v : Session W)
      → (b ≡ true → Alike t v)
      → Alike u v
      → Alike (elim b [ true ↦ t | false ↦ u ]) v
  goes_on true t u v p q = p refl
  goes_on false t u v p q = q

  client_loop-Alike :
      (ts : List Turn) (s : Session W)
      → Alike (client_loop castle ts s) (on_reads castle s (reads ts))
  unfolding client_loop on_reads
  client_loop-Alike [] s = (refl, refl)
  client_loop-Alike (interrupted ∷ ts) s = client_loop-Alike ts s
  client_loop-Alike (poll_failed ∷ ts) s = (refl, refl)
  client_loop-Alike (stopped ∷ ts) s = (refl, refl)
  client_loop-Alike (no_input ∷ ts) s = client_loop-Alike ts s
  client_loop-Alike (input none ∷ ts) s = (refl, refl)
  client_loop-Alike (input (some bytes) ∷ ts) s =
      let t = on_read castle s bytes in
      goes_on t.is_over t (client_loop castle ts t) (on_reads castle t (reads ts))
        (on_reads_over (reads ts) t) (client_loop-Alike ts t)

  joined_once :
      (rs : List Bytes) (writes : List (List Write)) (w : W)
      → on_reads castle (greeted writes w) rs ≡ on_read castle (greeted writes w) (joined rs)
  unfolding on_reads on_read serve_all split_lines greeted
  joined_once [] writes w = refl
  joined_once (r ∷ rs) writes w = on_reads-joined castle (greeted writes w) r rs

  -- Interruptions of the poll, polls without input and the cuts between reads do not show: with the same answers of the
  -- writes, the client's socket takes the same bytes as if all that it sent before the loop ended had come in one
  -- read, namely what `write_all` gets through of each reply, and castle is asked the same.
  pub handle_client-joined :
      (ts : List Turn) (writes : List (List Write)) (w : W)
      → Alike
          (handle_client castle ts writes w)
          (on_read castle (greeted writes w) (joined (reads ts)))
  unfolding handle_client
  handle_client-joined ts writes w =
      subst (Alike (handle_client castle ts writes w)) (joined_once (reads ts) writes w)
        (client_loop-Alike ts (greeted writes w))
