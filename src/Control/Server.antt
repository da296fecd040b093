-- ===== src/Control/Server.antt =====
-- The control server's socket and its loops: `start`, `stop`, `run` and `handle_client` of
-- src/control/control_server.cpp. The answers of the system calls are scripts.
use castle_plus.Prelude.{
  ℕ, Bool, true, false, not, List, [], ◌∷◌, ◌++◌, Option, none, some, Bytes, codes, leb,
  if◌then◌else◌, length, is_empty,
}
use castle_plus.Proxy.State.{Write}
use castle_plus.Control.{Castle, Session, write_all, next_answers, on_read}

-- What the server holds: the members `listen_fd_` and `stop_fd_`, as whether they hold a descriptor, the file of its
-- socket, its flag, and its thread; and what the process has open of it.
pub record Server : Type 0 where
  pub listen_fd : Bool
  pub stop_fd : Bool
  pub listen_open : Bool
  pub stop_open : Bool
  pub socket_file : Bool
  pub running : Bool
  pub thread : Bool

abbrev pub new_server : Server
new_server = record {
  listen_fd = false;
  stop_fd = false;
  listen_open = false;
  stop_open = false;
  socket_file = false;
  running = false;
  thread = false;
}

-- Whether each call succeeds.
pub record Calls : Type 0 where
  pub socket : Bool
  pub bind : Bool
  pub listen : Bool
  pub eventfd : Bool

-- `sizeof(addr.sun_path)`.
abbrev pub path_room : ℕ
path_room = 108

-- The system calls, each with what it changes. A call that fails gives the member -1.
unfoldable pub call_socket : Bool → Server → Server
call_socket made s =
    if made
    then record s { listen_fd = true; listen_open = true }
    else record s { listen_fd = false }

unfoldable pub call_eventfd : Bool → Server → Server
call_eventfd made s =
    if made then record s { stop_fd = true; stop_open = true } else record s { stop_fd = false }

-- `::close(listen_fd_)` and `listen_fd_ = -1`, and so for `stop_fd_`.
unfoldable pub close_listen : Server → Server
close_listen s = if s.listen_fd then record s { listen_open = false } else s

abbrev pub forget_listen : Server → Server
forget_listen s = record s { listen_fd = false }

unfoldable pub close_stop : Server → Server
close_stop s = if s.stop_fd then record s { stop_open = false } else s

abbrev pub forget_stop : Server → Server
forget_stop s = record s { stop_fd = false }

-- `::unlink`, and what `bind` leaves.
abbrev pub unlink : Server → Server
unlink s = record s { socket_file = false }

abbrev pub bound : Server → Server
bound s = record s { socket_file = true }

-- The end of `start`: the thread runs.
abbrev pub launch : Server → Server
launch s = record s { running = true; thread = true }

unfoldable pub start_events : Calls → Server → Server × Bool
unfolding call_eventfd close_listen
start_events c s =
    let t = call_eventfd c.eventfd s in
    if not t.stop_fd then (unlink (forget_listen (close_listen t)), false) else (launch t, true)

unfoldable pub start_bound : Calls → Server → Server × Bool
unfolding start_events close_listen
start_bound c s =
    if not c.listen then (unlink (forget_listen (close_listen s)), false) else start_events c s

unfoldable pub start_socket : Calls → Bytes → Server → Server × Bool
unfolding start_bound close_listen
start_socket c path s =
    if leb path_room (length path)
    then (forget_listen (close_listen s), false)
    else if not c.bind
    then (forget_listen (close_listen (unlink s)), false)
    else start_bound c (bound (unlink s))

-- `start`; a stale file of the socket is removed before the bind.
unfoldable pub start : Calls → Bytes → Server → Server × Bool
unfolding call_socket start_socket
start c path s =
    let t = call_socket c.socket s in if not t.listen_fd then (t, false) else start_socket c path t

-- `if (listen_fd_ >= 0) { ::close(listen_fd_); listen_fd_ = -1; }`, and so for `stop_fd_`.
unfoldable pub release_listen : Server → Server
unfolding close_listen
release_listen s = if s.listen_fd then forget_listen (close_listen s) else s

unfoldable pub release_stop : Server → Server
unfolding close_stop
release_stop s = if s.stop_fd then forget_stop (close_stop s) else s

unfoldable pub unlink_path : Bytes → Server → Server
unlink_path path s = if is_empty path then s else unlink s

-- `stop`, with the thread that it joins.
unfoldable pub stop : Bytes → Server → Server
unfolding release_listen release_stop unlink_path
stop path s =
    if not s.running
    then s
    else unlink_path path
        (release_stop (release_listen (record s { running = false; thread = false })))

-- One turn of the poll of a client: it fails, or it reports `stop_fd_`, or input, which a read follows; `none` is a
-- read that returns nothing or fails.
pub data Turn : Type 0 where
  interrupted poll_failed stopped no_input : Turn
  input : Option Bytes → Turn

-- The two parts of the greeting.
abbrev pub welcome : Bytes
welcome = codes " --------| Welcome back to the castle |--------"

abbrev pub hint : Bytes
hint = codes "castle+ control " ++ ((226 ∷ 128 ∷ 148 ∷ []) ++ codes " type 'help'\n")

-- A session of a client that has just been greeted, with the answers of its writes.
unfoldable pub greeted : {W : Type 0} → List (List Write) → W → Session W
unfolding write_all
greeted writes w =
    let (first, writes') = next_answers writes in
    let (second, later) = next_answers writes' in
    record {
      inbuf = [];
      world = w;
      writes = later;
      written = write_all first welcome ++ write_all second hint;
      is_over = false;
    }

module _ {W : Type 0} (castle : Castle W) where
  unfoldable pub client_loop : List Turn → Session W → Session W
  unfolding on_read
  client_loop [] s = s
  client_loop (interrupted ∷ ts) s = client_loop ts s
  client_loop (poll_failed ∷ ts) s = record s { is_over = true }
  client_loop (stopped ∷ ts) s = record s { is_over = true }
  client_loop (no_input ∷ ts) s = client_loop ts s
  client_loop (input none ∷ ts) s = record s { is_over = true }
  client_loop (input (some bytes) ∷ ts) s =
      let t = on_read castle s bytes in elim t.is_over [ true ↦ t | false ↦ client_loop ts t ]

  -- `handle_client`, with a session of its own.
  unfoldable pub handle_client : List Turn → List (List Write) → W → Session W
  unfolding client_loop greeted
  handle_client ts writes w = client_loop ts (greeted writes w)

  -- One turn of the poll of `run`; `client` is a client that is accepted, with its turns and the answers of its writes.
  pub data Arrival : Type 0 where
    run_interrupted run_failed run_stopped nobody : Arrival
    client : List Turn → List (List Write) → Arrival

  -- `run`: the clients are served one after the other; the bytes that each of them was sent.
  unfoldable pub run : List Arrival → W → List Bytes × W
  unfolding handle_client
  run [] w = ([], w)
  run (run_interrupted ∷ cs) w = run cs w
  run (run_failed ∷ cs) w = ([], w)
  run (run_stopped ∷ cs) w = ([], w)
  run (nobody ∷ cs) w = run cs w
  run (client ts writes ∷ cs) w =
      let s = handle_client ts writes w in
      let (texts, w') = run cs s.world in (s.written ∷ texts, w')
