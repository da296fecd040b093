-- ===== src/Proxy/State.antt =====
-- The state of a proxied connection, and what the system calls answer to it. The counters of the loop are
-- left out, and so are the addresses of the objects: a pointer is whether it is set.
use castle_plus.Prelude.{
  ℕ, Bool, true, false, not, ◌&&◌, ◌||◌, List, [], Bytes, is_empty, if◌then◌else◌,
}

pub data State : Type 0 where
  reading_head streaming_up streaming closing : State

pub data IoStatus : Type 0 where
  ok would_block_read would_block_write peer_closed failed : IoStatus

-- An epoll mask; EPOLLET is always set.
pub record Interest : Type 0 where
  pub wants_in : Bool
  pub wants_out : Bool

-- `kBackpressureHigh` and `kBackpressureLow`.
abbrev pub high : ℕ
high = 262_144

abbrev pub low : ℕ
low = 65_536

pub record HttpConnection : Type 0 where
  pub state : State
  pub input : Bytes
  pub out : Bytes
  pub upstream : Bytes
  pub head_len : ℕ
  pub body_remaining : ℕ
  pub responded : Bool
  pub handshake_done : Bool
  pub closed : Bool
  pub client_eof : Bool
  pub read_paused : Bool
  pub backend_paused : Bool
  pub interest : Interest
  pub read_block : IoStatus
  pub write_block : IoStatus
  pub last_activity : ℕ
  pub backend : Bool

pub record BackendConnection : Type 0 where
  pub client : Bool
  pub out : Bytes
  pub connected : Bool
  pub read_paused : Bool
  pub high_water_hit : Bool
  pub interest : Interest
  pub last_activity : ℕ
  pub close_requested : Bool

-- The answers of `Transport::recv` and `Transport::send` on the client's side.
pub data Recv : Type 0 where
  received : Bytes → Recv
  recv_block_read recv_block_write recv_closed recv_error : Recv

pub data Send : Type 0 where
  sent : ℕ → Send
  send_block_read send_block_write send_closed send_error : Send

-- The answers of `read` and `write` on the backend's socket.
pub data Read : Type 0 where
  read_bytes : Bytes → Read
  read_eof read_again read_interrupted read_error : Read

pub data Write : Type 0 where
  wrote : ℕ → Write
  write_again write_interrupted write_error : Write

-- How far `start_backend` gets.
pub data Connect : Type 0 where
  no_socket bad_address refused in_progress : Connect

-- The answers that are still to come, in order, and the time. A list that is used up blocks.
pub record Io : Type 0 where
  pub handshakes : List IoStatus
  pub recvs : List Recv
  pub sends : List Send
  pub reads : List Read
  pub writes : List Write
  pub connect : Connect
  pub now : ℕ

-- What has happened on the sockets so far: what the client's socket has taken and given, what the backend's has taken,
-- and what it has given while it had a client; the replies of castle's own; the body length of the head that was
-- forwarded; and whether a null pointer was followed.
pub record Trace : Type 0 where
  pub to_client : Bytes
  pub received : Bytes
  pub to_backend : Bytes
  pub delivered : Bytes
  pub replied : Bytes
  pub promised : ℕ
  pub null_followed : Bool

pub record Pair : Type 0 where
  pub http : HttpConnection
  pub back : BackendConnection
  pub io : Io
  pub trace : Trace

-- The constructors.
abbrev pub new_http : ℕ → HttpConnection
new_http now = record {
  state = reading_head;
  input = [];
  out = [];
  upstream = [];
  head_len = 0;
  body_remaining = 0;
  responded = false;
  handshake_done = false;
  closed = false;
  client_eof = false;
  read_paused = false;
  backend_paused = false;
  interest = record { wants_in = true; wants_out = false };
  read_block = would_block_read;
  write_block = ok;
  last_activity = now;
  backend = false;
}

abbrev pub new_backend : ℕ → BackendConnection
new_backend now = record {
  client = true;
  out = [];
  connected = false;
  read_paused = false;
  high_water_hit = false;
  interest = record { wants_in = false; wants_out = true };
  last_activity = now;
  close_requested = false;
}

-- Before there is a backend, its record is blank.
abbrev pub new_pair : ℕ → Io → Pair
new_pair now io = record {
  http = new_http now;
  back = record (new_backend now) { client = false };
  io = io;
  trace = record {
    to_client = [];
    received = [];
    to_backend = [];
    delivered = [];
    replied = [];
    promised = 0;
    null_followed = false;
  };
}

abbrev pub is_state : State → State → Bool
is_state reading_head reading_head = true
is_state streaming_up streaming_up = true
is_state streaming streaming = true
is_state closing closing = true
is_state _ _ = false

abbrev pub is_block : IoStatus → IoStatus → Bool
is_block would_block_read would_block_read = true
is_block would_block_write would_block_write = true
is_block _ _ = false

-- `recompute_interest`.
unfoldable pub recompute_interest : HttpConnection → HttpConnection
recompute_interest h =
    let reads = not h.read_paused && not h.client_eof in
    let writes = not (is_empty h.out) in
    let want_in =
      (reads && not (is_block h.read_block would_block_write))
      || (writes && is_block h.write_block would_block_read) in
    let want_out =
      (reads && is_block h.read_block would_block_write)
      || (writes && not (is_block h.write_block would_block_read)) in
    record h {
      interest = record {
        wants_in = want_in || (not want_in && not want_out && reads);
        wants_out = want_out;
      };
    }

-- The mask of `apply_interest`.
unfoldable pub mask : BackendConnection → Interest
mask b =
    if not b.connected
    then record { wants_in = false; wants_out = true }
    else record { wants_in = not b.read_paused; wants_out = not (is_empty b.out) }

-- `apply_interest`.
unfoldable pub apply_interest : BackendConnection → BackendConnection
unfolding mask
apply_interest b = record b { interest = mask b }

-- `touch`.
abbrev pub touch_http : Pair → Pair
touch_http p = record p { http = record (p.http) { last_activity = p.io.now } }

abbrev pub touch_back : Pair → Pair
touch_back p = record p { back = record (p.back) { last_activity = p.io.now } }

-- `close_both`.
unfoldable pub close_both : Pair → Pair
close_both p =
    if p.http.closed
    then p
    else if p.http.backend
    then record p {
      http = record (p.http) { closed = true; backend = false };
      back = record (p.back) { client = false; close_requested = true };
    }
    else record p { http = record (p.http) { closed = true } }

-- `~HttpConnection` and `~BackendConnection`: each unlinks the one that is still linked to it. An object that
-- is gone is one that is closed and linked to nothing.
unfoldable pub destroy_http : Pair → Pair
destroy_http p =
    if p.http.backend
    then record p {
      http = record (p.http) { closed = true; backend = false };
      back = record (p.back) { client = false };
    }
    else record p { http = record (p.http) { closed = true } }

unfoldable pub destroy_backend : Pair → Pair
destroy_backend p =
    if p.back.client
    then record p {
      http = record (p.http) { backend = false };
      back = record (p.back) { client = false; close_requested = true };
    }
    else record p { back = record (p.back) { close_requested = true } }
