-- ===== src/Transport.antt =====
-- The transports and sockets: src/net/transport.cpp, src/net/socket.cpp, src/tls/tls_transport.cpp and
-- src/tls/tls_context.cpp. The answers of the system calls and of OpenSSL are arguments.
use castle_plus.Prelude.{
  ℕ, zero, suc, Bool, true, false, not, ◌&&◌, List, [], ◌∷◌, ◌++◌, Option, none, some, Bytes, codes,
  is_empty, if◌then◌else◌,
}
use castle_plus.Prelude.Result.{Result, err, ok}
use castle_plus.Proxy.State.{
  IoStatus, would_block_read, would_block_write, peer_closed, failed, Recv, received,
  recv_block_read, recv_block_write, recv_closed, recv_error, Send, sent, send_block_read,
  send_block_write, send_closed, send_error, Read, read_bytes, read_eof, read_again,
  read_interrupted, read_error, Write, wrote, write_again, write_interrupted, write_error,
}
pub mod Reload
mod Tests

-- `PlainTransport::recv`, and the answers that are left; a `read` that is interrupted is made again.
unfoldable pub plain_recv : List Read → Recv × List Read
plain_recv [] = (recv_block_read, [])
plain_recv (read_interrupted ∷ rs) = plain_recv rs
plain_recv (read_bytes bytes ∷ rs) = (received bytes, rs)
plain_recv (read_eof ∷ rs) = (recv_closed, rs)
plain_recv (read_again ∷ rs) = (recv_block_read, rs)
plain_recv (read_error ∷ rs) = (recv_error, rs)

-- `PlainTransport::send`; where `write` takes nothing, `errno` is what an earlier call left, `stale` if it is EAGAIN.
unfoldable pub plain_send : Bool → List Write → Send × List Write
plain_send stale [] = (send_block_write, [])
plain_send stale (write_interrupted ∷ ws) = plain_send stale ws
plain_send stale (wrote zero ∷ ws) = (if stale then send_block_write else send_error, ws)
plain_send stale (wrote (suc n) ∷ ws) = (sent (suc n), ws)
plain_send stale (write_again ∷ ws) = (send_block_write, ws)
plain_send stale (write_error ∷ ws) = (send_error, ws)

-- What `SSL_get_error` gives.
pub data SslError : Type 0 where
  want_read want_write zero_return syscall other_error : SslError

-- `TlsTransport::map_error`.
unfoldable pub map_error : SslError → IoStatus
map_error want_read = would_block_read
map_error want_write = would_block_write
map_error zero_return = peer_closed
map_error syscall = peer_closed
map_error other_error = failed

-- `TlsTransport::handshake`; `none` is a handshake that is complete.
unfoldable pub tls_handshake : Option SslError → IoStatus
unfolding map_error
tls_handshake none = IoStatus.ok
tls_handshake (some e) = map_error e

-- A status other than `Ok`, of a `recv` and of a `send`.
abbrev pub recv_status : IoStatus → Recv
recv_status IoStatus.ok = received []
recv_status would_block_read = recv_block_read
recv_status would_block_write = recv_block_write
recv_status peer_closed = recv_closed
recv_status failed = recv_error

abbrev pub send_status : IoStatus → Send
send_status IoStatus.ok = sent 0
send_status would_block_read = send_block_read
send_status would_block_write = send_block_write
send_status peer_closed = send_closed
send_status failed = send_error

-- `TlsTransport::recv` and `TlsTransport::send`, of what `SSL_read` and `SSL_write` give.
unfoldable pub tls_recv : Result SslError Bytes → Recv
unfolding map_error
tls_recv (ok bytes) = received bytes
tls_recv (err e) = recv_status (map_error e)

unfoldable pub tls_send : Result SslError ℕ → Send
unfolding map_error
tls_send (ok n) = sent n
tls_send (err e) = send_status (map_error e)

-- The calls of `make_reuseport_listener`; `none` is a call that succeeds, and `some` has the text of `errno`.
pub record ListenCalls : Type 0 where
  pub socket : Option Bytes
  pub reuse_addr : Option Bytes
  pub reuse_port : Option Bytes
  pub is_ipv4 : Bytes → Bool
  pub freebind : Option Bytes
  pub bind : Option Bytes
  pub listen : Option Bytes

-- A call that may fail, and what is done behind it.
abbrev pub checked : Option Bytes → Bytes → Result Bytes Bool → Result Bytes Bool
checked none what next = next
checked (some text) what next = err (what ++ (codes ": " ++ text))

-- The address to bind to.
unfoldable pub set_address : ListenCalls → Bytes → Result Bytes Bool → Result Bytes Bool
set_address c addr next =
    if is_empty addr
    then next
    else if c.is_ipv4 addr
    then checked c.freebind (codes "IP_FREEBIND") next
    else err (codes "bind address not a valid IPv4 address: " ++ addr)

-- `make_reuseport_listener`: a listening socket, or `err`.
unfoldable pub make_reuseport_listener : ListenCalls → Bytes → Result Bytes Bool
unfolding set_address
make_reuseport_listener c addr = checked c.socket (codes "socket") (
    checked c.reuse_addr (codes "SO_REUSEADDR") (
      checked c.reuse_port (codes "SO_REUSEPORT") (
        set_address c addr
          (checked c.bind (codes "bind") (checked c.listen (codes "listen") (ok true))))))

-- What `connect` answers.
pub data Connected : Type 0 where
  at_once in_progress refused : Connected

-- The calls of `tcp_probe`; `writable` is a poll that reports the socket in time, and `so_error` is 0 or not.
pub record ProbeCalls : Type 0 where
  pub socket : Bool
  pub is_ipv4 : Bool
  pub connect : Connected
  pub writable : Bool
  pub getsockopt : Bool
  pub so_error : Bool

unfoldable pub tcp_probe : ProbeCalls → Bool
tcp_probe c = if not (c.socket && c.is_ipv4) then false else elim c.connect [
  | at_once ↦ true
  | refused ↦ false
  | in_progress ↦ c.writable && (c.getsockopt && not c.so_error)
]

-- What OpenSSL makes of the files; `ctx` is a context that is built.
pub record SslCalls (C : Type 0) : Type 0 where
  pub ctx : Option C
  pub certificate : Bool
  pub key : Bool
  pub matching : Bool

-- `build_ctx`.
unfoldable pub build_ctx : {C : Type 0} → SslCalls C → Bytes → Bytes → Result Bytes C
build_ctx calls cert_path key_path = elim calls.ctx [
  | none ↦ err (codes "SSL_CTX_new failed")
  | some ctx ↦
      if not calls.certificate
      then err (codes "failed to load certificate: " ++ cert_path)
      else if not calls.key
      then err (codes "failed to load private key: " ++ key_path)
      else if not calls.matching
      then err (codes "private key does not match certificate")
      else ok ctx
]

pub record TlsContext (C : Type 0) : Type 0 where
  pub ctx : Option C
  pub cert_path : Bytes
  pub key_path : Bytes

module _ {C : Type 0} where
  abbrev pub new_context : TlsContext C
  new_context = record { ctx = none; cert_path = []; key_path = [] }

  -- The context, and the error if there is one.
  unfoldable pub init : SslCalls C → Bytes → Bytes → TlsContext C → TlsContext C × Option Bytes
  unfolding build_ctx
  init calls cert_path key_path t = elim (build_ctx calls cert_path key_path) [
    | err why ↦ (t, some why)
    | ok ctx ↦ (record { ctx = some ctx; cert_path = cert_path; key_path = key_path }, none)
  ]

  unfoldable pub reload : SslCalls C → TlsContext C → TlsContext C × Option Bytes
  unfolding build_ctx
  reload calls t = elim (build_ctx calls t.cert_path t.key_path) [
    | err why ↦ (t, some why)
    | ok ctx ↦ (record t { ctx = some ctx }, none)
  ]

  -- `wrap`: the context of the connection, if `SSL_new` succeeds.
  unfoldable pub wrap : Bool → TlsContext C → Option C
  wrap ssl_new t = if ssl_new then t.ctx else none

  -- The reloads of one SIGHUP after the other.
  unfoldable pub reload_all : List (SslCalls C) → TlsContext C → TlsContext C
  unfolding reload
  reload_all [] t = t
  reload_all (calls ∷ more) t = reload_all more (reload calls t).0
