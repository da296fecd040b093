-- ===== src/Proxy/Events.antt =====
-- The events of a proxied connection, each with the answers of the system calls of its handler.
use castle_plus.Prelude.{ℕ, ◌-◌, Bool, not, ◌&&◌, List, [], ◌∷◌, codes, if◌then◌else◌, ltb, ◌==◌}
use castle_plus.Proxy.State.{Io, Pair, close_both, destroy_http, destroy_backend}
use castle_plus.Proxy.Download.{resume, fail, on_readable}
use castle_plus.Proxy.Upload.{Site}
use castle_plus.Proxy.Drive.{drive, on_writable}

pub data Event : Type 0 where
  -- `HttpConnection::on_readable` and `on_writable`, `on_error`, `check_timeout`.
  client_ready client_error client_sweep : Event
  -- `BackendConnection::on_readable`, `on_writable` with SO_ERROR, `on_error`, `check_timeout`.
  backend_readable backend_error backend_sweep : Event
  backend_writable : Bool → Event
  -- The event loop destroys a handler that has asked to be closed, or is itself destroyed.
  client_destroyed backend_destroyed : Event

-- `check_timeout`, in nanoseconds; a timeout of 0 is off.
unfoldable pub is_idle : ℕ → ℕ → ℕ → Bool
is_idle timeout now last_activity = not (timeout == 0) && ltb timeout (now - last_activity)

module _ (site : Site) (timeout : ℕ) where
  unfoldable pub react : Event → Pair → Pair
  unfolding drive close_both destroy_http destroy_backend on_readable on_writable fail is_idle
  react client_ready p = drive site p
  react client_error p = close_both p
  react client_sweep p = if is_idle timeout p.io.now p.http.last_activity then close_both p else p
  react backend_readable p = on_readable p
  react (backend_writable connects) p = on_writable site connects p
  react backend_error p = fail resume (codes "backend socket error") p
  react backend_sweep p =
      if is_idle timeout p.io.now p.back.last_activity
      then fail resume (codes "upstream timeout") p
      else p
  react client_destroyed p = destroy_http p
  react backend_destroyed p = destroy_backend p

  unfoldable pub handle : Event → Io → Pair → Pair
  unfolding react
  handle e io p = react e (record p { io = io })

  unfoldable pub run : List (Event × Io) → Pair → Pair
  unfolding handle
  run [] p = p
  run ((e, io) ∷ es) p = run es (handle e io p)
