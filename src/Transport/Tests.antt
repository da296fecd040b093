-- ===== src/Transport/Tests.antt =====
-- A certificate that is renewed, and renewed again from files that do not match.
use castle_plus.Prelude.{ℕ, ◌≡◌, refl, true, false, List, [], ◌∷◌, none, some, codes, is_empty}
use castle_plus.Prelude.Result.{err}
use castle_plus.Proxy.State.{read_bytes, read_eof, read_interrupted, received}
use castle_plus.Transport.{
  plain_recv, ListenCalls, make_reuseport_listener, set_address, SslCalls, reload_all, wrap,
}
use castle_plus.Transport.Reload.{in_force, last_or, all_fresh, reload_all-fresh}

plain_recv-interrupted :
    plain_recv (read_interrupted ∷ read_bytes (codes "x") ∷ read_eof ∷ [])
    ≡ (received (codes "x"), read_eof ∷ [])
unfolding plain_recv
plain_recv-interrupted = refl

abbrev calls : ListenCalls
calls = record {
  socket = none;
  reuse_addr = none;
  reuse_port = none;
  is_ipv4 = is_empty;
  freebind = none;
  bind = some (codes "Address in use");
  listen = none;
}

make_reuseport_listener-bind :
    (make_reuseport_listener calls [] ≡ err (codes "bind: Address in use"))
    × (make_reuseport_listener calls (codes "a")
        ≡ err (codes "bind address not a valid IPv4 address: a"))
unfolding make_reuseport_listener set_address is_empty
make_reuseport_listener-bind = (refl, refl)

abbrev renewed : List (SslCalls ℕ)
renewed =
    record { ctx = some 2; certificate = true; key = true; matching = true }
    ∷ record { ctx = some 3; certificate = true; key = true; matching = false }
    ∷ []

reload_all-fresh_example :
    let t = reload_all renewed (in_force 1 (codes "cert") (codes "key")) in
    (t ≡ in_force (last_or 1 (all_fresh renewed)) (codes "cert") (codes "key"))
    × (wrap true t ≡ some (last_or 1 (all_fresh renewed)))
reload_all-fresh_example = reload_all-fresh renewed 1 (codes "cert") (codes "key")
