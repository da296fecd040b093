-- ===== src/Router.antt =====
-- src/http/router.h and src/http/router.cpp: the routing table. A file is the list of its bytes,
-- or `none` where it cannot be opened; the loader's `cur` is the head of the list read so far,
-- newest first, which is empty while `cur` is null.
pub mod Load
pub mod Refusal
pub mod Match
mod Tests
use mathlib.Core.List.{reverse}
use castle_plus.Prelude.{
  ℕ, suc, ◌+◌, ◌≡◌, Bool, true, false, not, ◌&&◌, ◌||◌, List, [], ◌∷◌, ◌++◌, Option, none, some,
  Bytes, codes, ltb, leb, ◌==◌, if◌then◌else◌, length, equal, is_empty, starts_with, split_first,
  split_last,
}
use castle_plus.Prelude.Decimal.{strtol, decimal}
use castle_plus.Prelude.Int.{ℤ, pos, negsuc}
use castle_plus.Prelude.Result.{Result, ok, err, ◌>>=◌}
use castle_plus.Ini.{
  Line, skip, malformed_header, empty_name, no_equals, header, pair, trim, lower, lines, classify,
}

pub record Backend : Type 0 where
  pub host : Bytes
  pub port : ℕ

pub record Route : Type 0 where
  pub name : Bytes
  pub host : Bytes
  pub path_prefix : Bytes
  pub backend : Backend

-- `Route r; r.name = name;`, with the defaults of the header.
abbrev pub new_route : Bytes → Route
new_route name = record {
  name = name;
  host = [];
  path_prefix = codes "/";
  backend = record { host = []; port = 0 };
}

pub data Reason : Type 0 where
  malformed_section empty_section expected_pair key_outside not_host_port port_range : Reason
  unknown_key : Bytes → Reason

pub data LoadError : Type 0 where
  cannot_open : LoadError
  at_line : ℕ → Reason → LoadError
  missing_backend : Bytes → LoadError

-- `p <= 0 || p > 65535` is refused.
unfoldable pub port_of : ℤ → Option ℕ
port_of (pos p) = if p == 0 || ltb 65535 p then none else some p
port_of (negsuc p) = none

set_port : Route → Bytes → Option ℕ → Result Reason Route
set_port r before none = err port_range
set_port r before (some p) = ok (record r { backend = record { host = trim before; port = p } })

set_host_port : Route → Option (Bytes × Bytes) → Result Reason Route
unfolding set_port port_of
set_host_port r none = err not_host_port
set_host_port r (some (before, behind)) = set_port r before (port_of (strtol behind))

set_backend : Route → Bytes → Result Reason Route
unfolding set_host_port
set_backend r val = set_host_port r (split_last b':' val)

set_path : Route → Bytes → Route
set_path r val = if is_empty val then r else record r { path_prefix = val }

unfoldable pub set_key : Route → Bytes → Bytes → Result Reason Route
unfolding set_backend set_path
set_key r key val =
    if equal key (codes "host")
    then ok (record r { host = lower val })
    else if equal key (codes "path")
    then ok (set_path r val)
    else if equal key (codes "backend")
    then set_backend r val
    else err (unknown_key key)

set_current : List Route → Bytes → Bytes → Result Reason (List Route)
set_current [] key val = err key_outside
set_current (cur ∷ done) key val = do cur' ← set_key cur key val; ok (cur' ∷ done)

-- One round of the loop, with the routes read so far.
unfoldable pub read_line : List Route → Line → Result Reason (List Route)
unfolding set_current
read_line rs skip = ok rs
read_line rs malformed_header = err malformed_section
read_line rs empty_name = err empty_section
read_line rs no_equals = err expected_pair
read_line rs (header name) = ok (new_route name ∷ rs)
read_line rs (pair key val) = set_current rs key val

abbrev pub at {ℓ} : {A : Type ℓ} → ℕ → Result Reason A → Result LoadError A
at lineno (ok a) = ok a
at lineno (err why) = err (at_line lineno why)

unfoldable pub read_lines : ℕ → List Route → List Bytes → Result LoadError (List Route)
read_lines lineno rs [] = ok rs
read_lines lineno rs (l ∷ ls) = do
  rs' ← at (suc lineno) (read_line rs (classify l))
  read_lines (suc lineno) rs' ls

-- The check behind the loop: every route has a backend.
unfoldable pub check_backends : List Route → Result LoadError (List Route)
check_backends [] = ok []
check_backends (r ∷ rs) =
    let rest = check_backends rs in
    if is_empty r.backend.host || r.backend.port == 0
    then err (missing_backend r.name)
    else do rs' ← rest; ok (r ∷ rs')

load_text : Bytes → Result LoadError (List Route)
load_text text = do rs ← read_lines 0 [] (lines text); check_backends (reverse rs)

-- `Router::load`, as the routes that it stores, or the error.
unfoldable pub load : Option Bytes → Result LoadError (List Route)
unfolding load_text
load none = err cannot_open
load (some text) = load_text text

-- The message of `fail`.
reason_text : Reason → Bytes
reason_text malformed_section = codes "malformed section header"
reason_text empty_section = codes "empty section name"
reason_text expected_pair = codes "expected 'key = value'"
reason_text key_outside = codes "key outside of any [section]"
reason_text not_host_port = codes "backend must be host:port"
reason_text port_range = codes "backend port out of range"
reason_text (unknown_key key) = codes "unknown key '" ++ (key ++ codes "'")

-- What `load` leaves in `err`.
unfoldable pub error_text : Bytes → LoadError → Bytes
unfolding reason_text
error_text path cannot_open = codes "cannot open routes file: " ++ path
error_text path (at_line n why) = path ++ (b':' ∷ (decimal n ++ (codes ": " ++ reason_text why)))
error_text path (missing_backend name) =
    codes "route '" ++ (name ++ codes "' is missing a valid backend")

-- The Host header without its port, in lower case.
unfoldable pub normalize_host : Bytes → Bytes
normalize_host host = elim (split_first b':' host) [
  | none ↦ lower host
  | some (before, behind) ↦ lower before
]

-- The two `continue`s of the matching loop.
unfoldable pub matches : Bytes → Bytes → Route → Bool
matches h path r = (is_empty r.host || equal r.host h) && starts_with r.path_prefix path

-- Whether `r` replaces the best route so far.
unfoldable pub beats : Route → Route → Bool
beats r best =
    ltb (length best.path_prefix) (length r.path_prefix)
    || (length r.path_prefix == length best.path_prefix
        && (is_empty best.host && not (is_empty r.host)))

better : Bytes → Bytes → Option Route → Route → Option Route
better h path none r = if matches h path r then some r else none
better h path (some best) r = if matches h path r && beats r best then some r else some best

unfoldable pub best_route : Bytes → Bytes → Option Route → List Route → Option Route
unfolding better
best_route h path best [] = best
best_route h path best (r ∷ rs) = best_route h path (better h path best r) rs

-- `Router::match`.
unfoldable pub match : List Route → Bytes → Bytes → Option Backend
match routes host path = elim (best_route (normalize_host host) path none routes) [
  | none ↦ none
  | some r ↦ some r.backend
]
