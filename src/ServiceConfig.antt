-- ===== src/ServiceConfig.antt =====
-- src/config/service_config.h and src/config/service_config.cpp: the manifest of services. A file is
-- the list of its bytes, or `none` where it cannot be opened; the parser's `cur` is the head of the
-- list read so far, newest first.
pub mod Accepts
pub mod Args
mod Tests
use mathlib.Core.List.{reverse}
use castle_plus.Prelude.{
  ℕ, suc, ◌+◌, ◌≡◌, Bool, true, false, not, ◌&&◌, ◌||◌, List, [], ◌∷◌, ◌++◌, Option, none, some,
  Bytes, codes, ltb, leb, ◌==◌, if◌then◌else◌, equal, is_empty, front, split_last,
}
use castle_plus.Prelude.Decimal.{strtol, decimal}
use castle_plus.Prelude.Int.{ℤ, pos, negsuc, to_int}
use castle_plus.Prelude.Result.{Result, ok, err, ◌>>=◌}
use castle_plus.Ini.{
  Line, skip, malformed_header, empty_name, no_equals, header, pair, trim, lower, lines, classify,
}

pub record ServiceConfig : Type 0 where
  pub name : Bytes
  pub exec : Bytes
  pub args : List Bytes
  pub workdir : Bytes
  pub autorestart : Bool
  pub health_host : Bytes
  pub health_port : ℕ
  pub health_interval_sec : ℤ
  pub backoff_min_sec : ℤ
  pub backoff_max_sec : ℤ

-- `ServiceConfig{}` with a name.
abbrev pub new_service : Bytes → ServiceConfig
new_service name = record {
  name = name;
  exec = [];
  args = [];
  workdir = [];
  autorestart = true;
  health_host = [];
  health_port = 0;
  health_interval_sec = pos 5;
  backoff_min_sec = pos 1;
  backoff_max_sec = pos 30;
}

pub data Reason : Type 0 where
  malformed_section empty_section expected_pair key_outside : Reason
  not_a_bool not_host_port port_range : Reason
  unknown_key : Bytes → Reason

pub data ParseError : Type 0 where
  cannot_open : ParseError
  at_line : ℕ → Reason → ParseError
  missing_exec relative_exec : Bytes → ParseError

-- `parse_bool`: `none` where it returns false.
unfoldable pub parse_bool : Bytes → Option Bool
parse_bool v =
    let s = lower v in
    if equal s (codes "true")
      || (equal s (codes "1") || (equal s (codes "yes") || equal s (codes "on")))
    then some true
    else if equal s (codes "false")
        || (equal s (codes "0") || (equal s (codes "no") || equal s (codes "off")))
    then some false
    else none

-- The variables of the loop of `split_args`.
pub record Split : Type 0 where
  pub out : List Bytes
  pub cur : Bytes
  pub in_quotes : Bool
  pub have : Bool

abbrev pub push_arg : Split → Split
push_arg s = record s { out = s.out ++ (s.cur ∷ []); cur = []; have = false }

-- One round of the loop.
unfoldable pub split_step : Split → ℕ → Split
split_step s c =
    if c == b'"'
    then record s { in_quotes = not s.in_quotes; have = true }
    else if not s.in_quotes && (c == b' ' || c == b'\t')
    then if s.have then push_arg s else s
    else record s { cur = s.cur ++ (c ∷ []); have = true }

unfoldable pub split_loop : Split → Bytes → Split
unfolding split_step
split_loop s [] = s
split_loop s (c ∷ cs) = split_loop (split_step s c) cs

split_finish : Split → List Bytes
split_finish s = if s.have then s.out ++ (s.cur ∷ []) else s.out

unfoldable pub split_args : Bytes → List Bytes
unfolding split_loop split_finish
split_args v =
    split_finish (split_loop (record { out = []; cur = []; in_quotes = false; have = false }) v)

-- `p <= 0 || p > 65535` is refused.
unfoldable pub port_of : ℤ → Option ℕ
port_of (pos p) = if p == 0 || ltb 65535 p then none else some p
port_of (negsuc p) = none

set_autorestart : ServiceConfig → Option Bool → Result Reason ServiceConfig
set_autorestart c none = err not_a_bool
set_autorestart c (some b) = ok (record c { autorestart = b })

set_port : ServiceConfig → Bytes → Option ℕ → Result Reason ServiceConfig
set_port c before none = err port_range
set_port c before (some p) = ok (record c { health_host = trim before; health_port = p })

set_health : ServiceConfig → Option (Bytes × Bytes) → Result Reason ServiceConfig
unfolding set_port port_of
set_health c none = err not_host_port
set_health c (some (before, behind)) = set_port c before (port_of (strtol behind))

-- The keys whose values are numbers.
set_number : ServiceConfig → Bytes → Bytes → Result Reason ServiceConfig
set_number c key val =
    if equal key (codes "health_interval")
    then ok (record c { health_interval_sec = to_int (strtol val) })
    else if equal key (codes "backoff_min")
    then ok (record c { backoff_min_sec = to_int (strtol val) })
    else if equal key (codes "backoff_max")
    then ok (record c { backoff_max_sec = to_int (strtol val) })
    else err (unknown_key key)

unfoldable pub set_key : ServiceConfig → Bytes → Bytes → Result Reason ServiceConfig
unfolding set_autorestart set_health set_number
set_key c key val =
    if equal key (codes "exec")
    then ok (record c { exec = val })
    else if equal key (codes "args")
    then ok (record c { args = split_args val })
    else if equal key (codes "workdir")
    then ok (record c { workdir = val })
    else if equal key (codes "autorestart")
    then set_autorestart c (parse_bool val)
    else if equal key (codes "health_tcp")
    then set_health c (split_last b':' val)
    else set_number c key val

set_current : List ServiceConfig → Bytes → Bytes → Result Reason (List ServiceConfig)
set_current [] key val = err key_outside
set_current (cur ∷ done) key val = do cur' ← set_key cur key val; ok (cur' ∷ done)

-- One round of the loop, with the services read so far.
unfoldable pub read_line : List ServiceConfig → Line → Result Reason (List ServiceConfig)
unfolding set_current
read_line cs skip = ok cs
read_line cs malformed_header = err malformed_section
read_line cs empty_name = err empty_section
read_line cs no_equals = err expected_pair
read_line cs (header name) = ok (new_service name ∷ cs)
read_line cs (pair key val) = set_current cs key val

abbrev pub at {ℓ} : {A : Type ℓ} → ℕ → Result Reason A → Result ParseError A
at lineno (ok a) = ok a
at lineno (err why) = err (at_line lineno why)

unfoldable pub read_lines :
    ℕ → List ServiceConfig → List Bytes → Result ParseError (List ServiceConfig)
read_lines lineno cs [] = ok cs
read_lines lineno cs (l ∷ ls) = do
  cs' ← at (suc lineno) (read_line cs (classify l))
  read_lines (suc lineno) cs' ls

-- The check behind the loop: every service has an absolute path to run.
unfoldable pub check_execs : List ServiceConfig → Result ParseError (List ServiceConfig)
check_execs [] = ok []
check_execs (c ∷ cs) =
    let rest = check_execs cs in
    if is_empty c.exec
    then err (missing_exec c.name)
    else if not (front c.exec == b'/')
    then err (relative_exec c.name)
    else do cs' ← rest; ok (c ∷ cs')

parse_text : Bytes → Result ParseError (List ServiceConfig)
parse_text text = do cs ← read_lines 0 [] (lines text); check_execs (reverse cs)

-- `parse_services_file`, as what it leaves in `out`, or the error.
unfoldable pub parse_services_file : Option Bytes → Result ParseError (List ServiceConfig)
unfolding parse_text
parse_services_file none = err cannot_open
parse_services_file (some text) = parse_text text

-- The message of `fail`.
reason_text : Reason → Bytes
reason_text malformed_section = codes "malformed section header"
reason_text empty_section = codes "empty section name"
reason_text expected_pair = codes "expected 'key = value'"
reason_text key_outside = codes "key outside of any [section]"
reason_text not_a_bool = codes "autorestart must be true/false"
reason_text not_host_port = codes "health_tcp must be host:port"
reason_text port_range = codes "health_tcp port out of range"
reason_text (unknown_key key) = codes "unknown key '" ++ (key ++ codes "'")

-- What `parse_services_file` leaves in `err`.
unfoldable pub error_text : Bytes → ParseError → Bytes
unfolding reason_text
error_text path cannot_open = codes "cannot open services manifest: " ++ path
error_text path (at_line n why) = path ++ (b':' ∷ (decimal n ++ (codes ": " ++ reason_text why)))
error_text path (missing_exec name) = codes "service '" ++ (name ++ codes "' is missing 'exec'")
error_text path (relative_exec name) =
    codes "service '" ++ (name ++ codes "' exec must be an absolute path")
