-- ===== src/CommandLine.antt =====
-- src/main.cpp: `parse_args`.
use castle_plus.Prelude.{
  ℕ, ◌-◌, ◌*◌, ◌%◌, ◌^◌, Bool, ◌&&◌, List, [], ◌∷◌, Option, none, some, Bytes, codes, ltb, leb,
  equal, if◌then◌else◌,
}
use castle_plus.Prelude.Decimal.{strtol}
use castle_plus.Prelude.Int.{ℤ, pos, negsuc, to_int}
pub mod Print
mod Tests

pub record Options : Type 0 where
  pub port : ℕ
  pub bind_addr : Bytes
  pub threads : ℕ
  pub control_path : Bytes
  pub services_path : Bytes
  pub routes_path : Bytes
  pub timeout_sec : ℤ
  pub tls_cert : Bytes
  pub tls_key : Bytes
  pub max_body : ℕ
  pub log_file : Bytes
  pub max_conn : ℕ
  pub rate : ℕ
  pub rate_burst : ℕ
  pub net_check_sec : ℤ

abbrev pub defaults : Options
defaults = record {
  port = 8080;
  bind_addr = [];
  threads = 0;
  control_path = codes "/tmp/castle.sock";
  services_path = [];
  routes_path = [];
  timeout_sec = pos 30;
  tls_cert = [];
  tls_key = [];
  max_body = 1024 * 1024 * 1024;
  log_file = [];
  max_conn = 0;
  rate = 0;
  rate_burst = 0;
  net_check_sec = pos 30;
}

-- The tests on `val`: a value in range goes to `set`, and any other is an invalid argument.
unfoldable pub set_from : ℕ → ℕ → (ℕ → Options) → ℤ → Option Options
set_from low high set (pos n) = if leb low n && leb n high then some (set n) else none
set_from low high set (negsuc n) = none

abbrev pub long_max : ℕ
long_max = 2 ^ 63 - 1

-- An option with its value, `arg` and `argv[++i]`.
unfoldable pub set_option : Bytes → Bytes → Options → Option Options
unfolding set_from equal
set_option arg value o =
    let val = strtol value in
    if equal arg (codes "--port")
    then set_from 1 65535 (λ n. record o { port = n }) val
    else if equal arg (codes "--bind")
    then some (record o { bind_addr = value })
    else if equal arg (codes "--threads")
    then set_from 0 long_max (λ n. record o { threads = n % 2 ^ 32 }) val
    else if equal arg (codes "--control")
    then some (record o { control_path = value })
    else if equal arg (codes "--services")
    then some (record o { services_path = value })
    else if equal arg (codes "--routes")
    then some (record o { routes_path = value })
    else if equal arg (codes "--timeout")
    then set_from 0 long_max (λ n. record o { timeout_sec = to_int (pos n) }) val
    else if equal arg (codes "--max-body")
    then set_from 0 long_max (λ n. record o { max_body = n }) val
    else if equal arg (codes "--log-file")
    then some (record o { log_file = value })
    else if equal arg (codes "--max-conn")
    then set_from 0 long_max (λ n. record o { max_conn = n }) val
    else if equal arg (codes "--rate")
    then set_from 0 long_max (λ n. record o { rate = n }) val
    else if equal arg (codes "--rate-burst")
    then set_from 0 long_max (λ n. record o { rate_burst = n }) val
    else if equal arg (codes "--net-check")
    then set_from 0 long_max (λ n. record o { net_check_sec = to_int (pos n) }) val
    else if equal arg (codes "--tls-cert")
    then some (record o { tls_cert = value })
    else if equal arg (codes "--tls-key")
    then some (record o { tls_key = value })
    else none

-- `parse_args` over the arguments behind the program's name; `none` is `false`, whatever has been set until
-- then. Every option takes a value, and `--help` ends with `false` too.
unfoldable pub parse_args : List Bytes → Options → Option Options
unfolding set_option
parse_args [] o = some o
parse_args (arg ∷ []) o = none
parse_args (arg ∷ value ∷ rest) o = elim (set_option arg value o) [
  | none ↦ none
  | some p ↦ parse_args rest p
]
