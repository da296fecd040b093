-- ===== src/CommandLine/Print.antt =====
-- Options written out as arguments.
use castle_plus.Prelude.{
  ℕ, ◌%◌, ◌^◌, ◌<◌, ◌≤◌, ◌≡◌, refl, sym, ap, ◌∙◌, List, [], ◌∷◌, Option, none, some, Bytes, codes,
  equal, arith,
}
use castle_plus.Prelude.Decimal.{decimal, strtol, strtol-decimal}
use castle_plus.Prelude.Int.{pos, to_int, to_int-pos}
use castle_plus.CommandLine.{Options, set_from, long_max, set_option, parse_args}

-- The options, with the two timeouts as plain numbers.
abbrev pub show_options : Options → ℕ → ℕ → List Bytes
show_options o timeout net_check =
    codes "--port"
    ∷ decimal o.port
    ∷ codes "--bind"
    ∷ o.bind_addr
    ∷ codes "--threads"
    ∷ decimal o.threads
    ∷ codes "--control"
    ∷ o.control_path
    ∷ codes "--services"
    ∷ o.services_path
    ∷ codes "--routes"
    ∷ o.routes_path
    ∷ codes "--timeout"
    ∷ decimal timeout
    ∷ codes "--tls-cert"
    ∷ o.tls_cert
    ∷ codes "--tls-key"
    ∷ o.tls_key
    ∷ codes "--max-body"
    ∷ decimal o.max_body
    ∷ codes "--log-file"
    ∷ o.log_file
    ∷ codes "--max-conn"
    ∷ decimal o.max_conn
    ∷ codes "--rate"
    ∷ decimal o.rate
    ∷ codes "--rate-burst"
    ∷ decimal o.rate_burst
    ∷ codes "--net-check"
    ∷ decimal net_check
    ∷ []

set_from-decimal :
    (low high n : ℕ) (set : ℕ → Options)
    → low ≤ n
    → n ≤ high
    → n < 2 ^ 63
    → set_from low high set (strtol (decimal n)) ≡ some (set n)
unfolding set_from
set_from-decimal low high n set l h k =
    ap (set_from low high set) (strtol-decimal n k) ∙ ground arith

parse_step :
    (arg value : Bytes) (rest : List Bytes) (o p : Options)
    → set_option arg value o ≡ some p
    → parse_args (arg ∷ value ∷ rest) o ≡ parse_args rest p
unfolding parse_args
parse_step arg value rest o p h =
    ap (λ (x : Option Options). elim x [ none ↦ none | some q ↦ parse_args rest q ]) h

-- The arguments of one option set its field.
abbrev Sets : Bytes → Bytes → Options → Options → Type 0
Sets arg value o p = (rest : List Bytes) → parse_args (arg ∷ value ∷ rest) o ≡ parse_args rest p

set_port :
    (n : ℕ) (o : Options)
    → 1 ≤ n
    → n ≤ 65535
    → Sets (codes "--port") (decimal n) o (record o { port = n })
unfolding set_option equal
set_port n o l h rest =
    parse_step (codes "--port") (decimal n) rest o (record o { port = n })
      (set_from-decimal 1 65535 n (λ n. record o { port = n }) l h (omega arith))

set_threads :
    (n : ℕ) (o : Options)
    → n < 2 ^ 32
    → Sets (codes "--threads") (decimal n) o (record o { threads = n })
unfolding set_option equal
set_threads n o h rest =
    let e : n % 2 ^ 32 ≡ n = omega arith in
    parse_step (codes "--threads") (decimal n) rest o (record o { threads = n })
      (set_from-decimal 0 long_max n (λ n. record o { threads = n % 2 ^ 32 }) (omega arith)
          (omega arith) (omega arith)
        ∙ ap (λ n. some (record o { threads = n })) e)

set_timeout_sec :
    (n : ℕ) (o : Options)
    → n < 2 ^ 31
    → Sets (codes "--timeout") (decimal n) o (record o { timeout_sec = pos n })
unfolding set_option equal
set_timeout_sec n o h rest =
    parse_step (codes "--timeout") (decimal n) rest o (record o { timeout_sec = pos n })
      (set_from-decimal 0 long_max n (λ n. record o { timeout_sec = to_int (pos n) }) (omega arith)
          (omega arith) (omega arith)
        ∙ ap (λ z. some (record o { timeout_sec = z })) (to_int-pos n h))

set_net_check_sec :
    (n : ℕ) (o : Options)
    → n < 2 ^ 31
    → Sets (codes "--net-check") (decimal n) o (record o { net_check_sec = pos n })
unfolding set_option equal
set_net_check_sec n o h rest =
    parse_step (codes "--net-check") (decimal n) rest o (record o { net_check_sec = pos n })
      (set_from-decimal 0 long_max n (λ n. record o { net_check_sec = to_int (pos n) })
          (omega arith) (omega arith) (omega arith)
        ∙ ap (λ z. some (record o { net_check_sec = z })) (to_int-pos n h))

-- The amounts, which are kept as they are read.
set_amount :
    (arg : Bytes) (n : ℕ) (o : Options) (set : ℕ → Options)
    → ((value : Bytes) → set_option arg value o ≡ set_from 0 long_max set (strtol value))
    → n < 2 ^ 63
    → Sets arg (decimal n) o (set n)
set_amount arg n o set e h rest =
    parse_step arg (decimal n) rest o (set n)
      (e (decimal n) ∙ set_from-decimal 0 long_max n set (omega arith) (omega arith) h)

-- A command line that spells every option out is read as those options, whatever the defaults are: the port
-- between 1 and 65535, the threads below 2 ^ 32, the two times below 2 ^ 31 and the amounts below 2 ^ 63.
pub parse_args-show_options :
    (o d : Options) (timeout net_check : ℕ)
    → o.timeout_sec ≡ pos timeout
    → o.net_check_sec ≡ pos net_check
    → (1 ≤ o.port) × (o.port ≤ 65535)
    → o.threads < 2 ^ 32
    → (timeout < 2 ^ 31) × (net_check < 2 ^ 31)
    → (o.max_body < 2 ^ 63) × (o.max_conn < 2 ^ 63) × (o.rate < 2 ^ 63) × (o.rate_burst < 2 ^ 63)
    → parse_args (show_options o timeout net_check) d ≡ some o
unfolding set_option equal parse_args
parse_args-show_options o d timeout net_check et en p t s a =
    let net : List Bytes = codes "--net-check" ∷ decimal net_check ∷ [] in
    let burst : List Bytes = codes "--rate-burst" ∷ decimal o.rate_burst ∷ net in
    let rate : List Bytes = codes "--rate" ∷ decimal o.rate ∷ burst in
    let conn : List Bytes = codes "--max-conn" ∷ decimal o.max_conn ∷ rate in
    let body : List Bytes =
      codes "--max-body" ∷ decimal o.max_body ∷ codes "--log-file" ∷ o.log_file ∷ conn in
    let time : List Bytes =
      codes "--timeout"
      ∷ decimal timeout
      ∷ codes "--tls-cert"
      ∷ o.tls_cert
      ∷ codes "--tls-key"
      ∷ o.tls_key
      ∷ body in
    let threads : List Bytes =
      codes "--threads"
      ∷ decimal o.threads
      ∷ codes "--control"
      ∷ o.control_path
      ∷ codes "--services"
      ∷ o.services_path
      ∷ codes "--routes"
      ∷ o.routes_path
      ∷ time in
    let d1 = record d { port = o.port; bind_addr = o.bind_addr } in
    let d2 = record d1 {
      threads = o.threads;
      control_path = o.control_path;
      services_path = o.services_path;
      routes_path = o.routes_path;
    } in
    let d3 = record d2 { timeout_sec = pos timeout; tls_cert = o.tls_cert; tls_key = o.tls_key } in
    let d4 = record d3 { max_body = o.max_body; log_file = o.log_file } in
    let d5 = record d4 { max_conn = o.max_conn } in
    let d6 = record d5 { rate = o.rate } in
    let d7 = record d6 { rate_burst = o.rate_burst } in
    set_port o.port d p.0 p.1 (codes "--bind" ∷ o.bind_addr ∷ threads)
    ∙ set_threads o.threads d1 t (
        codes "--control"
        ∷ o.control_path
        ∷ codes "--services"
        ∷ o.services_path
        ∷ codes "--routes"
        ∷ o.routes_path
        ∷ time)
    ∙ set_timeout_sec timeout d2 s.0
        (codes "--tls-cert" ∷ o.tls_cert ∷ codes "--tls-key" ∷ o.tls_key ∷ body)
    ∙ set_amount (codes "--max-body") o.max_body d3 (λ n. record d3 { max_body = n }) (λ v. refl)
        a.0 (codes "--log-file" ∷ o.log_file ∷ conn)
    ∙ set_amount (codes "--max-conn") o.max_conn d4 (λ n. record d4 { max_conn = n }) (λ v. refl)
        a.1 rate
    ∙ set_amount (codes "--rate") o.rate d5 (λ n. record d5 { rate = n }) (λ v. refl) a.2 burst
    ∙ set_amount (codes "--rate-burst") o.rate_burst d6 (λ n. record d6 { rate_burst = n })
        (λ v. refl) a.3 net
    ∙ set_net_check_sec net_check d7 s.1 []
    ∙ ap (λ z. some (record o { timeout_sec = z; net_check_sec = pos net_check })) (sym et)
    ∙ ap (λ z. some (record o { net_check_sec = z })) (sym en)
