-- ===== src/Startup.antt =====
-- src/main.cpp: `main`, from the parsed options to the parts that run, and the end on a signal. The files, the number
-- of cores, and what TLS, the kernel and the parts answer to their set-up are arguments.
use castle_plus.Prelude.{
  ℕ, zero, suc, max, Bool, true, false, not, ◌&&◌, ◌||◌, List, [], ◌∷◌, ◌++◌, Option, none, some,
  Bytes, is_empty, ltb, length, ◌==◌, if◌then◌else◌,
}
use castle_plus.Prelude.Int.{ℤ, pos, ltb_ℤ}
use castle_plus.Prelude.Result.{Result, err, ok, ◌>>=◌}
use castle_plus.CommandLine.{Options, defaults, parse_args}
use castle_plus.ServiceConfig.{ServiceConfig, ParseError, parse_services_file}
use castle_plus.Router.{Route, LoadError, load}
pub mod Checked
mod Tests

-- Why `main` returns 1.
pub data Failure : Type 0 where
  services_refused : ParseError → Failure
  routes_refused : LoadError → Failure
  tls_incomplete tls_refused tls_without_routes : Failure
  no_listener : ℕ → Failure

pub record World : Type 0 where
  pub file : Bytes → Option Bytes
  pub cores : ℕ
  pub supervisor_starts : Bool
  pub tls_init : Bytes → Bytes → Bool
  pub listener : ℕ → Bool
  -- Whether the epoll descriptor of a loop takes its listener; none is made where the loop's constructor fails.
  pub takes : ℕ → Bool
  pub control_starts : Bool

-- What the listeners speak.
pub data Speech : Type 0 where
  echo : Speech
  http https : List Route → Speech

-- The parts that run.
pub record Running : Type 0 where
  pub supervisor : Option (List ServiceConfig)
  pub speech : Speech
  -- The loops, each with whether it has its listener.
  pub loops : List Bool
  pub idle_timeouts : Bool
  pub limiter : Option (ℕ × ℕ)
  pub net_watch : Bool
  pub control : Bool

-- `n_threads`.
unfoldable pub thread_count : World → Options → ℕ
thread_count w o = if o.threads == 0 then max 1 w.cores else o.threads

-- The rate and the burst of the limiter, in connections.
unfoldable pub limiter_of : Options → Option (ℕ × ℕ)
limiter_of o =
    if ltb 0 o.rate
    then some (o.rate, (if ltb 0 o.rate_burst then o.rate_burst else o.rate))
    else none

unfoldable pub start_supervisor : World → Options → Result Failure (Option (List ServiceConfig))
unfolding parse_services_file
start_supervisor w o =
    if is_empty o.services_path
    then ok none
    else elim (parse_services_file (w.file o.services_path)) [
      | err why ↦ err (services_refused why)
      | ok configs ↦ ok (if w.supervisor_starts then some configs else none)
    ]

-- The tests on the two TLS paths, and the set-up of TLS; whether TLS is on.
unfoldable pub set_up_tls : World → Options → Result Failure Bool
set_up_tls w o =
    if is_empty o.tls_cert && is_empty o.tls_key
    then ok false
    else if is_empty o.tls_cert || is_empty o.tls_key
    then err tls_incomplete
    else if w.tls_init o.tls_cert o.tls_key
    then ok true
    else err tls_refused

unfoldable pub choose_speech : World → Options → Result Failure Speech
unfolding load set_up_tls
choose_speech w o =
    if is_empty o.routes_path
    then (if is_empty o.tls_cert then ok echo else err tls_without_routes)
    else elim (load (w.file o.routes_path)) [
      | err why ↦ err (routes_refused why)
      | ok routes ↦ set_up_tls w o >>= (λ tls. ok (if tls then https routes else http routes))
    ]

-- The loops from `i` on, `n` of them. `EventLoop::add` drops a listener that epoll does not take, and `main` goes on.
unfoldable pub open_loops : World → ℕ → ℕ → Result Failure (List Bool)
open_loops w i zero = ok []
open_loops w i (suc n) = elim (w.listener i) [
  | true ↦ open_loops w (suc i) n >>= (λ rest. ok (w.takes i ∷ rest))
  | false ↦ err (no_listener i)
]

-- `main`, behind the options and up to the wait for a signal.
unfoldable pub start_up : World → Options → Result Failure Running
unfolding start_supervisor choose_speech open_loops thread_count limiter_of
start_up w o = do
  supervisor ← start_supervisor w o
  speech ← choose_speech w o
  loops ← open_loops w 0 (thread_count w o)
  ok (record {
    supervisor = supervisor;
    speech = speech;
    loops = loops;
    idle_timeouts = ltb_ℤ (pos 0) o.timeout_sec;
    limiter = limiter_of o;
    net_watch = ltb_ℤ (pos 0) o.net_check_sec;
    control = not (is_empty o.control_path) && w.control_starts;
  })

pub data Signal : Type 0 where
  sigint sigterm sighup : Signal

-- What a SIGHUP leaves in the log.
pub data Notice : Type 0 where
  reloaded reload_failed nothing_to_reload : Notice

pub data Part : Type 0 where
  control_server connectivity_monitor process_supervisor : Part
  loop worker : ℕ → Part

abbrev pub is_https : Speech → Bool
is_https echo = false
is_https (http routes) = false
is_https (https routes) = true

-- One SIGHUP, with the answer of the reload.
unfoldable pub on_sighup : Speech → Bool → Notice
on_sighup speech reload =
    if is_https speech then (if reload then reloaded else reload_failed) else nothing_to_reload

-- The loop over `sigwait`: the notices, and whether a signal has ended it.
unfoldable pub wait_signals : Speech → List (Signal × Bool) → List Notice × Bool
unfolding on_sighup
wait_signals speech [] = ([], false)
wait_signals speech ((sigint, reload) ∷ ss) = ([], true)
wait_signals speech ((sigterm, reload) ∷ ss) = ([], true)
wait_signals speech ((sighup, reload) ∷ ss) =
    let (notices, ended) = wait_signals speech ss in (on_sighup speech reload ∷ notices, ended)

-- The parts `f` numbers from `i` on, `n` of them.
unfoldable pub numbered : (ℕ → Part) → ℕ → ℕ → List Part
numbered f i zero = []
numbered f i (suc n) = f i ∷ numbered f (suc i) n

-- The parts in the order in which they are stopped.
unfoldable pub stop_order : Running → List Part
unfolding numbered
stop_order r =
    (if r.control then control_server ∷ [] else [])
    ++ ((if r.net_watch then connectivity_monitor ∷ [] else [])
        ++ (elim r.supervisor [ none ↦ [] | some configs ↦ process_supervisor ∷ [] ]
            ++ (numbered loop 0 (length r.loops) ++ numbered worker 0 (length r.loops))))

-- How `main` ends, or that it still runs.
pub data Outcome : Type 0 where
  exits : ℕ → List Part → List Notice → Outcome
  runs : List Notice → Outcome

abbrev pub ended : Running → List Notice × Bool → Outcome
ended r (notices, true) = exits 0 (stop_order r) notices
ended r (notices, false) = runs notices

unfoldable pub serve : Result Failure Running → List (Signal × Bool) → Outcome
unfolding stop_order wait_signals
serve (err why) ss = exits 1 [] []
serve (ok r) ss = ended r (wait_signals r.speech ss)

unfoldable pub main : World → List Bytes → List (Signal × Bool) → Outcome
unfolding parse_args start_up serve
main w args ss = elim (parse_args args defaults) [
  | none ↦ exits 2 [] []
  | some o ↦ serve (start_up w o) ss
]
