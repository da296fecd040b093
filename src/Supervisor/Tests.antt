-- ===== src/Supervisor/Tests.antt =====
-- A supervisor of two services on concrete events.
use castle_plus.Prelude.{
  ℕ, ◌*◌, ◌≡◌, refl, true, false, List, [], ◌∷◌, ◌++◌, none, some, codes, arith, map, get_elem?,
  equal,
}
use castle_plus.ServiceConfig.{ServiceConfig, new_service}
use castle_plus.Service.{
  ServiceState, running, backoff, failed, quarantined, exited, signaled, Entry, new_entry, spawn,
  second, prune_failures, publish_uptime, record_failure, after_failure, schedule_restart,
  mark_down, next_backoff,
}
use castle_plus.Supervisor.{
  Supervisor, sigterm, Reaped, Event, sigchld, tick, shutdown, restart, start, init, handle, run,
  reap, on_sigchld, begin_shutdown,
}
use castle_plus.Supervisor.Backoff.{Crash}
use castle_plus.Supervisor.Breaker.{in_window, reap-outcome, handle_quarantined}
use castle_plus.Supervisor.Shutdown.{children, begin_shutdown_drains}
use castle_plus.Supervisor.Steps.{AllValid, run-start-AllValid}

abbrev web : ServiceConfig
web = record (new_service (codes "web")) { exec = codes "/bin/web" }

abbrev db : ServiceConfig
db = record (new_service (codes "db")) { exec = codes "/bin/db"; autorestart = false }

abbrev up : Supervisor
up = start (web ∷ db ∷ []) second (some 41 ∷ some 42 ∷ [])

abbrev crash : Reaped
crash = record { pid = 41; status = signaled 11; fork = none }

abbrev leave : Reaped
leave = record { pid = 42; status = exited 0; fork = none }

abbrev history : List (ℕ × Event)
history =
    (2 * second, sigchld (crash ∷ leave ∷ []))
    ∷ (3 * second, tick ((some 43, false) ∷ (none, false) ∷ []))
    ∷ (4 * second, restart (codes "db") (some 44))
    ∷ (5 * second, shutdown)
    ∷ []

states : List Entry → List ServiceState
states [] = []
states (e ∷ es) = e.service.state ∷ states es

run-crash : states (on_sigchld up (2 * second) (crash ∷ leave ∷ [])).entries ≡ backoff ∷ failed ∷ []
unfolding states on_sigchld start init reap publish_uptime record_failure after_failure spawn
    prune_failures schedule_restart mark_down
run-crash = refl

run-history : (run up history).sent ≡ (sigterm, 43) ∷ (sigterm, 44) ∷ []
unfolding run handle start init reap publish_uptime record_failure after_failure spawn
    prune_failures schedule_restart mark_down equal next_backoff
run-history = refl

run-start-AllValid_example : AllValid (5 * second) (run up history)
run-start-AllValid_example =
    run-start-AllValid (web ∷ db ∷ []) second (some 41 ∷ some 42 ∷ []) history (omega arith)

abbrev looping : Entry
looping = record (new_entry web) {
  service = record ((new_entry web).service) {
    pid = some 41;
    state = running;
    recent_failures = 1 ∷ 2 ∷ 3 ∷ 4 ∷ 5 ∷ [];
    failure_count = 5;
  };
}

reap-outcome_example :
    ((reap false 6 crash looping).service.state ≡ quarantined)
    × ((reap false 6 crash looping).service.failure_count ≡ 6)
    × ((reap false 6 crash looping).service.pid ≡ none)
unfolding in_window new_entry
reap-outcome_example = reap-outcome 6 crash looping refl (omega arith)

abbrev quarantine : Entry
quarantine = record looping {
  service = record (looping.service) { pid = none; state = quarantined };
}

abbrev stuck : Supervisor
stuck = record (init []) { entries = looping ∷ quarantine ∷ [] }

handle_quarantined_example :
    get_elem? (handle stuck (2 * second) (tick ((none, true) ∷ (some 7, true) ∷ []))).entries 1
    ≡ some quarantine
handle_quarantined_example =
    handle_quarantined stuck (2 * second) (tick ((none, true) ∷ (some 7, true) ∷ [])) 1 quarantine
      refl refl refl tt

-- Three crashes, the latest first, each a second behind its launch.
abbrev crashes : List Crash
crashes =
    record { launch = 9 * second; child = 53; failure = 10 * second }
    ∷ record { launch = 5 * second; child = 52; failure = 6 * second }
    ∷ []

abbrev last_crash : Crash
last_crash = record { launch = 20 * second; child = 54; failure = 21 * second }

begin_shutdown_drains_example :
    ((begin_shutdown up second).sent ≡ up.sent ++ map (λ p. (sigterm, p)) (children up.entries))
    × ((on_sigchld (begin_shutdown up second) (2 * second) (crash ∷ leave ∷ [])).loop_stopped
        ≡ true)
    × (children (on_sigchld (begin_shutdown up second) (2 * second) (crash ∷ leave ∷ [])).entries
        ≡ [])
unfolding children start init spawn
begin_shutdown_drains_example =
    begin_shutdown_drains up second (2 * second) (crash ∷ leave ∷ []) refl

abbrev closing : Supervisor
closing = record stuck { shutting_down = true; kill_deadline = 3 * second }
