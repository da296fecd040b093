-- ===== src/Supervisor.antt =====
-- src/supervisor/supervisor.h and src/supervisor/supervisor.cpp: the handlers that run on the
-- supervisor's loop. The kernel's answers (fork, the reaped children, the health probes) are
-- arguments of the handlers, and the signals that they send are kept in `sent`. `services_` and
-- `uptime_`, which are index-parallel, are one list of pairs.
pub mod Invariant
pub mod Steps
pub mod Breaker
pub mod Backoff
pub mod Shutdown
pub mod Report
pub mod Rows
pub mod Launch
mod Tests
mod ReportTests
use castle_plus.Prelude.{
  ℕ, suc, ◌+◌, ◌-◌, ◌*◌, ◌/◌, ◌^◌, ◌≡◌, Bool, true, false, not, ◌&&◌, ◌||◌, List, [], ◌∷◌, ◌++◌,
  Option, none, some, Bytes, ltb, leb, ◌==◌, if◌then◌else◌, length, equal, map,
}
use castle_plus.Prelude.Int.{ℤ, pos, negsuc, leb_ℤ, min_ℤ, double, sub_ℕ}
use castle_plus.ServiceConfig.{ServiceConfig}
use castle_plus.Service.{
  Service, Entry, Exit, ServiceState, stopped, backoff, new_entry, alive, publish_uptime,
  schedule_restart, spawn, record_failure, after_failure, second,
}

pub data Signal : Type 0 where
  sigterm sigkill : Signal

pub record Supervisor : Type 0 where
  pub entries : List Entry
  pub shutting_down : Bool
  pub kill_deadline : ℕ
  pub sent : List (Signal × ℕ)
  pub loop_stopped : Bool

abbrev pub grace_sec : ℕ
grace_sec = 5

-- The constructor.
unfoldable pub init : List ServiceConfig → Supervisor
unfolding new_entry
init configs = record {
  entries = map new_entry configs;
  shutting_down = false;
  kill_deadline = 0;
  sent = [];
  loop_stopped = false;
}

-- A child that `waitpid` reports, and the answer of fork if it is to be launched again.
pub record Reaped : Type 0 where
  pub pid : ℕ
  pub status : Exit
  pub fork : Option ℕ

-- The first lines for a child that is found: it is gone.
abbrev pub gone : Entry → Entry
gone e =
    let e' = publish_uptime (record e { service = record (e.service) { pid = none } }) in
    record e' { service = record (e'.service) { health_known = false } }

-- One child in the loop of `on_sigchld`.
unfoldable pub reap : Bool → ℕ → Reaped → Entry → Entry
unfolding publish_uptime spawn record_failure after_failure
reap shutting_down now r e =
    let g = gone e in
    if shutting_down
    then record g { service = record (g.service) { state = stopped } }
    else if g.service.wants_restart
    then spawn
        (record g {
          service = record (g.service) { wants_restart = false; current_backoff_sec = pos 0 };
        })
        now r.fork
    else record g { service = after_failure (record_failure g.service now r.status) now }

abbrev pub has_pid : ℕ → Service → Bool
has_pid p s = elim s.pid [ none ↦ false | some q ↦ q == p ]

-- `find_by_pid` and a change of the service that it finds.
unfoldable pub change_pid : ℕ → (Entry → Entry) → List Entry → List Entry
change_pid p f [] = []
change_pid p f (e ∷ es) = if has_pid p e.service then f e ∷ es else e ∷ change_pid p f es

unfoldable pub reap_all : Bool → ℕ → List Reaped → List Entry → List Entry
unfolding reap change_pid
reap_all shutting_down now [] es = es
reap_all shutting_down now (r ∷ rs) es =
    reap_all shutting_down now rs (change_pid r.pid (reap shutting_down now r) es)

unfoldable pub none_alive : List Entry → Bool
none_alive [] = true
none_alive (e ∷ es) = if alive e.service then false else none_alive es

unfoldable pub finish_if_drained : Supervisor → Supervisor
unfolding none_alive
finish_if_drained v = if none_alive v.entries then record v { loop_stopped = true } else v

-- `on_sigchld`, with the children that are reaped.
unfoldable pub on_sigchld : Supervisor → ℕ → List Reaped → Supervisor
unfolding reap_all finish_if_drained
on_sigchld v now rs =
    let v' = record v { entries = reap_all v.shutting_down now rs v.entries } in
    if v.shutting_down then finish_if_drained v' else v'

-- The first test of a round of `on_tick`.
unfoldable pub relaunch : ℕ → Option ℕ → Entry → Entry
unfolding spawn
relaunch now fork e = elim e.service.state [
  | backoff ↦ if leb_ℤ e.service.next_restart (pos now) then spawn e now fork else e
  | _ ↦ e
]

-- The second test of a round.
unfoldable pub check_health : ℕ → Bool → Entry → Entry
check_health now ok e =
    if alive e.service
      && (not (e.service.cfg.health_port == 0)
          && leb_ℤ e.service.cfg.health_interval_sec (pos ((now - e.service.last_health) / second)))
    then record e {
      service = record (e.service) { healthy = ok; health_known = true; last_health = now };
    }
    else e

-- The rounds of `on_tick`: the answers of fork and of the probe for each service.
unfoldable pub tick_all : ℕ → List (Option ℕ × Bool) → List Entry → List Entry
unfolding relaunch check_health
tick_all now answers [] = []
tick_all now [] (e ∷ es) = check_health now false (relaunch now none e) ∷ tick_all now [] es
tick_all now ((fork, ok) ∷ answers) (e ∷ es) =
    check_health now ok (relaunch now fork e) ∷ tick_all now answers es

-- The children that are sent a signal.
unfoldable pub signal_all : Signal → List Entry → List (Signal × ℕ)
signal_all sig [] = []
signal_all sig (e ∷ es) = elim e.service.pid [
  | none ↦ signal_all sig es
  | some p ↦ (sig, p) ∷ signal_all sig es
]

unfoldable pub on_tick : Supervisor → ℕ → List (Option ℕ × Bool) → Supervisor
unfolding tick_all signal_all finish_if_drained
on_tick v now answers =
    if v.shutting_down
    then finish_if_drained (
        if leb v.kill_deadline now
        then record v { sent = v.sent ++ signal_all sigkill v.entries }
        else v)
    else record v { entries = tick_all now answers v.entries }

-- A service without a child is stopped by the shutdown.
unfoldable pub settle : Entry → Entry
settle e =
    if alive e.service then e else record e { service = record (e.service) { state = stopped } }

unfoldable pub begin_shutdown : Supervisor → ℕ → Supervisor
unfolding signal_all settle finish_if_drained
begin_shutdown v now = finish_if_drained (record v {
  shutting_down = true;
  kill_deadline = now + grace_sec * second;
  sent = v.sent ++ signal_all sigterm v.entries;
  entries = map settle v.entries;
})

-- `do_restart` on the service that is found, and the signals that it sends.
unfoldable pub restart_entry : ℕ → Option ℕ → Entry → Entry × List (Signal × ℕ)
unfolding spawn
restart_entry now fork e = elim e.service.pid [
  | some p ↦ (
    record e { service = record (e.service) { recent_failures = []; wants_restart = true } },
    (sigterm, p) ∷ [],
  )
  | none ↦ (
    spawn
        (record e {
          service = record (e.service) {
            recent_failures = [];
            current_backoff_sec = pos 0;
            wants_restart = false;
          };
        })
        now fork,
    [],
  )
]

-- `find_by_name` and the restart of the service that it finds.
unfoldable pub restart_all :
    ℕ → Option ℕ → Bytes → List Entry → Option (List Entry × List (Signal × ℕ))
unfolding restart_entry
restart_all now fork name [] = none
restart_all now fork name (e ∷ es) =
    let rest = restart_all now fork name es in
    if equal e.service.cfg.name name
    then (let (e', sent) = restart_entry now fork e in some (e' ∷ es, sent))
    else elim rest [ none ↦ none | some (es', sent) ↦ some (e ∷ es', sent) ]

unfoldable pub do_restart : Supervisor → ℕ → Option ℕ → Bytes → Supervisor × Bool
unfolding restart_all
do_restart v now fork name = elim (restart_all now fork name v.entries) [
  | none ↦ (v, false)
  | some (es, sent) ↦ (record v { entries = es; sent = v.sent ++ sent }, true)
]

-- The launches of `start`: the answers of fork for each service.
unfoldable pub start_all : ℕ → List (Option ℕ) → List Entry → List Entry
unfolding spawn
start_all now forks [] = []
start_all now [] (e ∷ es) = spawn e now none ∷ start_all now [] es
start_all now (fork ∷ forks) (e ∷ es) = spawn e now fork ∷ start_all now forks es

-- The constructor and the launches of `start`.
unfoldable pub start : List ServiceConfig → ℕ → List (Option ℕ) → Supervisor
unfolding init start_all
start configs now forks =
    let v = init configs in record v { entries = start_all now forks v.entries }

-- What happens on the supervisor's loop.
pub data Event : Type 0 where
  sigchld : List Reaped → Event
  tick : List (Option ℕ × Bool) → Event
  shutdown : Event
  restart : Bytes → Option ℕ → Event

unfoldable pub handle : Supervisor → ℕ → Event → Supervisor
unfolding on_sigchld on_tick begin_shutdown do_restart
handle v now (sigchld rs) = on_sigchld v now rs
handle v now (tick answers) = on_tick v now answers
handle v now shutdown = begin_shutdown v now
handle v now (restart name fork) = (do_restart v now fork name).0

unfoldable pub run : Supervisor → List (ℕ × Event) → Supervisor
unfolding handle
run v [] = v
run v ((now, e) ∷ es) = run (handle v now e) es
