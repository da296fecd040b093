-- ===== src/Service.antt =====
-- src/supervisor/service.h and the parts of src/supervisor/supervisor.cpp that change one service.
-- An instant is a number of nanoseconds of the steady clock, and a handler reads the clock once. The
-- wall-clock twins of the instants, which are only printed, are left out.
use castle_plus.Prelude.{
  ℕ, suc, ◌+◌, ◌-◌, ◌*◌, ◌/◌, ◌^◌, Bool, true, false, not, List, [], ◌∷◌, ◌++◌, Option, none, some,
  Bytes, ltb, leb, ◌==◌, if◌then◌else◌, length,
}
use castle_plus.Prelude.Int.{ℤ, pos, negsuc, min_ℤ, double, sub_ℕ}
use castle_plus.ServiceConfig.{ServiceConfig}

pub data ServiceState : Type 0 where
  stopped running backoff failed quarantined : ServiceState

-- A status as `waitpid` returns it.
pub data Exit : Type 0 where
  exited signaled : ℕ → Exit
  other : Exit

pub record Service : Type 0 where
  pub cfg : ServiceConfig
  pub pid : Option ℕ
  pub state : ServiceState
  pub restart_count : ℕ
  pub current_backoff_sec : ℤ
  pub wants_restart : Bool
  pub health_known : Bool
  pub healthy : Bool
  pub failure_count : ℕ
  pub recent_failures : List ℕ
  pub ever_failed : Bool
  pub last_failure_mono : ℕ
  pub last_failure_reason : Exit
  pub is_down : Bool
  pub down_since_mono : ℕ
  pub next_restart : ℤ
  pub last_start : ℕ
  pub last_health : ℕ

pub record ServiceUptime : Type 0 where
  pub name : Bytes
  pub running : Bool
  pub since : ℕ

pub record Entry : Type 0 where
  pub service : Service
  pub uptime : ServiceUptime

abbrev pub second : ℕ
second = 10 ^ 9

abbrev pub stable_sec : ℕ
stable_sec = 10

abbrev pub max_failures : ℕ
max_failures = 5

-- 24 hours.
abbrev pub failure_window : ℕ
failure_window = 86_400 * second

unfoldable pub new_entry : ServiceConfig → Entry
new_entry c = record {
  service = record {
    cfg = c;
    pid = none;
    state = stopped;
    restart_count = 0;
    current_backoff_sec = pos 0;
    wants_restart = false;
    health_known = false;
    healthy = false;
    failure_count = 0;
    recent_failures = [];
    ever_failed = false;
    last_failure_mono = 0;
    last_failure_reason = other;
    is_down = false;
    down_since_mono = 0;
    next_restart = pos 0;
    last_start = 0;
    last_health = 0;
  };
  uptime = record { name = c.name; running = false; since = 0 };
}

-- `s.pid > 0`.
abbrev pub alive : Service → Bool
alive s = elim s.pid [ none ↦ false | some p ↦ true ]

unfoldable pub publish_uptime : Entry → Entry
publish_uptime e = record e {
  uptime = record { name = e.uptime.name; running = alive e.service; since = e.service.last_start };
}

-- `now + seconds(n)`.
unfoldable pub seconds_after : ℕ → ℤ → ℤ
seconds_after now (pos n) = pos (now + n * second)
seconds_after now (negsuc n) = sub_ℕ now (suc n * second)

-- The three ways in which `schedule_restart` sets the delay; `ran` is in seconds.
unfoldable pub next_backoff : Service → ℕ → ℤ
unfolding double
next_backoff s ran =
    if leb stable_sec ran then s.cfg.backoff_min_sec else elim s.current_backoff_sec [
      | pos n ↦
          if n == 0 then s.cfg.backoff_min_sec else min_ℤ (double (pos n)) s.cfg.backoff_max_sec
      | negsuc n ↦ min_ℤ (double (negsuc n)) s.cfg.backoff_max_sec
    ]

unfoldable pub schedule_restart : Service → ℕ → Service
unfolding next_backoff seconds_after
schedule_restart s now =
    let delay = next_backoff s ((now - s.last_start) / second) in
    record s {
      current_backoff_sec = delay;
      restart_count = s.restart_count + 1;
      state = backoff;
      next_restart = seconds_after now delay;
    }

-- The parent's half of `spawn`, with the new child's pid.
unfoldable pub launched : Service → ℕ → ℕ → Service
launched s now pid = record s { pid = some pid; state = running; is_down = false; last_start = now }

-- `spawn`; `none` is a fork that fails.
unfoldable pub spawn : Entry → ℕ → Option ℕ → Entry
unfolding schedule_restart publish_uptime launched
spawn e now none = record e { service = schedule_restart e.service now }
spawn e now (some pid) = publish_uptime (record e { service = launched e.service now pid })

-- `prune_failures`, on the window of a service.
unfoldable pub prune_failures : List ℕ → ℕ → List ℕ
prune_failures [] now = []
prune_failures (t ∷ ts) now = if ltb failure_window (now - t) then prune_failures ts now else t ∷ ts

unfoldable pub mark_down : Service → ℕ → Service
mark_down s now = if s.is_down then s else record s { is_down = true; down_since_mono = now }

unfoldable pub record_failure : Service → ℕ → Exit → Service
unfolding prune_failures
record_failure s now status = record s {
  failure_count = s.failure_count + 1;
  ever_failed = true;
  last_failure_mono = now;
  last_failure_reason = status;
  recent_failures = prune_failures (s.recent_failures ++ (now ∷ [])) now;
}

-- What follows `record_failure` in `on_sigchld`.
unfoldable pub after_failure : Service → ℕ → Service
unfolding mark_down schedule_restart
after_failure s now =
    if not s.cfg.autorestart
    then mark_down (record s { state = failed }) now
    else if ltb max_failures (length s.recent_failures)
    then mark_down (record s { state = quarantined }) now
    else schedule_restart s now
