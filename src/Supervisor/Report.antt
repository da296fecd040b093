-- ===== src/Supervisor/Report.antt =====
-- The reports of src/supervisor/supervisor.cpp: `render_services`, `render_backend_status`, and the answers that a
-- caller on another thread gets. What libc makes of a signal's number and of a wall-clock time is a parameter.
use castle_plus.Prelude.{
  ℕ, suc, ◌-◌, ◌/◌, ◌*◌, Bool, false, List, [], ◌∷◌, ◌++◌, Option, none, some, Bytes, codes, leb,
  ◌==◌, if◌then◌else◌, length, take, pad, cat,
}
use castle_plus.Prelude.Int.{ℤ, pos}
use castle_plus.Prelude.Decimal.{decimal}
use castle_plus.Uptime.{human_duration}
use castle_plus.Service.{
  Service, Entry, Exit, exited, signaled, other, ServiceState, stopped, running, backoff, failed,
  quarantined, failure_window, max_failures, second, alive,
}

-- `to_string` of a state.
unfoldable pub state_text : ServiceState → Bytes
state_text stopped = codes "stopped"
state_text running = codes "running"
state_text backoff = codes "backoff"
state_text failed = codes "failed"
state_text quarantined = codes "quarantined"

-- What stands in the column HEALTH.
unfoldable pub health_text : Service → Bytes
health_text s =
    if s.cfg.health_port == 0
    then codes "-"
    else if s.health_known
    then (if s.healthy then codes "up" else codes "down")
    else codes "?"

-- What stands in the column PID.
unfoldable pub pid_text : Option ℕ → Bytes
pid_text none = codes "-"
pid_text (some p) = take 11 (decimal p)

-- A row of `render_services`, before it is cut and ended.
unfoldable pub service_text : Service → Bytes
unfolding state_text health_text pid_text pad
service_text s = cat (
    pad 20 s.cfg.name
    ∷ codes " "
    ∷ pad 12 (state_text s.state)
    ∷ codes " "
    ∷ pad 8 (pid_text s.pid)
    ∷ codes " "
    ∷ pad 8 (health_text s)
    ∷ codes " "
    ∷ decimal s.restart_count
    ∷ [])

-- `snprintf` into `char line[160]`.
abbrev pub service_row : Service → Bytes
service_row s = take 159 (service_text s ++ (b'\n' ∷ []))

unfoldable pub service_rows : List Entry → Bytes
unfolding service_text
service_rows [] = []
service_rows (e ∷ es) = service_row e.service ++ service_rows es

abbrev pub services_header : Bytes
services_header = codes "NAME                 STATE        PID      HEALTH   RESTARTS"

unfoldable pub render_services : List Entry → Bytes
unfolding service_rows
render_services es = services_header ++ (b'\n' ∷ service_rows es)

-- `kRecentWindow`, in nanoseconds.
abbrev pub recent_window : ℕ
recent_window = 3_600 * second

-- The failures that are at most `window` old.
unfoldable pub count_within : ℕ → ℕ → List ℕ → ℕ
count_within window now [] = 0
count_within window now (t ∷ ts) =
    let rest = count_within window now ts in if leb (now - t) window then suc rest else rest

-- The whole seconds from `since` to `now`, on the steady clock.
abbrev pub seconds_since : ℕ → ℕ → ℤ
seconds_since now since = pos ((now - since) / second)

-- UPTIME means something only while a child is alive.
unfoldable pub uptime_text : ℕ → Service → Bytes
unfolding human_duration
uptime_text now s = elim s.state [
  | running ↦ if alive s then human_duration (seconds_since now s.last_start) else codes "-"
  | _ ↦ codes "-"
]

-- The services that are permanently down.
unfoldable pub count_down : List Entry → ℕ
count_down [] = 0
count_down (e ∷ es) = let rest = count_down es in if e.service.is_down then suc rest else rest

-- The answer that `future::wait_for` gives, and what is said in its place.
unfoldable pub describe : Option Bytes → Bytes
describe none = codes "supervisor not responding\n"
describe (some text) = text

-- `restart_service`: an answer that does not come in time counts as a refusal.
unfoldable pub restart_service : Option Bool → Bool
restart_service none = false
restart_service (some found) = found

-- `strsignal`, and `wall_timestamp` of the time at which a service went down.
module _ (strsignal : ℕ → Bytes) (down_since : Service → Bytes) where
  -- The reason that `record_failure` keeps, in `char reason[64]`.
  unfoldable pub reason_text : Exit → Bytes
  reason_text (exited n) = take 63 (codes "exit " ++ decimal n)
  reason_text (signaled n) =
      take 63 (codes "signal " ++ (decimal n ++ (codes " (" ++ (strsignal n ++ codes ")"))))
  reason_text other = codes "unknown"

  unfoldable pub last_failure_text : ℕ → Service → Bytes
  unfolding human_duration reason_text
  last_failure_text now s =
      if s.ever_failed
      then human_duration (seconds_since now s.last_failure_mono)
        ++ (codes " ago (" ++ (reason_text s.last_failure_reason ++ codes ")"))
      else codes "-"

  -- A row of `render_backend_status`, in `char line[256]`.
  unfoldable pub backend_row : ℕ → Service → Bytes
  unfolding state_text uptime_text count_within last_failure_text pad
  backend_row now s = take 255 (
      cat (
        pad 20 s.cfg.name
        ∷ codes " "
        ∷ pad 12 (state_text s.state)
        ∷ codes " "
        ∷ pad 12 (uptime_text now s)
        ∷ codes " "
        ∷ pad 13 (decimal (count_within recent_window now s.recent_failures))
        ∷ codes " "
        ∷ pad 4 (decimal (count_within failure_window now s.recent_failures))
        ∷ codes " "
        ∷ pad 7 (decimal s.failure_count)
        ∷ codes " "
        ∷ last_failure_text now s
        ∷ codes "\n"
        ∷ []))

  -- The common first line of a call-out.
  abbrev pub outage_since : ℕ → Service → Bytes → Bytes
  outage_since now s what = cat (
      codes "  '"
      ∷ s.cfg.name
      ∷ codes "' "
      ∷ what
      ∷ codes " "
      ∷ human_duration (seconds_since now s.down_since_mono)
      ∷ codes " ago (at "
      ∷ down_since s
      ∷ codes ")\n"
      ∷ [])

  -- The common end of a call-out.
  abbrev pub outage_end : Service → Bytes
  outage_end s = cat (
      codes "      last failure: "
      ∷ reason_text s.last_failure_reason
      ∷ codes "\n      recover with: restart "
      ∷ s.cfg.name
      ∷ codes "\n"
      ∷ [])

  -- A service that is permanently down is called out, in `char line[512]`.
  unfoldable pub outage_text : ℕ → Service → Bytes
  unfolding human_duration reason_text
  outage_text now s = elim s.state [
    | quarantined ↦ take 511 (
        cat (
          outage_since now s (codes "quarantined")
          ∷ codes "      tripped by "
          ∷ decimal (length s.recent_failures)
          ∷ codes " failures within 24h (limit "
          ∷ decimal max_failures
          ∷ codes ")\n"
          ∷ outage_end s
          ∷ []))
    | _ ↦ take 511 (
        cat (
          outage_since now s (codes "down")
          ∷ codes "      exited with autorestart disabled\n"
          ∷ outage_end s
          ∷ []))
  ]

  unfoldable pub backend_rows : ℕ → List Entry → Bytes
  unfolding backend_row
  backend_rows now [] = []
  backend_rows now (e ∷ es) = backend_row now e.service ++ backend_rows now es

  unfoldable pub outages : ℕ → List Entry → Bytes
  unfolding outage_text
  outages now [] = []
  outages now (e ∷ es) =
      let rest = outages now es in
      if e.service.is_down then outage_text now e.service ++ rest else rest

  abbrev pub none_configured : List Entry → Bytes
  none_configured [] = codes "(no services configured)\n"
  none_configured (e ∷ es) = []

  -- The em dash is its three UTF-8 bytes.
  abbrev pub outages_header : Bytes
  outages_header =
      cat (
        codes "\nPERMANENTLY DOWN " ∷ (226 ∷ 128 ∷ 148 ∷ []) ∷ codes " not being restarted:\n" ∷ [])

  unfoldable pub render_backend_status : ℕ → List Entry → Bytes
  unfolding backend_rows outages count_down
  render_backend_status now es = cat (
      codes
        "NAME                 STATE        UPTIME       FAILURES: 1h  24h  TOTAL   LAST FAILURE\n"
      ∷ backend_rows now es
      ∷ none_configured es
      ∷ (if count_down es == 0 then [] else outages_header ++ outages now es)
      ∷ [])
