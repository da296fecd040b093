-- ===== src/Supervisor/Invariant.antt =====
-- What holds of every service between two events of the supervisor's loop.
use castle_plus.Prelude.{
  ℕ, ◌≤◌, ◌≡◌, refl, Bool, true, false, List, [], ◌∷◌, ◌++◌, Option, none, some, arith, ltb,
  if◌then◌else◌, length, length-append, All, not, if_both,
}
use castle_plus.Prelude.Int.{pos}
use castle_plus.ServiceConfig.{ServiceConfig}
use castle_plus.Service.{
  ServiceState, stopped, running, backoff, failed, quarantined, Entry, new_entry, alive,
  publish_uptime, schedule_restart, spawn, prune_failures, mark_down, record_failure, after_failure,
  max_failures,
}
use castle_plus.Supervisor.{Reaped, reap, gone}

-- A service has a child exactly while it is `Running`.
abbrev pub ChildFits : ServiceState → Option ℕ → Type 0
ChildFits running none = ⊥
ChildFits running (some p) = Unit
ChildFits _ none = Unit
ChildFits _ (some p) = ⊥

-- A service that runs, or waits to be launched again, is below the limit of the circuit breaker.
abbrev pub BreakerFits : ServiceState → List ℕ → Type 0
BreakerFits running ts = length ts ≤ max_failures
BreakerFits backoff ts = length ts ≤ max_failures
BreakerFits _ ts = Unit

-- A service that is down for good is stamped so.
abbrev pub DownFits : ServiceState → Bool → Type 0
DownFits failed b = b ≡ true
DownFits quarantined b = b ≡ true
DownFits _ b = Unit

-- Instants in order, none after `now`.
abbrev pub IsHistory : List ℕ → ℕ → Type 0
IsHistory [] now = Unit
IsHistory (t ∷ ts) now = (t ≤ now) × All (λ u. t ≤ u) ts × IsHistory ts now

pub record IsValid (now : ℕ) (e : Entry) : Type 0 where
  pub child : ChildFits e.service.state e.service.pid
  pub breaker : BreakerFits e.service.state e.service.recent_failures
  pub down : DownFits e.service.state e.service.is_down
  pub history : IsHistory e.service.recent_failures now
  pub counted : length e.service.recent_failures ≤ e.service.failure_count
  pub mirror_running : e.uptime.running ≡ alive e.service
  pub mirror_since : e.uptime.since ≡ e.service.last_start
  pub mirror_name : e.uptime.name ≡ e.service.cfg.name

IsHistory-later : (ts : List ℕ) (now t : ℕ) → now ≤ t → IsHistory ts now → IsHistory ts t
IsHistory-later [] now t h v = tt
IsHistory-later (u ∷ ts) now t h v = (omega arith, v.1, IsHistory-later ts now t h v.2)

pub IsValid-later : (now t : ℕ) (e : Entry) → now ≤ t → IsValid now e → IsValid t e
IsValid-later now t e h v = record {
  child = v.child;
  breaker = v.breaker;
  down = v.down;
  history = IsHistory-later e.service.recent_failures now t h v.history;
  counted = v.counted;
  mirror_running = v.mirror_running;
  mirror_since = v.mirror_since;
  mirror_name = v.mirror_name;
}

-- Before a launch the service has no child.
pub record IsReady (now : ℕ) (e : Entry) : Type 0 where
  pub childless : e.service.pid ≡ none
  pub breaker : length e.service.recent_failures ≤ max_failures
  pub history : IsHistory e.service.recent_failures now
  pub counted : length e.service.recent_failures ≤ e.service.failure_count
  pub mirror_running : e.uptime.running ≡ alive e.service
  pub mirror_since : e.uptime.since ≡ e.service.last_start
  pub mirror_name : e.uptime.name ≡ e.service.cfg.name

pub spawn-IsValid :
    (now : ℕ) (fork : Option ℕ) (e : Entry) → IsReady now e → IsValid now (spawn e now fork)
unfolding spawn
spawn-IsValid now none e v = record {
  child = rw v.childless tt;
  breaker = v.breaker;
  down = tt;
  history = v.history;
  counted = v.counted;
  mirror_running = v.mirror_running;
  mirror_since = v.mirror_since;
  mirror_name = v.mirror_name;
}
spawn-IsValid now (some p) e v = record {
  child = tt;
  breaker = v.breaker;
  down = tt;
  history = v.history;
  counted = v.counted;
  mirror_running = refl;
  mirror_since = refl;
  mirror_name = v.mirror_name;
}

pub new_entry-IsReady : (now : ℕ) (c : ServiceConfig) → IsReady now (new_entry c)
unfolding new_entry
new_entry-IsReady now c = record {
  childless = refl;
  breaker = omega arith;
  history = tt;
  counted = omega arith;
  mirror_running = refl;
  mirror_since = refl;
  mirror_name = refl;
}

All-le-append :
    (t now : ℕ) (ts : List ℕ) → All (λ u. t ≤ u) ts → t ≤ now → All (λ u. t ≤ u) (ts ++ (now ∷ []))
All-le-append t now [] h k = (k, tt)
All-le-append t now (u ∷ ts) h k = (h.0, All-le-append t now ts h.1 k)

pub IsHistory-append : (ts : List ℕ) (now : ℕ) → IsHistory ts now → IsHistory (ts ++ (now ∷ [])) now
IsHistory-append [] now v = (omega arith, tt, tt)
IsHistory-append (t ∷ ts) now v = (v.0, All-le-append t now ts v.1 v.0, IsHistory-append ts now v.2)

prune_failures-IsHistory :
    (ts : List ℕ) (now : ℕ) → IsHistory ts now → IsHistory (prune_failures ts now) now
unfolding prune_failures
prune_failures-IsHistory [] now v = tt
prune_failures-IsHistory (t ∷ ts) now v = ground (arith, prune_failures-IsHistory ts now v.2)

length-prune_failures : (ts : List ℕ) (now : ℕ) → length (prune_failures ts now) ≤ length ts
unfolding prune_failures
length-prune_failures [] now = omega arith
length-prune_failures (t ∷ ts) now = ground (arith, length-prune_failures ts now)

-- What is known of a service that has just failed.
record HasFailed (now : ℕ) (e : Entry) : Type 0 where
  childless : e.service.pid ≡ none
  history : IsHistory e.service.recent_failures now
  counted : length e.service.recent_failures ≤ e.service.failure_count
  mirror_running : e.uptime.running ≡ false
  mirror_since : e.uptime.since ≡ e.service.last_start
  mirror_name : e.uptime.name ≡ e.service.cfg.name

-- The two states in which a service stays down.
data IsTerminal : ServiceState → Type 0 where
  off : IsTerminal failed
  tripped : IsTerminal quarantined

mark_down-IsValid :
    (now : ℕ) (e : Entry) {st : ServiceState} (down : Bool)
    → e.service.is_down ≡ down
    → IsTerminal st
    → HasFailed now e
    → IsValid now (record e { service = mark_down (record (e.service) { state = st }) now })
unfolding mark_down
mark_down-IsValid now e down d off v = ground arith
mark_down-IsValid now e down d tripped v = ground arith

outcome-IsValid :
    (restarts trips : Bool) (now : ℕ) (e : Entry)
    → trips ≡ ltb max_failures (length e.service.recent_failures)
    → HasFailed now e
    → IsValid now (record e {
      service =
          if not restarts
          then mark_down (record (e.service) { state = failed }) now
          else if trips
          then mark_down (record (e.service) { state = quarantined }) now
          else schedule_restart e.service now;
    })
unfolding schedule_restart
outcome-IsValid false trips now e t v = mark_down-IsValid now e e.service.is_down refl off v
outcome-IsValid true true now e t v = mark_down-IsValid now e e.service.is_down refl tripped v
outcome-IsValid true false now e t v = record {
  child = rw v.childless tt;
  breaker = ground arith;
  down = tt;
  history = v.history;
  counted = v.counted;
  mirror_running = rw v.childless v.mirror_running;
  mirror_since = v.mirror_since;
  mirror_name = v.mirror_name;
}

failed-IsValid :
    (now : ℕ) (e : Entry)
    → HasFailed now e
    → IsValid now (record e { service = after_failure e.service now })
unfolding after_failure
failed-IsValid now e v =
    outcome-IsValid e.service.cfg.autorestart (ltb max_failures (length e.service.recent_failures))
      now e refl v

pub running_of_pid :
    (st : ServiceState) (o : Option ℕ) (p : ℕ) → ChildFits st o → o ≡ some p → st ≡ running
running_of_pid running o p h e = refl
running_of_pid stopped none p h e = cc
running_of_pid backoff none p h e = cc
running_of_pid failed none p h e = cc
running_of_pid quarantined none p h e = cc
running_of_pid stopped (some q) p h e = absurd h
running_of_pid backoff (some q) p h e = absurd h
running_of_pid failed (some q) p h e = absurd h
running_of_pid quarantined (some q) p h e = absurd h

pub reap-IsValid :
    (stopping : Bool) (now p : ℕ) (r : Reaped) (e : Entry)
    → IsValid now e
    → e.service.pid ≡ some p
    → IsValid now (reap stopping now r e)
unfolding reap publish_uptime
reap-IsValid true now p r e v f = record {
  child = tt;
  breaker = tt;
  down = tt;
  history = v.history;
  counted = v.counted;
  mirror_running = refl;
  mirror_since = refl;
  mirror_name = v.mirror_name;
}
reap-IsValid false now p r e v f =
    if_both (IsValid now) e.service.wants_restart
      (spawn-IsValid now r.fork asked (record {
        childless = refl;
        breaker = rw (running_of_pid e.service.state e.service.pid p v.child f) at (v.breaker);
        history = v.history;
        counted = v.counted;
        mirror_running = refl;
        mirror_since = refl;
        mirror_name = v.mirror_name;
      }))
      (failed-IsValid now (record g { service = record_failure g.service now r.status })
        (unfold record_failure in
          record {
            childless = refl;
            history =
                prune_failures-IsHistory ts now
                  (IsHistory-append e.service.recent_failures now v.history);
            counted = omega (
              arith,
              length-prune_failures ts now,
              length-append e.service.recent_failures (now ∷ []),
              v.counted,
            );
            mirror_running = refl;
            mirror_since = refl;
            mirror_name = v.mirror_name;
          }))
  where
    ts : List ℕ
    ts = e.service.recent_failures ++ (now ∷ [])

    g : Entry
    g = gone e

    asked : Entry
    asked = record g {
      service = record (g.service) { wants_restart = false; current_backoff_sec = pos 0 };
    }
