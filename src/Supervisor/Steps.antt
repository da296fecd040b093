-- ===== src/Supervisor/Steps.antt =====
-- The events of the supervisor's loop, and what they keep.
use castle_plus.Prelude.{
  ℕ, subst, ◌≤◌, ◌≡◌, refl, Bool, true, false, List, [], ◌∷◌, Option, none, some, arith, leb,
  length, All, map, Bytes, equal, Bool-cases, Option-cases, inl, inr, if_both, if_case,
}
use castle_plus.Prelude.Int.{pos, leb_ℤ}
use castle_plus.ServiceConfig.{ServiceConfig}
use castle_plus.Service.{
  Service, ServiceState, stopped, running, backoff, failed, quarantined, Entry, new_entry, alive,
  max_failures,
}
use castle_plus.Supervisor.{
  Signal, none_alive, Supervisor, Reaped, reap, change_pid, reap_all, relaunch, check_health,
  tick_all, settle, restart_entry, restart_all, start_all, start, Event, sigchld, tick, shutdown,
  restart, handle, run, has_pid, on_sigchld, on_tick, begin_shutdown, do_restart, finish_if_drained,
}
use castle_plus.Supervisor.Invariant.{
  ChildFits, IsValid, IsReady, new_entry-IsReady, IsValid-later, spawn-IsValid, reap-IsValid,
  running_of_pid,
}

has_pid-some : (p : ℕ) (s : Service) → has_pid p s ≡ true → s.pid ≡ some p
has_pid-some p s h = ground arith

change_pid-IsValid :
    (stopping : Bool) (now : ℕ) (r : Reaped) (es : List Entry)
    → All (IsValid now) es
    → All (IsValid now) (change_pid r.pid (reap stopping now r) es)
unfolding change_pid
change_pid-IsValid stopping now r [] v = tt
change_pid-IsValid stopping now r (e ∷ es) v = elim (Bool-cases (has_pid r.pid e.service)) [
  | inl h ↦ rw h (reap-IsValid stopping now r.pid r e v.0 (has_pid-some r.pid e.service h), v.1)
  | inr h ↦ rw h (v.0, change_pid-IsValid stopping now r es v.1)
]

reap_all-IsValid :
    (stopping : Bool) (now : ℕ) (rs : List Reaped) (es : List Entry)
    → All (IsValid now) es
    → All (IsValid now) (reap_all stopping now rs es)
unfolding reap_all
reap_all-IsValid stopping now [] es v = v
reap_all-IsValid stopping now (r ∷ rs) es v =
    reap_all-IsValid stopping now rs _ (change_pid-IsValid stopping now r es v)

IsValid-IsReady :
    (now : ℕ) (e : Entry)
    → IsValid now e
    → e.service.pid ≡ none
    → length e.service.recent_failures ≤ max_failures
    → IsReady now e
IsValid-IsReady now e v p b = record {
  childless = p;
  breaker = b;
  history = v.history;
  counted = v.counted;
  mirror_running = v.mirror_running;
  mirror_since = v.mirror_since;
  mirror_name = v.mirror_name;
}

childless_of : (o : Option ℕ) → ChildFits backoff o → o ≡ none
childless_of none h = refl
childless_of (some p) h = absurd h

relaunch-IsValid :
    (now : ℕ) (fork : Option ℕ) (e : Entry) (st : ServiceState)
    → e.service.state ≡ st
    → IsValid now e
    → IsValid now (relaunch now fork e)
unfolding relaunch
relaunch-IsValid now fork e backoff h v =
    rw (h, relaunch)
      (if_both (IsValid now) (leb_ℤ e.service.next_restart (pos now))
        (spawn-IsValid now fork e (
          IsValid-IsReady now e v (childless_of e.service.pid (rw h at (v.child)))
            (rw h at (v.breaker))))
        v)
relaunch-IsValid now fork e stopped h v = rw (h, relaunch) v
relaunch-IsValid now fork e running h v = rw (h, relaunch) v
relaunch-IsValid now fork e failed h v = rw (h, relaunch) v
relaunch-IsValid now fork e quarantined h v = rw (h, relaunch) v

check_health-IsValid :
    (now : ℕ) (ok : Bool) (e : Entry) → IsValid now e → IsValid now (check_health now ok e)
unfolding check_health
check_health-IsValid now ok e v =
    if_both (IsValid now) _
      (record {
        child = v.child;
        breaker = v.breaker;
        down = v.down;
        history = v.history;
        counted = v.counted;
        mirror_running = v.mirror_running;
        mirror_since = v.mirror_since;
        mirror_name = v.mirror_name;
      })
      v

tick_all-IsValid :
    (now : ℕ) (answers : List (Option ℕ × Bool)) (es : List Entry)
    → All (IsValid now) es
    → All (IsValid now) (tick_all now answers es)
unfolding tick_all
tick_all-IsValid now [] [] v = tt
tick_all-IsValid now (a ∷ answers) [] v = tt
tick_all-IsValid now [] (e ∷ es) v = (
  check_health-IsValid now false _ (relaunch-IsValid now none e e.service.state refl v.0),
  tick_all-IsValid now [] es v.1,
)
tick_all-IsValid now ((fork, ok) ∷ answers) (e ∷ es) v = (
  check_health-IsValid now ok _ (relaunch-IsValid now fork e e.service.state refl v.0),
  tick_all-IsValid now answers es v.1,
)

not_alive : (s : Service) → alive s ≡ false → s.pid ≡ none
not_alive s h = ground arith

settle-IsValid : (now : ℕ) (e : Entry) → IsValid now e → IsValid now (settle e)
unfolding settle
settle-IsValid now e v =
    if_case (IsValid now) (alive e.service) (λ _. v)
      λ h. record {
        child = rw (not_alive e.service h) tt;
        breaker = tt;
        down = tt;
        history = v.history;
        counted = v.counted;
        mirror_running = v.mirror_running;
        mirror_since = v.mirror_since;
        mirror_name = v.mirror_name;
      }

map-settle-IsValid :
    (now : ℕ) (es : List Entry) → All (IsValid now) es → All (IsValid now) (map settle es)
map-settle-IsValid now [] v = tt
map-settle-IsValid now (e ∷ es) v = (settle-IsValid now e v.0, map-settle-IsValid now es v.1)

restart_entry-IsValid :
    (now : ℕ) (fork : Option ℕ) (e : Entry)
    → IsValid now e
    → IsValid now (restart_entry now fork e).0
unfolding restart_entry
restart_entry-IsValid now fork e v = elim (Option-cases e.service.pid) [
  | inl p ↦
      rw (p, restart_entry)
        (spawn-IsValid now fork
          (record e {
            service = record (e.service) {
              recent_failures = [];
              current_backoff_sec = pos 0;
              wants_restart = false;
            };
          })
          (record {
            childless = p;
            breaker = omega arith;
            history = tt;
            counted = omega arith;
            mirror_running = v.mirror_running;
            mirror_since = v.mirror_since;
            mirror_name = v.mirror_name;
          }))
  | inr (q, p) ↦
      rw (p, restart_entry)
        (record {
          child = v.child;
          breaker = rw (running_of_pid e.service.state e.service.pid q v.child p) (omega arith);
          down = v.down;
          history = tt;
          counted = omega arith;
          mirror_running = v.mirror_running;
          mirror_since = v.mirror_since;
          mirror_name = v.mirror_name;
        })
]

restart_all-IsValid :
    (now : ℕ) (fork : Option ℕ) (name : Bytes) (es : List Entry) {es' : List Entry}
    {sent : List (Signal × ℕ)}
    → All (IsValid now) es
    → restart_all now fork name es ≡ some (es', sent)
    → All (IsValid now) es'
unfolding restart_all
restart_all-IsValid now fork name [] v h = cc
restart_all-IsValid now fork name (e ∷ es) {es' = es'} v h =
    elim (Bool-cases (equal e.service.cfg.name name)) [
      | inl found ↦
          let f : (restart_entry now fork e).0 ∷ es ≡ es' = cc (rw found at h) in
          subst (All (IsValid now)) f (restart_entry-IsValid now fork e v.0, v.1)
      | inr missed ↦ elim (Option-cases (restart_all now fork name es)) [
        | inl none_left ↦ cc (rw (missed, none_left) at h)
        | inr ((rest, s), found) ↦
            let f : e ∷ rest ≡ es' = cc (rw (missed, found) at h) in
            subst (All (IsValid now)) f (v.0, restart_all-IsValid now fork name es v.1 found)
      ]
    ]

start_all-IsValid :
    (now : ℕ) (forks : List (Option ℕ)) (configs : List ServiceConfig)
    → All (IsValid now) (start_all now forks (map new_entry configs))
unfolding start_all
start_all-IsValid now [] [] = tt
start_all-IsValid now (fork ∷ forks) [] = tt
start_all-IsValid now [] (c ∷ cs) =
    (spawn-IsValid now none (new_entry c) (new_entry-IsReady now c), start_all-IsValid now [] cs)
start_all-IsValid now (fork ∷ forks) (c ∷ cs) =
    (spawn-IsValid now fork (new_entry c) (new_entry-IsReady now c), start_all-IsValid now forks cs)

finish-entries : (v : Supervisor) → (finish_if_drained v).entries ≡ v.entries
unfolding finish_if_drained
finish-entries v =
    if_both {A = Supervisor} (λ w. w.entries ≡ v.entries) (none_alive v.entries) refl refl

abbrev pub AllValid : ℕ → Supervisor → Type 0
AllValid now v = All (IsValid now) v.entries

All-later : (now t : ℕ) (es : List Entry) → now ≤ t → All (IsValid now) es → All (IsValid t) es
All-later now t [] h v = tt
All-later now t (e ∷ es) h v = (IsValid-later now t e h v.0, All-later now t es h v.1)

do_restart-AllValid :
    (v : Supervisor) (now : ℕ) (fork : Option ℕ) (name : Bytes)
    → AllValid now v
    → AllValid now (do_restart v now fork name).0
unfolding do_restart
do_restart-AllValid v now fork name h = elim (Option-cases (restart_all now fork name v.entries)) [
  | inl e ↦ rw (e, do_restart) h
  | inr ((es, sent), e) ↦ rw (e, do_restart) (restart_all-IsValid now fork name v.entries h e)
]

-- Every event keeps every service well formed: a child exactly while it is `Running`, at most five
-- failures in the window while it runs or waits to be launched again, a stamp while it is down for good,
-- the failures in order and counted, and the uptime snapshot in step.
handle-AllValid :
    (v : Supervisor) (now : ℕ) (e : Event) → AllValid now v → AllValid now (handle v now e)
unfolding handle
handle-AllValid v now (sigchld rs) h =
    unfold on_sigchld in if_both (AllValid now) v.shutting_down (rw finish-entries done) done
  where
    done : All (IsValid now) (reap_all v.shutting_down now rs v.entries)
    done = reap_all-IsValid v.shutting_down now rs v.entries h
handle-AllValid v now (tick answers) h =
    unfold on_tick in
    if_both (AllValid now) v.shutting_down
      (rw finish-entries (if_both (AllValid now) (leb v.kill_deadline now) h h))
      (tick_all-IsValid now answers v.entries h)
handle-AllValid v now shutdown h =
    unfold begin_shutdown in rw finish-entries (map-settle-IsValid now v.entries h)
handle-AllValid v now (restart name fork) h = do_restart-AllValid v now fork name h

-- The instants of a history do not fall.
abbrev pub IsTimed : ℕ → List (ℕ × Event) → Type 0
IsTimed t [] = Unit
IsTimed t ((now, e) ∷ es) = (t ≤ now) × IsTimed now es

abbrev pub end_time : ℕ → List (ℕ × Event) → ℕ
end_time t [] = t
end_time t ((now, e) ∷ es) = end_time now es

run-AllValid :
    (v : Supervisor) (t : ℕ) (es : List (ℕ × Event))
    → IsTimed t es
    → AllValid t v
    → AllValid (end_time t es) (run v es)
unfolding run
run-AllValid v t [] h w = w
run-AllValid v t ((now, e) ∷ es) h w =
    run-AllValid (handle v now e) now es h.1
      (handle-AllValid v now e (All-later t now v.entries h.0 w))

-- From the start on, and through any history of reaped children, ticks, restarts and shutdowns, every
-- service is well formed: a child exactly while it is `Running`, at most five failures in the window
-- while it runs or waits to be launched again, a stamp while it is down for good, the failures in order
-- and counted, and the uptime snapshot in step. The instants of the history do not fall.
pub run-start-AllValid :
    (configs : List ServiceConfig) (t : ℕ) (forks : List (Option ℕ)) (es : List (ℕ × Event))
    → IsTimed t es
    → AllValid (end_time t es) (run (start configs t forks) es)
run-start-AllValid configs t forks es h =
    run-AllValid (start configs t forks) t es h (unfold start in start_all-IsValid t forks configs)
