-- ===== src/Supervisor/Shutdown.antt =====
-- The graceful shutdown.
use mathlib.Core.Bool.{true≢false}
use castle_plus.Prelude.{
  ℕ, ◌+◌, ◌*◌, ◌≡◌, refl, sym, ap, ◌∙◌, Bool, true, false, List, [], ◌∷◌, ◌++◌, Option, none, some,
  arith, leb, if◌then◌else◌, map, if_both, if_case,
}
use castle_plus.Service.{Entry, publish_uptime, second}
use castle_plus.Supervisor.{
  Supervisor, Signal, sigterm, sigkill, Reaped, reap, change_pid, reap_all, none_alive,
  finish_if_drained, on_sigchld, on_tick, signal_all, settle, begin_shutdown, grace_sec,
}

-- The pids of the children, in the order of the services.
unfoldable pub children : List Entry → List ℕ
children [] = []
children (e ∷ es) = elim e.service.pid [ none ↦ children es | some p ↦ p ∷ children es ]

reap-childless : (now : ℕ) (r : Reaped) (e : Entry) → (reap true now r e).service.pid ≡ none
unfolding reap publish_uptime
reap-childless now r e = refl

children-change_pid :
    (now p : ℕ) (r : Reaped) (es : List Entry) (ps : List ℕ)
    → children es ≡ p ∷ ps
    → children (change_pid p (reap true now r) es) ≡ ps
unfolding children change_pid
children-change_pid now p r [] ps h = cc
children-change_pid now p r (e ∷ es) ps h =
    ground (arith, children-change_pid now p r es ps, reap-childless now r e)

children-reap_all :
    (now : ℕ) (rs : List Reaped) (es : List Entry)
    → children es ≡ map (λ (r : Reaped). r.pid) rs
    → children (reap_all true now rs es) ≡ []
unfolding reap_all
children-reap_all now [] es h = h
children-reap_all now (r ∷ rs) es h =
    children-reap_all now rs _
      (children-change_pid now r.pid r es (map (λ (x : Reaped). x.pid) rs) h)

none_alive-children : (es : List Entry) → children es ≡ [] → none_alive es ≡ true
unfolding none_alive children
none_alive-children [] h = refl
none_alive-children (e ∷ es) h = ground (arith, none_alive-children es)

children-settle : (es : List Entry) → children (map settle es) ≡ children es
unfolding children settle
children-settle [] = refl
children-settle (e ∷ es) = ground (arith, children-settle es)

signal_all-children :
    (sig : Signal) (es : List Entry) → signal_all sig es ≡ map (λ p. (sig, p)) (children es)
unfolding signal_all children
signal_all-children sig [] = refl
signal_all-children sig (e ∷ es) = ground (arith, signal_all-children sig es)

finish_drained :
    (v : Supervisor) → none_alive v.entries ≡ true → (finish_if_drained v).loop_stopped ≡ true
unfolding finish_if_drained
finish_drained v h = rw h

finish_waits : (v : Supervisor) → none_alive v.entries ≡ false → finish_if_drained v ≡ v
unfolding finish_if_drained
finish_waits v h = ground arith

finish-entries : (v : Supervisor) → (finish_if_drained v).entries ≡ v.entries
unfolding finish_if_drained
finish-entries v =
    if_both {A = Supervisor} (λ w. w.entries ≡ v.entries) (none_alive v.entries) refl refl

finish-sent : (v : Supervisor) → (finish_if_drained v).sent ≡ v.sent
unfolding finish_if_drained
finish-sent v = if_both {A = Supervisor} (λ w. w.sent ≡ v.sent) (none_alive v.entries) refl refl

finish-shutting_down : (v : Supervisor) → (finish_if_drained v).shutting_down ≡ v.shutting_down
unfolding finish_if_drained
finish-shutting_down v =
    if_both {A = Supervisor} (λ w. w.shutting_down ≡ v.shutting_down) (none_alive v.entries) refl
      refl

begin_shutdown_facts :
    (v : Supervisor) (now : ℕ)
    → ((begin_shutdown v now).sent ≡ v.sent ++ map (λ p. (sigterm, p)) (children v.entries))
      × ((begin_shutdown v now).shutting_down ≡ true)
      × (children (begin_shutdown v now).entries ≡ children v.entries)
unfolding begin_shutdown
begin_shutdown_facts v now =
    let w : Supervisor = record v {
      shutting_down = true;
      kill_deadline = now + grace_sec * second;
      sent = v.sent ++ signal_all sigterm v.entries;
      entries = map settle v.entries;
    } in
    (
      finish-sent w ∙ ap (◌++◌ v.sent) (signal_all-children sigterm v.entries),
      finish-shutting_down w,
      ap children (finish-entries w) ∙ children-settle v.entries,
    )

on_sigchld_drains :
    (v : Supervisor) (now : ℕ) (rs : List Reaped)
    → v.shutting_down ≡ true
    → children v.entries ≡ map (λ (r : Reaped). r.pid) rs
    → ((on_sigchld v now rs).loop_stopped ≡ true) × (children (on_sigchld v now rs).entries ≡ [])
unfolding on_sigchld
on_sigchld_drains v now rs h k =
    if_case {A = Supervisor} (λ w. (w.loop_stopped ≡ true) × (children w.entries ≡ []))
      v.shutting_down
      (λ _. (
        finish_drained w (none_alive-children w.entries drained),
        ap children (finish-entries w) ∙ drained,
      ))
      (λ n. absurd (true≢false (sym h ∙ n)))
  where
    w : Supervisor
    w = record v { entries = reap_all v.shutting_down now rs v.entries }

    drained : children (reap_all v.shutting_down now rs v.entries) ≡ []
    drained =
        ap (λ b. children (reap_all b now rs v.entries)) h ∙ children-reap_all now rs v.entries k

-- The shutdown sends SIGTERM to every child and to nothing else, and once these children are reaped, in
-- the order of the services, the loop stops with no child left.
pub begin_shutdown_drains :
    (v : Supervisor) (now later : ℕ) (rs : List Reaped)
    → children v.entries ≡ map (λ (r : Reaped). r.pid) rs
    → ((begin_shutdown v now).sent ≡ v.sent ++ map (λ p. (sigterm, p)) (children v.entries))
      × ((on_sigchld (begin_shutdown v now) later rs).loop_stopped ≡ true)
      × (children (on_sigchld (begin_shutdown v now) later rs).entries ≡ [])
begin_shutdown_drains v now later rs h =
    let f = begin_shutdown_facts v now in
    let d = on_sigchld_drains (begin_shutdown v now) later rs f.1 (f.2 ∙ h) in (f.0, d.0, d.1)

-- While the shutdown waits, a tick starts nothing. After the grace period it sends SIGKILL to every
-- child that is left, and before it sends nothing.
on_tick_shutdown :
    (v : Supervisor) (now : ℕ) (answers : List (Option ℕ × Bool))
    → v.shutting_down ≡ true
    → ((on_tick v now answers).entries ≡ v.entries)
      × ((on_tick v now answers).sent ≡ (
          if leb v.kill_deadline now
          then v.sent ++ map (λ p. (sigkill, p)) (children v.entries)
          else v.sent))
unfolding on_tick finish_if_drained
on_tick_shutdown v now answers h = ground (arith, signal_all-children sigkill v.entries)
