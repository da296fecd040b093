-- ===== src/Supervisor/Breaker.antt =====
-- The circuit breaker.
use mathlib.Core.Bool.{true≢false}
use castle_plus.Prelude.{
  ℕ, suc, ◌+◌, ◌-◌, ◌≤◌, ◌≡◌, ◌≢◌, refl, Bool, true, false, List, [], ◌∷◌, ◌++◌, Option, none, some,
  arith, ltb, leb, if◌then◌else◌, length, All, Bool-cases, inl, inr, not, if_both, Bytes, equal,
  zero, sym, some_eq, equal_iff, Option-cases, get_elem?, if_case, ap, ◌∙◌,
}
use castle_plus.Service.{
  Service, ServiceState, backoff, failed, quarantined, Entry, publish_uptime, prune_failures,
  mark_down, record_failure, after_failure, max_failures, failure_window, schedule_restart,
}
use castle_plus.Supervisor.Invariant.{IsHistory, IsHistory-append}
use castle_plus.Supervisor.{
  Supervisor, Reaped, reap, has_pid, change_pid, reap_all, relaunch, check_health, tick_all,
  restart_entry, restart_all, Event, sigchld, tick, shutdown, restart, handle, Signal,
  finish_if_drained, none_alive, on_sigchld, on_tick, do_restart,
}

-- The failures inside the window, in the plain reading: all that are no older than it.
unfoldable pub in_window : List ℕ → ℕ → List ℕ
in_window [] now = []
in_window (t ∷ ts) now =
    let rest = in_window ts now in if leb (now - t) failure_window then t ∷ rest else rest

in_window_all :
    (t now : ℕ) (ts : List ℕ)
    → now - t ≤ failure_window
    → All (λ u. t ≤ u) ts
    → in_window ts now ≡ ts
unfolding in_window
in_window_all t now [] h v = refl
in_window_all t now (u ∷ ts) h v = ground (arith, in_window_all t now ts h v.1)

-- Popping from the front until the oldest failure is inside the window keeps exactly the failures inside
-- it, since the instants are in order.
prune_failures-in_window :
    (ts : List ℕ) (now : ℕ) → IsHistory ts now → prune_failures ts now ≡ in_window ts now
unfolding prune_failures in_window
prune_failures-in_window [] now v = refl
prune_failures-in_window (t ∷ ts) now v =
    ground (arith, prune_failures-in_window ts now v.2, in_window_all t now ts)

-- What an unexpected exit leads to, by the number of failures in the window, this one included.
abbrev pub outcome : Bool → List ℕ → ServiceState
outcome autorestart ts =
    if not autorestart
    then failed
    else if ltb max_failures (length ts)
    then quarantined
    else backoff

after_failure_lem :
    (s : Service) (now : ℕ)
    → ((after_failure s now).state ≡ outcome s.cfg.autorestart s.recent_failures)
      × ((after_failure s now).failure_count ≡ s.failure_count)
      × ((after_failure s now).pid ≡ s.pid)
unfolding after_failure mark_down schedule_restart
after_failure_lem s now = ground arith

-- An exit that nobody asked for leaves a service without a child: failed if it must not be restarted,
-- quarantined if it has failed more than five times within the last 24 hours, this exit included, and
-- waiting for its restart otherwise. Each such exit is counted.
pub reap-outcome :
    (now : ℕ) (r : Reaped) (e : Entry)
    → e.service.wants_restart ≡ false
    → IsHistory e.service.recent_failures now
    → ((reap false now r e).service.state
        ≡ outcome e.service.cfg.autorestart
            (in_window (e.service.recent_failures ++ (now ∷ [])) now))
      × ((reap false now r e).service.failure_count ≡ e.service.failure_count + 1)
      × ((reap false now r e).service.pid ≡ none)
unfolding reap publish_uptime record_failure
reap-outcome now r e w h =
    let k =
      after_failure_lem
        (record_failure (record (e.service) { pid = none; health_known = false }) now r.status)
        now in
    let p =
      prune_failures-in_window (e.service.recent_failures ++ (now ∷ [])) now
        (IsHistory-append e.service.recent_failures now h) in
    if_case {A = Entry}
      (λ x.
        (x.service.state
          ≡ outcome e.service.cfg.autorestart
              (in_window (e.service.recent_failures ++ (now ∷ [])) now))
        × (x.service.failure_count ≡ e.service.failure_count + 1)
        × (x.service.pid ≡ none))
      e.service.wants_restart (λ asked. absurd (true≢false (sym asked ∙ w)))
      λ _. (k.0 ∙ ap (outcome e.service.cfg.autorestart) p, k.1, k.2)

no_pid : (p : ℕ) (s : Service) → has_pid p s ≡ true → s.pid ≢ none
no_pid p s h n = ground arith

change_pid_idle :
    (p : ℕ) (f : Entry → Entry) (es : List Entry) (i : ℕ) (e : Entry)
    → e.service.pid ≡ none
    → get_elem? es i ≡ some e
    → get_elem? (change_pid p f es) i ≡ some e
unfolding change_pid
change_pid_idle p f [] i e n h = h
change_pid_idle p f (x ∷ es) zero e n h =
    if_case {A = List Entry} (λ l. get_elem? l 0 ≡ some e) (has_pid p x.service)
      (λ c. absurd (no_pid p x.service c (ap (λ (y : Entry). y.service.pid) (some_eq h) ∙ n)))
      (λ _. h)
change_pid_idle p f (x ∷ es) (suc i) e n h =
    if_case {A = List Entry} (λ l. get_elem? l (suc i) ≡ some e) (has_pid p x.service) (λ _. h)
      λ _. change_pid_idle p f es i e n h

reap_all_idle :
    (stopping : Bool) (now : ℕ) (rs : List Reaped) (es : List Entry) (i : ℕ) (e : Entry)
    → e.service.pid ≡ none
    → get_elem? es i ≡ some e
    → get_elem? (reap_all stopping now rs es) i ≡ some e
unfolding reap_all
reap_all_idle stopping now [] es i e n h = h
reap_all_idle stopping now (r ∷ rs) es i e n h =
    reap_all_idle stopping now rs _ i e n (change_pid_idle r.pid (reap stopping now r) es i e n h)

tick_idle :
    (now : ℕ) (fork : Option ℕ) (ok : Bool) (e : Entry)
    → e.service.state ≡ quarantined
    → e.service.pid ≡ none
    → check_health now ok (relaunch now fork e) ≡ e
unfolding check_health relaunch
tick_idle now fork ok e q n = ground arith

tick_all_idle :
    (now : ℕ) (answers : List (Option ℕ × Bool)) (es : List Entry) (i : ℕ) (e : Entry)
    → e.service.state ≡ quarantined
    → e.service.pid ≡ none
    → get_elem? es i ≡ some e
    → get_elem? (tick_all now answers es) i ≡ some e
unfolding tick_all
tick_all_idle now [] [] i e q n h = h
tick_all_idle now (a ∷ answers) [] i e q n h = h
tick_all_idle now [] (x ∷ es) zero e q n h =
    let same = some_eq h in
    ap some (
      tick_idle now none false x (ap (λ (y : Entry). y.service.state) same ∙ q)
        (ap (λ (y : Entry). y.service.pid) same ∙ n))
    ∙ h
tick_all_idle now ((fork, ok) ∷ answers) (x ∷ es) zero e q n h =
    let same = some_eq h in
    ap some (
      tick_idle now fork ok x (ap (λ (y : Entry). y.service.state) same ∙ q)
        (ap (λ (y : Entry). y.service.pid) same ∙ n))
    ∙ h
tick_all_idle now [] (x ∷ es) (suc i) e q n h = tick_all_idle now [] es i e q n h
tick_all_idle now ((fork, ok) ∷ answers) (x ∷ es) (suc i) e q n h =
    tick_all_idle now answers es i e q n h

restart_all_idle :
    (now : ℕ) (fork : Option ℕ) (name : Bytes) (es : List Entry) (i : ℕ) (e : Entry)
    {es' : List Entry} {sent : List (Signal × ℕ)}
    → e.service.cfg.name ≢ name
    → get_elem? es i ≡ some e
    → restart_all now fork name es ≡ some (es', sent)
    → get_elem? es' i ≡ some e
unfolding restart_all
restart_all_idle now fork name [] i e d h k = cc
restart_all_idle now fork name (x ∷ es) i e {es' = es'} d h k =
    elim (Bool-cases (equal x.service.cfg.name name)) [
      | inl found ↦
          let f : (restart_entry now fork x).0 ∷ es ≡ es' = cc (rw found at k) in
          rw (← f) (after_found i h ((equal_iff x.service.cfg.name name).0 found))
      | inr missed ↦ elim (Option-cases (restart_all now fork name es)) [
        | inl none_left ↦ cc (rw (missed, none_left) at k)
        | inr ((rest, s), g) ↦
            let f : x ∷ rest ≡ es' = cc (rw (missed, g) at k) in
            rw (← f) (after_missed rest i h (λ j k. restart_all_idle now fork name es j e d k g))
      ]
    ]
  where
    after_found :
        (i : ℕ)
        → get_elem? (x ∷ es) i ≡ some e
        → x.service.cfg.name ≡ name
        → get_elem? ((restart_entry now fork x).0 ∷ es) i ≡ some e
    after_found zero h f = absurd (d (ap (λ (y : Entry). y.service.cfg.name) (sym (some_eq h)) ∙ f))
    after_found (suc i) h f = h

    after_missed :
        (rest : List Entry) (i : ℕ)
        → get_elem? (x ∷ es) i ≡ some e
        → ((j : ℕ) → get_elem? es j ≡ some e → get_elem? rest j ≡ some e)
        → get_elem? (x ∷ rest) i ≡ some e
    after_missed rest zero h ih = h
    after_missed rest (suc i) h ih = ih i h

restart_idle :
    (v : Supervisor) (now : ℕ) (fork : Option ℕ) (name : Bytes) (i : ℕ) (e : Entry)
    → e.service.cfg.name ≢ name
    → get_elem? v.entries i ≡ some e
    → get_elem? (do_restart v now fork name).0.entries i ≡ some e
unfolding do_restart
restart_idle v now fork name i e d h = elim (Option-cases (restart_all now fork name v.entries)) [
  | inl k ↦ rw (k, do_restart) h
  | inr ((es, sent), k) ↦ rw (k, do_restart) (restart_all_idle now fork name v.entries i e d h k)
]

-- The events that may change a quarantined service: the shutdown and a restart by its name.
abbrev pub Spares : Event → Bytes → Type 0
Spares shutdown name = ⊥
Spares (restart named fork) name = name ≢ named
Spares _ name = Unit

finish-entries : (v : Supervisor) → (finish_if_drained v).entries ≡ v.entries
unfolding finish_if_drained
finish-entries v =
    if_both {A = Supervisor} (λ w. w.entries ≡ v.entries) (none_alive v.entries) refl refl

-- A quarantined service is left exactly as it is by every reaped child and every tick, and by the
-- restart of any other service: only a restart by its own name launches it again.
pub handle_quarantined :
    (v : Supervisor) (now : ℕ) (ev : Event) (i : ℕ) (e : Entry)
    → get_elem? v.entries i ≡ some e
    → e.service.state ≡ quarantined
    → e.service.pid ≡ none
    → Spares ev e.service.cfg.name
    → get_elem? (handle v now ev).entries i ≡ some e
unfolding handle
handle_quarantined v now (sigchld rs) i e h q n s =
    unfold on_sigchld in
    if_both {A = Supervisor} (λ w. get_elem? w.entries i ≡ some e) v.shutting_down
      (rw finish-entries (reap_all_idle v.shutting_down now rs v.entries i e n h))
      (reap_all_idle v.shutting_down now rs v.entries i e n h)
handle_quarantined v now (tick answers) i e h q n s =
    unfold on_tick in
    if_both {A = Supervisor} (λ w. get_elem? w.entries i ≡ some e) v.shutting_down
      (rw finish-entries (
        if_both {A = Supervisor} (λ w. get_elem? w.entries i ≡ some e) (leb v.kill_deadline now) h
          h))
      (tick_all_idle now answers v.entries i e q n h)
handle_quarantined v now shutdown i e h q n s = absurd s
handle_quarantined v now (restart name fork) i e h q n s = restart_idle v now fork name i e s h
