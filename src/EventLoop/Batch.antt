-- ===== src/EventLoop/Batch.antt =====
-- The handlers that are called in a batch, and those that are closed at its end.
use castle_plus.Prelude.{
  ℕ, ◌≡◌, refl, Bool, true, false, not, ◌&&◌, ◌||◌, List, [], ◌∷◌, Option, none, some, ◌==◌, All,
  arith, if_case, if_both, elim_case,
}
use castle_plus.EventLoop.{
  Handler, Event, bell, ready, is_registered, is_pending, set_mask, Call, add, update,
  request_close, post, stop, Callback, on_readable, on_writable, on_error, check_timeout, task,
  EventLoop, Wait, batch, interrupted, wait_failed, outside_post, outside_stop, apply, apply_all,
  process_pending_close, note_call, call, sweep, read_watched, read_ready, run_tasks,
  run_pending_tasks, write_ready, dispatch, dispatch_all, run,
}

abbrev Has : ℕ → List Handler → Type 0
Has fd hs = is_registered fd hs ≡ true

Has-set_mask : (fd other mask : ℕ) (hs : List Handler) → Has fd hs → Has fd (set_mask other mask hs)
unfolding set_mask is_registered
Has-set_mask fd other mask [] h = h
Has-set_mask fd other mask (x ∷ xs) h =
    if_case (Has fd) (x.fd == other) (λ _. h)
      (λ _.
        if_case (λ b. b ≡ true) (x.fd == fd) (λ _. refl)
          (λ e. Has-set_mask fd other mask xs (behind e)))
  where
    behind : (x.fd == fd) ≡ false → Has fd xs
    behind e = ground arith

Has-first : (x : Handler) (xs : List Handler) → Has x.fd (x ∷ xs)
unfolding is_registered
Has-first x xs = ground arith

Has-more : (fd : ℕ) (x : Handler) (xs : List Handler) → Has fd xs → Has fd (x ∷ xs)
unfolding is_registered
Has-more fd x xs h = if_both (λ b. b ≡ true) (x.fd == fd) refl h

Has-all :
    (x : Handler) (ks hs : List Handler)
    → All (λ h. Has h.fd ks) hs
    → All (λ h. Has h.fd (x ∷ ks)) hs
Has-all x ks [] h = tt
Has-all x ks (y ∷ ys) h = (Has-more y.fd x ks h.0, Has-all x ks ys h.1)

Has-self : (hs : List Handler) → All (λ h. Has h.fd hs) hs
Has-self [] = tt
Has-self (x ∷ xs) = (Has-first x xs, Has-all x xs xs (Has-self xs))

quiet : (a b : Bool) → b ≡ true → a ≡ false → (a || not b) ≡ false
quiet a b h k = ground arith

module _ {W T : Type 0} where
  -- From `l` to `m`: every handler is kept, and none is called that is gone.
  pub record Steady (l m : EventLoop W T) : Type 0 where
    pub keeps : (fd : ℕ) → Has fd l.handlers → Has fd m.handlers
    pub calm : l.stray ≡ false → m.stray ≡ false

  still : (l : EventLoop W T) → Steady l l
  still l = record { keeps = λ fd h. h; calm = λ h. h }

  Steady-trans : {l m n : EventLoop W T} → Steady l m → Steady m n → Steady l n
  Steady-trans s t = record {
    keeps = λ fd h. t.keeps fd (s.keeps fd h);
    calm = λ h. t.calm (s.calm h);
  }

  apply-Steady : (c : Call T) (l : EventLoop W T) → Steady l (apply c l)
  unfolding apply
  apply-Steady (add fd mask accepted) l =
      if_both (Steady l) accepted
        (record {
          keeps = λ x h. Has-more x (record { fd = fd; mask = mask }) l.handlers h;
          calm = λ h. h;
        })
        (still l)
  apply-Steady (update fd mask accepted) l =
      if_both (Steady l) accepted
        (record { keeps = λ x h. Has-set_mask x fd mask l.handlers h; calm = λ h. h }) (still l)
  apply-Steady (request_close fd) l = record { keeps = λ x h. h; calm = λ h. h }
  apply-Steady (post t) l = record { keeps = λ x h. h; calm = λ h. h }
  apply-Steady stop l = record { keeps = λ x h. h; calm = λ h. h }

  apply_all-Steady : (cs : List (Call T)) (l : EventLoop W T) → Steady l (apply_all cs l)
  unfolding apply_all
  apply_all-Steady [] l = still l
  apply_all-Steady (c ∷ cs) l = Steady-trans (apply-Steady c l) (apply_all-Steady cs (apply c l))

  -- The handler that a callback goes to is there.
  abbrev Alive : Callback T → EventLoop W T → Type 0
  Alive (on_readable fd) l = Has fd l.handlers
  Alive (on_writable fd) l = Has fd l.handlers
  Alive (on_error fd) l = Has fd l.handlers
  Alive (check_timeout fd) l = Has fd l.handlers
  Alive (task t) l = Unit

  note_call-Steady : (c : Callback T) (l : EventLoop W T) → Alive c l → Steady l (note_call c l)
  unfolding note_call
  note_call-Steady (on_readable fd) l a = record {
    keeps = λ x h. h;
    calm = λ h. quiet l.stray (is_registered fd l.handlers) a h;
  }
  note_call-Steady (on_writable fd) l a = record {
    keeps = λ x h. h;
    calm = λ h. quiet l.stray (is_registered fd l.handlers) a h;
  }
  note_call-Steady (on_error fd) l a = record {
    keeps = λ x h. h;
    calm = λ h. quiet l.stray (is_registered fd l.handlers) a h;
  }
  note_call-Steady (check_timeout fd) l a = record {
    keeps = λ x h. h;
    calm = λ h. quiet l.stray (is_registered fd l.handlers) a h;
  }
  note_call-Steady (task t) l a = record { keeps = λ x h. h; calm = λ h. h }

  module _ (react : Callback T → W → W × List (Call T)) where
    call-Steady : (c : Callback T) (l : EventLoop W T) → Alive c l → Steady l (call react c l)
    unfolding call
    call-Steady c l a =
        let r = react c l.world in
        let m = record (note_call c l) { world = r.0 } in
        let w = note_call-Steady c l a in
        Steady-trans (record { keeps = w.keeps; calm = w.calm }) (apply_all-Steady r.1 m)

    All-keeps :
        (l m : EventLoop W T) (hs : List Handler)
        → Steady l m
        → All (λ h. Has h.fd l.handlers) hs
        → All (λ h. Has h.fd m.handlers) hs
    All-keeps l m [] s h = tt
    All-keeps l m (x ∷ xs) s h = (s.keeps x.fd h.0, All-keeps l m xs s h.1)

    sweep-Steady :
        (hs : List Handler) (l : EventLoop W T)
        → All (λ h. Has h.fd l.handlers) hs
        → Steady l (sweep react hs l)
    unfolding sweep
    sweep-Steady [] l a = still l
    sweep-Steady (h ∷ hs) l a =
        let s = call-Steady (check_timeout h.fd) l a.0 in
        Steady-trans s (
          sweep-Steady hs (call react (check_timeout h.fd) l)
            (All-keeps l (call react (check_timeout h.fd) l) hs s a.1))

    read_watched-Steady :
        (o : Option ℕ) (fd : ℕ) (l : EventLoop W T)
        → Has fd l.handlers
        → Steady l (read_watched react o fd l)
    unfolding read_watched
    read_watched-Steady none fd l a = call-Steady (on_readable fd) l a
    read_watched-Steady (some timer) fd l a =
        if_both (Steady l) (timer == fd) (sweep-Steady l.handlers l (Has-self l.handlers))
          (call-Steady (on_readable fd) l a)

    read_ready-Steady :
        (fd : ℕ) (l : EventLoop W T) → Has fd l.handlers → Steady l (read_ready react fd l)
    unfolding read_ready
    read_ready-Steady fd l a = read_watched-Steady l.timeout_fd fd l a

    write_ready-Steady :
        (fd : ℕ) (wants_out : Bool) (l : EventLoop W T)
        → Has fd l.handlers
        → Steady l (write_ready react fd wants_out l)
    unfolding write_ready
    write_ready-Steady fd wants_out l a =
        if_both (Steady l) (wants_out && not (is_pending fd l.pending))
          (call-Steady (on_writable fd) l a) (still l)

    run_tasks-Steady : (ts : List T) (l : EventLoop W T) → Steady l (run_tasks react ts l)
    unfolding run_tasks
    run_tasks-Steady [] l = still l
    run_tasks-Steady (t ∷ ts) l =
        Steady-trans (call-Steady (task t) l tt) (run_tasks-Steady ts (call react (task t) l))

    -- What epoll reports is registered.
    abbrev pub Reported : Event → EventLoop W T → Type 0
    Reported bell l = Unit
    Reported (ready fd error wants_in wants_out) l = Has fd l.handlers

    dispatch-Steady : (e : Event) (l : EventLoop W T) → Reported e l → Steady l (dispatch react e l)
    unfolding dispatch run_pending_tasks
    dispatch-Steady bell l a =
        let s = run_tasks-Steady l.tasks (record l { tasks = [] }) in
        record { keeps = s.keeps; calm = s.calm }
    dispatch-Steady (ready fd error wants_in wants_out) l a =
        let r = read_ready-Steady fd l a in
        if_both (Steady l) error (call-Steady (on_error fd) l a) (
          if_both (λ m. Steady l (write_ready react fd wants_out m)) wants_in
            (Steady-trans r
              (write_ready-Steady fd wants_out (read_ready react fd l) (r.keeps fd a)))
            (write_ready-Steady fd wants_out l a))

    Reported-keeps :
        (l m : EventLoop W T) (es : List Event)
        → Steady l m
        → All (λ e. Reported e l) es
        → All (λ e. Reported e m) es
    Reported-keeps l m [] s h = tt
    Reported-keeps l m (bell ∷ es) s h = (tt, Reported-keeps l m es s h.1)
    Reported-keeps l m (ready fd error wants_in wants_out ∷ es) s h =
        (s.keeps fd h.0, Reported-keeps l m es s h.1)

    dispatch_all-Steady :
        (es : List Event) (l : EventLoop W T)
        → All (λ e. Reported e l) es
        → Steady l (dispatch_all react es l)
    unfolding dispatch_all
    dispatch_all-Steady [] l a = still l
    dispatch_all-Steady (e ∷ es) l a =
        let s = dispatch-Steady e l a.0 in
        Steady-trans s (
          dispatch_all-Steady es (dispatch react e l)
            (Reported-keeps l (dispatch react e l) es s a.1))

    -- Each answer of `epoll_wait` names descriptors that are registered when it is given.
    abbrev pub Honest : List (Wait T) → EventLoop W T → Type 0
    Honest [] l = Unit
    Honest (batch es ∷ ws) l =
        All (λ e. Reported e l) es × Honest ws (process_pending_close (dispatch_all react es l))
    Honest (interrupted ∷ ws) l = Honest ws l
    Honest (wait_failed ∷ ws) l = Unit
    Honest (outside_post t ∷ ws) l = Honest ws (apply (post t) l)
    Honest (outside_stop ∷ ws) l = Honest ws (apply stop l)

    -- As long as epoll reports registered descriptors only, the loop never calls a handler that it has
    -- destroyed: closing is put off to the end of the batch, whatever the callbacks ask for.
    pub run_calm :
        (ws : List (Wait T)) (l : EventLoop W T)
        → Honest ws l
        → l.stray ≡ false
        → (run react ws l).stray ≡ false
    unfolding run process_pending_close
    run_calm [] l a h = h
    run_calm (batch es ∷ ws) l a h =
        elim_case (λ (m : EventLoop W T). m.stray ≡ false) l.running
          (λ _.
            run_calm ws (process_pending_close (dispatch_all react es l)) a.1
              ((dispatch_all-Steady es l a.0).calm h))
          (λ _. h)
    run_calm (interrupted ∷ ws) l a h = run_calm ws l a h
    run_calm (wait_failed ∷ ws) l a h = h
    run_calm (outside_post t ∷ ws) l a h =
        run_calm ws (apply (post t) l) a ((apply-Steady (post t) l).calm h)
    run_calm (outside_stop ∷ ws) l a h = run_calm ws (apply stop l) a ((apply-Steady stop l).calm h)
