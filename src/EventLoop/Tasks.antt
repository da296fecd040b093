-- ===== src/EventLoop/Tasks.antt =====
-- The queue of tasks that other threads post to a loop.
use castle_plus.Prelude.{
  ℕ, ◌≡◌, refl, sym, ap, ◌∙◌, Bool, not, ◌&&◌, List, [], ◌∷◌, ◌++◌, append_assoc, append-nil,
  Option, none, some, ◌==◌, if◌then◌else◌, if_both, elim_case,
}
use castle_plus.EventLoop.{
  Handler, Event, bell, ready, is_pending, Call, add, update, request_close, post, stop, Callback,
  on_readable, on_writable, on_error, check_timeout, task, EventLoop, Wait, batch, interrupted,
  wait_failed, outside_post, outside_stop, apply, apply_all, process_pending_close, note_call, call,
  sweep, read_watched, read_ready, run_tasks, run_pending_tasks, write_ready, dispatch,
  dispatch_all, run,
}

module _ {W T : Type 0} where
  -- What was posted has run, or is in `ts`, the part of the queue that is being run, or waits.
  abbrev Queued : List T → EventLoop W T → Type 0
  Queued ts l = l.ran ++ (ts ++ l.tasks) ≡ l.posted

  apply-Queued :
      (ts : List T) (c : Call T) (l : EventLoop W T) → Queued ts l → Queued ts (apply c l)
  unfolding apply
  apply-Queued ts (add fd mask accepted) l h = if_both (Queued ts) accepted h h
  apply-Queued ts (update fd mask accepted) l h = if_both (Queued ts) accepted h h
  apply-Queued ts (request_close fd) l h = h
  apply-Queued ts (post t) l h =
      ap (λ x. l.ran ++ x) (sym (append_assoc ts l.tasks (t ∷ [])))
      ∙ sym (append_assoc l.ran (ts ++ l.tasks) (t ∷ []))
      ∙ ap (λ x. x ++ (t ∷ [])) h
  apply-Queued ts stop l h = h

  apply_all-Queued :
      (ts : List T) (cs : List (Call T)) (l : EventLoop W T)
      → Queued ts l
      → Queued ts (apply_all cs l)
  unfolding apply_all
  apply_all-Queued ts [] l h = h
  apply_all-Queued ts (c ∷ cs) l h = apply_all-Queued ts cs (apply c l) (apply-Queued ts c l h)

  apply-ran : (c : Call T) (l : EventLoop W T) → (apply c l).ran ≡ l.ran
  unfolding apply
  apply-ran (add fd mask accepted) l =
      if_both (λ (m : EventLoop W T). m.ran ≡ l.ran) accepted refl refl
  apply-ran (update fd mask accepted) l =
      if_both (λ (m : EventLoop W T). m.ran ≡ l.ran) accepted refl refl
  apply-ran (request_close fd) l = refl
  apply-ran (post t) l = refl
  apply-ran stop l = refl

  apply_all-ran : (cs : List (Call T)) (l : EventLoop W T) → (apply_all cs l).ran ≡ l.ran
  unfolding apply_all
  apply_all-ran [] l = refl
  apply_all-ran (c ∷ cs) l = apply_all-ran cs (apply c l) ∙ apply-ran c l

  module _ (react : Callback T → W → W × List (Call T)) where
    -- The part of the queue that is left when `c` runs.
    abbrev behind : Callback T → List T → List T
    behind (task t) ts = t ∷ ts
    behind c ts = ts

    call-Queued :
        (c : Callback T) (ts : List T) (l : EventLoop W T)
        → Queued (behind c ts) l
        → Queued ts (call react c l)
    unfolding call note_call
    call-Queued (on_readable fd) ts l h = apply_all-Queued ts (react (on_readable fd) l.world).1 _ h
    call-Queued (on_writable fd) ts l h = apply_all-Queued ts (react (on_writable fd) l.world).1 _ h
    call-Queued (on_error fd) ts l h = apply_all-Queued ts (react (on_error fd) l.world).1 _ h
    call-Queued (check_timeout fd) ts l h =
        apply_all-Queued ts (react (check_timeout fd) l.world).1 _ h
    call-Queued (task t) ts l h =
        apply_all-Queued ts (react (task t) l.world).1 _
          (append_assoc l.ran (t ∷ []) (ts ++ l.tasks) ∙ h)

    sweep-Queued :
        (hs : List Handler) (l : EventLoop W T) → Queued [] l → Queued [] (sweep react hs l)
    unfolding sweep
    sweep-Queued [] l h = h
    sweep-Queued (x ∷ xs) l h =
        sweep-Queued xs (call react (check_timeout x.fd) l)
          (call-Queued (check_timeout x.fd) [] l h)

    read_watched-Queued :
        (o : Option ℕ) (fd : ℕ) (l : EventLoop W T)
        → Queued [] l
        → Queued [] (read_watched react o fd l)
    unfolding read_watched
    read_watched-Queued none fd l h = call-Queued (on_readable fd) [] l h
    read_watched-Queued (some timer) fd l h =
        if_both (Queued []) (timer == fd) (sweep-Queued l.handlers l h)
          (call-Queued (on_readable fd) [] l h)

    write_ready-Queued :
        (fd : ℕ) (wants_out : Bool) (l : EventLoop W T)
        → Queued [] l
        → Queued [] (write_ready react fd wants_out l)
    unfolding write_ready
    write_ready-Queued fd wants_out l h =
        if_both (Queued []) (wants_out && not (is_pending fd l.pending))
          (call-Queued (on_writable fd) [] l h) h

    run_tasks-Queued :
        (ts : List T) (l : EventLoop W T) → Queued ts l → Queued [] (run_tasks react ts l)
    unfolding run_tasks
    run_tasks-Queued [] l h = h
    run_tasks-Queued (t ∷ ts) l h =
        run_tasks-Queued ts (call react (task t) l) (call-Queued (task t) ts l h)

    dispatch-Queued : (e : Event) (l : EventLoop W T) → Queued [] l → Queued [] (dispatch react e l)
    unfolding dispatch run_pending_tasks read_ready
    dispatch-Queued bell l h =
        run_tasks-Queued l.tasks (record l { tasks = [] })
          (ap (λ x. l.ran ++ x) (append-nil l.tasks) ∙ h)
    dispatch-Queued (ready fd error wants_in wants_out) l h =
        if_both (Queued []) error (call-Queued (on_error fd) [] l h) (
          write_ready-Queued fd wants_out (if wants_in then read_ready react fd l else l)
            (if_both (Queued []) wants_in (read_watched-Queued l.timeout_fd fd l h) h))

    dispatch_all-Queued :
        (es : List Event) (l : EventLoop W T) → Queued [] l → Queued [] (dispatch_all react es l)
    unfolding dispatch_all
    dispatch_all-Queued [] l h = h
    dispatch_all-Queued (e ∷ es) l h =
        dispatch_all-Queued es (dispatch react e l) (dispatch-Queued e l h)

    -- Whatever is posted, by callbacks, by tasks or by other threads: what has run, with what still waits, is
    -- what was posted, each task once and in the order of the posts.
    pub run_queued :
        (ws : List (Wait T)) (l : EventLoop W T)
        → l.ran ++ l.tasks ≡ l.posted
        → let m = run react ws l in m.ran ++ m.tasks ≡ m.posted
    unfolding run process_pending_close
    run_queued [] l h = h
    run_queued (batch es ∷ ws) l h =
        elim_case (Queued []) l.running
          (λ _.
            run_queued ws (process_pending_close (dispatch_all react es l))
              (dispatch_all-Queued es l h))
          (λ _. h)
    run_queued (interrupted ∷ ws) l h = run_queued ws l h
    run_queued (wait_failed ∷ ws) l h = h
    run_queued (outside_post t ∷ ws) l h =
        run_queued ws (apply (post t) l) (apply-Queued [] (post t) l h)
    run_queued (outside_stop ∷ ws) l h = run_queued ws (apply stop l) (apply-Queued [] stop l h)

    run_tasks-ran : (ts : List T) (l : EventLoop W T) → (run_tasks react ts l).ran ≡ l.ran ++ ts
    unfolding run_tasks call note_call
    run_tasks-ran [] l = sym (append-nil l.ran)
    run_tasks-ran (t ∷ ts) l =
        run_tasks-ran ts (call react (task t) l)
        ∙ ap (λ x. x ++ ts) (apply_all-ran (react (task t) l.world).1 _)
        ∙ append_assoc l.ran (t ∷ []) ts

    -- At the bell every task that waits is run, in order and to the end, even if tasks post more: those are
    -- left for the next bell.
    dispatch_bell : (l : EventLoop W T) → (dispatch react bell l).ran ≡ l.ran ++ l.tasks
    unfolding dispatch run_pending_tasks
    dispatch_bell l = run_tasks-ran l.tasks (record l { tasks = [] })
