-- ===== src/EventLoop/Tests.antt =====
-- A loop with a listener, on descriptor 3, two connections that close each other, and a timer.
use castle_plus.Prelude.{
  ℕ, suc, ◌≡◌, refl, true, false, List, [], ◌∷◌, ◌++◌, some, none, ◌==◌, if◌then◌else◌,
}
use castle_plus.EventLoop.{
  enable_idle_timeouts, bell, ready, is_registered, is_pending, erase_all, Call, add, request_close,
  post, stop, Callback, on_readable, on_writable, on_error, check_timeout, task, EventLoop, Wait,
  batch, interrupted, outside_post, apply, apply_all, process_pending_close, note_call, call, sweep,
  read_watched, read_ready, run_tasks, run_pending_tasks, write_ready, dispatch, dispatch_all, run,
}
use castle_plus.EventLoop.Batch.{run_calm}
use castle_plus.EventLoop.Tasks.{run_queued}

-- The handlers count their calls; task 1 posts task 2, and task 2 stops the loop.
unfoldable react : Callback ℕ → ℕ → ℕ × List (Call ℕ)
react (on_readable fd) n =
    (suc n, if fd == 3 then add 7 1 true ∷ [] else request_close 5 ∷ request_close 6 ∷ [])
react (on_writable fd) n = (suc n, [])
react (on_error fd) n = (suc n, request_close fd ∷ [])
react (check_timeout fd) n = (n, [])
react (task t) n = (n, if t == 1 then post 2 ∷ [] else stop ∷ [])

abbrev loop : EventLoop ℕ ℕ
loop = record {
  handlers =
      record { fd = 3; mask = 1 }
      ∷ record { fd = 5; mask = 5 }
      ∷ record { fd = 6; mask = 5 }
      ∷ record { fd = 4; mask = 1 }
      ∷ [];
  pending = [];
  tasks = [];
  running = true;
  timeout_fd = some 4;
  world = 0;
  posted = [];
  ran = [];
  stray = false;
}

-- The timer is added last.
abbrev bare : EventLoop ℕ ℕ
bare = record loop {
  handlers =
      record { fd = 3; mask = 1 } ∷ record { fd = 5; mask = 5 } ∷ record { fd = 6; mask = 5 } ∷ [];
  timeout_fd = none;
}

enable_idle_timeouts-timer : (enable_idle_timeouts (some 4) true true bare).timeout_fd ≡ some 4
unfolding enable_idle_timeouts apply
enable_idle_timeouts-timer = refl

-- Descriptor 6 is reported with 5, which closes both; 7 is new.
abbrev waits : List (Wait ℕ)
waits =
    outside_post 1
    ∷ batch
        (ready 3 false true false ∷ ready 5 false true true ∷ ready 6 false true true ∷ bell ∷ [])
    ∷ interrupted
    ∷ batch (ready 7 true false false ∷ ready 4 false true false ∷ bell ∷ [])
    ∷ []

run-waits : (run react waits loop).ran ≡ 1 ∷ 2 ∷ []
unfolding run dispatch_all dispatch call react apply_all apply note_call process_pending_close
    erase_all is_pending is_registered run_pending_tasks run_tasks read_ready read_watched
    write_ready sweep
run-waits = refl

run_calm_example : (run react waits loop).stray ≡ false
unfolding run dispatch_all dispatch call react apply_all apply note_call process_pending_close
    erase_all is_pending is_registered run_pending_tasks run_tasks read_ready read_watched
    write_ready sweep
run_calm_example =
    run_calm react waits loop ((refl, (refl, (refl, (tt, tt)))), ((refl, (refl, (tt, tt))), tt))
      refl

run_queued_example :
    (run react waits loop).ran ++ (run react waits loop).tasks ≡ (run react waits loop).posted
run_queued_example = run_queued react waits loop refl

abbrev waiting : EventLoop ℕ ℕ
waiting = record loop { tasks = 1 ∷ 8 ∷ [] }
