-- ===== src/EventLoop.antt =====
-- src/net/event_loop.h, src/net/event_loop.cpp, src/net/event_handler.h and src/net/fd_watcher.h: the
-- reactor. What a callback does besides calling the loop is an argument, and so is what epoll answers.
use castle_plus.Prelude.{
  ℕ, Bool, true, false, not, ◌&&◌, ◌||◌, List, [], ◌∷◌, ◌++◌, Option, none, some, ◌==◌,
  if◌then◌else◌,
}
pub mod Batch
pub mod Tasks
mod Tests

-- A handler in `handlers_`, by its descriptor, with its epoll mask.
pub record Handler : Type 0 where
  pub fd : ℕ
  pub mask : ℕ

-- What epoll reports: the doorbell, or the flags of a descriptor.
pub data Event : Type 0 where
  bell : Event
  ready : (fd : ℕ) (error wants_in wants_out : Bool) → Event

unfoldable pub is_registered : ℕ → List Handler → Bool
is_registered fd [] = false
is_registered fd (h ∷ hs) = let rest = is_registered fd hs in if h.fd == fd then true else rest

unfoldable pub is_pending : ℕ → List ℕ → Bool
is_pending fd [] = false
is_pending fd (x ∷ xs) = let rest = is_pending fd xs in if x == fd then true else rest

-- `EPOLL_CTL_MOD`, and the mask that it sets.
unfoldable pub set_mask : ℕ → ℕ → List Handler → List Handler
set_mask fd mask [] = []
set_mask fd mask (h ∷ hs) =
    let rest = set_mask fd mask hs in if h.fd == fd then record h { mask = mask } ∷ hs else h ∷ rest

-- `handlers_.erase` for each descriptor of `pending_close_`.
unfoldable pub erase_all : List ℕ → List Handler → List Handler
unfolding is_pending
erase_all fds [] = []
erase_all fds (h ∷ hs) =
    let rest = erase_all fds hs in if is_pending h.fd fds then rest else h ∷ rest

-- The calls of the loop's operations; an addition or an update has epoll's answer. `T` is the type of tasks.
pub data Call (T : Type 0) : Type 0 where
  add : (fd mask : ℕ) (accepted : Bool) → Call T
  update : (fd mask : ℕ) (accepted : Bool) → Call T
  request_close : ℕ → Call T
  post : T → Call T
  stop : Call T

-- The callbacks of a handler, and a task that is run.
pub data Callback (T : Type 0) : Type 0 where
  on_readable on_writable on_error check_timeout : ℕ → Callback T
  task : T → Callback T

-- The loop, the state `W` of its handlers, and what has happened: the tasks that were posted and those
-- that were run, and whether a handler was called that is not in `handlers_`.
pub record EventLoop (W T : Type 0) : Type 0 where
  pub handlers : List Handler
  pub pending : List ℕ
  pub tasks : List T
  pub running : Bool
  pub timeout_fd : Option ℕ
  pub world : W
  pub posted : List T
  pub ran : List T
  pub stray : Bool

-- What `epoll_wait` returns, and what other threads do while it blocks.
pub data Wait (T : Type 0) : Type 0 where
  batch : List Event → Wait T
  interrupted wait_failed : Wait T
  outside_post : T → Wait T
  outside_stop : Wait T

module _ {W T : Type 0} where
  -- `add`, `update`, `request_close`, `post` and `stop`. A handler that epoll does not accept is dropped.
  unfoldable pub apply : Call T → EventLoop W T → EventLoop W T
  unfolding set_mask
  apply (add fd mask accepted) l =
      if accepted then record l { handlers = record { fd = fd; mask = mask } ∷ l.handlers } else l
  apply (update fd mask accepted) l =
      if accepted then record l { handlers = set_mask fd mask l.handlers } else l
  apply (request_close fd) l = record l { pending = fd ∷ l.pending }
  apply (post t) l = record l { tasks = l.tasks ++ (t ∷ []); posted = l.posted ++ (t ∷ []) }
  apply stop l = record l { running = false }

  -- `enable_idle_timeouts`: the timer's descriptor, if there is one, whether it is set, and whether epoll
  -- accepts its watcher.
  unfoldable pub enable_idle_timeouts : Option ℕ → Bool → Bool → EventLoop W T → EventLoop W T
  unfolding apply
  enable_idle_timeouts none set accepted l = record l { timeout_fd = none }
  enable_idle_timeouts (some timer) set accepted l =
      if set
      then apply (add timer 1 accepted) (record l { timeout_fd = some timer })
      else record l { timeout_fd = none }

  unfoldable pub apply_all : List (Call T) → EventLoop W T → EventLoop W T
  unfolding apply
  apply_all [] l = l
  apply_all (c ∷ cs) l = apply_all cs (apply c l)

  -- `process_pending_close`.
  unfoldable pub process_pending_close : EventLoop W T → EventLoop W T
  unfolding erase_all
  process_pending_close l = record l { handlers = erase_all l.pending l.handlers; pending = [] }

  -- What a callback leaves in the record of what has happened.
  unfoldable pub note_call : Callback T → EventLoop W T → EventLoop W T
  unfolding is_registered
  note_call (on_readable fd) l = record l { stray = l.stray || not (is_registered fd l.handlers) }
  note_call (on_writable fd) l = record l { stray = l.stray || not (is_registered fd l.handlers) }
  note_call (on_error fd) l = record l { stray = l.stray || not (is_registered fd l.handlers) }
  note_call (check_timeout fd) l = record l { stray = l.stray || not (is_registered fd l.handlers) }
  note_call (task t) l = record l { ran = l.ran ++ (t ∷ []) }

  -- `react` is what the handlers and the tasks do: their own state, and their calls of the loop.
  module _ (react : Callback T → W → W × List (Call T)) where
    unfoldable pub call : Callback T → EventLoop W T → EventLoop W T
    unfolding note_call apply_all
    call c l = let r = react c l.world in apply_all r.1 (record (note_call c l) { world = r.0 })

    -- `sweep_timeouts`, over the handlers at its beginning.
    unfoldable pub sweep : List Handler → EventLoop W T → EventLoop W T
    unfolding call
    sweep [] l = l
    sweep (h ∷ hs) l = sweep hs (call (check_timeout h.fd) l)

    -- `on_readable`, which is `sweep_timeouts` for the watcher of the timer.
    unfoldable pub read_watched : Option ℕ → ℕ → EventLoop W T → EventLoop W T
    unfolding sweep call
    read_watched none fd l = call (on_readable fd) l
    read_watched (some timer) fd l =
        if timer == fd then sweep l.handlers l else call (on_readable fd) l

    unfoldable pub read_ready : ℕ → EventLoop W T → EventLoop W T
    unfolding read_watched
    read_ready fd l = read_watched l.timeout_fd fd l

    -- `run_pending_tasks`, behind the swap of the queue.
    unfoldable pub run_tasks : List T → EventLoop W T → EventLoop W T
    unfolding call
    run_tasks [] l = l
    run_tasks (t ∷ ts) l = run_tasks ts (call (task t) l)

    unfoldable pub run_pending_tasks : EventLoop W T → EventLoop W T
    unfolding run_tasks
    run_pending_tasks l = run_tasks l.tasks (record l { tasks = [] })

    -- The second half of a round, behind `on_readable`.
    unfoldable pub write_ready : ℕ → Bool → EventLoop W T → EventLoop W T
    unfolding is_pending call
    write_ready fd wants_out l =
        if wants_out && not (is_pending fd l.pending) then call (on_writable fd) l else l

    -- One round of the loop over `events`.
    unfoldable pub dispatch : Event → EventLoop W T → EventLoop W T
    unfolding run_pending_tasks call read_ready write_ready
    dispatch bell l = run_pending_tasks l
    dispatch (ready fd error wants_in wants_out) l =
        if error
        then call (on_error fd) l
        else write_ready fd wants_out (if wants_in then read_ready fd l else l)

    unfoldable pub dispatch_all : List Event → EventLoop W T → EventLoop W T
    unfolding dispatch
    dispatch_all [] l = l
    dispatch_all (e ∷ es) l = dispatch_all es (dispatch e l)

    -- `run`: the answers of `epoll_wait` in order.
    unfoldable pub run : List (Wait T) → EventLoop W T → EventLoop W T
    unfolding dispatch_all process_pending_close apply
    run [] l = l
    run (batch es ∷ ws) l = elim l.running [
      | true ↦ run ws (process_pending_close (dispatch_all es l))
      | false ↦ l
    ]
    run (interrupted ∷ ws) l = run ws l
    run (wait_failed ∷ ws) l = l
    run (outside_post t ∷ ws) l = run ws (apply (post t) l)
    run (outside_stop ∷ ws) l = run ws (apply stop l)
