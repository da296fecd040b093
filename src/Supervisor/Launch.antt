-- ===== src/Supervisor/Launch.antt =====
-- The parts of src/supervisor/supervisor.cpp around the handlers: the descriptors that `start` opens, and the child's
-- side of `spawn`. Whether each call succeeds is an argument.
use castle_plus.Prelude.{
  ℕ, Bool, true, false, not, ◌&&◌, List, ◌∷◌, Option, none, some, Bytes, is_empty, if◌then◌else◌,
}
use castle_plus.ServiceConfig.{ServiceConfig}
use castle_plus.Supervisor.{Supervisor, start}

-- How the child of a fork goes on.
pub data Child : Type 0 where
  executes : Bytes → List Bytes → Child
  exits : ℕ → Child

-- The arguments that `spawn` builds in the parent.
unfoldable pub argv : ServiceConfig → List Bytes
argv c = c.exec ∷ c.args

-- The child: a working directory that cannot be entered ends it with 126, and a program that cannot be executed
-- with 127.
unfoldable pub child : Bool → Bool → ServiceConfig → Child
unfolding argv
child chdir execv c =
    if not (is_empty c.workdir) && not chdir
    then exits 126
    else if execv
    then executes c.exec (argv c)
    else exits 127

-- Whether each call that makes or sets a descriptor succeeds.
pub record Calls : Type 0 where
  pub signalfd : Bool
  pub timerfd_create : Bool
  pub timerfd_settime : Bool

pub record Descriptors : Type 0 where
  pub signal_fd : Bool
  pub timer_fd : Bool

-- The first part of `start`: the descriptors that are open behind it, and whether it goes on.
unfoldable pub open_descriptors : Calls → Descriptors × Bool
open_descriptors c =
    if not c.signalfd
    then (record { signal_fd = false; timer_fd = false }, false)
    else if not c.timerfd_create
    then (record { signal_fd = false; timer_fd = false }, false)
    else if not c.timerfd_settime
    then (record { signal_fd = false; timer_fd = false }, false)
    else (record { signal_fd = true; timer_fd = true }, true)

-- `start`: no service is launched if a descriptor is missing.
unfoldable pub start_checked : Calls → List ServiceConfig → ℕ → List (Option ℕ) → Option Supervisor
unfolding open_descriptors start
start_checked calls configs now forks =
    if (open_descriptors calls).1 then some (start configs now forks) else none
