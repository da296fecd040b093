-- ===== src/Connectivity.antt =====
-- src/net/connectivity.h and src/net/connectivity.cpp: the watch over the internet connection. What the
-- probes answer, the clock, and whether the wait between two rounds is ended by `stop` are arguments.
use castle_plus.Prelude.{
  ℕ, ◌-◌, ◌/◌, Bool, true, false, not, ◌&&◌, List, [], ◌∷◌, ◌++◌, Bytes, codes, if◌then◌else◌,
}
use castle_plus.Service.{second}
pub mod Outages
mod Tests

pub data NetState : Type 0 where
  unknown up down : NetState

pub record ProbeTarget : Type 0 where
  pub host : Bytes
  pub port : ℕ

abbrev pub probe_targets : List ProbeTarget
probe_targets =
    record { host = codes "1.1.1.1"; port = 443 }
    ∷ record { host = codes "8.8.8.8"; port = 443 }
    ∷ []

-- The loop over the targets.
unfoldable pub any_answers : (ProbeTarget → Bool) → List ProbeTarget → Bool
any_answers probe [] = false
any_answers probe (t ∷ ts) = let rest = any_answers probe ts in if probe t then true else rest

abbrev pub internet_reachable : (ProbeTarget → Bool) → Bool
internet_reachable probe = any_answers probe probe_targets

-- What is logged: a loss, and a recovery with the seconds that it took.
pub data Note : Type 0 where
  lost : Note
  restored : ℕ → Note

-- `internet_state` and `down_since`, with the log so far.
pub record Watch : Type 0 where
  pub state : NetState
  pub down_since : ℕ
  pub log : List Note

abbrev pub new_watch : Watch
new_watch = record { state = unknown; down_since = 0; log = [] }

abbrev pub is_down : NetState → Bool
is_down down = true
is_down unknown = false
is_down up = false

-- One round of the loop, behind the probes and up to the wait.
unfoldable pub note : Bool → ℕ → Watch → Watch
note reachable now w =
    let state = if reachable then up else down in
    if not reachable && not (is_down w.state)
    then record { state = state; down_since = now; log = w.log ++ (lost ∷ []) }
    else if reachable && is_down w.state
    then record w { state = state; log = w.log ++ (restored ((now - w.down_since) / second) ∷ []) }
    else record w { state = state }

unfoldable pub check : (ProbeTarget → Bool) → ℕ → Watch → Watch
unfolding any_answers note
check probe now w = note (internet_reachable probe) now w

-- A round: the probes, the time, and whether the wait behind it finds `stop_` set.
pub record Round : Type 0 where
  pub probe : ProbeTarget → Bool
  pub now : ℕ
  pub stopped : Bool

-- `run`.
unfoldable pub run : List Round → Watch → Watch
unfolding check
run [] w = w
run (r ∷ rs) w = elim r.stopped [
  | true ↦ check r.probe r.now w
  | false ↦ run rs (check r.probe r.now w)
]
