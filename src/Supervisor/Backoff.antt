-- ===== src/Supervisor/Backoff.antt =====
-- The delays of a crash loop.
use castle_plus.Prelude.{ℕ, ◌-◌, ◌/◌, ◌<◌, List, [], ◌∷◌, All}
use castle_plus.Service.{Service, launched, schedule_restart, second, stable_sec}

-- One launch with its child, and the instant at which that child is seen to have failed.
pub record Crash : Type 0 where
  pub launch : ℕ
  pub child : ℕ
  pub failure : ℕ

-- A service that is launched and fails again and again; the latest crash stands first.
unfoldable pub crash_loop : List Crash → Service → Service
unfolding launched
crash_loop [] s = s
crash_loop (k ∷ ks) s = schedule_restart (launched (crash_loop ks s) k.launch k.child) k.failure

-- Each child has lived for less than the ten seconds that count as stable.
abbrev pub AllShort : List Crash → Type 0
AllShort ks = All (λ k. (k.failure - k.launch) / second < stable_sec) ks
