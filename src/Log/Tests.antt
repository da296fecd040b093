-- ===== src/Log/Tests.antt =====
-- A log file that a message, a pull and critical messages write to.
use castle_plus.Prelude.{
  ◌≡◌, refl, true, false, List, [], ◌∷◌, ◌≤◌, codes, is_empty, none, take, length,
}
use castle_plus.Prelude.Decimal.{decimal}
use castle_plus.Ini.{lines}
use castle_plus.Log.Reader.{reindex}
use castle_plus.Log.Logger.{Stamp, high, new_logger, entry, prefix, label}
use castle_plus.Log.Messages.{
  info, warn, critical, new_log, content, log_init, log_pull_new, Event, message, pull, run,
}
use castle_plus.Log.Once.{run-pulled}
use castle_plus.Log.History.{latest, critical_lines, run-latest}

abbrev clock : Stamp
clock = record { year = 2026; month = 1; day = 2; hours = 3; minutes = 4; seconds = 5 }

abbrev events : List Event
events =
    message warn (codes "now") true clock (codes "slow")
    ∷ pull
    ∷ message critical (codes "now") true clock (codes "down")
    ∷ message info (codes "now") true clock (codes "up")
    ∷ pull
    ∷ []

run-pulled_example :
    let l = run events (log_init (codes "castle.log") true clock (new_log none)) in
    (l.pulled ≡ take l.cursor (lines (content l.file)))
    × (l.cursor ≤ length (lines (content l.file)))
    × ((log_pull_new true l).pulled ≡ lines (content l.file))
unfolding is_empty
run-pulled_example = run-pulled (codes "castle.log") clock none events refl

run-latest_example :
    (run events (log_init [] false clock (new_log none))).entries ≡ latest (critical_lines events)
run-latest_example = run-latest [] false clock none events

entry_test :
    entry (new_logger true true []) clock high (codes "full")
    ≡ codes "[0] 2026-1-2 3:4:5 HIGH: full\n"
unfolding entry prefix label reindex decimal
entry_test = refl
