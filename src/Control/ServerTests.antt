-- ===== src/Control/ServerTests.antt =====
-- A control server that starts, and a client that asks for the log and for the loops.
use castle_plus.Prelude.{
  ℕ, ◌≡◌, refl, true, false, List, [], ◌∷◌, ◌++◌, ◌^◌, none, some, codes, is_empty, length, drop,
}
use castle_plus.Prelude.Decimal.{decimal}
use castle_plus.Ini.{lines}
use castle_plus.Connectivity.{down}
use castle_plus.Log.Logger.{Stamp}
use castle_plus.Log.Messages.{warn, error, new_log, content, log_init, Event, message, pull, run}
use castle_plus.Supervisor.{start}
use castle_plus.Proxy.State.{Write, wrote, write_interrupted, write_error}
use castle_plus.Control.{dispatch_command, on_read}
use castle_plus.Control.Chunks.{joined}
use castle_plus.Control.Report.{
  done, late, Vitals, cmd_health, responded, errors_text, nothing_new, system_status_text,
  critical_text, with_ends,
}
use castle_plus.Control.Errors.{errors_twice}
use castle_plus.Control.Instance.{Parts, Readings, castle_of}
use castle_plus.Control.Server.{
  Calls, start as start_server, stop, Turn, interrupted, no_input, input, stopped, greeted,
  handle_client,
}
use castle_plus.Control.Lifetime.{
  IsReleased, idle, start-stop-IsReleased, reads, Alike, handle_client-joined,
}

abbrev clock : Stamp
clock = record { year = 2026; month = 1; day = 2; hours = 3; minutes = 4; seconds = 5 }

abbrev vitals : Vitals ℕ
vitals = record {
  threads = some 4;
  load = none;
  temp = some 41;
  mem_free = some 100;
  mem_total = none;
}

abbrev readings : Readings ℕ
readings = record {
  now = 10 ^ 9;
  acks = done ∷ late ∷ done ∷ [];
  rtt_us = 70;
  log_opens = true;
  fork = none;
  in_time = true;
  vitals = vitals;
  fixed2 = λ n. decimal n ++ codes ".00";
  strsignal = λ n. codes "Killed";
  down_since = λ s. codes "now";
  date_string = codes "2026-01-02";
  time_local = codes "03:04:05";
}

abbrev parts : Parts
parts = record {
  log = new_log none;
  supervisor = start [] 0 [];
  loops = [];
  net = down;
  signalled = false;
}

cmd_health-late :
    cmd_health readings.acks 70
    ≡ codes "health: 2/3 event loops responsive (task round-trip in 70us)\n"
unfolding cmd_health responded decimal
cmd_health-late = refl

system_status_text-vitals :
    system_status_text readings.fixed2 vitals down (codes "[t] x" ∷ [])
    ≡ codes
        "threads:   4\nload:      unavailable\ncpu_temp:  41.00 C\nmemory:    100 MB available\ninternet:  DOWN\ncritical:  1 entry\n  [t] x\n"
unfolding system_status_text critical_text with_ends decimal
system_status_text-vitals = refl

abbrev events : List Event
events =
    message warn (codes "now") true clock (codes "slow")
    ∷ pull
    ∷ message error (codes "now") true clock (codes "worse")
    ∷ []

abbrev logging : Parts
logging = record parts {
  log = run events (log_init (codes "castle.log") true clock (new_log none));
}

errors_twice_example :
    let a = dispatch_command (castle_of true readings) (codes "errors") logging in
    (a.text ≡ errors_text (drop (length logging.log.pulled) (lines (content logging.log.file))))
    × ((dispatch_command (castle_of true readings) (codes "errors") a.world).text ≡ nothing_new)
unfolding is_empty
errors_twice_example =
    errors_twice true readings logging (codes "castle.log") clock none events refl refl refl

abbrev calls : Calls
calls = record { socket = true; bind = true; listen = true; eventfd = false }

start-stop-IsReleased_example :
    let r = start_server calls (codes "/tmp/castle.sock") (idle true) in
    (r.1 ≡ false → IsReleased r.0)
    × IsReleased (stop (codes "/tmp/castle.sock") r.0)
    × (r.1 ≡ true → (stop (codes "/tmp/castle.sock") r.0).socket_file ≡ false)
unfolding is_empty
start-stop-IsReleased_example = start-stop-IsReleased calls (codes "/tmp/castle.sock") true refl

abbrev turns : List Turn
turns =
    input (some (codes "pi"))
    ∷ interrupted
    ∷ no_input
    ∷ input (some (codes "ng\nhealth\n"))
    ∷ stopped
    ∷ []

-- The second part of the greeting fails, and so does the first reply in its middle.
abbrev writes : List (List Write)
writes =
    (wrote 9 ∷ write_interrupted ∷ wrote 99 ∷ [])
    ∷ (write_error ∷ [])
    ∷ (wrote 5 ∷ write_error ∷ [])
    ∷ (wrote 9999 ∷ [])
    ∷ []

handle_client-joined_example :
    Alike
      (castle_of true readings)
      (handle_client (castle_of true readings) turns writes parts)
      (on_read (castle_of true readings) (greeted writes parts) (joined (reads turns)))
handle_client-joined_example = handle_client-joined (castle_of true readings) turns writes parts
