-- ===== src/Control.antt =====
-- src/control/control_server.hpp and src/control/control_server.cpp: what the control server makes of the
-- bytes that a client sends. The commands that ask the rest of castle (counters, log, supervisor, vitals,
-- clock, shutdown) are the operations of `Castle`, on a state of its own. The em dash of a reply is its
-- three UTF-8 bytes. The socket and the polling stand in Control/Server, the reports in Control/Report, and `Castle` over the other models in Control/Instance.
pub mod Chunks
pub mod Suggest
pub mod Close
pub mod Report
pub mod Errors
pub mod Server
pub mod Lifetime
pub mod Instance
mod Tests
mod ServerTests
use castle_plus.Prelude.{
  ℕ, zero, suc, ◌+◌, ◌≡◌, Bool, true, false, not, ◌&&◌, ◌||◌, List, [], ◌∷◌, ◌++◌, Option, none,
  some, Bytes, codes, ◌==◌, if◌then◌else◌, equal, is_empty, drop_while, take, drop,
}
use castle_plus.Ini.{trim, lower}
use castle_plus.Proxy.State.{Write, wrote, write_again, write_interrupted, write_error}
use castle_plus.Autocorrect.{make_filter, fix}

-- What the commands ask of the rest of the program.
pub record Castle (W : Type 0) : Type 0 where
  pub has_supervisor : Bool
  pub cmd_status : W → Bytes × W
  pub cmd_health : W → Bytes × W
  pub cmd_errors : W → Bytes × W
  pub describe_services : W → Bytes × W
  pub restart_service : Bytes → W → Bool × W
  pub on_shutdown : W → W
  pub system_status : W → Bytes × W
  pub describe_backend_status : W → Bytes × W
  pub clock : W → Bytes

-- One of " \t".
unfoldable pub is_separator : ℕ → Bool
is_separator c = c == b' ' || c == b'\t'

-- The bytes up to the first separator.
unfoldable pub first_word : Bytes → Bytes
unfolding is_separator
first_word [] = []
first_word (c ∷ cs) = let rest = first_word cs in if is_separator c then [] else c ∷ rest

-- The argument: what is behind the separators that follow the first word.
unfoldable pub argument : Bytes → Bytes
unfolding is_separator drop_while
argument line = drop_while is_separator (drop_while (λ c. not (is_separator c)) line)

pub data Command : Type 0 where
  help ping status health errors services restart shutdown system_status backend_status exit clear
        unknown :
      Command

-- The chain of comparisons.
unfoldable pub command_of : Bytes → Command
command_of cmd =
    if equal cmd (codes "help")
    then help
    else if equal cmd (codes "ping")
    then ping
    else if equal cmd (codes "status") || equal cmd (codes "stats")
    then status
    else if equal cmd (codes "health")
    then health
    else if equal cmd (codes "errors")
    then errors
    else if equal cmd (codes "services") || equal cmd (codes "backends")
    then services
    else if equal cmd (codes "restart")
    then restart
    else if equal cmd (codes "shutdown")
    then shutdown
    else if equal cmd (codes "systemstatus")
    then system_status
    else if equal cmd (codes "backendstatus")
    then backend_status
    else if equal cmd (codes "exit") || equal cmd (codes "quit")
    then exit
    else if equal cmd (codes "clear")
    then clear
    else unknown

-- The words of the filter.
abbrev pub command_words : List Bytes
command_words =
    codes "help"
    ∷ codes "ping"
    ∷ codes "status"
    ∷ codes "stats"
    ∷ codes "health"
    ∷ codes "errors"
    ∷ codes "services"
    ∷ codes "backends"
    ∷ codes "restart"
    ∷ codes "shutdown"
    ∷ codes "exit"
    ∷ codes "quit"
    ∷ codes "systemstatus"
    ∷ codes "backendstatus"
    ∷ codes "clear"
    ∷ []

-- The word that is offered for an unknown command.
unfoldable pub suggestion : Bytes → Option Bytes
unfolding fix make_filter
suggestion cmd =
    let word = fix (make_filter 3 command_words) cmd in if equal word cmd then none else some word

unknown_text : Bytes → Option Bytes → Bytes
unknown_text cmd none = codes "unknown command: " ++ (cmd ++ codes " (try 'help')\n")
unknown_text cmd (some word) =
    codes "unknown command: "
    ++ (cmd ++ (b' ' ∷ 226 ∷ 128 ∷ 148 ∷ (codes " did you mean '" ++ (word ++ codes "'?\n"))))

abbrev pub help_text : Bytes
help_text =
    codes
      "commands:\n  help            this text\n  clear           clear off the current screen\n  ping            liveness check -> pong\n  status          aggregated counters across all loops\n  health          probe every loop via the async round-trip\n  services        list supervised backends\n  restart <name>  restart a supervised backend\n  errors          log lines since the last pull (needs --log-file)\n  shutdown        gracefully stop castle+\n  systemstatus    system vitals, internet, critical logs\n  backendstatus   per-backend uptime, failure history, quarantine\n  exit            close this admin session\n"

newlines : ℕ → Bytes
newlines zero = []
newlines (suc n) = b'\n' ∷ newlines n

-- A reply, the state behind it, and whether the session is closed.
pub record Answer (W : Type 0) : Type 0 where
  pub text : Bytes
  pub world : W
  pub close_session : Bool

-- `write_all`: the bytes that get through, with the answers of its writes. A write of nothing ends it like an error.
unfoldable pub write_all : List Write → Bytes → Bytes
write_all [] str = []
write_all (w ∷ ws) [] = []
write_all (wrote zero ∷ ws) (c ∷ cs) = []
write_all (wrote (suc n) ∷ ws) (c ∷ cs) =
    take (suc n) (c ∷ cs) ++ write_all ws (drop (suc n) (c ∷ cs))
write_all (write_interrupted ∷ ws) (c ∷ cs) = write_all ws (c ∷ cs)
write_all (write_again ∷ ws) (c ∷ cs) = []
write_all (write_error ∷ ws) (c ∷ cs) = []

-- The answers for the next call of `write_all`, and those for the calls after it.
abbrev pub next_answers : List (List Write) → List Write × List (List Write)
next_answers [] = ([], [])
next_answers (w ∷ ws) = (w, ws)

-- `handle_client`: the input that is not a whole line yet, the answers of the writes to come, a list for each call of
-- `write_all`, the bytes that the client's socket has taken, and whether the session is over.
pub record Session (W : Type 0) : Type 0 where
  pub inbuf : Bytes
  pub world : W
  pub writes : List (List Write)
  pub written : Bytes
  pub is_over : Bool

glue_byte : ℕ → List Bytes → Bytes → List Bytes × Bytes
glue_byte c [] rest = ([], c ∷ rest)
glue_byte c (l ∷ ls) rest = ((c ∷ l) ∷ ls, rest)

-- A byte in front of the whole lines and the rest.
unfoldable pub put_byte : ℕ → List Bytes × Bytes → List Bytes × Bytes
unfolding glue_byte
put_byte c (ls, rest) = if c == b'\n' then ([] ∷ ls, rest) else glue_byte c ls rest

-- The whole lines of the input, which the loop takes off one by one, and what is left of it.
unfoldable pub split_lines : Bytes → List Bytes × Bytes
unfolding put_byte
split_lines [] = ([], [])
split_lines (c ∷ cs) = put_byte c (split_lines cs)

module _ {W : Type 0} where
  say : Bytes × W → Answer W
  say (text, w) = record { text = text; world = w; close_session = false }

  restart_command : Castle W → Bytes → W → Answer W
  unfolding say
  restart_command castle arg w =
      if not castle.has_supervisor
      then say (codes "no supervisor configured\n", w)
      else if is_empty arg
      then say (codes "usage: restart <service>\n", w)
      else (let (found, w') = castle.restart_service arg w in
          if found
          then say (codes "restarting '" ++ (arg ++ codes "'\n"), w')
          else say (codes "no such service: " ++ (arg ++ codes "\n"), w'))

  -- The replies, with the command as it is spelled in lower case and its argument.
  unfoldable pub perform : Castle W → Command → Bytes → Bytes → W → Answer W
  unfolding say restart_command suggestion unknown_text newlines
  perform castle help cmd arg w = say (help_text, w)
  perform castle ping cmd arg w = say (codes "pong\n", w)
  perform castle status cmd arg w = say (castle.cmd_status w)
  perform castle health cmd arg w = say (castle.cmd_health w)
  perform castle errors cmd arg w = say (castle.cmd_errors w)
  perform castle services cmd arg w =
      if castle.has_supervisor
      then say (castle.describe_services w)
      else say (codes "no supervisor configured\n", w)
  perform castle restart cmd arg w = restart_command castle arg w
  perform castle shutdown cmd arg w = say (codes "shutting down castle+...\n", castle.on_shutdown w)
  perform castle system_status cmd arg w = say (castle.system_status w)
  perform castle backend_status cmd arg w =
      if castle.has_supervisor
      then say (castle.describe_backend_status w)
      else say (codes "no supervisor configured (start castle with --services)\n", w)
  perform castle exit cmd arg w = record { text = codes "bye\n"; world = w; close_session = true }
  perform castle clear cmd arg w = say (newlines 150, w)
  perform castle unknown cmd arg w = say (unknown_text cmd (suggestion cmd), w)

  dispatch_line : Castle W → Bytes → W → Answer W
  unfolding perform command_of argument first_word
  dispatch_line castle [] w = say ([], w)
  dispatch_line castle (c ∷ cs) w =
      let cmd = lower (first_word (c ∷ cs)) in
      perform castle (command_of cmd) cmd (argument (c ∷ cs)) w

  -- `dispatch_command`.
  unfoldable pub dispatch_command : Castle W → Bytes → W → Answer W
  unfolding dispatch_line
  dispatch_command castle raw w = dispatch_line castle (trim raw) w

  -- `dispatch`: a reply that is not empty opens with the clock.
  unfoldable pub dispatch : Castle W → Bytes → W → Answer W
  dispatch castle raw w =
      let a = dispatch_command castle raw w in
      if is_empty a.text
      then a
      else record a { text = b'[' ∷ (castle.clock a.world ++ (codes "]\n" ++ a.text)) }

  -- One line of a session: a reply that is not empty goes to `write_all`, and the session goes on even if it stops early.
  unfoldable pub serve : Castle W → Bytes → Session W → Session W
  unfolding dispatch
  serve castle line s =
      if s.is_over
      then s
      else (let a = dispatch castle line s.world in
          let (answers, later) = next_answers s.writes in
          record s {
            world = a.world;
            writes = if is_empty a.text then s.writes else later;
            written = s.written ++ write_all answers a.text;
            is_over = a.close_session;
          })

  unfoldable pub serve_all : Castle W → List Bytes → Session W → Session W
  unfolding serve
  serve_all castle [] s = s
  serve_all castle (l ∷ ls) s = serve_all castle ls (serve castle l s)

  -- What a read leads to. Input behind the line that closes the session is never looked at.
  unfoldable pub on_read : Castle W → Session W → Bytes → Session W
  unfolding serve_all split_lines
  on_read castle s bytes =
      let (ls, rest) = split_lines (s.inbuf ++ bytes) in
      serve_all castle ls (record s { inbuf = rest })

  unfoldable pub on_reads : Castle W → Session W → List Bytes → Session W
  unfolding on_read
  on_reads castle s [] = s
  on_reads castle s (r ∷ rs) = on_reads castle (on_read castle s r) rs
