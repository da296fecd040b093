-- ===== src/Log/Messages.antt =====
-- src/util/log.h: `log_msg`, `log_init` and `log_pull_new`. The time stamps are arguments, and so is whether
-- the file opens.
use castle_plus.Prelude.{
  ℕ, zero, suc, ◌-◌, Bool, true, List, [], ◌∷◌, ◌++◌, Option, none, some, Bytes, codes, is_empty,
  if◌then◌else◌, ltb, length, take, drop, pad,
}
use castle_plus.Log.Reader.{reindex, get_line}
use castle_plus.Log.Logger.{Severity, warning, high, Stamp, Logger, create, write}

pub data LogLevel : Type 0 where
  info warn error critical : LogLevel

-- The file, the file logger, which has the reader beside it, the watermark, the history of the critical
-- lines, what went to stderr, and the lines that were pulled so far.
pub record Log : Type 0 where
  pub file : Option Bytes
  pub logger : Option Logger
  pub cursor : ℕ
  pub entries : List Bytes
  pub stderr : List Bytes
  pub pulled : List Bytes

abbrev pub new_log : Option Bytes → Log
new_log file = record {
  file = file;
  logger = none;
  cursor = 0;
  entries = [];
  stderr = [];
  pulled = [];
}

abbrev pub max_critical_entries : ℕ
max_critical_entries = 50

unfoldable pub level_tag : LogLevel → Bytes
level_tag info = codes "[INFO]~"
level_tag warn = codes "[WARN]~"
level_tag error = codes "[ERROR]~"
level_tag critical = codes "[CRIT]~"

abbrev pub say : Bytes → Log → Log
say line l = record l { stderr = l.stderr ++ (line ∷ []) }

abbrev pub content : Option Bytes → Bytes
content none = []
content (some text) = text

abbrev pub open_logger : Logger × Bytes → Log → Log
open_logger r l = record l { file = some r.1; logger = some r.0; cursor = 0 }

-- `log_init`; a file that does not exist is created.
unfoldable pub log_init : Bytes → Bool → Stamp → Log → Log
unfolding create
log_init path opens c l =
    if is_empty path
    then l
    else if opens
    then open_logger (create true true c (content l.file)) l
    else say
        (codes "[log] file logging disabled (Logger ["
          ++ (path ++ codes "] could not open its file.)\n"))
        (record l { logger = none })

-- The history of the critical lines takes `line`.
unfoldable pub push_entry : Bytes → List Bytes → List Bytes
push_entry line entries =
    let all = entries ++ (line ∷ []) in
    if ltb max_critical_entries (length all) then drop 1 all else all

unfoldable pub remember : LogLevel → Bytes → Bytes → Log → Log
unfolding push_entry
remember critical ts msg l = record l {
  entries = push_entry (b'[' ∷ (ts ++ (codes "] " ++ msg))) l.entries;
}
remember info ts msg l = l
remember warn ts msg l = l
remember error ts msg l = l

-- What is mirrored into the file, and how.
unfoldable pub mirrored : LogLevel → Bytes → Option (Severity × Bytes)
mirrored info msg = none
mirrored warn msg = some (warning, msg)
mirrored error msg = some (high, msg)
mirrored critical msg = some (high, codes "CRITICAL: " ++ msg)

abbrev pub write_failed : Option (Logger × Bytes) → Log → Log
write_failed none l =
    say (codes "[log] file write failed (Logger: could not open file to write.)\n") l
write_failed (some (logger, text)) l = record l { file = some text; logger = some logger }

unfoldable pub write_file : Bool → Stamp → Option (Severity × Bytes) → Option Logger → Log → Log
unfolding write
write_file opens c none logger l = l
write_file opens c (some m) none l = l
write_file opens c (some (level, msg)) (some logger) l =
    write_failed (write opens c level msg (logger, content l.file)) l

-- The line for stderr.
abbrev pub stderr_line : LogLevel → Bytes → Bytes → Bytes
stderr_line level ts msg =
    b'[' ∷ (ts ++ (codes "] " ++ (pad 5 (level_tag level) ++ (b' ' ∷ (msg ++ (b'\n' ∷ []))))))

-- Behind the rendering of the message.
unfoldable pub log_rendered : LogLevel → Bytes → Bool → Stamp → Bytes → Log → Log
unfolding remember mirrored write_file level_tag pad
log_rendered level ts opens c msg l =
    let m = remember level ts msg (say (stderr_line level ts msg) l) in
    write_file opens c (mirrored level msg) m.logger m

-- `log_msg`: the message is rendered into 1024 bytes.
unfoldable pub log_msg : LogLevel → Bytes → Bool → Stamp → Bytes → Log → Log
unfolding log_rendered
log_msg level ts opens c text l = log_rendered level ts opens c (take 1023 text) l

abbrev pub cons_line : Option Bytes → Option (List Bytes) → Option (List Bytes)
cons_line none out = none
cons_line (some line) none = none
cons_line (some line) (some out) = some (line ∷ out)

-- The loop of `log_pull_new` over `count` lines; `none` is an exception of `get_line`.
unfoldable pub get_lines : List ℕ → Bytes → ℕ → ℕ → Option (List Bytes)
unfolding get_line
get_lines offsets text ind zero = some []
get_lines offsets text ind (suc count) =
    cons_line (get_line offsets text ind) (get_lines offsets text (suc ind) count)

abbrev pub take_pulled : ℕ → Option (List Bytes) → Log → Log
take_pulled n none l = l
take_pulled n (some out) l = record l { cursor = n; pulled = l.pulled ++ out }

-- Behind `reindex`.
unfoldable pub pull_with : List ℕ → Bytes → Log → Log
unfolding get_lines
pull_with offsets text l =
    let n = length offsets in
    let cursor = if ltb n l.cursor then n else l.cursor in
    take_pulled n (get_lines offsets text cursor (n - cursor)) (record l { cursor = cursor })

-- `log_pull_new`; a reader that cannot open the file finds no lines.
unfoldable pub log_pull_new : Bool → Log → Log
unfolding pull_with reindex
log_pull_new opens l = elim l.logger [
  | none ↦ l
  | some logger ↦ pull_with (reindex (if opens then l.file else none)) (content l.file) l
]

-- What is asked of the log.
pub data Event : Type 0 where
  message : LogLevel → Bytes → Bool → Stamp → Bytes → Event
  pull : Event

-- The file opens for every pull.
unfoldable pub handle : Event → Log → Log
unfolding log_msg log_pull_new
handle (message level ts opens c text) l = log_msg level ts opens c text l
handle pull l = log_pull_new true l

unfoldable pub run : List Event → Log → Log
unfolding handle
run [] l = l
run (e ∷ es) l = run es (handle e l)
