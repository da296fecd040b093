-- ===== src/Log/Once.antt =====
-- What `log_pull_new` of src/util/log.h has pulled, through any messages and pulls.
use castle_plus.Prelude.{
  ℕ, ◌+◌, ◌-◌, ◌≤◌, ◌≡◌, refl, sym, ap, subst, ◌∙◌, Bool, true, false, not, List, [], ◌∷◌, ◌++◌,
  append_assoc, Option, none, some, Bytes, codes, is_empty, length, drop, take, take-append,
  take-append-drop, take_all, length-append, ltb, if◌then◌else◌, if_case, if_both, arith,
}
use castle_plus.Ini.{lines}
use castle_plus.Log.Reader.{reindex}
use castle_plus.Log.Logger.{
  Severity, Stamp, Logger, prefix, label, new_logger, entry, write, create, can_be_written,
}
use castle_plus.Log.Messages.{
  LogLevel, info, warn, error, critical, Log, new_log, content, log_init, remember, mirrored,
  write_failed, write_file, say, stderr_line, log_rendered, log_msg, get_lines, take_pulled,
  pull_with, log_pull_new, Event, message, pull, handle, run,
}
use castle_plus.Log.Pull.{
  Ends, end_of_line, lines-grow, length-reindex, reindex-content, get_lines-drop,
}

-- What is kept: a file of whole lines, of which those before the watermark are the ones that were pulled.
pub record Pulled (l : Log) : Type 0 where
  pub opened : (logger : Logger) × (l.logger ≡ some logger)
  pub ends : Ends (content l.file)
  pub shown : l.pulled ≡ take l.cursor (lines (content l.file))
  pub bound : l.cursor ≤ length (lines (content l.file))

say-Pulled : (line : Bytes) (l : Log) → Pulled l → Pulled (say line l)
say-Pulled line l p = record { opened = p.opened; ends = p.ends; shown = p.shown; bound = p.bound }

remember-Pulled :
    (level : LogLevel) (ts msg : Bytes) (l : Log) → Pulled l → Pulled (remember level ts msg l)
unfolding remember
remember-Pulled critical ts msg l p = record {
  opened = p.opened;
  ends = p.ends;
  shown = p.shown;
  bound = p.bound;
}
remember-Pulled info ts msg l p = p
remember-Pulled warn ts msg l p = p
remember-Pulled error ts msg l p = p

-- A line is appended to the file.
grow-Pulled :
    (l : Log) (logger : Logger) (more : Bytes)
    → Ends more
    → Pulled l
    → Pulled (record l { file = some (content l.file ++ more); logger = some logger })
grow-Pulled l logger more (a, e) p =
    let text = content l.file in
    let g : lines (text ++ more) ≡ lines text ++ lines more = lines-grow text more p.ends in
    let t : take l.cursor (lines (text ++ more)) ≡ take l.cursor (lines text) =
      ap (take l.cursor) g ∙ take-append l.cursor (lines text) (lines more) p.bound in
    let n : length (lines (text ++ more)) ≡ length (lines text) + length (lines more) =
      ap length g ∙ length-append (lines text) (lines more) in
    let b = p.bound in
    record {
      opened = (logger, refl);
      ends = (text ++ a, ap (text ++◌) e ∙ sym (append_assoc text a end_of_line));
      shown = p.shown ∙ sym t;
      bound = omega arith;
    }

append-Ends : (a b : Bytes) → Ends b → Ends (a ++ b)
append-Ends a b (x, e) = (a ++ x, ap (a ++◌) e ∙ sym (append_assoc a x end_of_line))

entry-Ends : (l : Logger) (c : Stamp) (level : Severity) (msg : Bytes) → Ends (entry l c level msg)
unfolding entry
entry-Ends l c level msg = append-Ends (prefix l c) _ (
    append-Ends (label level) _
      (append-Ends (codes ": ") _ (append-Ends msg end_of_line ([], refl))))

write-Pulled :
    (opens : Bool) (c : Stamp) (level : Severity) (msg : Bytes) (logger : Logger) (l : Log)
    → Pulled l
    → Pulled (write_failed (write opens c level msg (logger, content l.file)) l)
unfolding write
write-Pulled opens c level msg logger l p =
    if_both (λ o. Pulled (write_failed o l)) (not (can_be_written logger level))
      (record { opened = (logger, refl); ends = p.ends; shown = p.shown; bound = p.bound })
      (if_both (λ o. Pulled (write_failed o l)) opens
        (grow-Pulled l _ (entry logger c level msg) (entry-Ends logger c level msg) p)
        (say-Pulled _ l p))

write_file-Pulled :
    (opens : Bool) (c : Stamp) (m : Option (Severity × Bytes)) (logger : Option Logger) (l : Log)
    → Pulled l
    → Pulled (write_file opens c m logger l)
unfolding write_file
write_file-Pulled opens c none logger l p = p
write_file-Pulled opens c (some m) none l p = p
write_file-Pulled opens c (some (level, msg)) (some logger) l p =
    write-Pulled opens c level msg logger l p

log_msg-Pulled :
    (level : LogLevel) (ts : Bytes) (opens : Bool) (c : Stamp) (text : Bytes) (l : Log)
    → Pulled l
    → Pulled (log_msg level ts opens c text l)
unfolding log_msg log_rendered
log_msg-Pulled level ts opens c text l p =
    write_file-Pulled opens c (mirrored level (take 1023 text)) _ _ (
      remember-Pulled level ts (take 1023 text) _
        (say-Pulled (stderr_line level ts (take 1023 text)) l p))

-- A pull brings what was pulled up to the whole file.
abbrev pub caught_up : Log → Log
caught_up l = record l { cursor = length (lines (content l.file)); pulled = lines (content l.file) }

-- The pull of the lines from `c` on, `n` in all.
abbrev pull_from : Log → ℕ → ℕ → Log
pull_from l n c =
    take_pulled n (get_lines (reindex (some (content l.file))) (content l.file) c (n - c))
      (record l { cursor = c })

pull_with-lines :
    (l : Log)
    → Pulled l
    → pull_with (reindex (some (content l.file))) (content l.file) l ≡ caught_up l
unfolding pull_with
pull_with-lines l p =
    let text = content l.file in
    let n = length (reindex (some text)) in
    let e : n ≡ length (lines text) = length-reindex text in
    let b = p.bound in
    let c : (if ltb n l.cursor then n else l.cursor) ≡ l.cursor =
      if_case (λ x. x ≡ l.cursor) (ltb n l.cursor) (λ h. ground (e, b, arith)) (λ h. refl) in
    ap (pull_from l n) c
    ∙ ap (λ m. pull_from l m l.cursor) e
    ∙ ap (λ o. take_pulled (length (lines text)) o (record l { cursor = l.cursor }))
        (get_lines-drop text l.cursor b)
    ∙ ap (λ ls. record l { cursor = length (lines text); pulled = ls })
        (ap (λ ls. ls ++ drop l.cursor (lines text)) p.shown
          ∙ take-append-drop l.cursor (lines text))

pull_opened :
    (o : Option Logger) (logger : Logger) (l m : Log)
    → o ≡ some logger
    → elim o [ none ↦ l | some x ↦ m ] ≡ m
pull_opened none logger l m e = absurd cc e
pull_opened (some x) logger l m e = refl

pub log_pull_new-lines : (l : Log) → Pulled l → log_pull_new true l ≡ caught_up l
unfolding log_pull_new
log_pull_new-lines l p =
    pull_opened l.logger p.opened.0 l _ p.opened.1
    ∙ ap (λ os. pull_with os (content l.file) l) (reindex-content l.file)
    ∙ pull_with-lines l p

pub caught_up-Pulled : (l : Log) → Pulled l → Pulled (caught_up l)
caught_up-Pulled l p =
    let n = length (lines (content l.file)) in
    record {
      opened = p.opened;
      ends = p.ends;
      shown = sym (take_all n (lines (content l.file)) (omega arith));
      bound = omega arith;
    }

handle-Pulled : (e : Event) (l : Log) → Pulled l → Pulled (handle e l)
unfolding handle
handle-Pulled (message level ts opens c text) l p = log_msg-Pulled level ts opens c text l p
handle-Pulled pull l p = subst Pulled (sym (log_pull_new-lines l p)) (caught_up-Pulled l p)

pub run-Pulled : (es : List Event) (l : Log) → Pulled l → Pulled (run es l)
unfolding run
run-Pulled [] l p = p
run-Pulled (e ∷ es) l p = run-Pulled es (handle e l) (handle-Pulled e l p)

pub log_init-Pulled :
    (path : Bytes) (c : Stamp) (file : Option Bytes)
    → is_empty path ≡ false
    → Pulled (log_init path true c (new_log file))
unfolding log_init create
log_init-Pulled path c file h =
    if_case Pulled (is_empty path) (λ e. absurd (cc (e, h)))
      (λ e. record {
        opened = (_, refl);
        ends = append-Ends (content file) _ (
            append-Ends (prefix (new_logger true true (content file)) c) (codes "Created.\n")
              (codes "Created.", refl));
        shown = refl;
        bound = omega arith;
      })

-- With a log file that opens, and whatever messages and pulls follow: the pulls together have given the first lines of
-- the file, as many as the watermark says, each once and in the order of the file, and one more pull makes them all
-- of the file's lines.
pub run-pulled :
    (path : Bytes) (c : Stamp) (file : Option Bytes) (es : List Event)
    → is_empty path ≡ false
    → let l = run es (log_init path true c (new_log file)) in
      (l.pulled ≡ take l.cursor (lines (content l.file)))
      × (l.cursor ≤ length (lines (content l.file)))
      × ((log_pull_new true l).pulled ≡ lines (content l.file))
run-pulled path c file es h =
    let l = run es (log_init path true c (new_log file)) in
    let p = run-Pulled es (log_init path true c (new_log file)) (log_init-Pulled path c file h) in
    (p.shown, p.bound, ap (λ m. m.pulled) (log_pull_new-lines l p))
