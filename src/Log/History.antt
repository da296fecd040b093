-- ===== src/Log/History.antt =====
-- The history of the critical lines.
use castle_plus.Prelude.{
  ℕ, ◌+◌, ◌-◌, ◌<◌, ◌≤◌, ◌≡◌, refl, sym, ap, ◌∙◌, Bool, true, List, [], ◌∷◌, ◌++◌, append_assoc,
  append-nil, Option, none, some, Bytes, codes, is_empty, length, drop, take, length-drop,
  length-append, drop-drop, drop-append, ltb, if◌then◌else◌, if_case, if_both, arith,
}
use castle_plus.Log.Reader.{reindex}
use castle_plus.Log.Logger.{Severity, Stamp, Logger, write, create}
use castle_plus.Log.Messages.{
  LogLevel, info, warn, error, critical, Log, new_log, content, max_critical_entries, log_init,
  push_entry, remember, mirrored, write_failed, write_file, say, stderr_line, log_rendered, log_msg,
  take_pulled, pull_with, log_pull_new, Event, message, pull, handle, run,
}

-- The line that a critical message leaves, and all of them in order.
abbrev critical_line : LogLevel → Bytes → Bytes → List Bytes
critical_line critical ts text = (b'[' ∷ (ts ++ (codes "] " ++ take 1023 text))) ∷ []
critical_line info ts text = []
critical_line warn ts text = []
critical_line error ts text = []

unfoldable pub critical_lines : List Event → List Bytes
critical_lines [] = []
critical_lines (message level ts opens c text ∷ es) =
    critical_line level ts text ++ critical_lines es
critical_lines (pull ∷ es) = critical_lines es

-- The last fifty.
abbrev pub latest : List Bytes → List Bytes
latest all = drop (length all - max_critical_entries) all

latest_full :
    (line : Bytes) (all : List Bytes)
    → 50 ≤ length all
    → drop 1 (latest all ++ (line ∷ [])) ≡ latest (all ++ (line ∷ []))
latest_full line all h =
    let one = line ∷ [] in
    let d = length all - 50 in
    let e : d + 1 ≡ length (all ++ one) - 50 = omega (arith, length-append all one) in
    ap (drop 1) (sym (drop-append d all one (omega arith)))
    ∙ drop-drop d 1 (all ++ one)
    ∙ ap (λ n. drop n (all ++ one)) e

latest_room :
    (line : Bytes) (all : List Bytes)
    → length all < 50
    → latest all ++ (line ∷ []) ≡ latest (all ++ (line ∷ []))
latest_room line all h =
    let one = line ∷ [] in
    let d : length all - 50 ≡ 0 = omega arith in
    let e : 0 ≡ length (all ++ one) - 50 = omega (arith, length-append all one) in
    ap (λ n. drop n all ++ one) d ∙ ap (λ n. drop n (all ++ one)) e

push_entry-latest :
    (line : Bytes) (all : List Bytes) → push_entry line (latest all) ≡ latest (all ++ (line ∷ []))
unfolding push_entry
push_entry-latest line all =
    let now = latest all ++ (line ∷ []) in
    let n : length now ≡ length all - (length all - 50) + 1 =
      omega (arith, length-append (latest all) (line ∷ []), length-drop (length all - 50) all) in
    if_case (λ x. x ≡ latest (all ++ (line ∷ []))) (ltb 50 (length now))
      (λ h. latest_full line all (ground (h, n, arith)))
      (λ h. latest_room line all (ground (h, n, arith)))

remember-latest :
    (level : LogLevel) (ts text : Bytes) (all : List Bytes) (l : Log)
    → l.entries ≡ latest all
    → (remember level ts (take 1023 text) l).entries ≡ latest (all ++ critical_line level ts text)
unfolding remember
remember-latest critical ts text all l e =
    let line = b'[' ∷ (ts ++ (codes "] " ++ take 1023 text)) in
    ap (push_entry line) e ∙ push_entry-latest line all
remember-latest info ts text all l e = e ∙ ap latest (sym (append-nil all))
remember-latest warn ts text all l e = e ∙ ap latest (sym (append-nil all))
remember-latest error ts text all l e = e ∙ ap latest (sym (append-nil all))

write_failed-entries :
    (o : Option (Logger × Bytes)) (l : Log) → (write_failed o l).entries ≡ l.entries
write_failed-entries none l = refl
write_failed-entries (some r) l = refl

write_file-entries :
    (opens : Bool) (c : Stamp) (m : Option (Severity × Bytes)) (logger : Option Logger) (l : Log)
    → (write_file opens c m logger l).entries ≡ l.entries
unfolding write_file
write_file-entries opens c none logger l = refl
write_file-entries opens c (some m) none l = refl
write_file-entries opens c (some (level, msg)) (some logger) l =
    write_failed-entries (write opens c level msg (logger, content l.file)) l

log_msg-latest :
    (level : LogLevel) (ts : Bytes) (opens : Bool) (c : Stamp) (text : Bytes) (all : List Bytes)
    (l : Log)
    → l.entries ≡ latest all
    → (log_msg level ts opens c text l).entries ≡ latest (all ++ critical_line level ts text)
unfolding log_msg log_rendered
log_msg-latest level ts opens c text all l e =
    write_file-entries opens c (mirrored level (take 1023 text)) _ _
    ∙ remember-latest level ts text all (say (stderr_line level ts (take 1023 text)) l) e

take_pulled-entries :
    (n : ℕ) (o : Option (List Bytes)) (l : Log) → (take_pulled n o l).entries ≡ l.entries
take_pulled-entries n none l = refl
take_pulled-entries n (some out) l = refl

opened_entries :
    (o : Option Logger) (l m : Log)
    → m.entries ≡ l.entries
    → ◌≡◌ {A = List Bytes} (Log.entries (elim o [ none ↦ l | some x ↦ m ])) l.entries
opened_entries none l m e = refl
opened_entries (some x) l m e = e

log_pull_new-entries : (opens : Bool) (l : Log) → (log_pull_new opens l).entries ≡ l.entries
unfolding log_pull_new pull_with
log_pull_new-entries opens l =
    opened_entries l.logger l
      (pull_with (reindex (if opens then l.file else none)) (content l.file) l)
      (take_pulled-entries _ _ _)

run_from-latest :
    (es : List Event) (all : List Bytes) (l : Log)
    → l.entries ≡ latest all
    → (run es l).entries ≡ latest (all ++ critical_lines es)
unfolding run handle critical_lines
run_from-latest [] all l e = e ∙ ap latest (sym (append-nil all))
run_from-latest (message level ts opens c text ∷ es) all l e =
    run_from-latest es (all ++ critical_line level ts text) _
      (log_msg-latest level ts opens c text all l e)
    ∙ ap latest (append_assoc all (critical_line level ts text) (critical_lines es))
run_from-latest (pull ∷ es) all l e =
    run_from-latest es all (log_pull_new true l) (log_pull_new-entries true l ∙ e)

log_init-entries :
    (path : Bytes) (opens : Bool) (c : Stamp) (file : Option Bytes)
    → (log_init path opens c (new_log file)).entries ≡ []
unfolding log_init create
log_init-entries path opens c file =
    if_both (λ (l : Log). l.entries ≡ []) (is_empty path) refl
      (if_both (λ (l : Log). l.entries ≡ []) opens refl refl)

-- After any messages and pulls, with or without a log file, the history holds the last fifty of the critical lines
-- since the start, in order.
pub run-latest :
    (path : Bytes) (opens : Bool) (c : Stamp) (file : Option Bytes) (es : List Event)
    → (run es (log_init path opens c (new_log file))).entries ≡ latest (critical_lines es)
run-latest path opens c file es = run_from-latest es [] _ (log_init-entries path opens c file)
