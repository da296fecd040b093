-- ===== src/Control/Errors.antt =====
-- The command `errors` and the log file.
use castle_plus.Prelude.{
  ◌≡◌, refl, sym, ap, ◌∙◌, true, false, List, [], ◌∷◌, Option, Bytes, is_empty, length, drop,
  length-take, Bool, subst, sym, arith, codes, equal, drop_while,
}
use castle_plus.Ini.{lines, trim, lower}
use castle_plus.Log.Logger.{Stamp}
use castle_plus.Log.Messages.{Log, new_log, content, log_init, Event, run}
use castle_plus.Log.Once.{
  Pulled, caught_up, log_pull_new-lines, caught_up-Pulled, run-Pulled, log_init-Pulled,
}
use castle_plus.Control.{
  Answer, say, argument, first_word, is_separator, command_of, perform, dispatch_line,
  dispatch_command,
}
use castle_plus.Control.Instance.{Parts, Readings, castle_of}
use castle_plus.Control.Report.{errors_text, nothing_new, cmd_errors}

drop_whole : (ls : List Bytes) → drop (length ls) ls ≡ []
drop_whole [] = refl
drop_whole (l ∷ ls) = drop_whole ls

cmd_errors-Pulled :
    (l : Log)
    → Pulled l
    → cmd_errors true l ≡ (errors_text (drop l.cursor (lines (content l.file))), caught_up l)
unfolding cmd_errors
cmd_errors-Pulled l p =
    let ls = lines (content l.file) in
    let b = p.bound in
    let n : length l.pulled ≡ l.cursor =
      ap length p.shown ∙ length-take l.cursor ls ∙ omega arith in
    ap (λ m. (errors_text (drop (length l.pulled) (Log.pulled m)), m)) (log_pull_new-lines l p)
    ∙ ap (λ k. (errors_text (drop k ls), caught_up l)) n

-- With a log file that opens, and after any messages and pulls, the reply to `errors` has exactly the lines of the
-- file behind those that were pulled before, and the reply to a second `errors` with nothing logged between says
-- that nothing is new.
cmd_errors-lines :
    (path : Bytes) (c : Stamp) (file : Option Bytes) (es : List Event)
    → is_empty path ≡ false
    → let l = run es (log_init path true c (new_log file)) in
      ((cmd_errors true l).0 ≡ errors_text (drop (length l.pulled) (lines (content l.file))))
      × ((cmd_errors true (cmd_errors true l).1).0 ≡ nothing_new)
unfolding errors_text
cmd_errors-lines path c file es h =
    let l = run es (log_init path true c (new_log file)) in
    let p = run-Pulled es (log_init path true c (new_log file)) (log_init-Pulled path c file h) in
    let ls = lines (content l.file) in
    let b = p.bound in
    let n : l.cursor ≡ length l.pulled =
      sym (ap length p.shown ∙ length-take l.cursor ls ∙ omega arith) in
    let e = cmd_errors-Pulled l p in
    let again = cmd_errors-Pulled (caught_up l) (caught_up-Pulled l p) in
    (
      ap (λ r. r.0) e ∙ ap (λ k. errors_text (drop k ls)) n,
      ap (λ r. (cmd_errors true r.1).0) e ∙ ap (λ r. r.0) again ∙ ap errors_text (drop_whole ls),
    )

-- The command reaches the log, and changes nothing else.
dispatch_command-errors :
    {D : Type 0} (has : Bool) (r : Readings D) (p : Parts)
    → dispatch_command (castle_of has r) (codes "errors") p ≡ record {
      text = (cmd_errors r.log_opens p.log).0;
      world = record p { log = (cmd_errors r.log_opens p.log).1 };
      close_session = false;
    }
unfolding dispatch_command dispatch_line perform say command_of argument first_word is_separator
    trim lower equal drop_while
dispatch_command-errors has r p = refl

-- What two commands in a row reply.
abbrev Twice : Log → Type 0
Twice l =
    ((cmd_errors true l).0 ≡ errors_text (drop (length l.pulled) (lines (content l.file))))
    × ((cmd_errors true (cmd_errors true l).1).0 ≡ nothing_new)

-- With a log file that opens, and after any messages and pulls, an operator who sends `errors` gets exactly the lines
-- of the file behind those that were pulled before, and one who sends it again, with nothing logged between, is told
-- that nothing is new.
pub errors_twice :
    {D : Type 0} (has : Bool) (r : Readings D) (p : Parts)
    → (path : Bytes) (c : Stamp) (file : Option Bytes) (es : List Event) → is_empty path ≡ false
    → r.log_opens ≡ true
    → p.log ≡ run es (log_init path true c (new_log file))
    → let a = dispatch_command (castle_of has r) (codes "errors") p in
      (a.text ≡ errors_text (drop (length p.log.pulled) (lines (content p.log.file))))
      × ((dispatch_command (castle_of has r) (codes "errors") a.world).text ≡ nothing_new)
errors_twice has r p path c file es h o e =
    let k = subst Twice (sym e) (cmd_errors-lines path c file es h) in
    let a : Answer Parts = dispatch_command (castle_of has r) (codes "errors") p in
    let first = dispatch_command-errors has r p in
    let w : Parts = a.world in
    let world : w.log ≡ (cmd_errors true p.log).1 =
      ap (λ (x : Answer Parts). x.world.log) first ∙ ap (λ b. (cmd_errors b p.log).1) o in
    (
      ap Answer.text first ∙ ap (λ b. (cmd_errors b p.log).0) o ∙ k.0,
      ap Answer.text (dispatch_command-errors has r w)
          ∙ ap (λ b. (cmd_errors b w.log).0) o
          ∙ ap (λ l. (cmd_errors true l).0) world
          ∙ k.1,
    )
