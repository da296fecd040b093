-- ===== src/Control/Tests.antt =====
-- A session with a castle that counts what it is asked.
use mathlib.Core.List.{Memᴰ}
use castle_plus.Prelude.{
  ℕ, suc, ◌≡◌, ◌≢◌, refl, true, false, [], ◌∷◌, ◌++◌, none, some, Bytes, codes, equal, is_empty,
  ◌||◌, ◌⊎◌,
}
use castle_plus.Ini.{trim, lower}
use castle_plus.Proxy.State.{wrote}
use castle_plus.Autocorrect.{fix_helper}
use castle_plus.Autocorrect.Nearest.{IsNearest}
use castle_plus.Control.{
  Castle, Session, dispatch, dispatch_command, perform, command_of, command_words, suggestion,
  on_read, on_reads, split_lines, put_byte, write_all, serve_all, serve, first_word, argument,
  is_separator,
}
use castle_plus.Control.Chunks.{joined, on_reads-joined}
use castle_plus.Control.Close.{dispatch_closes}
use castle_plus.Control.Suggest.{is_known, suggestion-IsNearest}

abbrev counting : Castle ℕ
counting = record {
  has_supervisor = true;
  cmd_status = λ n. (codes "loops\n", suc n);
  cmd_health = λ n. (codes "health\n", suc n);
  cmd_errors = λ n. (codes "errors\n", suc n);
  describe_services = λ n. (codes "services\n", suc n);
  restart_service = λ name n. (equal name (codes "web"), suc n);
  on_shutdown = λ n. suc n;
  system_status = λ n. (codes "vitals\n", suc n);
  describe_backend_status = λ n. (codes "backends\n", suc n);
  clock = λ n. codes "12:00";
}

abbrev opened : Session ℕ
opened = record {
  inbuf = [];
  world = 0;
  writes = (wrote 99 ∷ []) ∷ (wrote 99 ∷ []) ∷ [];
  written = [];
  is_over = false;
}

dispatch-restart :
    (dispatch counting (codes "  Restart  web \r") 0).text ≡ codes "[12:00]\nrestarting 'web'\n"
unfolding dispatch dispatch_command perform command_of trim lower first_word argument is_separator
    equal is_empty
dispatch-restart = refl

on_reads-exit :
    on_reads counting opened (codes "pi" ∷ codes "ng\nquit\nst" ∷ codes "ats\n" ∷ []) ≡ record {
      inbuf = [];
      world = 0;
      writes = [];
      written = codes "[12:00]\npong\n[12:00]\nbye\n";
      is_over = true;
    }
unfolding on_reads on_read split_lines put_byte serve_all serve write_all dispatch dispatch_command
    perform command_of trim lower first_word argument is_separator equal is_empty
on_reads-exit = refl

on_reads-joined_example :
    on_reads counting opened (codes "sta" ∷ codes "ts\nping" ∷ codes "\nex" ∷ [])
    ≡ on_read counting opened (codes "sta" ++ joined (codes "ts\nping" ∷ codes "\nex" ∷ []))
on_reads-joined_example =
    on_reads-joined counting opened (codes "sta") (codes "ts\nping" ∷ codes "\nex" ∷ [])

suggestion-IsNearest_example :
    ((w : Bytes)
      → suggestion (codes "hlep") ≡ some w
      → (is_known (command_of w) ≡ true)
        × (w ≢ codes "hlep")
        × ((c : ℕ) × IsNearest 3 command_words (codes "hlep") w c))
    × (suggestion (codes "hlep") ≡ none
        → Memᴰ (codes "hlep") command_words
          ⊎ ((w : Bytes) → Memᴰ w command_words → fix_helper 3 (codes "hlep") w ≡ none))
suggestion-IsNearest_example = suggestion-IsNearest (codes "hlep")

dispatch_closes_example :
    ((dispatch counting (codes " QUIT now") 0).close_session ≡ (
      equal (lower (first_word (trim (codes " QUIT now")))) (codes "exit")
      || equal (lower (first_word (trim (codes " QUIT now")))) (codes "quit")))
    × (trim (codes " QUIT now") ≡ []
        → ((dispatch counting (codes " QUIT now") 0).text ≡ [])
          × ((dispatch counting (codes " QUIT now") 0).world ≡ 0))
dispatch_closes_example = dispatch_closes counting (codes " QUIT now") 0
