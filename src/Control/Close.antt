-- ===== src/Control/Close.antt =====
-- When the server closes a session.
use castle_plus.Prelude.{
  ◌≡◌, refl, ◌∙◌, Bool, true, false, not, ◌||◌, [], ◌∷◌, Bytes, codes, equal, equal_iff, is_empty,
  arith, Bool-cases, inl, inr, if_both,
}
use castle_plus.Ini.{trim, lower}
use castle_plus.Control.{
  Castle, Command, Answer, help, ping, status, health, errors, services, restart, shutdown,
  system_status, backend_status, exit, clear, unknown, command_of, restart_command, perform,
  dispatch_line, dispatch_command, dispatch, first_word, argument,
}

-- The command of a line.
abbrev pub is_exit : Command → Bool
is_exit exit = true
is_exit _ = false

exit_words :
    (cmd : Bytes)
    → is_exit (command_of cmd) ≡ (equal cmd (codes "exit") || equal cmd (codes "quit"))
unfolding command_of equal
exit_words cmd = elim (Bool-cases (equal cmd (codes "exit"))) [
  | inl e ↦ rw ((equal_iff cmd (codes "exit")).0 e) refl
  | inr e ↦ elim (Bool-cases (equal cmd (codes "quit"))) [
    | inl f ↦ rw ((equal_iff cmd (codes "quit")).0 f) refl
    | inr f ↦ ground arith
  ]
]

module _ {W : Type 0} (castle : Castle W) where
  restart_goes_on : (arg : Bytes) (w : W) → (restart_command castle arg w).close_session ≡ false
  unfolding restart_command
  restart_goes_on arg w =
      if_both {A = Answer W} (λ a. a.close_session ≡ false) (not castle.has_supervisor) refl
        (if_both {A = Answer W} (λ a. a.close_session ≡ false) (is_empty arg) refl
          (if_both {A = Answer W} (λ a. a.close_session ≡ false) (castle.restart_service arg w).0
            refl refl))

  perform-closes :
      (c : Command) (cmd arg : Bytes) (w : W)
      → (perform castle c cmd arg w).close_session ≡ is_exit c
  unfolding perform
  perform-closes restart cmd arg w = restart_goes_on arg w
  perform-closes services cmd arg w =
      if_both {A = Answer W} (λ a. a.close_session ≡ false) castle.has_supervisor refl refl
  perform-closes backend_status cmd arg w =
      if_both {A = Answer W} (λ a. a.close_session ≡ false) castle.has_supervisor refl refl
  perform-closes help cmd arg w = refl
  perform-closes ping cmd arg w = refl
  perform-closes status cmd arg w = refl
  perform-closes health cmd arg w = refl
  perform-closes errors cmd arg w = refl
  perform-closes shutdown cmd arg w = refl
  perform-closes system_status cmd arg w = refl
  perform-closes exit cmd arg w = refl
  perform-closes clear cmd arg w = refl
  perform-closes unknown cmd arg w = refl

  line_closes :
      (line : Bytes) (w : W)
      → (dispatch_line castle line w).close_session ≡ (
          equal (lower (first_word line)) (codes "exit")
          || equal (lower (first_word line)) (codes "quit"))
  unfolding dispatch_line first_word lower equal
  line_closes [] w = refl
  line_closes (c ∷ cs) w =
      let cmd = lower (first_word (c ∷ cs)) in
      perform-closes (command_of cmd) cmd (argument (c ∷ cs)) w ∙ exit_words cmd

blank_line :
    {W : Type 0} (castle : Castle W) (raw : Bytes) (w : W)
    → trim raw ≡ []
    → dispatch_command castle raw w ≡ record { text = []; world = w; close_session = false }
unfolding dispatch_command dispatch_line
blank_line castle raw w e = rw (e, dispatch_line) refl

-- A line closes the session exactly if its first word, in any case, is `exit` or `quit`; and a blank line
-- has no reply and asks nothing of the rest of the program.
pub dispatch_closes :
    {W : Type 0} (castle : Castle W) (raw : Bytes) (w : W)
    → ((dispatch castle raw w).close_session ≡ (
        equal (lower (first_word (trim raw))) (codes "exit")
        || equal (lower (first_word (trim raw))) (codes "quit")))
      × (trim raw ≡ [] → ((dispatch castle raw w).text ≡ []) × ((dispatch castle raw w).world ≡ w))
unfolding dispatch is_empty
dispatch_closes {W = W} castle raw w = (
  if_both {A = Answer W} (λ a. a.close_session ≡ word)
      (is_empty (dispatch_command castle raw w).text) closes closes,
  blank,
)
  where
    word : Bool
    word =
        equal (lower (first_word (trim raw))) (codes "exit")
        || equal (lower (first_word (trim raw))) (codes "quit")

    closes : (dispatch_command castle raw w).close_session ≡ word
    closes = unfold dispatch_command in line_closes castle (trim raw) w

    blank :
        trim raw ≡ [] → ((dispatch castle raw w).text ≡ []) × ((dispatch castle raw w).world ≡ w)
    blank e = rw (blank_line castle raw w e, dispatch) (refl, refl)
