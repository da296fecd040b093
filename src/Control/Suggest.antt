-- ===== src/Control/Suggest.antt =====
-- The word that the control server offers for an unknown command.
use mathlib.Core.List.Memᴰ
use mathlib.Core.List.{Memᴰ}
use castle_plus.Prelude.{
  ℕ, ◌≡◌, ◌≢◌, refl, sym, ◌∙◌, subst, Bool, true, false, List, [], ◌∷◌, none, some, Bytes, equal,
  equal_iff, All, arith, Bool-cases, inl, inr, ◌⊎◌, some_eq,
}
use castle_plus.Autocorrect.{make_filter, fix, fix_helper}
use castle_plus.Autocorrect.Nearest.{IsNearest, fix-IsNearest}
use castle_plus.Control.{Command, unknown, command_of, command_words, suggestion}

abbrev pub is_known : Command → Bool
is_known unknown = false
is_known _ = true

words_known : All (λ w. is_known (command_of w) ≡ true) command_words
unfolding command_of equal
words_known = (
  refl,
  (
    refl,
    (
      refl,
      (
        refl,
        (refl, (refl, (refl, (refl, (refl, (refl, (refl, (refl, (refl, (refl, (refl, tt))))))))))),
      ),
    ),
  ),
)

listed :
    (ws : List Bytes) (w : Bytes)
    → All (λ x. is_known (command_of x) ≡ true) ws
    → Memᴰ w ws
    → is_known (command_of w) ≡ true
listed [] w v m = absurd (Memᴰ.not-nil m)
listed (x ∷ ws) w v m = elim (Memᴰ.cases_cons m) [
  | inl e ↦ subst (λ x. is_known (command_of x) ≡ true) (sym e) v.0
  | inr n ↦ listed ws w v.1 n
]

suggestion-some :
    (cmd w : Bytes)
    → suggestion cmd ≡ some w
    → (fix (make_filter 3 command_words) cmd ≡ w) × (w ≢ cmd)
unfolding suggestion
suggestion-some cmd w h = elim (Bool-cases (equal (fix (make_filter 3 command_words) cmd) cmd)) [
  | inl e ↦ absurd cc (rw e at h)
  | inr e ↦
      let f = some_eq (rw e at h) in
      (f, λ g. absurd cc ((equal_iff (fix (make_filter 3 command_words) cmd) cmd).1 (f ∙ g), e))
]

suggestion-none :
    (cmd : Bytes) → suggestion cmd ≡ none → fix (make_filter 3 command_words) cmd ≡ cmd
unfolding suggestion
suggestion-none cmd h = elim (Bool-cases (equal (fix (make_filter 3 command_words) cmd) cmd)) [
  | inl e ↦ (equal_iff (fix (make_filter 3 command_words) cmd) cmd).0 e
  | inr e ↦ absurd cc (rw e at h)
]

-- The word that is offered is a command, is not what was typed, and is the nearest of the words of the
-- filter; nothing is offered only if what was typed is one of them or none is within the budget.
pub suggestion-IsNearest :
    (cmd : Bytes)
    → ((w : Bytes)
        → suggestion cmd ≡ some w
        → (is_known (command_of w) ≡ true)
          × (w ≢ cmd)
          × ((c : ℕ) × IsNearest 3 command_words cmd w c))
      × (suggestion cmd ≡ none
          → Memᴰ cmd command_words
            ⊎ ((w : Bytes) → Memᴰ w command_words → fix_helper 3 cmd w ≡ none))
suggestion-IsNearest cmd = elim (fix-IsNearest 3 command_words cmd (omega arith)) [
  | inl (e, n) ↦
      ((λ w h. let s = suggestion-some cmd w h in absurd (s.1 (sym s.0 ∙ e))), (λ _. inr n))
  | inr (c, n) ↦ (
    (λ w h.
        let s = suggestion-some cmd w h in
        let m = subst (λ x. IsNearest 3 command_words cmd x c) s.0 n in
        (listed command_words w words_known m.listed, s.1, (c, m))),
    (λ h. inl (subst (λ x. Memᴰ x command_words) (suggestion-none cmd h) n.listed)),
  )
]
