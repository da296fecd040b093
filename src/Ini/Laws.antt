-- ===== src/Ini/Laws.antt =====
-- Laws of `trim` and `lower`.
use castle_plus.Prelude.{
  ℕ, ◌≡◌, refl, ap, ◌∙◌, Bool, false, [], ◌∷◌, arith, Bytes, is_empty, front, back, drop_while,
  drop_last_while, to_lower,
}
use castle_plus.Ini.{is_blank, trim, lower, Line, header, classify_trimmed, classify}

-- A text that neither begins nor ends with a blank.
abbrev pub IsTrimmed : Bytes → Type 0
IsTrimmed s = (is_blank (front s) ≡ false) × (is_blank (back s) ≡ false)

back-drop_last_while :
    (p : ℕ → Bool) (s : Bytes) → p 0 ≡ false → p (back (drop_last_while p s)) ≡ false
unfolding back drop_last_while
back-drop_last_while p [] h = h
back-drop_last_while p (c ∷ cs) h = ground (arith, back-drop_last_while p cs h)

front-drop_last_while :
    (p : ℕ → Bool) (s : Bytes)
    → p 0 ≡ false
    → p (front s) ≡ false
    → p (front (drop_last_while p s)) ≡ false
unfolding front drop_last_while
front-drop_last_while p [] h k = h
front-drop_last_while p (c ∷ cs) h k = ground arith

front-drop_while : (p : ℕ → Bool) (s : Bytes) → p 0 ≡ false → p (front (drop_while p s)) ≡ false
unfolding front drop_while
front-drop_while p [] h = h
front-drop_while p (c ∷ cs) h = ground (arith, front-drop_while p cs h)

trim-IsTrimmed : (s : Bytes) → IsTrimmed (trim s)
unfolding trim is_blank
trim-IsTrimmed s = (
  front-drop_last_while is_blank (drop_while is_blank s) refl (front-drop_while is_blank s refl),
  back-drop_last_while is_blank (drop_while is_blank s) refl,
)

drop_while_idle : (p : ℕ → Bool) (s : Bytes) → p (front s) ≡ false → drop_while p s ≡ s
unfolding front drop_while
drop_while_idle p [] h = refl
drop_while_idle p (c ∷ cs) h = rw h

drop_last_while_idle : (p : ℕ → Bool) (s : Bytes) → p (back s) ≡ false → drop_last_while p s ≡ s
unfolding back drop_last_while
drop_last_while_idle p [] h = refl
drop_last_while_idle p (c ∷ []) h = rw h
drop_last_while_idle p (c ∷ d ∷ cs) h = rw (drop_last_while_idle p (d ∷ cs) h)

-- `trim` keeps a trimmed text.
trim_idle : (s : Bytes) → IsTrimmed s → trim s ≡ s
unfolding trim
trim_idle s h =
    ap (drop_last_while is_blank) (drop_while_idle is_blank s h.0)
    ∙ drop_last_while_idle is_blank s h.1

to_lower_idem : (c : ℕ) → to_lower (to_lower c) ≡ to_lower c
unfolding to_lower
to_lower_idem c = ground arith

pub lower_idem : (s : Bytes) → lower (lower s) ≡ lower s
unfolding lower
lower_idem [] = refl
lower_idem (c ∷ cs) = rw (to_lower_idem c, lower_idem cs)

-- A section's name is never empty.
abbrev pub IsNamed : Line → Type 0
IsNamed (header name) = is_empty name ≡ false
IsNamed _ = Unit

classify_trimmed-IsNamed : (t : Bytes) → IsNamed (classify_trimmed t)
unfolding classify_trimmed
classify_trimmed-IsNamed [] = tt
classify_trimmed-IsNamed (c ∷ cs) = ground arith

pub classify-IsNamed : (line : Bytes) → IsNamed (classify line)
unfolding classify
classify-IsNamed line = classify_trimmed-IsNamed (trim line)
