-- ===== src/ServiceConfig/Args.antt =====
-- `split_args` against the quoted form of an argument list.
use castle_plus.Prelude.{
  ◌≡◌, ◌≢◌, sym, ap, ◌∙◌, Bool, true, false, List, [], ◌∷◌, ◌++◌, arith, Bytes, All, append-nil,
  append_assoc,
}
use castle_plus.ServiceConfig.{Split, split_step, split_loop, split_finish, split_args}

-- An argument that can be quoted.
abbrev pub HasNoQuote : Bytes → Type 0
HasNoQuote = All (λ c. c ≢ b'"')

-- Each argument in quotes, with a blank behind it.
unfoldable pub quote_args : List Bytes → Bytes
quote_args [] = []
quote_args (a ∷ xs) = b'"' ∷ (a ++ (b'"' ∷ b' ' ∷ quote_args xs))

abbrev state : List Bytes → Bytes → Bool → Bool → Split
state out cur q h = record { out = out; cur = cur; in_quotes = q; have = h }

split_loop_inside :
    (out : List Bytes) (cur a rest : Bytes)
    → HasNoQuote a
    → split_loop (state out cur true true) (a ++ rest)
      ≡ split_loop (state out (cur ++ a) true true) rest
unfolding split_loop
split_loop_inside out cur [] rest h = rw append-nil
split_loop_inside out cur (c ∷ a) rest h =
    ap (λ s. split_loop s (a ++ rest)) step
    ∙ split_loop_inside out (cur ++ (c ∷ [])) a rest h.1
    ∙ rw append_assoc
  where
    step : split_step (state out cur true true) c ≡ state out (cur ++ (c ∷ [])) true true
    step = ground (arith, h.0)

split_loop-quote_args :
    (out xs : List Bytes)
    → All HasNoQuote xs
    → split_finish (split_loop (state out [] false false) (quote_args xs)) ≡ out ++ xs
unfolding split_loop quote_args split_finish
split_loop-quote_args out [] h = sym (append-nil out)
split_loop-quote_args out (a ∷ xs) h =
    ap split_finish (split_loop_inside out [] a (b'"' ∷ b' ' ∷ quote_args xs) h.0)
    ∙ split_loop-quote_args (out ++ (a ∷ [])) xs h.1
    ∙ append_assoc out (a ∷ []) xs

-- An argument list whose arguments hold no quote, written with each argument in quotes, is read back
-- as it was, empty arguments and arguments with blanks included.
pub split_args-quote_args : (xs : List Bytes) → All HasNoQuote xs → split_args (quote_args xs) ≡ xs
unfolding split_args
split_args-quote_args xs h = split_loop-quote_args [] xs h
