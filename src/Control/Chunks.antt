-- ===== src/Control/Chunks.antt =====
-- The reads that the input of a session is cut into.
use castle_plus.Prelude.{
  ℕ, ◌≡◌, refl, sym, ap, ◌∙◌, Bool, true, false, List, [], ◌∷◌, ◌++◌, Bytes, ◌==◌, if◌then◌else◌,
  append_assoc, append-nil, Bool-cases, inl, inr,
}
use castle_plus.Control.{
  Castle, Session, glue_byte, put_byte, split_lines, serve, serve_all, on_read, on_reads,
}

-- The lines of two reads: those of the first, then those of its rest with the second.
abbrev join : List Bytes × Bytes → Bytes → List Bytes × Bytes
join (ls, rest) ys = (ls ++ (split_lines (rest ++ ys)).0, (split_lines (rest ++ ys)).1)

put_byte_plain :
    (c : ℕ) (ls : List Bytes) (rest : Bytes)
    → (c == b'\n') ≡ false
    → put_byte c (ls, rest) ≡ glue_byte c ls rest
unfolding put_byte
put_byte_plain c ls rest e = rw e refl

glue_byte-join :
    (c : ℕ) (ls : List Bytes) (rest ys : Bytes)
    → (c == b'\n') ≡ false
    → glue_byte c (join (ls, rest) ys).0 (join (ls, rest) ys).1 ≡ join (glue_byte c ls rest) ys
unfolding split_lines glue_byte
glue_byte-join c [] rest ys e =
    sym (put_byte_plain c (split_lines (rest ++ ys)).0 (split_lines (rest ++ ys)).1 e)
glue_byte-join c (l ∷ ls) rest ys e = refl

put_byte-join :
    (c : ℕ) (ls : List Bytes) (rest ys : Bytes)
    → put_byte c (join (ls, rest) ys) ≡ join (put_byte c (ls, rest)) ys
unfolding put_byte
put_byte-join c ls rest ys = elim (Bool-cases (c == b'\n')) [
  | inl e ↦ rw (e, put_byte) refl
  | inr e ↦
      put_byte_plain c (join (ls, rest) ys).0 (join (ls, rest) ys).1 e
      ∙ glue_byte-join c ls rest ys e
      ∙ ap (λ p. join p ys) (sym (put_byte_plain c ls rest e))
]

split_lines-append : (xs ys : Bytes) → split_lines (xs ++ ys) ≡ join (split_lines xs) ys
unfolding split_lines
split_lines-append [] ys = refl
split_lines-append (c ∷ cs) ys =
    ap (put_byte c) (split_lines-append cs ys)
    ∙ put_byte-join c (split_lines cs).0 (split_lines cs).1 ys

if_map :
    {A B : Type 0} (f : A → B) (b : Bool) (x y : A)
    → (if b then f x else f y) ≡ f (if b then x else y)
if_map f true x y = refl
if_map f false x y = refl

module _ {W : Type 0} (castle : Castle W) where
  serve_all-append :
      (ls ms : List Bytes) (s : Session W)
      → serve_all castle (ls ++ ms) s ≡ serve_all castle ms (serve_all castle ls s)
  unfolding serve_all
  serve_all-append [] ms s = refl
  serve_all-append (l ∷ ls) ms s = serve_all-append ls ms (serve castle l s)

  -- A line is served whatever stands in the buffer.
  abbrev with_input : Bytes → Session W → Session W
  with_input b s = record s { inbuf = b }

  serve_buffer :
      (l b : Bytes) (s : Session W)
      → serve castle l (with_input b s) ≡ with_input b (serve castle l s)
  unfolding serve
  serve_buffer l b s = if_map (with_input b) s.is_over s _

  serve_all_buffer :
      (ls : List Bytes) (b : Bytes) (s : Session W)
      → serve_all castle ls (with_input b s) ≡ with_input b (serve_all castle ls s)
  unfolding serve_all
  serve_all_buffer [] b s = refl
  serve_all_buffer (l ∷ ls) b s =
      ap (serve_all castle ls) (serve_buffer l b s) ∙ serve_all_buffer ls b (serve castle l s)

  serve_all-inbuf : (ls : List Bytes) (s : Session W) → (serve_all castle ls s).inbuf ≡ s.inbuf
  serve_all-inbuf ls s = ap (λ (x : Session W). x.inbuf) (serve_all_buffer ls s.inbuf s)

  on_read-append :
      (s : Session W) (x y : Bytes)
      → on_read castle (on_read castle s x) y ≡ on_read castle s (x ++ y)
  unfolding on_read
  on_read-append s x y =
      let p = split_lines (s.inbuf ++ x) in
      let first = serve_all castle p.0 (with_input p.1 s) in
      let q = split_lines (p.1 ++ y) in
      ap
        (λ b. serve_all castle (split_lines (b ++ y)).0 (with_input (split_lines (b ++ y)).1 first))
        (serve_all-inbuf p.0 (with_input p.1 s))
      ∙ ap (serve_all castle q.0) (sym (serve_all_buffer p.0 q.1 (with_input p.1 s)))
      ∙ sym (serve_all-append p.0 q.0 (with_input q.1 s))
      ∙ ap (λ (r : List Bytes × Bytes). serve_all castle r.0 (with_input r.1 s))
          (sym (split_lines-append (s.inbuf ++ x) y) ∙ ap split_lines (append_assoc s.inbuf x y))

-- The reads put together.
abbrev pub joined : List Bytes → Bytes
joined [] = []
joined (r ∷ rs) = r ++ joined rs

-- However the bytes of a client are cut into reads, the session comes to the same: the same lines are
-- dispatched in the same order, with the same replies, and the same input is left over.
pub on_reads-joined :
    {W : Type 0} (castle : Castle W) (s : Session W) (r : Bytes) (rs : List Bytes)
    → on_reads castle s (r ∷ rs) ≡ on_read castle s (r ++ joined rs)
unfolding on_reads
on_reads-joined castle s r [] = ap (on_read castle s) (sym (append-nil r))
on_reads-joined castle s r (q ∷ rs) =
    on_reads-joined castle (on_read castle s r) q rs ∙ on_read-append castle s r (q ++ joined rs)
