-- ===== src/Echo/Order.antt =====
-- What an echo connection sends back, and when it waits.
use castle_plus.Prelude.{
  ℕ, ◌≡◌, refl, sym, ap, ◌∙◌, Bool, true, false, not, List, [], ◌∷◌, ◌++◌, Bytes, is_empty,
  append_assoc, arith, take-append-drop, take, drop, length, if_case, elim_case,
}
use castle_plus.Proxy.State.{
  Read, read_bytes, read_eof, read_again, read_interrupted, read_error, Write,
}
use castle_plus.Echo.{
  EchoConnection, watch, new_echo, give_up, write_loop, settle, after_writes, flush, append,
  on_readable, Event, readable, writable, error, handle, run,
}

-- As long as no system call has failed: what was read is what was written and what waits.
abbrev Whole : EchoConnection → Type 0
Whole e = e.failed ≡ false → e.echoed ++ e.out ≡ e.received

-- Epoll is asked for writability by the flag.
abbrev Watched : EchoConnection → Type 0
Watched e = e.interest ≡ watch e.want_write

-- What holds between two callbacks.
pub record IsSettled (e : EchoConnection) : Type 0 where
  pub whole : Whole e
  pub watched : Watched e
  -- A connection that goes on waits for writability exactly while bytes are left.
  pub waits : e.close_requested ≡ false → e.want_write ≡ not (is_empty e.out)
  -- One whose peer has ended its input goes on only for the bytes that are left.
  pub lasts : e.close_requested ≡ false → e.closing ≡ true → is_empty e.out ≡ false
  -- One that is to be closed has sent everything back, if nothing failed.
  pub ends : e.close_requested ≡ true → e.failed ≡ false → e.out ≡ []

is_empty-nil : (s : Bytes) → is_empty s ≡ true → s ≡ []
unfolding is_empty
is_empty-nil [] h = refl
is_empty-nil (c ∷ s) h = absurd cc h

not-false : (b : Bool) → not b ≡ false → b ≡ true
not-false b h = ground arith

give_up-IsSettled : (e : EchoConnection) → Watched e → IsSettled (give_up e)
give_up-IsSettled e w = record {
  whole = λ h. absurd cc h;
  watched = w;
  waits = λ h. absurd cc h;
  lasts = λ h. absurd cc h;
  ends = λ _ h. absurd cc h;
}

settle-IsSettled :
    (e : EchoConnection) → e.close_requested ≡ false → Whole e → Watched e → IsSettled (settle e)
unfolding settle
settle-IsSettled e o h w =
    if_case IsSettled (is_empty e.out)
      (λ z.
        if_case IsSettled e.closing
          (λ _. record {
            whole = h;
            watched = w;
            waits = λ k. absurd cc k;
            lasts = λ k. absurd cc k;
            ends = λ _ _. is_empty-nil e.out z;
          })
          (λ c.
            if_case IsSettled e.want_write
              (λ _. record {
                whole = h;
                watched = refl;
                waits = λ _. ap not (sym z);
                lasts = λ _ k. absurd (cc (c, k));
                ends = λ k _. absurd (cc (o, k));
              })
              (λ b. record {
                whole = h;
                watched = w;
                waits = λ _. b ∙ ap not (sym z);
                lasts = λ _ k. absurd (cc (c, k));
                ends = λ k _. absurd (cc (o, k));
              })))
      (λ z.
        if_case IsSettled (not e.want_write)
          (λ _. record {
            whole = h;
            watched = refl;
            waits = λ _. ap not (sym z);
            lasts = λ _ _. z;
            ends = λ k _. absurd (cc (o, k));
          })
          (λ b. record {
            whole = h;
            watched = w;
            waits = λ _. not-false e.want_write b ∙ ap not (sym z);
            lasts = λ _ _. z;
            ends = λ k _. absurd (cc (o, k));
          }))

after_writes-IsSettled :
    (e : EchoConnection) (r : ℕ × Bool)
    → e.close_requested ≡ false
    → Whole e
    → Watched e
    → IsSettled (after_writes e r)
unfolding after_writes
after_writes-IsSettled e (off, true) o h w =
    give_up-IsSettled (record e { echoed = e.echoed ++ take off e.out }) w
after_writes-IsSettled e (off, false) o h w =
    settle-IsSettled (record e { echoed = e.echoed ++ take off e.out; out = drop off e.out }) o
      (λ f.
        append_assoc e.echoed (take off e.out) (drop off e.out)
        ∙ ap (λ x. e.echoed ++ x) (take-append-drop off e.out)
        ∙ h f)
      w

flush-IsSettled :
    (ws : List Write) (e : EchoConnection)
    → e.close_requested ≡ false
    → Whole e
    → Watched e
    → IsSettled (flush ws e)
unfolding flush
flush-IsSettled ws e o h w = after_writes-IsSettled e (write_loop ws (length e.out) 0) o h w

on_readable-IsSettled :
    (rs : List Read) (ws : List Write) (e : EchoConnection)
    → e.close_requested ≡ false
    → Whole e
    → Watched e
    → IsSettled (on_readable rs ws e)
unfolding on_readable
on_readable-IsSettled [] ws e o h w = flush-IsSettled ws e o h w
on_readable-IsSettled (read_bytes text ∷ rs) ws e o h w =
    on_readable-IsSettled rs ws (append text e) o
      (λ f. sym (append_assoc e.echoed e.out text) ∙ ap (λ x. x ++ text) (h f)) w
on_readable-IsSettled (read_eof ∷ rs) ws e o h w =
    flush-IsSettled ws (record e { closing = true }) o h w
on_readable-IsSettled (read_again ∷ rs) ws e o h w = flush-IsSettled ws e o h w
on_readable-IsSettled (read_interrupted ∷ rs) ws e o h w = on_readable-IsSettled rs ws e o h w
on_readable-IsSettled (read_error ∷ rs) ws e o h w = give_up-IsSettled e w

handle-IsSettled :
    (v : Event) (e : EchoConnection)
    → e.close_requested ≡ false
    → IsSettled e
    → IsSettled (handle v e)
unfolding handle
handle-IsSettled (readable rs ws) e o h = on_readable-IsSettled rs ws e o h.whole h.watched
handle-IsSettled (writable ws) e o h = flush-IsSettled ws e o h.whole h.watched
handle-IsSettled error e o h = give_up-IsSettled e h.watched

run_from-IsSettled : (vs : List Event) (e : EchoConnection) → IsSettled e → IsSettled (run vs e)
unfolding run
run_from-IsSettled [] e h = h
run_from-IsSettled (v ∷ vs) e h =
    elim_case IsSettled e.close_requested (λ _. h)
      (λ o. run_from-IsSettled vs (handle v e) (handle-IsSettled v e o h))

-- After any history of callbacks and whatever the system calls answer: if none has failed, the bytes that were
-- written, with those that wait, are the bytes that were read; the connection waits for writability exactly while
-- bytes are left, outlives the end of its input only for them, and asks to be closed only when all are sent.
pub run-IsSettled : (vs : List Event) → IsSettled (run vs new_echo)
unfolding is_empty
run-IsSettled vs = run_from-IsSettled vs new_echo (record {
  whole = λ _. refl;
  watched = refl;
  waits = λ _. refl;
  lasts = λ _ h. absurd cc h;
  ends = λ h. absurd cc h;
})
