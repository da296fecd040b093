-- ===== src/Listener/Bound.antt =====
-- How many connections a listener lets in, in all and from one address.
use castle_plus.Prelude.{
  ℕ, suc, ◌+◌, ◌-◌, ◌*◌, ◌<◌, ◌≤◌, ◌≡◌, refl, sym, ap, subst, ◌∙◌, Bool, true, false, not, ◌&&◌,
  ◌||◌, List, [], ◌∷◌, ◌++◌, Option, some, ◌==◌, ltb, if◌then◌else◌, if_both, if_case, arith,
}
use castle_plus.RateLimiter.{RateLimiter, one, allow}
use castle_plus.RateLimiter.Level.{IsValid}
use castle_plus.RateLimiter.Bound.{grants, reserve, IsOrdered, grants_bound}
use castle_plus.Listener.{
  Accept, accepted, again, interrupted, aborted, accept_failed, Listener, conn_slot_available, ask,
  hand_over, admit, on_accepted, on_readable, Event, wake, gone, run,
}

-- The cap holds: with a limit, which is never 0.
abbrev Capped : ℕ → Listener → Type 0
Capped n s = (s.limit ≡ n) × (s.active ≤ n)

on_accepted-Capped :
    (cfd ip now : ℕ) (made registered : Bool) (n : ℕ) (s : Listener)
    → 0 < n
    → Capped n s
    → Capped n (on_accepted cfd ip now made registered s)
unfolding on_accepted admit hand_over conn_slot_available
on_accepted-Capped cfd ip now made registered n s z h =
    let r = ask s.limiter ip now in
    if_both (Capped n) (not r.1) h (
      if_case (Capped n) (not (s.limit == 0 || ltb s.active s.limit)) (λ _. h)
        (λ e.
          if_both (Capped n) (not made) h
            (if_both (Capped n) (not registered) h (h.0, room (s.limit) (s.active) h.0 e))))
  where
    room :
        (limit active : ℕ)
        → limit ≡ n
        → not (limit == 0 || ltb active limit) ≡ false
        → suc active ≤ n
    room limit active e k = ground arith

on_readable-Capped :
    (rs : List Accept) (n : ℕ) (s : Listener) → 0 < n → Capped n s → Capped n (on_readable rs s)
unfolding on_readable
on_readable-Capped [] n s z h = h
on_readable-Capped (accepted cfd ip now made registered ∷ rs) n s z h =
    on_readable-Capped rs n _ z (on_accepted-Capped cfd ip now made registered n s z h)
on_readable-Capped (again ∷ rs) n s z h = h
on_readable-Capped (interrupted ∷ rs) n s z h = on_readable-Capped rs n s z h
on_readable-Capped (aborted ∷ rs) n s z h = on_readable-Capped rs n s z h
on_readable-Capped (accept_failed ∷ rs) n s z h = h

run-Capped : (es : List Event) (n : ℕ) (s : Listener) → 0 < n → Capped n s → Capped n (run es s)
unfolding run
run-Capped [] n s z h = h
run-Capped (wake rs ∷ es) n s z h =
    run-Capped es n (on_readable rs s) z (on_readable-Capped rs n s z h)
run-Capped (gone ∷ es) n s z h =
    run-Capped es n (record s { active = s.active - 1 }) z (h.0, omega (arith, h.1))

-- With a cap above 0, where 0 would be none, no more connections than the cap are alive after any history of
-- accepted and ended connections, if no more were before it. One listener does the counting.
pub run_capped :
    (es : List Event) (s : Listener)
    → 0 < s.limit
    → s.active ≤ s.limit
    → (run es s).active ≤ s.limit
run_capped es s z h = (run-Capped es s.limit s z (refl, h)).1

-- The connections of `ip` among those that the loop was given.
abbrev pub served_from : ℕ → List (ℕ × ℕ) → ℕ
served_from ip [] = 0
served_from ip ((cfd, j) ∷ cs) = (if j == ip then 1 else 0) + served_from ip cs

-- The calls of the limiter: the addresses and instants of the connections that `accept4` answers with.
abbrev pub accepts : List Accept → List (ℕ × ℕ)
accepts [] = []
accepts (accepted cfd ip now made registered ∷ rs) = (ip, now) ∷ accepts rs
accepts (again ∷ rs) = []
accepts (interrupted ∷ rs) = accepts rs
accepts (aborted ∷ rs) = accepts rs
accepts (accept_failed ∷ rs) = []

abbrev pub calls : List Event → List (ℕ × ℕ)
calls [] = []
calls (wake rs ∷ es) = accepts rs ++ calls es
calls (gone ∷ es) = calls es

abbrev allow_all : RateLimiter → List (ℕ × ℕ) → RateLimiter
allow_all l [] = l
allow_all l ((j, now) ∷ cs) = allow_all (allow l j now).0 cs

allow_all-append :
    (l : RateLimiter) (cs ds : List (ℕ × ℕ))
    → allow_all l (cs ++ ds) ≡ allow_all (allow_all l cs) ds
allow_all-append l [] ds = refl
allow_all-append l ((j, now) ∷ cs) ds = allow_all-append (allow l j now).0 cs ds

grants-append :
    (ip : ℕ) (l : RateLimiter) (cs ds : List (ℕ × ℕ))
    → grants ip l (cs ++ ds) ≡ grants ip l cs + grants ip (allow_all l cs) ds
unfolding grants
grants-append ip l [] ds = omega arith
grants-append ip l ((j, now) ∷ cs) ds = omega (arith, grants-append ip (allow l j now).0 cs ds)

-- Of the connections, `n` more are served than before, and the limiter is `l` afterwards.
abbrev Serves : ℕ → ℕ → RateLimiter → Listener → Listener → Type 0
Serves ip n l s t = (served_from ip t.served ≤ served_from ip s.served + n) × (t.limiter ≡ some l)

admit-Serves :
    (ip cfd j : ℕ) (made registered granted : Bool) (l : RateLimiter) (s : Listener)
    → s.limiter ≡ some l
    → Serves ip (if j == ip && granted then 1 else 0) l s (admit cfd j made registered granted s)
unfolding admit hand_over
admit-Serves ip cfd j made registered false l s e = (omega arith, e)
admit-Serves ip cfd j made registered true l s e =
    let P = Serves ip (if j == ip && true then 1 else 0) l s in
    if_both P (not (conn_slot_available s)) (omega arith, e)
      (if_both P (not made) (omega arith, e)
        (if_both P (not registered) (omega arith, e) (ground arith, e)))

ask-some :
    (l : RateLimiter) (ip now : ℕ)
    → ask (some l) ip now ≡ (some (allow l ip now).0, (allow l ip now).1)
unfolding ask
ask-some l ip now = refl

on_accepted-Serves :
    (ip cfd j now : ℕ) (made registered : Bool) (l : RateLimiter) (s : Listener)
    → s.limiter ≡ some l
    → let r = allow l j now in
      Serves ip (if j == ip && r.1 then 1 else 0) r.0 s (on_accepted cfd j now made registered s)
unfolding on_accepted
on_accepted-Serves ip cfd j now made registered l s e =
    let r = allow l j now in
    subst
      (λ (x : Option RateLimiter × Bool).
        Serves ip (if j == ip && r.1 then 1 else 0) r.0 s
          (admit cfd j made registered x.1 (record s { limiter = x.0 })))
      (sym (ap (λ o. ask o j now) e ∙ ask-some l j now))
      (admit-Serves ip cfd j made registered r.1 r.0 (record s { limiter = some r.0 }) refl)

on_readable-Serves :
    (ip : ℕ) (rs : List Accept) (l : RateLimiter) (s : Listener)
    → s.limiter ≡ some l
    → Serves ip (grants ip l (accepts rs)) (allow_all l (accepts rs)) s (on_readable rs s)
unfolding on_readable grants
on_readable-Serves ip [] l s e = (omega arith, e)
on_readable-Serves ip (accepted cfd j now made registered ∷ rs) l s e =
    let h = on_accepted-Serves ip cfd j now made registered l s e in
    let k =
      on_readable-Serves ip rs (allow l j now).0 (on_accepted cfd j now made registered s) h.1 in
    (omega (arith, h.0, k.0), k.1)
on_readable-Serves ip (again ∷ rs) l s e = (omega arith, e)
on_readable-Serves ip (interrupted ∷ rs) l s e = on_readable-Serves ip rs l s e
on_readable-Serves ip (aborted ∷ rs) l s e = on_readable-Serves ip rs l s e
on_readable-Serves ip (accept_failed ∷ rs) l s e = (omega arith, e)

run-Serves :
    (ip : ℕ) (es : List Event) (l : RateLimiter) (s : Listener)
    → s.limiter ≡ some l
    → Serves ip (grants ip l (calls es)) (allow_all l (calls es)) s (run es s)
unfolding run grants
run-Serves ip [] l s e = (omega arith, e)
run-Serves ip (wake rs ∷ es) l s e =
    let h = on_readable-Serves ip rs l s e in
    let k = run-Serves ip es (allow_all l (accepts rs)) (on_readable rs s) h.1 in
    (
      omega (arith, h.0, k.0, grants-append ip l (accepts rs) (calls es)),
      k.1 ∙ ap some (sym (allow_all-append l (accepts rs) (calls es))),
    )
run-Serves ip (gone ∷ es) l s e = run-Serves ip es l (record s { active = s.active - 1 }) e

-- From one address, whatever the others do, a listener with a limiter hands the loop no more connections than
-- the tokens allow that the address can draw on at the start and earns until the end, in its own bucket and in
-- the overflow bucket. The bucket size is at least one token, and the instants do not fall.
pub run_served :
    (ip t end : ℕ) (l : RateLimiter) (es : List Event) (s : Listener)
    → s.limiter ≡ some l
    → s.served ≡ []
    → one ≤ l.burst
    → IsValid t l
    → IsOrdered t (calls es) end
    → served_from ip (run es s).served * one ≤ reserve l ip t + 2 * ((end - t) * l.rate)
run_served ip t end l es s e z h v o =
    let k = (run-Serves ip es l s e).0 in
    omega (arith, k, grants_bound ip t end l (calls es) h v o, ap (served_from ip) z)
