-- ===== src/Startup/Checked.antt =====
-- What is checked before castle runs, and how it ends.
use castle_plus.Prelude.{
  ℕ, zero, suc, ◌≤◌, ◌≡◌, ◌≢◌, refl, sym, ap, subst, ◌∙◌, Bool, true, false, List, [], ◌∷◌, ◌++◌,
  is_empty, if◌then◌else◌, All, map, arith, length, Bool-cases, inl, inr,
}
use castle_plus.Prelude.Result.{Result, err, ok, ◌>>=◌, bind-eq-ok, ok-injective}
use castle_plus.CommandLine.{Options}
use castle_plus.Router.{Route, LoadError, load}
use castle_plus.Startup.{
  Failure, routes_refused, tls_without_routes, World, Speech, echo, http, https, Running,
  thread_count, start_supervisor, set_up_tls, choose_speech, open_loops, start_up, Signal, sigint,
  sigterm, sighup, is_https, on_sighup, wait_signals, stop_order, Notice, exits, ended, serve,
}

-- What TLS is asked to go with.
pub record IsSafe (w : World) (o : Options) (speech : Speech) : Type 0 where
  -- A certificate that is named is used.
  pub used : is_empty o.tls_cert ≡ false → is_https speech ≡ true
  pub certified : is_https speech ≡ true → is_empty o.tls_cert ≡ false
  pub keyed : is_https speech ≡ true → is_empty o.tls_key ≡ false
  pub routed : is_https speech ≡ true → is_empty o.routes_path ≡ false
  pub set_up : is_https speech ≡ true → w.tls_init o.tls_cert o.tls_key ≡ true

-- The verdict on the two paths.
record IsTls (w : World) (o : Options) (tls : Bool) : Type 0 where
  used : is_empty o.tls_cert ≡ false → tls ≡ true
  certified : tls ≡ true → is_empty o.tls_cert ≡ false
  keyed : tls ≡ true → is_empty o.tls_key ≡ false
  set_up : tls ≡ true → w.tls_init o.tls_cert o.tls_key ≡ true

set_up_tls-IsTls : (w : World) (o : Options) (tls : Bool) → set_up_tls w o ≡ ok tls → IsTls w o tls
unfolding set_up_tls
set_up_tls-IsTls w o tls h = record {
  used = λ c. ground (h, c, arith);
  certified = λ t. ground (h, t, arith);
  keyed = λ t. ground (h, t, arith);
  set_up = λ t. ground (h, t, arith);
}

-- The loops from `i` on: each socket was made, and the loop has it as its listener exactly if epoll takes it.
abbrev pub AllOpened : World → ℕ → List Bool → Type 0
AllOpened w i [] = Unit {0}
AllOpened w i (l ∷ ls) = (w.listener i ≡ true) × (l ≡ w.takes i) × AllOpened w (suc i) ls

open_loops-AllOpened :
    (w : World) (i n : ℕ) (ls : List Bool)
    → open_loops w i n ≡ ok ls
    → AllOpened w i ls × (length ls ≡ n)
unfolding open_loops
open_loops-AllOpened w i zero ls h =
    subst (λ ls. AllOpened w i ls × (length ls ≡ 0)) (ok-injective h) (tt, refl)
open_loops-AllOpened w i (suc n) ls h = elim (Bool-cases (w.listener i)) [
  | inl e ↦
      let (rest, r, k) =
        bind-eq-ok (open_loops w (suc i) n) (λ rest. ok (w.takes i ∷ rest))
          (rw (e, open_loops) at h) in
      let (all, len) = open_loops-AllOpened w (suc i) n rest r in
      subst (λ ls. AllOpened w i ls × (length ls ≡ suc n)) (ok-injective k)
        ((e, refl, all), ap suc len)
  | inr e ↦ absurd cc (rw (e, open_loops) at h)
]

speech_of :
    (routes : List Route) (tls : Bool) → is_https (if tls then https routes else http routes) ≡ tls
speech_of routes true = refl
speech_of routes false = refl

echo-IsSafe : (w : World) (o : Options) → is_empty o.tls_cert ≡ true → IsSafe w o echo
echo-IsSafe w o e = record {
  used = λ c. absurd (cc (c, e));
  certified = λ t. absurd cc t;
  keyed = λ t. absurd cc t;
  routed = λ t. absurd cc t;
  set_up = λ t. absurd cc t;
}

plain-IsSafe :
    (w : World) (o : Options) (speech : Speech) (b : Bool)
    → is_empty o.tls_cert ≡ b
    → ◌≡◌ {A = Result Failure Speech} (if b then ok echo else err tls_without_routes) (ok speech)
    → IsSafe w o speech
plain-IsSafe w o speech true e h = subst (IsSafe w o) (ok-injective h) (echo-IsSafe w o e)
plain-IsSafe w o speech false e h = absurd cc h

proxy-IsSafe :
    (w : World) (o : Options) (routes : List Route) (tls : Bool)
    → is_empty o.routes_path ≡ false
    → IsTls w o tls
    → IsSafe w o (if tls then https routes else http routes)
proxy-IsSafe w o routes tls e p =
    let s = speech_of routes tls in
    record {
      used = λ c. s ∙ p.used c;
      certified = λ t. p.certified (sym s ∙ t);
      keyed = λ t. p.keyed (sym s ∙ t);
      routed = λ t. e;
      set_up = λ t. p.set_up (sym s ∙ t);
    }

loaded-IsSafe :
    (w : World) (o : Options) (speech : Speech) (r : Result LoadError (List Route))
    → is_empty o.routes_path ≡ false
    → elim r [
      | err why ↦ err (routes_refused why)
      | ok routes ↦ set_up_tls w o >>= (λ tls. ok (if tls then https routes else http routes))
    ]
      ≡ ok speech
    → IsSafe w o speech
loaded-IsSafe w o speech (err why) e h = absurd cc h
loaded-IsSafe w o speech (ok routes) e h =
    let (tls, s, k) =
      bind-eq-ok (set_up_tls w o) (λ tls. ok (if tls then https routes else http routes)) h in
    subst (IsSafe w o) (ok-injective k) (proxy-IsSafe w o routes tls e (set_up_tls-IsTls w o tls s))

routed-IsSafe :
    (w : World) (o : Options) (speech : Speech) (b : Bool)
    → is_empty o.routes_path ≡ b
    → (if b
        then (if is_empty o.tls_cert then ok echo else err tls_without_routes)
        else elim (load (w.file o.routes_path)) [
          | err why ↦ err (routes_refused why)
          | ok routes ↦ set_up_tls w o >>= (λ tls. ok (if tls then https routes else http routes))
        ])
      ≡ ok speech
    → IsSafe w o speech
routed-IsSafe w o speech true e h = plain-IsSafe w o speech (is_empty o.tls_cert) refl h
routed-IsSafe w o speech false e h = loaded-IsSafe w o speech (load (w.file o.routes_path)) e h

choose_speech-IsSafe :
    (w : World) (o : Options) (speech : Speech) → choose_speech w o ≡ ok speech → IsSafe w o speech
unfolding choose_speech
choose_speech-IsSafe w o speech h = routed-IsSafe w o speech (is_empty o.routes_path) refl h

thread_count_some : (w : World) (o : Options) → 1 ≤ thread_count w o
unfolding thread_count
thread_count_some w o = ground arith

-- What holds of a castle that runs.
pub record IsChecked (w : World) (o : Options) (r : Running) : Type 0 where
  pub safe : IsSafe w o r.speech
  pub some_loop : 1 ≤ length r.loops
  pub counted : length r.loops ≡ thread_count w o
  pub opened : AllOpened w 0 r.loops

-- If castle starts, it has as many loops as asked for, and at least one. The listening socket of each was made, and
-- the loop has it exactly if its epoll descriptor takes it. TLS is on exactly if a certificate is named: then a key
-- and a routes file are named too and TLS has been set up with that certificate and that key.
pub start_up-IsChecked :
    (w : World) (o : Options) (r : Running) → start_up w o ≡ ok r → IsChecked w o r
unfolding start_up
start_up-IsChecked w o r h =
    let (supervisor, e, h1) = bind-eq-ok (start_supervisor w o) _ h in
    let (speech, s, h2) = bind-eq-ok (choose_speech w o) _ h1 in
    let (loops, l, h3) = bind-eq-ok (open_loops w 0 (thread_count w o)) _ h2 in
    let (all, len) = open_loops-AllOpened w 0 (thread_count w o) loops l in
    subst (IsChecked w o) (ok-injective h3) (record {
      safe = choose_speech-IsSafe w o speech s;
      some_loop = subst (λ n. 1 ≤ n) (sym len) (thread_count_some w o);
      counted = len;
      opened = all;
    })

-- The signals are all SIGHUP.
abbrev pub AllHup : List (Signal × Bool) → Type 0
AllHup ss = All (λ p. p.0 ≡ sighup) ss

-- The notices of such signals.
abbrev pub notices : Speech → List (Signal × Bool) → List Notice
notices speech ss = map (λ p. on_sighup speech p.1) ss

wait_signals_ends :
    (speech : Speech) (hups : List (Signal × Bool)) (s : Signal) (b : Bool)
    (rest : List (Signal × Bool))
    → AllHup hups
    → s ≢ sighup
    → wait_signals speech (hups ++ ((s, b) ∷ rest)) ≡ (notices speech hups, true)
unfolding wait_signals
wait_signals_ends speech [] sigint b rest h k = refl
wait_signals_ends speech [] sigterm b rest h k = refl
wait_signals_ends speech [] sighup b rest h k = absurd (k refl)
wait_signals_ends speech ((sighup, b') ∷ hups) s b rest h k =
    ap (λ r. (on_sighup speech b' ∷ r.0, r.1)) (wait_signals_ends speech hups s b rest h.1 k)
wait_signals_ends speech ((sigint, b') ∷ hups) s b rest h k = absurd cc (h.0)
wait_signals_ends speech ((sigterm, b') ∷ hups) s b rest h k = absurd cc (h.0)

-- A castle that runs ends at the first SIGINT or SIGTERM with exit code 0 and stops its parts in order; every SIGHUP
-- before it has tried to reload the certificate if TLS is on, and changed nothing else.
serve_ends :
    (r : Running) (hups : List (Signal × Bool)) (s : Signal) (b : Bool)
    (rest : List (Signal × Bool))
    → AllHup hups
    → s ≢ sighup
    → serve (ok r) (hups ++ ((s, b) ∷ rest)) ≡ exits 0 (stop_order r) (notices r.speech hups)
unfolding serve
serve_ends r hups s b rest h k = ap (ended r) (wait_signals_ends r.speech hups s b rest h k)
