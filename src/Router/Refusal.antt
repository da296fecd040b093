-- ===== src/Router/Refusal.antt =====
-- Which files `Router::load` refuses, and what its errors name.
use mathlib.Core.List.{reverse}
use castle_plus.Prelude.{
  ℕ, suc, ◌+◌, ◌≡◌, ◌≢◌, refl, ap, ◌⊎◌, inl, inr, true, false, List, [], ◌∷◌, ◌++◌, Option, none,
  some, arith, Bytes, Bool-cases, length, is_empty, All, ◌||◌, ◌==◌,
}
use castle_plus.Prelude.Result.{Result, ok, err, bind-eq-err}
use castle_plus.Ini.{lines, classify}
use castle_plus.Router.{
  Route, Reason, LoadError, cannot_open, at_line, missing_backend, read_line, at, read_lines,
  check_backends, load_text, load,
}

at-eq-err {ℓ} :
    {A : Type ℓ} (n : ℕ) (m : Result Reason A) {e : LoadError}
    → at n m ≡ err e
    → (why : Reason) × (e ≡ at_line n why) × (m ≡ err why)
at-eq-err n (ok a) h = cc
at-eq-err n (err why) h = (why, cc, refl)

-- The lines before `line` are accepted, and `line`, the `n`-th of the file, is refused.
pub record RefusesLine (start : ℕ) (rs : List Route) (ls : List Bytes) (n : ℕ) (why : Reason)
    : Type 0 where
  pub before : List Bytes
  pub line : Bytes
  pub after : List Bytes
  pub read : List Route
  pub splits : ls ≡ before ++ (line ∷ after)
  pub counts : n ≡ start + suc (length before)
  pub accepted : read_lines start rs before ≡ ok read
  pub refused : read_line read (classify line) ≡ err why

read_lines-RefusesLine :
    (start : ℕ) (rs : List Route) (ls : List Bytes) {e : LoadError}
    → read_lines start rs ls ≡ err e
    → (n : ℕ) × (why : Reason) × (e ≡ at_line n why) × RefusesLine start rs ls n why
unfolding read_lines
read_lines-RefusesLine start rs [] h = cc
read_lines-RefusesLine start rs (l ∷ ls) h =
    elim (bind-eq-err (at (suc start) (read_line rs (classify l)))
      (λ rs'. read_lines (suc start) rs' ls) h) [
        | inl f ↦
            let (why, g, k) = at-eq-err (suc start) (read_line rs (classify l)) f in
            (
              suc start,
              why,
              g,
              record {
                before = [];
                line = l;
                after = ls;
                read = rs;
                splits = refl;
                counts = omega arith;
                accepted = refl;
                refused = k;
              },
            )
        | inr (mid, f, g) ↦
            let (n, why, k, w) = read_lines-RefusesLine (suc start) mid ls g in
            (
              n,
              why,
              k,
              record {
                before = l ∷ w.before;
                line = w.line;
                after = w.after;
                read = w.read;
                splits = ap (◌∷◌ l) w.splits;
                counts = omega (arith, w.counts);
                accepted = rw f w.accepted;
                refused = w.refused;
              },
            )
      ]

-- `r` is the first route of `rs` with no host or no port.
pub record FirstBare (rs : List Route) (r : Route) : Type 0 where
  pub before : List Route
  pub after : List Route
  pub splits : rs ≡ before ++ (r ∷ after)
  pub set : All (λ q. (is_empty q.backend.host ≡ false) × (q.backend.port ≢ 0)) before
  pub bare : (is_empty r.backend.host ≡ true) ⊎ (r.backend.port ≡ 0)

check_backends-FirstBare :
    (rs : List Route) {e : LoadError}
    → check_backends rs ≡ err e
    → (r : Route) × (e ≡ missing_backend r.name) × FirstBare rs r
unfolding check_backends
check_backends-FirstBare [] h = cc
check_backends-FirstBare (r ∷ rs) h =
    elim (Bool-cases (is_empty r.backend.host || r.backend.port == 0)) [
      | inl f ↦ (
        r,
        cc (rw f at h),
        record { before = []; after = rs; splits = refl; set = tt; bare = ground arith },
      )
      | inr f ↦ elim (bind-eq-err (check_backends rs) (λ rs'. ok (r ∷ rs')) (rw f at h)) [
        | inl g ↦
            let (q, k, w) = check_backends-FirstBare rs g in
            (
              q,
              k,
              record {
                before = r ∷ w.before;
                after = w.after;
                splits = ap (◌∷◌ r) w.splits;
                set = ((ground arith, ground arith), w.set);
                bare = w.bare;
              },
            )
        | inr (rest, _, g) ↦ cc
      ]
    ]

-- Why a file is refused.
abbrev pub Refusal : Option Bytes → LoadError → Type 0
Refusal file e =
    ((file ≡ none) × (e ≡ cannot_open))
    ⊎ ((text : Bytes) × (n : ℕ) × (why : Reason) × (file ≡ some text)
        × (e ≡ at_line n why)
        × RefusesLine 0 [] (lines text) n why)
    ⊎ ((text : Bytes) × (rs : List Route) × (r : Route) × (file ≡ some text)
        × (e ≡ missing_backend r.name)
        × (read_lines 0 [] (lines text) ≡ ok rs)
        × FirstBare (reverse rs) r)

-- `Router::load` refuses a file only because it cannot be opened, or because of a bad line, the first
-- such line being the one that is numbered in the error, or because all lines are good and some
-- route has no host or no port, the first such route in file order being the one that is named.
pub load-Refusal : (file : Option Bytes) (e : LoadError) → load file ≡ err e → Refusal file e
unfolding load load_text
load-Refusal none e h = inl (refl, cc)
load-Refusal (some text) e h =
    elim (bind-eq-err (read_lines 0 [] (lines text)) (λ rs. check_backends (reverse rs)) h) [
      | inl f ↦
          let (n, why, g, w) = read_lines-RefusesLine 0 [] (lines text) f in
          inr (inl (text, n, why, refl, g, w))
      | inr (rs, f, g) ↦
          let (r, k, w) = check_backends-FirstBare (reverse rs) g in
          inr (inr (text, rs, r, refl, k, f, w))
    ]
