-- ===== src/Router/Load.antt =====
-- What a table that `Router::load` accepts looks like.
use mathlib.Core.List.{reverse}
use castle_plus.Prelude.{
  ℕ, suc, ◌≤◌, ◌<◌, ◌≡◌, ◌≢◌, refl, sym, subst, ap, ◌∙◌, inl, inr, false, List, [], ◌∷◌, Option,
  none, some, arith, Bytes, Bool-cases, Option-cases, is_empty, All, All-reverse, ◌||◌, ◌==◌,
  split_last,
}
use castle_plus.Prelude.Decimal.{strtol}
use castle_plus.Prelude.Int.{ℤ, pos, negsuc}
use castle_plus.Prelude.Result.{Result, ok, err, ok-injective, bind-eq-ok}
use castle_plus.Ini.{
  Line, skip, malformed_header, empty_name, no_equals, header, pair, lower, lines, classify,
}
use castle_plus.Ini.Laws.{lower_idem, classify-IsNamed, IsNamed}
use castle_plus.Router.{
  Route, Reason, new_route, port_of, set_backend, set_port, set_host_port, set_path, set_key,
  set_current, read_line, at, read_lines, check_backends, load,
}

-- A route as it is while the file is read: a backend port is 0 until one is set.
pub record IsRoute (r : Route) : Type 0 where
  pub named : is_empty r.name ≡ false
  pub lowered : lower r.host ≡ r.host
  pub prefixed : is_empty r.path_prefix ≡ false
  pub port_fits : r.backend.port ≤ 65535

new_route-IsRoute : (name : Bytes) → is_empty name ≡ false → IsRoute (new_route name)
unfolding lower is_empty
new_route-IsRoute name h = record {
  named = h;
  lowered = refl;
  prefixed = refl;
  port_fits = omega arith;
}

port_of-le : (z : ℤ) {p : ℕ} → port_of z ≡ some p → (p ≤ 65535) × (0 < p)
unfolding port_of
port_of-le (pos n) h = ground arith
port_of-le (negsuc n) h = cc

set_host_port-IsRoute :
    (r r' : Route) (o : Option (Bytes × Bytes)) → IsRoute r → set_host_port r o ≡ ok r' → IsRoute r'
unfolding set_host_port
set_host_port-IsRoute r r' none v h = cc
set_host_port-IsRoute r r' (some (before, behind)) v h =
    elim (Option-cases (port_of (strtol behind))) [
      | inl e ↦ cc (rw (e, set_port) at h)
      | inr (p, e) ↦
          let f = ok-injective (rw (e, set_port) at h) in
          ground (arith, port_of-le (strtol behind) e)
    ]

set_key-IsRoute :
    (r r' : Route) (key val : Bytes) → IsRoute r → set_key r key val ≡ ok r' → IsRoute r'
unfolding set_key set_path set_backend
set_key-IsRoute r r' key val v h =
    ground (arith, lower_idem val, set_host_port-IsRoute r r' (split_last b':' val) v)

set_current-IsRoute :
    (rs : List Route) {rs' : List Route} (key val : Bytes)
    → All IsRoute rs
    → set_current rs key val ≡ ok rs'
    → All IsRoute rs'
unfolding set_current
set_current-IsRoute [] key val v h = cc
set_current-IsRoute (r ∷ rs) key val v h =
    let (r', e, f) = bind-eq-ok (set_key r key val) (λ cur'. ok (cur' ∷ rs)) h in
    subst (All IsRoute) (ok-injective f) (set_key-IsRoute r r' key val v.0 e, v.1)

read_line-IsRoute :
    (rs : List Route) {rs' : List Route} (l : Line)
    → All IsRoute rs
    → IsNamed l
    → read_line rs l ≡ ok rs'
    → All IsRoute rs'
unfolding read_line
read_line-IsRoute rs skip v n h = subst (All IsRoute) (ok-injective h) v
read_line-IsRoute rs malformed_header v n h = cc
read_line-IsRoute rs empty_name v n h = cc
read_line-IsRoute rs no_equals v n h = cc
read_line-IsRoute rs (header name) v n h =
    subst (All IsRoute) (ok-injective h) (new_route-IsRoute name n, v)
read_line-IsRoute rs (pair key val) v n h = set_current-IsRoute rs key val v h

at-eq-ok {ℓ} : {A : Type ℓ} (n : ℕ) (m : Result Reason A) {a : A} → at n m ≡ ok a → m ≡ ok a
at-eq-ok n (ok a) h = cc
at-eq-ok n (err e) h = cc

read_lines-IsRoute :
    (n : ℕ) (rs : List Route) {rs' : List Route} (ls : List Bytes)
    → All IsRoute rs
    → read_lines n rs ls ≡ ok rs'
    → All IsRoute rs'
unfolding read_lines
read_lines-IsRoute n rs [] v h = subst (All IsRoute) (ok-injective h) v
read_lines-IsRoute n rs (l ∷ ls) v h =
    let (mid, e, f) =
      bind-eq-ok (at (suc n) (read_line rs (classify l))) (λ rs'. read_lines (suc n) rs' ls) h in
    read_lines-IsRoute (suc n) mid ls
      (read_line-IsRoute rs (classify l) v (classify-IsNamed l) (at-eq-ok (suc n) _ e)) f

-- A route that is ready to serve.
pub record IsReady (r : Route) : Type 0 where
  pub route : IsRoute r
  pub host_set : is_empty r.backend.host ≡ false
  pub port_set : r.backend.port ≢ 0

check_backends-IsReady :
    (rs : List Route) {rs' : List Route}
    → All IsRoute rs
    → check_backends rs ≡ ok rs'
    → (rs' ≡ rs) × All IsReady rs
unfolding check_backends is_empty
check_backends-IsReady [] v h = (sym (ok-injective h), tt)
check_backends-IsReady (r ∷ rs) v h =
    elim (Bool-cases (is_empty r.backend.host || r.backend.port == 0)) [
      | inl e ↦ cc (rw e at h)
      | inr e ↦
          let (rest, f, g) = bind-eq-ok (check_backends rs) (λ rs'. ok (r ∷ rs')) (rw e at h) in
          let (same, ready) = check_backends-IsReady rs v.1 f in
          (
            sym (ok-injective g) ∙ ap (◌∷◌ r) same,
            (record { route = v.0; host_set = ground arith; port_set = ground arith }, ready),
          )
    ]

-- Every route of a table that `Router::load` accepts has a name, a path prefix that is not empty, a
-- host in lower case, and a backend with a host and a port from 1 to 65535.
pub load-IsReady :
    (file : Option Bytes) (routes : List Route) → load file ≡ ok routes → All IsReady routes
unfolding load
load-IsReady none routes h = cc
load-IsReady (some text) routes h =
    let (rs, e, f) =
      bind-eq-ok (read_lines 0 [] (lines text)) (λ rs. check_backends (reverse rs)) h in
    let v = All-reverse IsRoute rs (read_lines-IsRoute 0 [] (lines text) tt e) in
    let (same, ready) = check_backends-IsReady (reverse rs) v f in rw same ready
