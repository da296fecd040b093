-- ===== src/ServiceConfig/Accepts.antt =====
-- What a manifest that `parse_services_file` accepts looks like.
use mathlib.Core.List.{reverse}
use castle_plus.Prelude.{
  ℕ, suc, ◌≤◌, ◌<◌, ◌^◌, ◌≡◌, refl, sym, subst, ap, ◌∙◌, false, List, [], ◌∷◌, Option, none, some,
  arith, Bytes, Bool, equal, codes, Bool-cases, Option-cases, is_empty, All, All-reverse, ◌==◌,
  split_last, inl, inr, front,
}
use castle_plus.Prelude.Decimal.{strtol}
use castle_plus.Prelude.Int.{ℤ, pos, negsuc, to_int, pos_part, neg_part}
use castle_plus.Prelude.Result.{
  Result, ok, err, ok-injective, ok-eq-ok, err-eq-ok, if-eq-ok, bind-eq-ok,
}
use castle_plus.Ini.{
  Line, skip, malformed_header, empty_name, no_equals, header, pair, lines, classify,
}
use castle_plus.Ini.Laws.{classify-IsNamed, IsNamed}
use castle_plus.ServiceConfig.{
  ServiceConfig, Reason, new_service, parse_bool, port_of, set_autorestart, set_port, set_health,
  split_args, set_number, set_key, set_current, read_line, at, read_lines, check_execs,
  parse_services_file,
}

-- An `int`.
abbrev pub IsInt : ℤ → Type 0
IsInt z = (pos_part z < 2 ^ 31) × (neg_part z ≤ 2 ^ 31)

to_int-IsInt : (z : ℤ) → IsInt (to_int z)
unfolding to_int
to_int-IsInt (pos n) = ground arith
to_int-IsInt (negsuc n) = ground arith

-- A service as it is while the file is read.
pub record IsService (c : ServiceConfig) : Type 0 where
  pub named : is_empty c.name ≡ false
  pub port_fits : c.health_port ≤ 65535
  pub interval_fits : IsInt c.health_interval_sec
  pub min_fits : IsInt c.backoff_min_sec
  pub max_fits : IsInt c.backoff_max_sec

new_service-IsService : (name : Bytes) → is_empty name ≡ false → IsService (new_service name)
new_service-IsService name h = record {
  named = h;
  port_fits = omega arith;
  interval_fits = (omega arith, omega arith);
  min_fits = (omega arith, omega arith);
  max_fits = (omega arith, omega arith);
}

keeps :
    (c c' : ServiceConfig)
    → IsService c
    → c'.name ≡ c.name
    → c'.health_port ≡ c.health_port
    → c'.health_interval_sec ≡ c.health_interval_sec
    → c'.backoff_min_sec ≡ c.backoff_min_sec
    → c'.backoff_max_sec ≡ c.backoff_max_sec
    → IsService c'
keeps c c' v a b d e f = record {
  named = rw a v.named;
  port_fits = rw b v.port_fits;
  interval_fits = rw d v.interval_fits;
  min_fits = rw e v.min_fits;
  max_fits = rw f v.max_fits;
}

port_of-le : (z : ℤ) {p : ℕ} → port_of z ≡ some p → p ≤ 65535
unfolding port_of
port_of-le (pos n) h = ground arith
port_of-le (negsuc n) h = cc

set_health-IsService :
    (c c' : ServiceConfig) (o : Option (Bytes × Bytes))
    → IsService c
    → set_health c o ≡ ok c'
    → IsService c'
unfolding set_health
set_health-IsService c c' none v h = cc
set_health-IsService c c' (some (before, behind)) v h =
    elim (Option-cases (port_of (strtol behind))) [
      | inl e ↦ cc (rw (e, set_port) at h)
      | inr (p, e) ↦ subst IsService (ok-injective (rw (e, set_port) at h)) (record {
        named = v.named;
        port_fits = port_of-le (strtol behind) e;
        interval_fits = v.interval_fits;
        min_fits = v.min_fits;
        max_fits = v.max_fits;
      })
    ]

set_autorestart-IsService :
    (c c' : ServiceConfig) (o : Option Bool)
    → IsService c
    → set_autorestart c o ≡ ok c'
    → IsService c'
unfolding set_autorestart
set_autorestart-IsService c c' none v h = cc
set_autorestart-IsService c c' (some b) v h =
    ok-eq-ok IsService (keeps c (record c { autorestart = b }) v refl refl refl refl refl) h

set_number-IsService :
    (c c' : ServiceConfig) (key val : Bytes)
    → IsService c
    → set_number c key val ≡ ok c'
    → IsService c'
unfolding set_number
set_number-IsService c c' key val v =
    let n = to_int-IsInt (strtol val) in
    if-eq-ok IsService (equal key (codes "health_interval"))
      (ok-eq-ok IsService (record {
        named = v.named;
        port_fits = v.port_fits;
        interval_fits = n;
        min_fits = v.min_fits;
        max_fits = v.max_fits;
      }))
      (if-eq-ok IsService (equal key (codes "backoff_min"))
        (ok-eq-ok IsService (record {
          named = v.named;
          port_fits = v.port_fits;
          interval_fits = v.interval_fits;
          min_fits = n;
          max_fits = v.max_fits;
        }))
        (if-eq-ok IsService (equal key (codes "backoff_max"))
          (ok-eq-ok IsService (record {
            named = v.named;
            port_fits = v.port_fits;
            interval_fits = v.interval_fits;
            min_fits = v.min_fits;
            max_fits = n;
          }))
          (err-eq-ok IsService)))

set_key-IsService :
    (c c' : ServiceConfig) (key val : Bytes)
    → IsService c
    → set_key c key val ≡ ok c'
    → IsService c'
unfolding set_key
set_key-IsService c c' key val v =
    if-eq-ok IsService (equal key (codes "exec"))
      (ok-eq-ok IsService (keeps c (record c { exec = val }) v refl refl refl refl refl))
      (if-eq-ok IsService (equal key (codes "args"))
        (ok-eq-ok IsService
          (keeps c (record c { args = split_args val }) v refl refl refl refl refl))
        (if-eq-ok IsService (equal key (codes "workdir"))
          (ok-eq-ok IsService (keeps c (record c { workdir = val }) v refl refl refl refl refl))
          (if-eq-ok IsService (equal key (codes "autorestart"))
            (set_autorestart-IsService c c' (parse_bool val) v)
            (if-eq-ok IsService (equal key (codes "health_tcp"))
              (set_health-IsService c c' (split_last b':' val) v)
              (set_number-IsService c c' key val v)))))

set_current-IsService :
    (cs : List ServiceConfig) {cs' : List ServiceConfig} (key val : Bytes)
    → All IsService cs
    → set_current cs key val ≡ ok cs'
    → All IsService cs'
unfolding set_current
set_current-IsService [] key val v h = cc
set_current-IsService (c ∷ cs) key val v h =
    let (c', e, f) = bind-eq-ok (set_key c key val) (λ cur'. ok (cur' ∷ cs)) h in
    subst (All IsService) (ok-injective f) (set_key-IsService c c' key val v.0 e, v.1)

read_line-IsService :
    (cs : List ServiceConfig) {cs' : List ServiceConfig} (l : Line)
    → All IsService cs
    → IsNamed l
    → read_line cs l ≡ ok cs'
    → All IsService cs'
unfolding read_line
read_line-IsService cs skip v n h = subst (All IsService) (ok-injective h) v
read_line-IsService cs malformed_header v n h = cc
read_line-IsService cs empty_name v n h = cc
read_line-IsService cs no_equals v n h = cc
read_line-IsService cs (header name) v n h =
    subst (All IsService) (ok-injective h) (new_service-IsService name n, v)
read_line-IsService cs (pair key val) v n h = set_current-IsService cs key val v h

at-eq-ok {ℓ} : {A : Type ℓ} (n : ℕ) (m : Result Reason A) {a : A} → at n m ≡ ok a → m ≡ ok a
at-eq-ok n (ok a) h = cc
at-eq-ok n (err e) h = cc

read_lines-IsService :
    (n : ℕ) (cs : List ServiceConfig) {cs' : List ServiceConfig} (ls : List Bytes)
    → All IsService cs
    → read_lines n cs ls ≡ ok cs'
    → All IsService cs'
unfolding read_lines
read_lines-IsService n cs [] v h = subst (All IsService) (ok-injective h) v
read_lines-IsService n cs (l ∷ ls) v h =
    let (mid, e, f) =
      bind-eq-ok (at (suc n) (read_line cs (classify l))) (λ cs'. read_lines (suc n) cs' ls) h in
    read_lines-IsService (suc n) mid ls
      (read_line-IsService cs (classify l) v (classify-IsNamed l) (at-eq-ok (suc n) _ e)) f

-- A service that can be launched.
pub record IsReady (c : ServiceConfig) : Type 0 where
  pub service : IsService c
  pub absolute : front c.exec ≡ b'/'

check_execs-IsReady :
    (cs : List ServiceConfig) {cs' : List ServiceConfig}
    → All IsService cs
    → check_execs cs ≡ ok cs'
    → (cs' ≡ cs) × All IsReady cs
unfolding check_execs
check_execs-IsReady [] v h = (sym (ok-injective h), tt)
check_execs-IsReady (c ∷ cs) v h = elim (Bool-cases (is_empty c.exec)) [
  | inl e ↦ cc (rw e at h)
  | inr e ↦ elim (Bool-cases (front c.exec == b'/')) [
    | inr f ↦ cc (rw (e, f) at h)
    | inl f ↦
        let (rest, g, k) = bind-eq-ok (check_execs cs) (λ cs'. ok (c ∷ cs')) (rw (e, f) at h) in
        let (same, ready) = check_execs-IsReady cs v.1 g in
        (
          sym (ok-injective k) ∙ ap (◌∷◌ c) same,
          (record { service = v.0; absolute = ground arith }, ready),
        )
  ]
]

-- Every service of a manifest that `parse_services_file` accepts has a name, an executable given by an
-- absolute path, a health port of at most 65535, and an interval and backoff bounds that are `int`s.
pub parse_services_file-IsReady :
    (file : Option Bytes) (services : List ServiceConfig)
    → parse_services_file file ≡ ok services
    → All IsReady services
unfolding parse_services_file
parse_services_file-IsReady none services h = cc
parse_services_file-IsReady (some text) services h =
    let (cs, e, f) = bind-eq-ok (read_lines 0 [] (lines text)) (λ cs. check_execs (reverse cs)) h in
    let v = All-reverse IsService cs (read_lines-IsService 0 [] (lines text) tt e) in
    let (same, ready) = check_execs-IsReady (reverse cs) v f in rw same ready
