-- ===== src/Http/Status.antt =====
-- The buffer of `send_response`, and the probes of `render_health`.
use castle_plus.Prelude.{
  ◌+◌, ◌^◌, ◌<◌, ◌≤◌, ◌≡◌, refl, subst, ◌∙◌, Bool, true, false, ◌&&◌, List, [], ◌∷◌, ◌++◌, Bytes,
  codes, ◌==◌, if◌then◌else◌, length, equal, equal_iff, ==_iff, take_all, length-append, Bool-cases,
  inl, inr, All, arith, elim_case,
}
use castle_plus.Prelude.Decimal.{decimal, length-decimal}
use castle_plus.Router.{Backend, Route}
use castle_plus.Http.Head.{Reply, line_end}
use castle_plus.Http.Reply.{full_head, response_head, is_probed, health_loop, render_health}

length-full_head :
    (r : Reply)
    → length (full_head r)
      ≡ 102 + (length (decimal r.code) + (length r.status + length (decimal (length r.body))))
unfolding full_head
length-full_head r =
    let a = decimal (length r.body) in
    let d : Bytes =
      line_end
      ++ (codes "Cache-Control: no-store"
          ++ (line_end ++ (codes "Connection: close" ++ (line_end ++ line_end)))) in
    let c : Bytes =
      line_end
      ++ (codes "Content-Type: text/plain"
          ++ (line_end ++ (codes "Content-Length: " ++ (a ++ d)))) in
    omega (
      arith,
      length-append (decimal r.code) (b' ' ∷ (r.status ++ c)),
      length-append r.status c,
      length-append a d,
    )

-- The head of a reply with a code below 1000, a status of at most 66 bytes and a body of less than 2 ^ 64
-- bytes is not cut by the buffer of 192 bytes.
response_head_whole :
    (r : Reply)
    → r.code < 1000
    → length r.status ≤ 66
    → length r.body < 2 ^ 64
    → response_head r ≡ full_head r
unfolding response_head
response_head_whole r c s b = take_all 191 (full_head r) (
    omega (
      arith,
      length-full_head r,
      length-decimal 2 r.code c,
      length-decimal 19 (length r.body) (omega arith),
    ))

-- Whether every backend of the table answers.
abbrev pub all_answer : (Backend → Bool) → List Route → Bool
all_answer probe [] = true
all_answer probe (r ∷ rs) = probe r.backend && all_answer probe rs

same_backend : (c b : Backend) → (equal c.host b.host && c.port == b.port) ≡ true → c ≡ b
same_backend c b h =
    let (e, p) = both (equal c.host b.host) (c.port == b.port) h in
    let f = (equal_iff c.host b.host).0 e in let q = (==_iff c.port b.port).0 p in cc
  where
    both : (x y : Bool) → x && y ≡ true → (x ≡ true) × (y ≡ true)
    both x y k = ground arith

probed_answers :
    (probe : Backend → Bool) (b : Backend) (cs : List Backend)
    → All (λ c. probe c ≡ true) cs
    → is_probed b cs ≡ true
    → probe b ≡ true
unfolding is_probed
probed_answers probe b [] h e = absurd cc e
probed_answers probe b (c ∷ cs) h e = elim (Bool-cases (equal c.host b.host && c.port == b.port)) [
  | inl same ↦ subst (λ (x : Backend). probe x ≡ true) (same_backend c b same) h.0
  | inr other ↦ probed_answers probe b cs h.1 (rest other e)
]
  where
    rest :
        (equal c.host b.host && c.port == b.port) ≡ false
        → (if equal c.host b.host && c.port == b.port then true else is_probed b cs) ≡ true
        → is_probed b cs ≡ true
    rest o k = subst (λ t. (if t then true else is_probed b cs) ≡ true) o k

absorbs :
    (probe : Backend → Bool) (probed : List Backend) (b : Backend) (u v : Bool)
    → (u ≡ true → All (λ c. probe c ≡ true) probed)
    → is_probed b probed ≡ true
    → (u && v) ≡ (u && (probe b && v))
absorbs probe probed b true v h e = let p = probed_answers probe b probed (h refl) e in ground arith
absorbs probe probed b false v h e = refl

extends :
    (probe : Backend → Bool) (probed : List Backend) (b : Backend) (u : Bool)
    → (u ≡ true → All (λ c. probe c ≡ true) probed)
    → (u && probe b) ≡ true
    → All (λ c. probe c ≡ true) (b ∷ probed)
extends probe probed b true h e = (e, h refl)
extends probe probed b false h e = absurd cc e

and_assoc : (u v w : Bool) → ((u && v) && w) ≡ (u && (v && w))
and_assoc true v w = refl
and_assoc false v w = refl

health_loop_all :
    (probe : Backend → Bool) (probed : List Backend) (out : Bytes) (all_up : Bool) (rs : List Route)
    → (all_up ≡ true → All (λ c. probe c ≡ true) probed)
    → (health_loop probe probed out all_up rs).1 ≡ (all_up && all_answer probe rs)
unfolding health_loop
health_loop_all probe probed out all_up [] h = ground arith
health_loop_all probe probed out all_up (r ∷ rs) h =
    let b = r.backend in
    elim_case (λ (x : Bytes × Bool). x.1 ≡ (all_up && (probe b && all_answer probe rs)))
      (is_probed b probed)
      (λ e.
        health_loop_all probe probed out all_up rs h
        ∙ absorbs probe probed b all_up (all_answer probe rs) h e)
      (λ e.
        health_loop_all probe (b ∷ probed) _ (all_up && probe b) rs
          (extends probe probed b all_up h)
        ∙ and_assoc all_up (probe b) (all_answer probe rs))

-- Probing each distinct backend once finds what probing the backend of every route would find: whether all of
-- them are up.
render_health_all :
    (probe : Backend → Bool) (routes : List Route)
    → (render_health probe routes).1 ≡ all_answer probe routes
unfolding render_health
render_health_all probe routes =
    health_loop_all probe [] (codes "castle: up\n") true routes (λ _. tt)
