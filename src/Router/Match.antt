-- ===== src/Router/Match.antt =====
-- Which route `Router::match` picks.
use castle_plus.Prelude.{
  ℕ, ◌<◌, ◌≡◌, ◌≢◌, refl, sym, ap, ◌⊎◌, inl, inr, true, false, ◌&&◌, List, [], ◌∷◌, ◌++◌, none,
  some, arith, Bytes, Bool-cases, length, is_empty, split_first, All, to_lower,
}
use castle_plus.Ini.{lower}
use castle_plus.Ini.Laws.{lower_idem}
use castle_plus.Router.{Route, normalize_host, matches, beats, best_route, match}

-- Longer path prefixes are more specific; at equal length, a host beats no host.
abbrev pub IsMoreSpecific : Route → Route → Type 0
IsMoreSpecific r q =
    (length q.path_prefix < length r.path_prefix)
    ⊎ ((length q.path_prefix ≡ length r.path_prefix) × (q.host ≡ []) × (r.host ≢ []))

beats-IsMoreSpecific : (r q : Route) → beats r q ≡ true → IsMoreSpecific r q
unfolding beats is_empty
beats-IsMoreSpecific r q h = ground arith

not-IsMoreSpecific : (r q : Route) → beats r q ≡ false → ¬ IsMoreSpecific r q
unfolding beats is_empty
not-IsMoreSpecific r q h (inl p) = ground arith
not-IsMoreSpecific r q h (inr (p, e, n)) = ground arith

beats_trans : (r q b : Route) → beats r b ≡ true → beats q b ≡ false → beats r q ≡ true
unfolding beats is_empty
beats_trans r q b h n = ground arith

beats_chain : (q r b : Route) → beats q r ≡ true → beats r b ≡ true → beats q b ≡ true
unfolding beats is_empty
beats_chain q r b h k = ground arith

-- `r` is the first of the most specific routes that apply.
pub record Best (h path : Bytes) (routes : List Route) (r : Route) : Type 0 where
  pub before : List Route
  pub after : List Route
  pub splits : routes ≡ before ++ (r ∷ after)
  pub applies : matches h path r ≡ true
  pub earlier : All (λ q. matches h path q ≡ true → IsMoreSpecific r q) before
  pub later : All (λ q. matches h path q ≡ true → ¬ IsMoreSpecific q r) after

-- No route of the rest replaces `b`.
abbrev Stays : Bytes → Bytes → Route → List Route → Type 0
Stays h path b = All (λ q. matches h path q ≡ true → ¬ IsMoreSpecific q b)

-- The loop from a best route `b`: it stays, or a later route beats it.
abbrev Outcome : Bytes → Bytes → Route → List Route → Type 0
Outcome h path b rs =
    ((best_route h path (some b) rs ≡ some b) × Stays h path b rs)
    ⊎ ((r : Route) × (best_route h path (some b) rs ≡ some r)
        × Best h path rs r
        × (beats r b ≡ true))

Best-here :
    (h path : Bytes) (r : Route) (rs : List Route)
    → matches h path r ≡ true
    → Stays h path r rs
    → Best h path (r ∷ rs) r
Best-here h path r rs m s = record {
  before = [];
  after = rs;
  splits = refl;
  applies = m;
  earlier = tt;
  later = s;
}

Best-there :
    (h path : Bytes) (q : Route) {rs : List Route} {r : Route}
    → Best h path rs r
    → (matches h path q ≡ true → beats r q ≡ true)
    → Best h path (q ∷ rs) r
Best-there h path q {r = r} b w = record {
  before = q ∷ b.before;
  after = b.after;
  splits = ap (◌∷◌ q) b.splits;
  applies = b.applies;
  earlier = ((λ m. beats-IsMoreSpecific r q (w m)), b.earlier);
  later = b.later;
}

best_route-Outcome : (h path : Bytes) (b : Route) (rs : List Route) → Outcome h path b rs
unfolding best_route
best_route-Outcome h path b [] = inl (refl, tt)
best_route-Outcome h path b (r ∷ rs) = elim (Bool-cases (matches h path r && beats r b)) [
  | inl e ↦ elim (best_route-Outcome h path r rs) [
    | inl (f, s) ↦ inr (r, rw e f, Best-here h path r rs (ground arith) s, ground arith)
    | inr (q, f, t, w) ↦
        inr (q, rw e f, Best-there h path r t (λ _. w), beats_chain q r b w (ground arith))
  ]
  | inr e ↦ elim (best_route-Outcome h path b rs) [
    | inl (f, s) ↦ inl (rw e f, ((λ m. not-IsMoreSpecific r b (ground arith)), s))
    | inr (q, f, t, w) ↦
        inr (q, rw e f, Best-there h path r t (λ m. beats_trans q r b w (ground arith)), w)
  ]
]

best_route-none :
    (h path : Bytes) (rs : List Route)
    → ((best_route h path none rs ≡ none) × All (λ q. matches h path q ≡ false) rs)
      ⊎ ((r : Route) × (best_route h path none rs ≡ some r) × Best h path rs r)
unfolding best_route
best_route-none h path [] = inl (refl, tt)
best_route-none h path (r ∷ rs) = elim (Bool-cases (matches h path r)) [
  | inl e ↦ elim (best_route-Outcome h path r rs) [
    | inl (f, s) ↦ inr (r, rw e f, Best-here h path r rs e s)
    | inr (q, f, t, w) ↦ inr (q, rw e f, Best-there h path r t (λ _. w))
  ]
  | inr e ↦ elim (best_route-none h path rs) [
    | inl (f, s) ↦ inl (rw e f, (e, s))
    | inr (q, f, t) ↦ inr (q, rw e f, Best-there h path r t (λ m. cc))
  ]
]

-- `Router::match` gives no backend exactly when no route applies to the normalised host and the
-- path; otherwise it gives the backend of the first most specific of the routes that apply.
pub match-Best :
    (routes : List Route) (host path : Bytes)
    → ((match routes host path ≡ none)
        × All (λ q. matches (normalize_host host) path q ≡ false) routes)
      ⊎ ((r : Route) × (match routes host path ≡ some r.backend)
          × Best (normalize_host host) path routes r)
unfolding match
match-Best routes host path = elim (best_route-none (normalize_host host) path routes) [
  | inl (e, s) ↦ inl (rw (e, match), s)
  | inr (r, e, b) ↦ inr (r, rw (e, match), b)
]

split_first-append :
    (k : ℕ) (a b : Bytes) → split_first k a ≡ none → split_first k (a ++ (k ∷ b)) ≡ some (a, b)
unfolding split_first
split_first-append k [] b h = ground arith
split_first-append k (c ∷ a) b h = ground (arith, split_first-append k a b)

split_first-lower : (a : Bytes) → split_first b':' a ≡ none → split_first b':' (lower a) ≡ none
unfolding split_first lower to_lower
split_first-lower [] h = refl
split_first-lower (c ∷ a) h = ground (arith, split_first-lower a)

normalize_host_port :
    (host port : Bytes)
    → split_first b':' host ≡ none
    → normalize_host (host ++ (b':' ∷ port)) ≡ normalize_host (lower host)
unfolding normalize_host
normalize_host_port host port h =
    rw (split_first-append b':' host port h, normalize_host)
      (rw (split_first-lower host h, normalize_host) (sym (lower_idem host)))

-- A port behind the host, and the case of the host, make no difference.
match_normalizes :
    (routes : List Route) (host port path : Bytes)
    → split_first b':' host ≡ none
    → match routes (host ++ (b':' ∷ port)) path ≡ match routes (lower host) path
unfolding match
match_normalizes routes host port path h = rw (normalize_host_port host port h, match)
