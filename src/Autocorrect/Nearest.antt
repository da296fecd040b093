-- ===== src/Autocorrect/Nearest.antt =====
-- What the filter answers.
use mathlib.Core.List.Memᴰ
use mathlib.Core.List.{Memᴰ}
use castle_plus.Prelude.{
  ℕ, ◌≤◌, ◌<◌, ◌≡◌, refl, sym, ap, ◌∙◌, subst, true, false, ◌&&◌, ◌||◌, List, [], ◌∷◌, Option, none,
  some, arith, ltb, ◌==◌, length, to_lower, Bytes, map, All, if_case, Option-cases, inl, inr, ◌⊎◌,
  some_eq,
}
use castle_plus.Autocorrect.{
  Candidate, make_filter, pool, fix_helper, challenge, pick, fix, size_max,
}
use castle_plus.Autocorrect.Pool.{pool_holds, pool_back, fix_helper-some}
use castle_plus.Autocorrect.Walk.{total_distance_zero, total_distance_self, AllLetters}

-- A candidate is nearer than a word of length `len` at distance `d`, or as near and not shorter.
abbrev pub NotWorse : Candidate → ℕ → ℕ → Type 0
NotWorse b d len = (b.distance < d) ⊎ ((b.distance ≡ d) × (len ≤ length b.word))

NotWorse-trans :
    (a b : Candidate) (d len : ℕ)
    → NotWorse a b.distance (length b.word)
    → NotWorse b d len
    → NotWorse a d len
NotWorse-trans a b d len (inl h) (inl k) = inl (omega arith)
NotWorse-trans a b d len (inl h) (inr k) = inl (omega arith)
NotWorse-trans a b d len (inr h) (inl k) = inl (omega arith)
NotWorse-trans a b d len (inr h) (inr k) = inr (omega arith)

-- One step of the contest.
record Meets (best : Candidate) (w : Bytes) (o : Option ℕ) (b : Candidate) : Type 0 where
  source : (b ≡ best) ⊎ ((b.word ≡ w) × (o ≡ some b.distance))
  from : NotWorse b best.distance (length best.word)
  beaten : (d : ℕ) → o ≡ some d → NotWorse b d (length w)

challenge-Meets :
    (best : Candidate) (w : Bytes) (o : Option ℕ) → Meets best w o (challenge best w o)
unfolding challenge
challenge-Meets best w none = record {
  source = inl refl;
  from = inr (refl, omega arith);
  beaten = λ d e. cc;
}
challenge-Meets best w (some c) =
    if_case (Meets best w (some c))
      (ltb c best.distance || (c == best.distance && ltb (length best.word) (length w)))
      (λ h. record {
        source = inr (refl, refl);
        from = wins h;
        beaten = λ d e. inr (some_eq e, omega arith);
      })
      (λ h. record {
        source = inl refl;
        from = inr (refl, omega arith);
        beaten = λ d e. let f = some_eq e in loses d f h;
      })
  where
    wins :
        (ltb c best.distance || (c == best.distance && ltb (length best.word) (length w))) ≡ true
        → (c < best.distance) ⊎ ((c ≡ best.distance) × (length best.word ≤ length w))
    wins h = ground arith

    loses :
        (d : ℕ)
        → c ≡ d
        → (ltb c best.distance || (c == best.distance && ltb (length best.word) (length w))) ≡ false
        → NotWorse best d (length w)
    loses d e h = ground arith

record Picked (k : ℕ) (str : Bytes) (ws : List Bytes) (best b : Candidate) : Type 0 where
  source : (b ≡ best) ⊎ (Memᴰ b.word ws × (fix_helper k str b.word ≡ some b.distance))
  from : NotWorse b best.distance (length best.word)
  beaten : (w : Bytes) → Memᴰ w ws → (d : ℕ) → fix_helper k str w ≡ some d → NotWorse b d (length w)

pick-Picked :
    (k : ℕ) (str : Bytes) (ws : List Bytes) (best : Candidate)
    → Picked k str ws best (pick k str best ws)
unfolding pick
pick-Picked k str [] best = record {
  source = inl refl;
  from = inr (refl, omega arith);
  beaten = λ w m d e. absurd (Memᴰ.not-nil m);
}
pick-Picked k str (w ∷ ws) best =
    let m = challenge-Meets best w (fix_helper k str w) in
    let next = challenge best w (fix_helper k str w) in
    let p = pick-Picked k str ws next in
    let b = pick k str next ws in
    record {
      source = elim (p.source) [
        | inl e ↦ elim (m.source) [
          | inl f ↦ inl (e ∙ f)
          | inr (f, g) ↦ inr (
            Memᴰ.head (ap (λ (x : Candidate). x.word) e ∙ f),
            ap (fix_helper k str) (ap (λ (x : Candidate). x.word) e ∙ f)
                ∙ g
                ∙ ap (λ (x : Candidate). some x.distance) (sym e),
          )
        ]
        | inr (n, e) ↦ inr (Memᴰ.tail n, e)
      ];
      from = NotWorse-trans b next best.distance (length best.word) p.from m.from;
      beaten = λ u n d e. elim (Memᴰ.cases_cons n) [
        | inl f ↦ NotWorse-trans b next d (length u) p.from (
            subst (λ x. NotWorse next d (length x)) (sym f)
              (m.beaten d (ap (fix_helper k str) (sym f) ∙ e)))
        | inr n' ↦ p.beaten u n' d e
      ];
    }

-- The word `r`, at distance `c`, is the best correction of `str` in a list.
pub record IsNearest (k : ℕ) (words : List Bytes) (str r : Bytes) (c : ℕ) : Type 0 where
  pub listed : Memᴰ r words
  pub scored : fix_helper k str r ≡ some c
  pub beaten :
      (w : Bytes)
      → Memᴰ w words
      → (d : ℕ) → fix_helper k str w ≡ some d
      → (c < d) ⊎ ((c ≡ d) × (length w ≤ length r))

unbeaten :
    (k d len : ℕ) (b : Candidate)
    → k < size_max
    → d ≤ k
    → b.distance ≡ size_max
    → NotWorse b d len
    → ⊥
unbeaten k d len b h l e (inl n) = absurd (omega (arith, e, h, l, n))
unbeaten k d len b h l e (inr n) = absurd (omega (arith, e, h, l, n.0))

-- `fix` answers the word of its list that is nearest to its input, the longest of these where several
-- are, among all words of the list that are within the budget; if none is, it answers its input. The
-- budget is less than `SIZE_MAX`.
pub fix-IsNearest :
    (k : ℕ) (words : List Bytes) (str : Bytes)
    → k < size_max
    → ((fix (make_filter k words) str ≡ str)
        × ((w : Bytes) → Memᴰ w words → fix_helper k str w ≡ none))
      ⊎ ((c : ℕ) × IsNearest k words str (fix (make_filter k words) str) c)
unfolding fix make_filter
fix-IsNearest k words str h =
    let f = make_filter k words in
    let start : Candidate = record { word = str; distance = size_max } in
    let p = pick-Picked k str (pool f (length str)) start in
    let b = pick k str start (pool f (length str)) in
    let best : (w : Bytes)
        → Memᴰ w words
        → (d : ℕ) → fix_helper k str w ≡ some d
        → NotWorse b d (length w) =
      λ w m d e. p.beaten w (pool_holds k d words str w m e) d e in
    elim (p.source) [
      | inl e ↦ inl (
        ap (λ (x : Candidate). x.word) e,
        λ w m. elim (Option-cases (fix_helper k str w)) [
          | inl n ↦ n
          | inr (d, s) ↦ absurd (
              unbeaten k d (length w) b h (fix_helper-some k d str w s).0
                (ap (λ (x : Candidate). x.distance) e) (best w m d s))
        ],
      )
      | inr (m, e) ↦ inr (
        b.distance,
        record { listed = pool_back k words (length str) b.word m; scored = e; beaten = best },
      )
    ]

lowered :
    (words : List Bytes) (w : Bytes)
    → All (λ x. map to_lower x ≡ x) words
    → Memᴰ w words
    → map to_lower w ≡ w
lowered [] w v m = absurd (Memᴰ.not-nil m)
lowered (x ∷ words) w v m = elim (Memᴰ.cases_cons m) [
  | inl e ↦ ap (map to_lower) e ∙ v.0 ∙ sym e
  | inr n ↦ lowered words w v.1 n
]

fix_helper_self : (k : ℕ) (w : Bytes) → AllLetters w → fix_helper k w w ≡ some 0
unfolding fix_helper
fix_helper_self k w v = rw (total_distance_self w v) (ground arith)

-- A word of the list that is made of letters is never changed, where the list is in lower case.
fix_idle :
    (k : ℕ) (words : List Bytes) (str : Bytes)
    → k < size_max
    → All (λ x. map to_lower x ≡ x) words
    → AllLetters str
    → Memᴰ str words
    → fix (make_filter k words) str ≡ str
fix_idle k words str h v l m = elim (fix-IsNearest k words str h) [
  | inl (e, _) ↦ e
  | inr (c, n) ↦
      let r = fix (make_filter k words) str in
      let z : c ≡ 0 = elim (n.beaten str m 0 (fix_helper_self k str l)) [
        | inl a ↦ absurd (omega (arith, a))
        | inr a ↦ a.0
      ] in
      let t = total_distance_zero str r (sym (fix_helper-some k c str r n.scored).1 ∙ z) in
      sym (lowered words r v n.listed) ∙ sym t ∙ lowered words str v m
]
