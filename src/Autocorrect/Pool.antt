-- ===== src/Autocorrect/Pool.antt =====
-- The map of the constructor, and the candidates that `fix` takes from it.
use mathlib.Core.List.Memᴰ
use mathlib.Core.List.{Memᴰ}
use castle_plus.Prelude.{
  ℕ, zero, suc, ◌+◌, ◌-◌, ◌≤◌, ◌<◌, ◌≡◌, refl, sym, subst, List, [], ◌∷◌, ◌++◌, some, arith, ◌==◌,
  length, Bytes, if_case, inl, inr, ◌⊎◌, ℕ_discrete,
}
use castle_plus.Autocorrect.{
  Dictionary, push_word, fill, make_filter, gather, pool, fix_helper, total_distance,
}
use castle_plus.Autocorrect.Walk.{total_distance_gap}

mem_either : {a : Bytes} (xs ys : List Bytes) → Memᴰ a (xs ++ ys) → Memᴰ a xs ⊎ Memᴰ a ys
mem_either [] ys m = inr m
mem_either (x ∷ xs) ys m = elim (Memᴰ.cases_cons m) [
  | inl e ↦ inl (Memᴰ.head e)
  | inr n ↦ elim (mem_either xs ys n) [ inl l ↦ inl (Memᴰ.tail l) | inr r ↦ inr r ]
]

push_word-keeps :
    {a : Bytes} (w : Bytes) (d : Dictionary) (len : ℕ) → Memᴰ a (d len) → Memᴰ a (push_word w d len)
unfolding push_word
push_word-keeps {a = a} w d len m =
    if_case (Memᴰ a) (length w == len) (λ _. Memᴰ.append_left (w ∷ []) m) (λ _. m)

push_word-own : (w : Bytes) (d : Dictionary) → Memᴰ w (push_word w d (length w))
unfolding push_word
push_word-own w d =
    if_case (Memᴰ w) (length w == length w) (λ _. Memᴰ.append_right (d (length w)) (Memᴰ.head refl))
      (λ h. absurd (ground arith))

push_word_back :
    {a : Bytes} (w : Bytes) (d : Dictionary) (len : ℕ)
    → Memᴰ a (push_word w d len)
    → (a ≡ w) ⊎ Memᴰ a (d len)
unfolding push_word
push_word_back {a = a} w d len =
    if_case (λ l. Memᴰ a l → (a ≡ w) ⊎ Memᴰ a (d len)) (length w == len)
      (λ _ m. elim (mem_either (d len) (w ∷ []) m) [
        | inl n ↦ inr n
        | inr n ↦ elim (Memᴰ.cases_cons n) [ inl e ↦ inl e | inr o ↦ absurd (Memᴰ.not-nil o) ]
      ])
      (λ _ m. inr m)

fill-keeps :
    {a : Bytes} (ws : List Bytes) (d : Dictionary) (len : ℕ)
    → Memᴰ a (d len)
    → Memᴰ a (fill ws d len)
unfolding fill
fill-keeps [] d len m = m
fill-keeps (w ∷ ws) d len m = fill-keeps ws (push_word w d) len (push_word-keeps w d len m)

fill-holds :
    {a : Bytes} (ws : List Bytes) (d : Dictionary) → Memᴰ a ws → Memᴰ a (fill ws d (length a))
unfolding fill
fill-holds [] d m = absurd (Memᴰ.not-nil m)
fill-holds {a = a} (w ∷ ws) d m = elim (Memᴰ.cases_cons m) [
  | inl e ↦
      fill-keeps ws (push_word w d) (length a)
        (subst (λ x. Memᴰ x (push_word w d (length x))) (sym e) (push_word-own w d))
  | inr n ↦ fill-holds ws (push_word w d) n
]

fill_back :
    {a : Bytes} (ws : List Bytes) (d : Dictionary) (len : ℕ)
    → Memᴰ a (fill ws d len)
    → Memᴰ a ws ⊎ Memᴰ a (d len)
unfolding fill
fill_back [] d len m = inr m
fill_back (w ∷ ws) d len m = elim (fill_back ws (push_word w d) len m) [
  | inl n ↦ inl (Memᴰ.tail n)
  | inr n ↦ elim (push_word_back w d len n) [ inl e ↦ inl (Memᴰ.head e) | inr o ↦ inr o ]
]

gather-holds :
    {a : Bytes} (d : Dictionary) (len rounds l : ℕ)
    → len ≤ l
    → l < len + rounds
    → Memᴰ a (d l)
    → Memᴰ a (gather d len rounds)
unfolding gather
gather-holds d len zero l h k m = absurd (omega arith)
gather-holds {a = a} d len (suc rounds) l h k m = elim (ℕ_discrete len l) [
  | yes e ↦ Memᴰ.append_left (gather d (suc len) rounds) (subst (λ x. Memᴰ a (d x)) (sym e) m)
  | no n ↦
      Memᴰ.append_right (d len)
        (gather-holds d (suc len) rounds l (ground (arith, n)) (omega arith) m)
]

gather_back :
    {a : Bytes} (d : Dictionary) (len rounds : ℕ)
    → Memᴰ a (gather d len rounds)
    → (l : ℕ) × Memᴰ a (d l)
unfolding gather
gather_back d len zero m = absurd (Memᴰ.not-nil m)
gather_back d len (suc rounds) m = elim (mem_either (d len) (gather d (suc len) rounds) m) [
  | inl n ↦ (len, n)
  | inr n ↦ gather_back d (suc len) rounds n
]

pub fix_helper-some :
    (k d : ℕ) (str w : Bytes) → fix_helper k str w ≡ some d → (d ≤ k) × (d ≡ total_distance str w)
unfolding fix_helper
fix_helper-some k d str w h = ground arith

-- Every word of the list that is within the budget is a candidate.
pub pool_holds :
    (k d : ℕ) (words : List Bytes) (str w : Bytes)
    → Memᴰ w words
    → fix_helper k str w ≡ some d
    → Memᴰ w (pool (make_filter k words) (length str))
unfolding pool make_filter
pool_holds k d words str w m h =
    let s = fix_helper-some k d str w h in
    let g = total_distance_gap str w in
    gather-holds (fill words (λ len. [])) (length str - k) (suc (length str + k) - (length str - k))
      (length w) (omega (arith, s, g)) (omega (arith, s, g)) (fill-holds words (λ len. []) m)

-- Every candidate is a word of the list.
pub pool_back :
    (k : ℕ) (words : List Bytes) (len : ℕ) (w : Bytes)
    → Memᴰ w (pool (make_filter k words) len)
    → Memᴰ w words
unfolding pool make_filter
pool_back k words len w m =
    let (l, n) = gather_back (fill words (λ len. [])) _ _ m in
    elim (fill_back words (λ len. []) l n) [ inl o ↦ o | inr o ↦ absurd (Memᴰ.not-nil o) ]
