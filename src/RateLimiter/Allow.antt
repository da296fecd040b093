-- ===== src/RateLimiter/Allow.antt =====
-- What one call of `RateLimiter::allow` does to the limiter.
use castle_plus.Prelude.{
  ℕ, ◌≤◌, ◌≡◌, refl, ap, ◌∙◌, inl, inr, Bool, none, some, arith, leb, length, Bool-cases,
  Option-cases,
}
use castle_plus.RateLimiter.Level.{
  level_of, level, IsMap, IsValid, Charges, prune-IsMap, length-prune, level_of-prune, update-IsMap,
  length-update, find-update_self, find-update_ne, find-none-Fresh, spend_lem, update-past,
  prune-past, find-prune-none,
}
use castle_plus.RateLimiter.{
  Bucket, RateLimiter, one, max_buckets, find, spend, prune_locked, make_room, spend_overflow,
  admit_new, spend_own, allow,
}

-- Dropping the buckets that would be full is not seen in the levels.
pub prune_locked-level :
    (l : RateLimiter) (now ip : ℕ)
    → IsMap l.buckets
    → level (prune_locked l now) ip now ≡ level l ip now
unfolding level
prune_locked-level l now ip h = level_of-prune l now ip l.buckets h

prune_locked-IsValid :
    (l : RateLimiter) (now : ℕ) → IsValid now l → IsValid now (prune_locked l now)
prune_locked-IsValid l now v = record {
  is_map = prune-IsMap l now l.buckets v.is_map;
  bounded = omega (arith, length-prune l now l.buckets, v.bounded);
  past = prune-past l now now l.buckets v.past;
  overflow_past = v.overflow_past;
}

-- What making room keeps.
record Keeps (ip now : ℕ) (l l' : RateLimiter) : Type 0 where
  valid : IsValid now l'
  same_rate : l'.rate ≡ l.rate
  same_burst : l'.burst ≡ l.burst
  same_overflow : l'.overflow ≡ l.overflow
  same_level : (j : ℕ) → level l' j now ≡ level l j now
  untracked : find ip l'.buckets ≡ none

make_room-Keeps :
    (l : RateLimiter) (ip now : ℕ)
    → IsValid now l
    → find ip l.buckets ≡ none
    → Keeps ip now l (make_room l now)
unfolding make_room
make_room-Keeps l ip now v h = elim (Bool-cases (leb max_buckets (length l.buckets))) [
  | inl e ↦ rw e (record {
    valid = prune_locked-IsValid l now v;
    same_rate = refl;
    same_burst = refl;
    same_overflow = refl;
    same_level = λ j. prune_locked-level l now j v.is_map;
    untracked = find-prune-none l now ip l.buckets h;
  })
  | inr e ↦ rw e (record {
    valid = v;
    same_rate = refl;
    same_burst = refl;
    same_overflow = refl;
    same_level = λ j. refl;
    untracked = h;
  })
]

spend_overflow-IsValid :
    (l : RateLimiter) (now : ℕ) → IsValid now l → IsValid now (spend_overflow l now).0
unfolding spend_overflow
spend_overflow-IsValid l now v = record {
  is_map = v.is_map;
  bounded = v.bounded;
  past = v.past;
  overflow_past = omega (arith, spend_lem l l.overflow now);
}

admit_new-IsValid :
    (l : RateLimiter) (ip now : ℕ)
    → IsValid now l
    → find ip l.buckets ≡ none
    → IsValid now (admit_new l ip now).0
unfolding admit_new
admit_new-IsValid l ip now v h = elim (Bool-cases (leb max_buckets (length l.buckets))) [
  | inl e ↦ rw e (spend_overflow-IsValid l now v)
  | inr e ↦ rw e (record {
    is_map = (find-none-Fresh ip l.buckets h, v.is_map);
    bounded = ground arith;
    past = (omega arith, v.past);
    overflow_past = v.overflow_past;
  })
]

spend_own-IsValid :
    (l : RateLimiter) (ip : ℕ) (b : Bucket) (now : ℕ)
    → IsValid now l
    → IsValid now (spend_own l ip b now).0
unfolding spend_own
spend_own-IsValid l ip b now v = record {
  is_map = update-IsMap ip (spend l b now).0 l.buckets v.is_map;
  bounded = omega (arith, length-update ip (spend l b now).0 l.buckets, v.bounded);
  past = update-past now ip (spend l b now).0 l.buckets (omega (arith, spend_lem l b now)) v.past;
  overflow_past = v.overflow_past;
}

admit_new-Charges :
    (l : RateLimiter) (ip now : ℕ)
    → one ≤ l.burst
    → IsValid now l
    → find ip l.buckets ≡ none
    → Charges ip now l (admit_new l ip now).0 (admit_new l ip now).1
unfolding admit_new
admit_new-Charges l ip now h v f = elim (Bool-cases (leb max_buckets (length l.buckets))) [
  | inl e ↦ rw e (
      unfold spend_overflow in
      record {
        same_rate = refl;
        same_burst = refl;
        others = λ j n. unfold level in refl;
        charged =
            inr (
              f,
              ground (arith, v.bounded),
              (unfold level in refl),
              (spend_lem l l.overflow now).0,
            );
      })
  | inr e ↦ rw e (record {
    same_rate = refl;
    same_burst = refl;
    others = λ j n. unfold level find in ground arith;
    charged = inl (refl, unfold level in rw f (unfold find in ground arith));
  })
]

spend_own-Charges :
    (l : RateLimiter) (ip : ℕ) (b : Bucket) (now : ℕ)
    → find ip l.buckets ≡ some b
    → Charges ip now l (spend_own l ip b now).0 (spend_own l ip b now).1
unfolding spend_own
spend_own-Charges l ip b now f = record {
  same_rate = refl;
  same_burst = refl;
  others = λ j n.
      unfold level in
      ap (λ o. level_of l o now) (find-update_ne ip j (spend l b now).0 l.buckets n);
  charged = inl (
    refl,
    unfold level in
        rw (f, find-update_self ip (spend l b now).0 b l.buckets f) (spend_lem l b now).0,
  );
}

-- A call keeps the limiter well formed: one bucket for each address, at most `kMaxBuckets` of them,
-- and no instant in the future.
pub allow-IsValid : (l : RateLimiter) (ip now : ℕ) → IsValid now l → IsValid now (allow l ip now).0
unfolding allow
allow-IsValid l ip now v = elim (Option-cases (find ip l.buckets)) [
  | inl e ↦
      let k = make_room-Keeps l ip now v e in
      rw (e, allow) (admit_new-IsValid (make_room l now) ip now k.valid k.untracked)
  | inr (b, e) ↦ rw (e, allow) (spend_own-IsValid l ip b now v)
]

Charges-after :
    (ip now : ℕ) (l m l' : RateLimiter) (g : Bool)
    → Keeps ip now l m
    → Charges ip now m l' g
    → find ip l.buckets ≡ none
    → Charges ip now l l' g
Charges-after ip now l m l' g k c e = record {
  same_rate = c.same_rate ∙ k.same_rate;
  same_burst = c.same_burst ∙ k.same_burst;
  others = λ j n. c.others j n ∙ k.same_level j;
  charged = elim c.charged [
    | inl (o, p) ↦ inl (o ∙ k.same_overflow, p ∙ k.same_level ip)
    | inr (_, full, p, o) ↦
        inr (e, full, p ∙ k.same_level ip, rw (k.same_rate, k.same_burst, k.same_overflow) at o)
  ];
}

-- A call changes no level but the caller's, and charges the caller's own bucket one token if it grants
-- and none if not; only where the caller has no bucket and the table is still full after pruning
-- it charges the overflow bucket so.
pub allow-Charges :
    (l : RateLimiter) (ip now : ℕ)
    → one ≤ l.burst
    → IsValid now l
    → Charges ip now l (allow l ip now).0 (allow l ip now).1
unfolding allow
allow-Charges l ip now h v = elim (Option-cases (find ip l.buckets)) [
  | inl e ↦
      let k = make_room-Keeps l ip now v e in
      rw (e, allow)
        (Charges-after ip now l (make_room l now) _ _ k
          (admit_new-Charges (make_room l now) ip now (rw k.same_burst h) k.valid k.untracked) e)
  | inr (b, e) ↦ rw (e, allow) (spend_own-Charges l ip b now e)
]
