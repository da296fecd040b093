-- ===== src/Proxy/Pace.antt =====
-- The back-pressure between the two ends.
use mathlib.Core.Bool.{true≢false}
use castle_plus.Prelude.{
  ℕ, ◌<◌, ◌≤◌, ◌≡◌, ◌≢◌, refl, sym, ap, ◌∙◌, Bool, true, false, ◌&&◌, ◌||◌, [], ◌++◌, Bytes, ltb,
  length, drop, drop-nil, length-append, length-drop, arith, ltb→lt, lt→ltb, inl, inr, ◌⊎◌,
}
use castle_plus.Proxy.State.{State, reading_head, streaming, closing, high, low}
use castle_plus.Proxy.Steps.{Core, part_of, Step}
use castle_plus.Proxy.Persist.{past_head, closing≢reading_head}
use castle_plus.Proxy.Invariant.{Linked}

-- Both ends agree on whether the download is held; a held upload is one whose buffer has passed the high
-- mark and is not below the low one, so that its flush will release it.
pub record IsPaced (state : State)
    (backend client backend_paused back_paused read_paused high_water_hit : Bool) (queued : Bytes)
    : Type 0 where
  pub synced : backend ≡ true → backend_paused ≡ back_paused
  pub upload : client ≡ true → read_paused ≡ true → high_water_hit ≡ true
  pub marked : high < length queued → high_water_hit ≡ true
  pub floor : high_water_hit ≡ true → low ≤ length queued
  pub blank :
      state ≡ reading_head → (backend_paused ≡ false) × (read_paused ≡ false) × (queued ≡ [])

abbrev pub Paced : Core → Type 0
Paced c =
    IsPaced c.state c.backend c.client c.backend_paused c.back_paused c.read_paused c.high_water_hit
      c.queued

undrained : (b : Bool) (q : Bytes) → (b && ltb (length q) low) ≡ false → b ≡ true → low ≤ length q
undrained true q h e = ground arith
undrained false q h e = cc

drained_below : (b : Bool) (q : Bytes) → (b && ltb (length q) low) ≡ true → length q < low
drained_below true q h = ground arith
drained_below false q h = cc

drop_below : (n off : ℕ) (q : Bytes) → n < length (drop off q) → n < length q
drop_below n off q h = omega (arith, length-drop off q)

raised : (b : Bool) (n : ℕ) → high < n → (b || ltb high n) ≡ true
raised true n h = refl
raised false n h = lt→ltb high n h

kept_raised : (b x : Bool) → b ≡ true → (b || x) ≡ true
kept_raised b x e = cc

raised_floor :
    (b : Bool) (q text : Bytes)
    → (b ≡ true → low ≤ length q)
    → (b || ltb high (length (q ++ text))) ≡ true
    → low ≤ length (q ++ text)
raised_floor true q text h e = omega (arith, h refl, length-append q text)
raised_floor false q text h e = omega (arith, ltb→lt high (length (q ++ text)) e)

Paced-past :
    (c : Core) (s : State)
    → s ≢ reading_head
    → Paced c
    → IsPaced s c.backend c.client c.backend_paused c.back_paused c.read_paused c.high_water_hit
        c.queued
Paced-past c s n h = record {
  synced = h.synced;
  upload = h.upload;
  marked = h.marked;
  floor = h.floor;
  blank = λ k. absurd (n k);
}

Paced-unlinked :
    (c : Core) (s : State)
    → (s ≡ reading_head → c.state ≡ reading_head)
    → Paced c
    → IsPaced s false false c.backend_paused c.back_paused c.read_paused c.high_water_hit c.queued
Paced-unlinked c s n h = record {
  synced = λ k. cc;
  upload = λ k. cc;
  marked = h.marked;
  floor = h.floor;
  blank = λ k. h.blank (n k);
}

dropped_blank :
    (c : Core) (off : ℕ)
    → Paced c
    → c.state ≡ reading_head
    → (c.backend_paused ≡ false) × (c.read_paused ≡ false) × (drop off c.queued ≡ [])
dropped_blank c off h k = let (a, b, d) = h.blank k in (a, b, ap (drop off) d ∙ drop-nil off)

not_above : (n : ℕ) → n < low → high < n → ⊥
not_above n h k = absurd (omega arith)

pub Step-Paced : {c d : Core} → Step c d → Linked c → Paced c → Paced d
Step-Paced (Step.read c n k) l h = h
Step-Paced (Step.recv c n k) l h = h
Step-Paced (Step.send c k) l h = h
Step-Paced (Step.close_alone c e) l h = h
Step-Paced (Step.close_linked c e) l h = Paced-unlinked c c.state (λ k. k) h
Step-Paced (Step.reply c text e) l h = Paced-past c closing closing≢reading_head h
Step-Paced (Step.deliver c text e) l h = h
Step-Paced (Step.hold c e k) l h = record {
  synced = λ _. refl;
  upload = h.upload;
  marked = h.marked;
  floor = h.floor;
  blank = λ s. absurd (l.begun e s);
}
Step-Paced (Step.unhold c e) l h = record {
  synced = λ _. refl;
  upload = h.upload;
  marked = h.marked;
  floor = h.floor;
  blank = λ s. absurd (l.begun e s);
}
Step-Paced (Step.finish c e) l h = Paced-unlinked c closing (λ k. absurd (closing≢reading_head k)) h
Step-Paced (Step.unlink c off e) l h = Paced-unlinked c c.state (λ k. k) h
Step-Paced (Step.lose c off e) l h = h
Step-Paced (Step.write c off e) l h = record {
  synced = h.synced;
  upload = h.upload;
  marked = λ k. h.marked (drop_below high off c.queued k);
  floor = undrained c.high_water_hit (drop off c.queued) e;
  blank = dropped_blank c off h;
}
Step-Paced (Step.write_release c off e k) l h = record {
  synced = h.synced;
  upload = λ a r. absurd (held a r k);
  marked = λ m. absurd (
      not_above (length (drop off c.queued)) (drained_below c.high_water_hit (drop off c.queued) e)
        m);
  floor = λ m. cc;
  blank = dropped_blank c off h;
}
  where
    held :
        c.client ≡ true
        → c.read_paused ≡ true
        → (c.client ≡ false) ⊎ ((c.closed ≡ true) ⊎ (c.read_paused ≡ false))
        → ⊥
    held a r (inl b) = true≢false (sym a ∙ b)
    held a r (inr (inl b)) = true≢false (sym a ∙ sym l.agree ∙ l.shut b)
    held a r (inr (inr b)) = true≢false (sym r ∙ b)
Step-Paced (Step.write_resume c off e) l h = record {
  synced = h.synced;
  upload = λ _ k. cc;
  marked = λ m. absurd (
      not_above (length (drop off c.queued)) (drained_below c.high_water_hit (drop off c.queued) e)
        m);
  floor = λ m. cc;
  blank = λ s. let (a, b, d) = dropped_blank c off h s in (a, refl, d);
}
Step-Paced (Step.deliver_late c text e f) l h = h
Step-Paced (Step.take_head c bytes e) l h = h
Step-Paced (Step.upload c bytes s e) l h = record {
  synced = h.synced;
  upload = λ a b. kept_raised c.high_water_hit _ (h.upload a b);
  marked = λ m. raised c.high_water_hit (length (c.queued ++ part_of c.remaining bytes)) m;
  floor = raised_floor c.high_water_hit c.queued (part_of c.remaining bytes) h.floor;
  blank = λ s. absurd (l.begun e s);
}
Step-Paced (Step.skip c bytes e f) l h = h
Step-Paced (Step.pause c e) l h = record {
  synced = h.synced;
  upload = λ _ _. h.marked e;
  marked = h.marked;
  floor = h.floor;
  blank = λ s. let (a, b, d) = h.blank s in absurd (short d e);
}
  where
    short : c.queued ≡ [] → high < length c.queued → ⊥
    short d k = absurd (omega (arith, k, ap (λ (q : Bytes). length q) d))
Step-Paced (Step.proceed c e) l h = Paced-past c streaming (past_head streaming (inr refl)) h
Step-Paced (Step.follow_null c e) l h = h
Step-Paced (Step.frame c len head n e) l h = h
Step-Paced (Step.begin c len head text q n left hit s e f g z i j k m) l h = record {
  synced = λ _. (h.blank e).0;
  upload = λ _ r. absurd (true≢false (sym r ∙ (h.blank e).1));
  marked = m.0;
  floor = m.1;
  blank = λ k. absurd (past_head s g k);
}
Step-Paced (Step.clear c e) l h = h
