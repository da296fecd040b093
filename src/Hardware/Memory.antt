-- ===== src/Hardware/Memory.antt =====
-- The bounds of the readings.
use castle_plus.Prelude.{
  ℕ, ◌+◌, ◌-◌, ◌/◌, ◌%◌, ◌^◌, ◌≤◌, ◌<◌, ◌≡◌, false, Option, none, some, ltb, leb, if◌then◌else◌,
  if_case, some_eq, ap, arith,
}
use castle_plus.Hardware.{
  CpuTimes, Share, share_of, sample_cpu_usage, MemInfo, reclaimable_kb, total_mb, free_mb, used_mb,
}

abbrev Bounded : Option Share → Type 0
Bounded o = (s : Share) → o ≡ some s → (s.busy ≤ s.whole) × (0 < s.whole)

share_of-Bounded : (a b : CpuTimes) → Bounded (share_of a b)
unfolding share_of
share_of-Bounded a b =
    let idle = if ltb a.idle b.idle then b.idle - a.idle else 0 in
    if_case Bounded (leb b.total a.total) (λ e s h. absurd cc h)
      (λ e s h.
        let lt : a.total < b.total = ground (e, arith) in
        let w : b.total - a.total ≡ s.whole = ap Share.whole (some_eq h) in
        let u : (b.total - a.total) - idle ≡ s.busy = ap Share.busy (some_eq h) in
        omega (arith, lt, w, u))

-- The share of a window is between 0 and 1, of a window that is not empty.
sample_cpu_usage_bounds :
    (first second : Option CpuTimes) (s : Share)
    → sample_cpu_usage first second ≡ some s
    → (s.busy ≤ s.whole) × (0 < s.whole)
unfolding sample_cpu_usage share_of
sample_cpu_usage_bounds none second s h = absurd cc h
sample_cpu_usage_bounds (some a) none s h = absurd cc h
sample_cpu_usage_bounds (some a) (some b) s h = share_of-Bounded a b s h

-- What is used is at most the total, also where the sums wrap around.
used_mb-total_mb : (m : MemInfo) → used_mb m ≤ total_mb m
unfolding used_mb total_mb
used_mb-total_mb m = ground arith

-- The kernel's figures fit together, as they do where no sum wraps around.
pub record IsConsistent (m : MemInfo) : Type 0 where
  pub fits : m.total < 2 ^ 64
  pub parts : m.free + m.buffers + m.cached + m.s_reclaimable ≤ m.total

halves :
    (t k : ℕ)
    → k ≤ t
    → let used = if leb t k then 0 else (t - k) / 1024 in
      (k / 1024 + used ≤ t / 1024) × (t / 1024 ≤ k / 1024 + used + 1)
halves t k h = ground arith

-- Without `MemAvailable`, the memory that is available and the memory that is used make up the total, but for at most
-- one MB that the rounding takes.
memory_adds_up :
    (m : MemInfo)
    → IsConsistent m
    → m.has_available ≡ false
    → (free_mb m + used_mb m ≤ total_mb m) × (total_mb m ≤ free_mb m + used_mb m + 1)
unfolding free_mb used_mb total_mb reclaimable_kb
memory_adds_up m c h =
    let fits = c.fits in
    let parts = c.parts in
    let k = m.free + m.buffers + m.cached + m.s_reclaimable in
    let e : (m.free + reclaimable_kb m) % 2 ^ 64 ≡ k = omega arith in
    rw (h, e) (halves m.total k parts)
