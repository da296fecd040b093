-- ===== src/Hardware.antt =====
-- src/util/hardware.hpp: the readings of the machine. What the streams over procfs and sysfs yield is an argument:
-- `none` where a file does not open. Doubles are exact fractions.
use castle_plus.Prelude.{
  ℕ, zero, suc, ◌+◌, ◌-◌, ◌/◌, ◌%◌, ◌^◌, Bool, true, false, List, [], ◌∷◌, Option, none, some,
  Bytes, codes, equal, ltb, leb, ◌==◌, if◌then◌else◌, length, take,
}
use castle_plus.Prelude.Int.{ℤ}
pub mod Memory
mod Tests

-- `threadCount`, of `hardware_concurrency`.
unfoldable pub thread_count : ℕ → Option ℕ
thread_count zero = none
thread_count (suc n) = some (suc n)

-- Sums wrap around at 64 bits.
abbrev pub wrap : ℕ → ℕ
wrap n = n % 2 ^ 64

pub record CpuTimes : Type 0 where
  pub idle : ℕ
  pub total : ℕ

-- The field of a number, and 0 where it was not read.
unfoldable pub field_at : List ℕ → ℕ → ℕ
field_at [] i = 0
field_at (f ∷ fs) zero = f
field_at (f ∷ fs) (suc i) = field_at fs i

unfoldable pub sum_all : List ℕ → ℕ
sum_all [] = 0
sum_all (f ∷ fs) = wrap (f + sum_all fs)

-- `readCpuTimes`, of the label of the first line and the numbers behind it; at most eight are read.
unfoldable pub read_cpu_times : Option (Bytes × List ℕ) → Option CpuTimes
unfolding field_at sum_all equal
read_cpu_times none = none
read_cpu_times (some (label, numbers)) =
    let fields = take 8 numbers in
    if equal label (codes "cpu")
    then (if ltb (length fields) 4
        then none
        else some (record {
          idle = wrap (field_at fields 3 + field_at fields 4);
          total = sum_all fields;
        }))
    else none

-- The busy share of a window, as a fraction of the whole.
pub record Share : Type 0 where
  pub busy : ℕ
  pub whole : ℕ

-- The end of `sampleCpuUsage`; a negative share is shown as 0.
unfoldable pub share_of : CpuTimes → CpuTimes → Option Share
share_of a b =
    if leb b.total a.total
    then none
    else (let idle = if ltb a.idle b.idle then b.idle - a.idle else 0 in
        some (record { busy = (b.total - a.total) - idle; whole = b.total - a.total }))

unfoldable pub sample_cpu_usage : Option CpuTimes → Option CpuTimes → Option Share
unfolding share_of
sample_cpu_usage none second = none
sample_cpu_usage (some a) none = none
sample_cpu_usage (some a) (some b) = share_of a b

pub record MemInfo : Type 0 where
  pub total : ℕ
  pub free : ℕ
  pub available : ℕ
  pub buffers : ℕ
  pub cached : ℕ
  pub s_reclaimable : ℕ
  pub has_available : Bool

abbrev pub new_mem_info : MemInfo
new_mem_info = record {
  total = 0;
  free = 0;
  available = 0;
  buffers = 0;
  cached = 0;
  s_reclaimable = 0;
  has_available = false;
}

-- One line of /proc/meminfo.
unfoldable pub set_field : Bytes → ℕ → MemInfo → MemInfo
set_field key value m =
    if equal key (codes "MemTotal:")
    then record m { total = value }
    else if equal key (codes "MemFree:")
    then record m { free = value }
    else if equal key (codes "MemAvailable:")
    then record m { available = value; has_available = true }
    else if equal key (codes "Buffers:")
    then record m { buffers = value }
    else if equal key (codes "Cached:")
    then record m { cached = value }
    else if equal key (codes "SReclaimable:")
    then record m { s_reclaimable = value }
    else m

unfoldable pub set_fields : List (Bytes × ℕ) → MemInfo → MemInfo
unfolding set_field
set_fields [] m = m
set_fields ((key, value) ∷ rest) m = set_fields rest (set_field key value m)

abbrev pub unless_empty : MemInfo → Option MemInfo
unless_empty m = if m.total == 0 then none else some m

-- `readMemInfo`, of the keys and values that are read up to the first that fails.
unfoldable pub read_mem_info : Option (List (Bytes × ℕ)) → Option MemInfo
unfolding set_fields
read_mem_info none = none
read_mem_info (some pairs) = unless_empty (set_fields pairs new_mem_info)

-- `reclaimableKb`.
unfoldable pub reclaimable_kb : MemInfo → ℕ
reclaimable_kb m = wrap (wrap (m.buffers + m.cached) + m.s_reclaimable)

-- `KB_PER_MB`.
abbrev pub kb_per_mb : ℕ
kb_per_mb = 1024

abbrev pub on_mem_info : (MemInfo → ℕ) → Option MemInfo → Option ℕ
on_mem_info f none = none
on_mem_info f (some m) = some (f m)

unfoldable pub total_mb : MemInfo → ℕ
total_mb m = m.total / kb_per_mb

unfoldable pub free_mb : MemInfo → ℕ
unfolding reclaimable_kb
free_mb m = (if m.has_available then m.available else wrap (m.free + reclaimable_kb m)) / kb_per_mb

unfoldable pub used_mb : MemInfo → ℕ
unfolding reclaimable_kb
used_mb m =
    let not_used_kb = wrap (m.free + reclaimable_kb m) in
    if leb m.total not_used_kb then 0 else (m.total - not_used_kb) / kb_per_mb

-- `memoryTotal`, `memoryFree` and `memoryUsed`.
unfoldable pub memory_total : Option (List (Bytes × ℕ)) → Option ℕ
unfolding read_mem_info total_mb
memory_total file = on_mem_info total_mb (read_mem_info file)

unfoldable pub memory_free : Option (List (Bytes × ℕ)) → Option ℕ
unfolding read_mem_info free_mb
memory_free file = on_mem_info free_mb (read_mem_info file)

unfoldable pub memory_used : Option (List (Bytes × ℕ)) → Option ℕ
unfolding read_mem_info used_mb
memory_used file = on_mem_info used_mb (read_mem_info file)
