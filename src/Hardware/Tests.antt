-- ===== src/Hardware/Tests.antt =====
-- The readings of a small machine.
use castle_plus.Prelude.{◌≡◌, refl, [], ◌∷◌, some, false, codes, equal}
use castle_plus.Hardware.{
  CpuTimes, Share, read_cpu_times, field_at, sum_all, MemInfo, read_mem_info, set_fields, set_field,
}

read_cpu_times-short :
    read_cpu_times (some (codes "cpu", 10 ∷ 20 ∷ 30 ∷ 40 ∷ []))
    ≡ some (record { idle = 40; total = 100 })
unfolding read_cpu_times field_at sum_all equal
read_cpu_times-short = refl

abbrev before : CpuTimes
before = record { idle = 40; total = 100 }

abbrev behind : CpuTimes
behind = record { idle = 70; total = 200 }

abbrev share : Share
share = record { busy = 70; whole = 100 }

abbrev mem : MemInfo
mem = record {
  total = 4_096;
  free = 1_000;
  available = 0;
  buffers = 100;
  cached = 200;
  s_reclaimable = 0;
  has_available = false;
}

read_mem_info-mem :
    read_mem_info (
      some (
        (codes "MemTotal:", 4_096)
        ∷ (codes "MemFree:", 1_000)
        ∷ (codes "Buffers:", 100)
        ∷ (codes "Cached:", 200)
        ∷ (codes "Slab:", 7)
        ∷ []))
    ≡ some mem
unfolding read_mem_info set_fields set_field equal
read_mem_info-mem = refl
