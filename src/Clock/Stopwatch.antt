-- ===== src/Clock/Stopwatch.antt =====
-- What the stopwatch shows.
use castle_plus.Prelude.{ℕ, ◌+◌, ◌*◌, ◌%◌, ◌^◌, ◌≤◌, ◌<◌, ◌≡◌, Bool, ltb, if◌then◌else◌, arith}
use castle_plus.Clock.{face_hour, Split, split}

-- The parts of a span are in their ranges and make up the span.
pub record IsSplit (total : ℕ) (s : Split) : Type 0 where
  pub minutes_in_range : s.minutes < 60
  pub seconds_in_range : s.seconds < 60
  pub nanos_in_range : s.nanos < 10 ^ 9
  pub whole : ((s.hours * 60 + s.minutes) * 60 + s.seconds) * 10 ^ 9 + s.nanos ≡ total

split-IsSplit : (total : ℕ) → IsSplit total (split total)
unfolding split
split-IsSplit total = record {
  minutes_in_range = omega arith;
  seconds_in_range = omega arith;
  nanos_in_range = omega arith;
  whole = omega arith;
}

-- The hour of a day, of its face and of AM or PM.
abbrev pub read_hour : ℕ → Bool → ℕ
read_hour face morning = if morning then face % 12 else face % 12 + 12

-- The face of 12 hours shows 1 to 12, and with AM or PM it tells the hours of a day apart.
face_hour-read :
    (hour : ℕ)
    → hour < 24
    → (1 ≤ face_hour hour)
      × (face_hour hour ≤ 12)
      × (read_hour (face_hour hour) (ltb hour 12) ≡ hour)
unfolding face_hour
face_hour-read hour h = (ground arith, ground arith, ground arith)
