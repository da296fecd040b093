-- ===== src/Uptime/Scale.antt =====
-- What the text of a duration says, and how long it is.
use castle_plus.Prelude.{
  ℕ, ◌+◌, ◌*◌, ◌^◌, ◌≤◌, ◌<◌, ◌++◌, Bytes, codes, arith, ltb, length, length-append, if_case,
}
use castle_plus.Prelude.Decimal.{decimal, length-decimal}
use castle_plus.Prelude.Int.{ℤ, pos, negsuc}
use castle_plus.Uptime.{
  Span, in_seconds, in_minutes, in_hours, in_days, minute, hour, day, two_digits, span_of,
  show_span, human_duration,
}

-- The seconds that a text stands for.
abbrev pub seconds_in : Span → ℕ
seconds_in (in_seconds s) = s
seconds_in (in_minutes m s) = m * minute + s
seconds_in (in_hours h m) = h * hour + m * minute
seconds_in (in_days d h) = d * day + h * hour

-- The smaller unit of a text.
abbrev pub resolution : Span → ℕ
resolution (in_seconds s) = 1
resolution (in_minutes m s) = 1
resolution (in_hours h m) = minute
resolution (in_days d h) = hour

-- A span whose larger unit is not 0 and whose smaller unit is below the larger one.
abbrev pub IsNormal : Span → Type 0
IsNormal (in_seconds s) = s < 60
IsNormal (in_minutes m s) = (0 < m) × (m < 60) × (s < 60)
IsNormal (in_hours h m) = (0 < h) × (h < 24) × (m < 60)
IsNormal (in_days d h) = (0 < d) × (h < 24)

-- The text of a duration is rounded down to its smaller unit, and its numbers are in the ranges of their
-- units.
span_of-IsNormal :
    (secs : ℕ)
    → IsNormal (span_of secs)
      × (seconds_in (span_of secs) ≤ secs)
      × (secs < seconds_in (span_of secs) + resolution (span_of secs))
unfolding span_of
span_of-IsNormal secs =
    if_case Fits (ltb secs minute) (λ a. ground arith)
      λ a.
        if_case Fits (ltb secs hour) (λ b. ground arith)
          λ b. if_case Fits (ltb secs day) (λ c. ground arith) λ c. ground arith
  where
    Fits : Span → Type 0
    Fits s = IsNormal s × (seconds_in s ≤ secs) × (secs < seconds_in s + resolution s)

length-two_digits : (n : ℕ) → n < 60 → length (two_digits n) ≤ 3
unfolding two_digits
length-two_digits n h =
    if_case (λ (t : Bytes). length t ≤ 3) (ltb n 10)
      (λ _. omega (arith, length-decimal 1 n (omega arith)))
      (λ _. omega (arith, length-decimal 1 n (omega arith)))

-- A `long long` of seconds.
abbrev pub IsLong : ℤ → Type 0
IsLong (pos n) = n < 2 ^ 63
IsLong (negsuc n) = n < 2 ^ 63

length-show_span : (s : Span) → IsNormal s → seconds_in s < 2 ^ 63 → length (show_span s) ≤ 31
unfolding show_span
length-show_span (in_seconds s) h k =
    omega (arith, length-append (decimal s) (codes "s"), length-decimal 1 s (omega arith))
length-show_span (in_minutes m s) h k = omega (
  arith,
  length-append (decimal m) (codes "m " ++ (two_digits s ++ codes "s")),
  length-append (two_digits s) (codes "s"),
  length-two_digits s (omega (arith, h)),
  length-decimal 1 m (omega (arith, h)),
)
length-show_span (in_hours m s) h k = omega (
  arith,
  length-append (decimal m) (codes "h " ++ (two_digits s ++ codes "m")),
  length-append (two_digits s) (codes "m"),
  length-two_digits s (omega (arith, h)),
  length-decimal 1 m (omega (arith, h)),
)
length-show_span (in_days m s) h k = omega (
  arith,
  length-append (decimal m) (codes "d " ++ (two_digits s ++ codes "h")),
  length-append (two_digits s) (codes "h"),
  length-two_digits s (omega (arith, h)),
  length-decimal 14 m (omega (arith, k)),
)

-- Every `long long` of seconds is shown in at most 31 bytes, so that the buffer of 32 does not cut it off.
length-human_duration : (secs : ℤ) → IsLong secs → length (human_duration secs) ≤ 31
unfolding human_duration
length-human_duration (pos secs) h =
    let f = span_of-IsNormal secs in length-show_span (span_of secs) f.0 (omega (arith, f.1, h))
length-human_duration (negsuc secs) h =
    let f = span_of-IsNormal 0 in length-show_span (span_of 0) f.0 (omega (arith, f.1))
