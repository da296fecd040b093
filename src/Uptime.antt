-- ===== src/Uptime.antt =====
-- src/util/uptime.hpp: a duration as text.
pub mod Scale
mod Tests
use castle_plus.Prelude.{
  ℕ, ◌+◌, ◌*◌, ◌/◌, ◌%◌, List, [], ◌∷◌, ◌++◌, Bytes, codes, ltb, if◌then◌else◌,
}
use castle_plus.Prelude.Decimal.{decimal}
use castle_plus.Prelude.Int.{ℤ, pos, negsuc}

-- The four forms of the text, with the numbers that they print.
pub data Span : Type 0 where
  in_seconds : ℕ → Span
  in_minutes in_hours in_days : ℕ → ℕ → Span

abbrev pub minute : ℕ
minute = 60

abbrev pub hour : ℕ
hour = 3_600

abbrev pub day : ℕ
day = 86_400

-- `%02lld`.
unfoldable pub two_digits : ℕ → Bytes
two_digits n = if ltb n 10 then b'0' ∷ decimal n else decimal n

-- The tests on the number of seconds.
unfoldable pub span_of : ℕ → Span
span_of secs =
    if ltb secs minute
    then in_seconds secs
    else if ltb secs hour
    then in_minutes (secs / 60) (secs % 60)
    else if ltb secs day
    then in_hours (secs / 3_600) ((secs % 3_600) / 60)
    else in_days (secs / 86_400) ((secs % 86_400) / 3_600)

-- The formats.
unfoldable pub show_span : Span → Bytes
unfolding two_digits
show_span (in_seconds s) = decimal s ++ codes "s"
show_span (in_minutes m s) = decimal m ++ (codes "m " ++ (two_digits s ++ codes "s"))
show_span (in_hours h m) = decimal h ++ (codes "h " ++ (two_digits m ++ codes "m"))
show_span (in_days d h) = decimal d ++ (codes "d " ++ (two_digits h ++ codes "h"))

-- `human_duration`; a negative duration is shown as 0.
unfoldable pub human_duration : ℤ → Bytes
unfolding span_of show_span
human_duration (pos secs) = show_span (span_of secs)
human_duration (negsuc secs) = show_span (span_of 0)
