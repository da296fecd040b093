-- ===== src/Clock/Tests.antt =====
-- A stopwatch, an afternoon and a date.
use castle_plus.Prelude.{◌+◌, ◌*◌, ◌^◌, ◌≡◌, refl, true, codes, replicate}
use castle_plus.Prelude.Decimal.{decimal}
use castle_plus.Clock.{
  CalendarParts, hour12, face_hour, format_clock, zero_padded, date_string, year_integral,
  month_integral, day_integral, new_clock, start, stop, elapsed, split, high_resolution_peek_time,
}

abbrev afternoon : CalendarParts
afternoon = record { year = 2026; month = 3; day = 4; hour = 15; minute = 6; second = 7 }

format_clock-afternoon : format_clock afternoon hour12 ≡ codes "03:06:07 PM"
unfolding format_clock zero_padded face_hour replicate decimal
format_clock-afternoon = refl

date_string-afternoon : date_string (λ p. true) afternoon ≡ codes "2026-03-04"
unfolding date_string zero_padded year_integral month_integral day_integral replicate decimal
date_string-afternoon = refl

high_resolution_peek_time-stopped :
    high_resolution_peek_time 99 (stop (3_661 * 10 ^ 9 + 12) (start 7 (new_clock 0)))
    ≡ codes "01:01:01.000000005"
unfolding high_resolution_peek_time elapsed split start stop zero_padded replicate decimal
high_resolution_peek_time-stopped = refl
