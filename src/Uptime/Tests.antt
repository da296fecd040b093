-- ===== src/Uptime/Tests.antt =====
-- Durations as text.
use castle_plus.Prelude.{◌≡◌, refl, codes}
use castle_plus.Prelude.Decimal.{decimal}
use castle_plus.Prelude.Int.{pos}
use castle_plus.Uptime.{human_duration, span_of, show_span, two_digits}

human_duration-day : human_duration (pos 90_000) ≡ codes "1d 01h"
unfolding human_duration span_of show_span two_digits decimal
human_duration-day = refl
