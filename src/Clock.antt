-- ===== src/Clock.antt =====
-- src/util/clock.hpp: the stopwatch and the formats of the clock. The instants of the high-resolution clock, in
-- nanoseconds, do not go back; they are arguments, and so are the calendar fields of an instant and the test of
-- <chrono> whether a date exists.
use castle_plus.Prelude.{
  ℕ, zero, suc, ◌+◌, ◌-◌, ◌*◌, ◌/◌, ◌%◌, ◌^◌, Bool, true, false, List, [], ◌∷◌, ◌++◌, Bytes, codes,
  ltb, leb, ◌&&◌, ◌==◌, if◌then◌else◌, length, take, cat, replicate, get_elem?, Option, none, some,
}
use castle_plus.Prelude.Decimal.{decimal}
pub mod Stopwatch
mod Tests

-- `calendarParts`.
pub record CalendarParts : Type 0 where
  pub year : ℕ
  pub month : ℕ
  pub day : ℕ
  pub hour : ℕ
  pub minute : ℕ
  pub second : ℕ

pub data TimeFormat : Type 0 where
  hour12 hour24 : TimeFormat

-- `%0wu`: zeros up to a width.
unfoldable pub zero_padded : ℕ → ℕ → Bytes
unfolding replicate decimal
zero_padded width n = let digits = decimal n in replicate (width - length digits) b'0' ++ digits

-- The hour on the face of 12 hours.
unfoldable pub face_hour : ℕ → ℕ
face_hour hour = let h = hour % 12 in if h == 0 then 12 else h

abbrev pub clock_face : ℕ → ℕ → ℕ → Bytes
clock_face hour minute second =
    cat (
      zero_padded 2 hour ∷ codes ":" ∷ zero_padded 2 minute ∷ codes ":" ∷ zero_padded 2 second ∷ [])

-- `formatClock`, in `char buildTime[16]`.
unfoldable pub format_clock : CalendarParts → TimeFormat → Bytes
unfolding zero_padded face_hour
format_clock p hour24 = take 15 (clock_face p.hour p.minute p.second)
format_clock p hour12 = take 15 (
    clock_face (face_hour p.hour) p.minute p.second
    ++ (if ltb p.hour 12 then codes " AM" else codes " PM"))

abbrev pub month_names : List Bytes
month_names =
    codes "January"
    ∷ codes "February"
    ∷ codes "March"
    ∷ codes "April"
    ∷ codes "May"
    ∷ codes "June"
    ∷ codes "July"
    ∷ codes "August"
    ∷ codes "September"
    ∷ codes "October"
    ∷ codes "November"
    ∷ codes "December"
    ∷ []

abbrev pub name_or_unknown : Option Bytes → Bytes
name_or_unknown none = codes "Unknown"
name_or_unknown (some name) = name

-- `exists` is `year_month_day::ok`.
module _ (exists : CalendarParts → Bool) where
  unfoldable pub month_integral : CalendarParts → ℕ
  month_integral p = if exists p then p.month % 256 else 0

  unfoldable pub day_integral : CalendarParts → ℕ
  day_integral p = if exists p then p.day % 256 else 0

  -- `monthString`.
  unfoldable pub month_string : CalendarParts → Bytes
  unfolding month_integral
  month_string p =
      let month = month_integral p in
      if ltb month 1 then codes "Unknown" else name_or_unknown (get_elem? month_names (month - 1))

-- `yearIntegral` and `yearString`.
unfoldable pub year_integral : CalendarParts → ℕ
year_integral p = p.year % 2 ^ 16

unfoldable pub year_string : CalendarParts → Bytes
unfolding year_integral decimal
year_string p = decimal (year_integral p)

-- `dateString`, in `char buildDate[16]`.
unfoldable pub date_string : (CalendarParts → Bool) → CalendarParts → Bytes
unfolding zero_padded year_integral month_integral day_integral
date_string exists p = take 15 (
    cat (
      zero_padded 4 (year_integral p)
      ∷ codes "-"
      ∷ zero_padded 2 (month_integral exists p)
      ∷ codes "-"
      ∷ zero_padded 2 (day_integral exists p)
      ∷ []))

pub record Clock : Type 0 where
  pub start_time : ℕ
  pub end_time : ℕ
  pub running : Bool

abbrev pub new_clock : ℕ → Clock
new_clock now = record { start_time = now; end_time = now; running = false }

unfoldable pub start : ℕ → Clock → Clock
start now c = record { start_time = now; end_time = now; running = true }

unfoldable pub stop : ℕ → Clock → Clock
stop now c = record c { end_time = now; running = false }

unfoldable pub reset : ℕ → Clock → Clock
reset now c = record { start_time = now; end_time = now; running = false }

-- `elapsed`, in nanoseconds.
unfoldable pub elapsed : ℕ → Clock → ℕ
elapsed now c = (if c.running then now else c.end_time) - c.start_time

-- A span as hours, minutes, seconds and nanoseconds.
pub record Split : Type 0 where
  pub hours : ℕ
  pub minutes : ℕ
  pub seconds : ℕ
  pub nanos : ℕ

abbrev pub second : ℕ
second = 10 ^ 9

unfoldable pub split : ℕ → Split
split total =
    let hours = total / (3_600 * second) in
    let minutes = (total - hours * (3_600 * second)) / (60 * second) in
    let seconds = (total - hours * (3_600 * second) - minutes * (60 * second)) / second in
    record {
      hours = hours;
      minutes = minutes;
      seconds = seconds;
      nanos = total - hours * (3_600 * second) - minutes * (60 * second) - seconds * second;
    }

-- `highResolutionPeekTime`, in `char buildTime[32]`.
unfoldable pub high_resolution_peek_time : ℕ → Clock → Bytes
unfolding elapsed split zero_padded
high_resolution_peek_time now c =
    let s = split (elapsed now c) in
    take 31 (cat (clock_face s.hours s.minutes s.seconds ∷ codes "." ∷ zero_padded 9 s.nanos ∷ []))

unfoldable pub time_passed_in_milliseconds : ℕ → Clock → ℕ
unfolding elapsed
time_passed_in_milliseconds now c = elapsed now c / 10 ^ 6

unfoldable pub time_passed_in_nanoseconds : ℕ → Clock → ℕ
unfolding elapsed
time_passed_in_nanoseconds now c = elapsed now c
