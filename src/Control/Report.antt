-- ===== src/Control/Report.antt =====
-- The replies of src/control/control_server.cpp that report on the rest of castle: `cmd_status`, `cmd_health`,
-- `cmd_errors` and `systemStatusHelper`. What the loops answer, the clock and the readings of the machine are arguments.
use castle_plus.Prelude.{
  ℕ, suc, ◌+◌, ◌%◌, ◌^◌, Bool, List, [], ◌∷◌, ◌++◌, Option, none, some, Bytes, codes, ◌==◌,
  if◌then◌else◌, length, take, drop, cat,
}
use castle_plus.Prelude.Decimal.{decimal}
use castle_plus.Connectivity.{NetState, unknown, up, down}
use castle_plus.Log.Messages.{Log, log_pull_new}

-- The counters of a loop.
pub record LoopStats : Type 0 where
  pub active_connections : ℕ
  pub total_connections : ℕ
  pub bytes_in : ℕ
  pub bytes_out : ℕ

-- The sum of a counter over the loops, in 64 bits.
unfoldable pub sum_of : (LoopStats → ℕ) → List LoopStats → ℕ
sum_of counter [] = 0
sum_of counter (s ∷ ss) = (counter s + sum_of counter ss) % 2 ^ 64

-- `cmd_status`, in `char buf[256]`.
unfoldable pub cmd_status : List LoopStats → Bytes
unfolding sum_of
cmd_status loops = take 255 (
    cat (
      codes "loops:              "
      ∷ decimal (length loops)
      ∷ codes "\nactive_connections: "
      ∷ decimal (sum_of (λ s. s.active_connections) loops)
      ∷ codes "\ntotal_connections:  "
      ∷ decimal (sum_of (λ s. s.total_connections) loops)
      ∷ codes "\nbytes_in:           "
      ∷ decimal (sum_of (λ s. s.bytes_in) loops)
      ∷ codes "\nbytes_out:          "
      ∷ decimal (sum_of (λ s. s.bytes_out) loops)
      ∷ codes "\n"
      ∷ []))

-- What becomes of the task that a loop is handed: it is done by the deadline, or dropped, or late.
pub data Ack : Type 0 where
  done dropped late : Ack

unfoldable pub responded : List Ack → ℕ
responded [] = 0
responded (done ∷ as') = suc (responded as')
responded (dropped ∷ as') = responded as'
responded (late ∷ as') = responded as'

-- `cmd_health`, in `char buf[160]`, with the time of the round trip.
unfoldable pub cmd_health : List Ack → ℕ → Bytes
unfolding responded
cmd_health acks rtt_us = take 159 (
    cat (
      codes "health: "
      ∷ decimal (responded acks)
      ∷ codes "/"
      ∷ decimal (length acks)
      ∷ codes " event loops responsive (task round-trip in "
      ∷ decimal rtt_us
      ∷ codes "us)\n"
      ∷ []))

-- Each of the lines with its end, behind `indent`.
unfoldable pub with_ends : Bytes → List Bytes → Bytes
with_ends indent [] = []
with_ends indent (l ∷ ls) = indent ++ (l ++ (b'\n' ∷ with_ends indent ls))

abbrev pub nothing_new : Bytes
nothing_new = codes "no new log entries since last pull\n"

unfoldable pub errors_text : List Bytes → Bytes
unfolding with_ends
errors_text [] = nothing_new
errors_text (l ∷ ls) = with_ends [] (l ∷ ls)

-- `cmd_errors`: the lines of this pull are those that it adds to the ones pulled before.
unfoldable pub cmd_errors : Bool → Log → Bytes × Log
unfolding log_pull_new errors_text
cmd_errors opens l =
    let m = log_pull_new opens l in (errors_text (drop (length l.pulled) m.pulled), m)

abbrev pub unavailable : Bytes
unavailable = codes "unavailable"

-- The readings of the machine; `D` is the type of the doubles.
pub record Vitals (D : Type 0) : Type 0 where
  pub threads : Option ℕ
  pub load : Option (D × D × D)
  pub temp : Option D
  pub mem_free : Option ℕ
  pub mem_total : Option ℕ

abbrev pub threads_text : Option ℕ → Bytes
threads_text none = unavailable
threads_text (some n) = decimal n

abbrev pub memory_text : Option ℕ → Option ℕ → Bytes
memory_text none total = unavailable
memory_text (some free) none = decimal free ++ codes " MB available"
memory_text (some free) (some total) =
    cat (decimal free ∷ codes " MB available of " ∷ decimal total ∷ codes " MB" ∷ [])

abbrev pub net_text : NetState → Bytes
net_text up = codes "up"
net_text down = codes "DOWN"
net_text unknown = codes "not checked"

unfoldable pub critical_text : List Bytes → Bytes
unfolding with_ends
critical_text [] = codes "none\n"
critical_text (l ∷ ls) =
    let entries = l ∷ ls in
    cat (
      decimal (length entries)
      ∷ (if length entries == 1 then codes " entry\n" else codes " entries\n")
      ∷ with_ends (codes "  ") entries
      ∷ [])

-- `fixed2` is the format "%.2f" of the doubles.
module _ {D : Type 0} (fixed2 : D → Bytes) where
  abbrev pub load_text : Option (D × D × D) → Bytes
  load_text none = unavailable
  load_text (some (one, five, fifteen)) = cat (
      fixed2 one
      ∷ codes " (1m)  "
      ∷ fixed2 five
      ∷ codes " (5m)  "
      ∷ fixed2 fifteen
      ∷ codes " (15m)"
      ∷ [])

  abbrev pub temp_text : Option D → Bytes
  temp_text none = unavailable
  temp_text (some t) = fixed2 t ++ codes " C"

  -- `systemStatusHelper`, with the state of the internet watch and the history of the critical lines.
  unfoldable pub system_status_text : Vitals D → NetState → List Bytes → Bytes
  unfolding critical_text
  system_status_text v net entries = cat (
      codes "threads:   "
      ∷ threads_text v.threads
      ∷ codes "\nload:      "
      ∷ load_text v.load
      ∷ codes "\ncpu_temp:  "
      ∷ temp_text v.temp
      ∷ codes "\nmemory:    "
      ∷ memory_text v.mem_free v.mem_total
      ∷ codes "\ninternet:  "
      ∷ net_text net
      ∷ codes "\ncritical:  "
      ∷ critical_text entries
      ∷ [])
