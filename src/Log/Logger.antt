-- ===== src/Log/Logger.antt =====
-- `Logger` of src/util/log.hpp. The clock's readings are arguments, and so is whether the file opens.
use castle_plus.Prelude.{
  ℕ, suc, Bool, true, false, not, [], ◌∷◌, ◌++◌, Option, none, some, Bytes, codes, if◌then◌else◌,
  length,
}
use castle_plus.Prelude.Decimal.{decimal}
use castle_plus.Log.Reader.{reindex, get_line, remove_last_line}

pub data Severity : Type 0 where
  warning low med high : Severity

-- The date and the time in UTC.
pub record Stamp : Type 0 where
  pub year : ℕ
  pub month : ℕ
  pub day : ℕ
  pub hours : ℕ
  pub minutes : ℕ
  pub seconds : ℕ

pub record Logger : Type 0 where
  pub log_count : ℕ
  pub date : Bool
  pub time : Bool
  pub silence_warn : Bool
  pub write_low : Bool
  pub write_med : Bool
  pub write_high : Bool

-- `addDate`; the numbers are not padded.
abbrev pub date_text : Stamp → Bytes
date_text c =
    decimal c.year ++ (b'-' ∷ (decimal c.month ++ (b'-' ∷ (decimal c.day ++ (b' ' ∷ [])))))

-- `addTime`.
abbrev pub time_text : Stamp → Bytes
time_text c =
    decimal c.hours ++ (b':' ∷ (decimal c.minutes ++ (b':' ∷ (decimal c.seconds ++ (b' ' ∷ [])))))

-- `writePrefix`.
unfoldable pub prefix : Logger → Stamp → Bytes
prefix l c =
    b'['
    ∷ (decimal l.log_count
        ++ (codes "] "
            ++ ((if l.date then date_text c else []) ++ (if l.time then time_text c else []))))

-- The fields that the constructor sets for a file of this content.
abbrev pub new_logger : Bool → Bool → Bytes → Logger
new_logger date time text = record {
  log_count = length (reindex (some text));
  date = date;
  time = time;
  silence_warn = false;
  write_low = true;
  write_med = true;
  write_high = true;
}

-- The constructor, on a file that opens: the file's new content, and the logger.
unfoldable pub create : Bool → Bool → Stamp → Bytes → Logger × Bytes
unfolding prefix reindex
create date time c text =
    let l = new_logger date time text in
    (record l { log_count = suc l.log_count }, text ++ (prefix l c ++ codes "Created.\n"))

-- `editWrites`.
unfoldable pub edit_writes : Bool → Bool → Bool → Bool → Logger → Logger
edit_writes no_warn no_low no_med no_high l = record l {
  silence_warn = no_warn;
  write_low = not no_low;
  write_med = not no_med;
  write_high = not no_high;
}

-- `canBeWritten`.
unfoldable pub can_be_written : Logger → Severity → Bool
can_be_written l high = l.write_high
can_be_written l med = l.write_med
can_be_written l low = l.write_low
can_be_written l warning = not l.silence_warn

unfoldable pub label : Severity → Bytes
label high = codes "HIGH"
label med = codes "MED"
label low = codes "LOW"
label warning = codes "WARN"

-- A line of the log file.
unfoldable pub entry : Logger → Stamp → Severity → Bytes → Bytes
unfolding prefix label
entry l c level message = prefix l c ++ (label level ++ (codes ": " ++ (message ++ (b'\n' ∷ []))))

-- `write`; `none` is the exception of a file that does not open.
unfoldable pub write : Bool → Stamp → Severity → Bytes → Logger × Bytes → Option (Logger × Bytes)
unfolding can_be_written entry
write opens c level message (l, text) =
    if not (can_be_written l level)
    then some (l, text)
    else if opens
    then some (record l { log_count = suc l.log_count }, text ++ entry l c level message)
    else none

-- `readLast`; `none` is the exception of an empty log.
unfoldable pub read_last : Bytes → Option Bytes
unfolding reindex get_line
read_last text = elim (length (reindex (some text))) [
  | ℕ.zero ↦ none
  | ℕ.suc n ↦ get_line (reindex (some text)) text n
]

-- `clearLast`.
unfoldable pub clear_last : Logger × Bytes → Logger × Bytes
unfolding reindex remove_last_line
clear_last (l, text) =
    let (offsets, rest) = remove_last_line (reindex (some text)) text in
    (record l { log_count = length offsets }, rest)
