-- ===== src/Connectivity/Outages.antt =====
-- What the watch logs.
use castle_plus.Prelude.{ℕ, ◌-◌, ◌/◌, Bool, true, false, List, [], ◌∷◌, ◌++◌, elim_case}
use castle_plus.Service.{second}
use castle_plus.Connectivity.{
  NetState, unknown, up, down, ProbeTarget, internet_reachable, note, Note, lost, restored, Watch,
  new_watch, is_down, check, Round, run,
}

-- The log of a watch: outages one after the other, each a loss and then a recovery; `b` is whether the last one
-- goes on.
pub data Outages : List Note → Bool → Type 0 where
  none_yet : Outages [] false
  begins : (log : List Note) → Outages log false → Outages (log ++ (lost ∷ [])) true
  is_over :
      (log : List Note) (secs : ℕ) → Outages log true → Outages (log ++ (restored secs ∷ [])) false

note-Outages :
    (reachable : Bool) (s : NetState) (now since : ℕ) (log : List Note)
    → Outages log (is_down s)
    → let w = note reachable now (record { state = s; down_since = since; log = log }) in
      Outages w.log (is_down w.state)
unfolding note
note-Outages true unknown now since log h = h
note-Outages true up now since log h = h
note-Outages true down now since log h = is_over log ((now - since) / second) h
note-Outages false unknown now since log h = begins log h
note-Outages false up now since log h = begins log h
note-Outages false down now since log h = h

check-Outages :
    (probe : ProbeTarget → Bool) (now : ℕ) (w : Watch)
    → Outages w.log (is_down w.state)
    → Outages (check probe now w).log (is_down (check probe now w).state)
unfolding check
check-Outages probe now w h =
    note-Outages (internet_reachable probe) w.state now w.down_since w.log h

run_from-Outages :
    (rs : List Round) (w : Watch)
    → Outages w.log (is_down w.state)
    → Outages (run rs w).log (is_down (run rs w).state)
unfolding run
run_from-Outages [] w h = h
run_from-Outages (r ∷ rs) w h =
    let k = check-Outages r.probe r.now w h in
    elim_case (λ (v : Watch). Outages v.log (is_down v.state)) r.stopped (λ _. k)
      (λ _. run_from-Outages rs (check r.probe r.now w) k)

-- However the probes answer, one loss is logged for each outage and one recovery for each end of one, in turn, and
-- an outage is open exactly while the state is `Down`.
pub run-Outages :
    (rs : List Round) → Outages (run rs new_watch).log (is_down (run rs new_watch).state)
run-Outages rs = run_from-Outages rs new_watch none_yet
