-- ===== src/Connectivity/Tests.antt =====
-- A line that goes down for three rounds.
use castle_plus.Prelude.{ℕ, ◌*◌, ◌≡◌, refl, Bool, true, false, List, [], ◌∷◌}
use castle_plus.Service.{second}
use castle_plus.Connectivity.{
  Round, run, check, note, any_answers, new_watch, is_down, lost, restored,
}
use castle_plus.Connectivity.Outages.{Outages, run-Outages}

abbrev round : Bool → ℕ → Bool → Round
round reachable now stopped = record {
  probe = λ _. reachable;
  now = now * second;
  stopped = stopped;
}

abbrev rounds : List Round
rounds =
    round false 1 false
    ∷ round false 31 false
    ∷ round true 61 false
    ∷ round true 91 true
    ∷ round false 121 false
    ∷ []

run-rounds : (run rounds new_watch).log ≡ lost ∷ restored 60 ∷ []
unfolding run check note any_answers
run-rounds = refl

run-Outages_example : Outages (run rounds new_watch).log (is_down (run rounds new_watch).state)
run-Outages_example = run-Outages rounds
