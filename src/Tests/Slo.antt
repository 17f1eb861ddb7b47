-- ===== src/Tests/Slo.antt =====
-- metrics/responsetimeslo: a run and an instance.
use circuit.Prelude.{pos, Bool, true, false, List, [], ◌∷◌, ◌≡◌, refl}
use circuit.Circuit.Logic.{RunEvent, success, err_interrupt, err_short_circuit}
use circuit.ResponseTimeSlo.{Tracker}
use circuit.ResponseTimeSlo.Counts.{Told, observes, judged, judgements, observes-counts}

-- One collector, which keeps what it is told.
abbrev tracker : Tracker (List Bool)
tracker = record {
  maximum_healthy_time = pos 10;
  meets_slo_count = pos 0;
  fails_slo_count = pos 0;
  collectors = (λ b e. b ∷ e) ∷ [];
  config = record { maximum_healthy_time = pos 10 };
}

abbrev requests : List RunEvent
requests =
    success (pos 1) (pos 10)
    ∷ success (pos 2) (pos 11)
    ∷ err_interrupt (pos 3) (pos 4)
    ∷ err_short_circuit (pos 5)
    ∷ []

observes-counts_example :
    Told 0 0 (judgements (pos 10) requests) tracker [] (observes requests tracker [])
observes-counts_example = observes-counts requests tracker [] refl refl

judged_run : judgements (pos 10) requests ≡ true ∷ false ∷ false ∷ []
unfolding judgements judged
judged_run = refl
