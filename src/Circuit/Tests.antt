-- ===== src/Circuit/Tests.antt =====
-- Runs of the circuit breaker, and the theorems at concrete inputs.
use beleqet_ecosystem_update.Base.{ℕ, ◌≡◌, refl, false, some, none, List, [], ◌∷◌, ◌++◌, arith}
use beleqet_ecosystem_update.Circuit.{
  CircuitState, CircuitSnapshot, defaults, fresh, succeeded, System, Turn, arrives, probe_ends,
  execute, run,
}
use beleqet_ecosystem_update.Circuit.Laws.{failures, failures_trip, one_failure}
use beleqet_ecosystem_update.Circuit.Recovery.{successes, recovering, successes_close}
use beleqet_ecosystem_update.Circuit.Probes.{Timely, OneProbe, run-OneProbe}

abbrev tripped : CircuitSnapshot
tripped = record {
  state = CircuitState.tripped;
  failure_count = 3;
  success_count = 0;
  last_failure_time = 100;
  next_retry_time = 30_100;
  half_open_probe_in_flight = false;
}

refuses_early : execute defaults 200 5 succeeded tripped ≡ none
unfolding execute
refuses_early = refl

abbrev two_failures : List (ℕ × ℕ)
two_failures = (100, 5) ∷ (9_000, 30) ∷ []

failures_trip_example :
    (d : CircuitSnapshot) × (failures defaults two_failures fresh ≡ some d)
    × (d.state ≡ CircuitState.closed)
    × (failures defaults (two_failures ++ ((70_000, 40) ∷ [])) fresh
        ≡ some (one_failure defaults 70_040 d))
    × ((one_failure defaults 70_040 d).state ≡ CircuitState.tripped)
    × ((one_failure defaults 70_040 d).next_retry_time ≡ 100_040)
failures_trip_example = failures_trip defaults two_failures 70_000 40 fresh refl refl

abbrev two_calls : System
two_calls = record { circuit = tripped; ordinary = 0; probes = 0 }

abbrev turns : List Turn
turns = arrives 30_200 ∷ arrives 30_201 ∷ probe_ends 30_300 succeeded ∷ arrives 30_400 ∷ []

run-OneProbe_example : OneProbe (run defaults turns two_calls)
unfolding Timely
run-OneProbe_example = run-OneProbe defaults turns two_calls tt (ground arith)

successes_close_example :
    successes defaults ((30_100, 20) ∷ (95_000, 10) ∷ []) tripped
    ≡ some (recovering CircuitState.closed 2 tripped)
successes_close_example =
    successes_close defaults 30_100 20 ((95_000, 10) ∷ []) tripped refl (omega arith) refl
      (ground arith)
