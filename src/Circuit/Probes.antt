-- ===== src/Circuit/Probes.antt =====
-- Probes when calls overlap (circuit-breaker.service.ts).
use beleqet_ecosystem_update.Base.{ℕ, suc, ◌≤◌, ◌<◌, ◌≡◌, ◌≢◌, true, List, [], ◌∷◌, arith}
use beleqet_ecosystem_update.Circuit.{
  CircuitState, CircuitBreakerOptions, Ended, succeeded, System, Turn, arrives, ordinary_ends,
  probe_ends, step, run,
}

-- At most one probe is in flight, and while one is, the circuit is half-open and its slot is taken.
pub record OneProbe (s : System) : Type 0 where
  pub at_most_one : s.probes ≤ 1
  pub slot_taken : 0 < s.probes → s.circuit.half_open_probe_in_flight ≡ true
  pub probing : 0 < s.probes → s.circuit.state ≡ CircuitState.half_open

-- No call that was admitted while the circuit was closed ends while it is half-open.
unfoldable pub Timely : CircuitBreakerOptions → List Turn → System → Type 0
Timely opts [] s = Unit
Timely opts (arrives now ∷ ts) s = Timely opts ts (step opts (arrives now) s)
Timely opts (probe_ends now ended ∷ ts) s = Timely opts ts (step opts (probe_ends now ended) s)
Timely opts (ordinary_ends now ended ∷ ts) s =
    (s.circuit.state ≢ CircuitState.half_open)
    × Timely opts ts (step opts (ordinary_ends now ended) s)

arrives-OneProbe :
    (opts : CircuitBreakerOptions) (now : ℕ) (s : System)
    → OneProbe s
    → OneProbe (step opts (arrives now) s)
unfolding step
arrives-OneProbe opts now s v = ground arith

probe_ends-OneProbe :
    (opts : CircuitBreakerOptions) (now : ℕ) (ended : Ended) (s : System)
    → OneProbe s
    → OneProbe (step opts (probe_ends now ended) s)
unfolding step
probe_ends-OneProbe opts now ended s v = ground arith

ordinary_ends-OneProbe :
    (opts : CircuitBreakerOptions) (now : ℕ) (ended : Ended) (s : System)
    → s.circuit.state ≢ CircuitState.half_open
    → OneProbe s
    → OneProbe (step opts (ordinary_ends now ended) s)
unfolding step
ordinary_ends-OneProbe opts now ended s h v = ground arith

-- Over any interleaving of calls in which no call from before the trip ends while the circuit is
-- half-open, at most one probe is in flight, and it holds the slot of a half-open circuit.
pub run-OneProbe :
    (opts : CircuitBreakerOptions) (ts : List Turn) (s : System)
    → Timely opts ts s
    → OneProbe s
    → OneProbe (run opts ts s)
unfolding run Timely
run-OneProbe opts [] s h v = v
run-OneProbe opts (arrives now ∷ ts) s h v =
    run-OneProbe opts ts (step opts (arrives now) s) h (arrives-OneProbe opts now s v)
run-OneProbe opts (probe_ends now ended ∷ ts) s h v =
    run-OneProbe opts ts (step opts (probe_ends now ended) s) h
      (probe_ends-OneProbe opts now ended s v)
run-OneProbe opts (ordinary_ends now ended ∷ ts) s h v =
    run-OneProbe opts ts (step opts (ordinary_ends now ended) s) h.1
      (ordinary_ends-OneProbe opts now ended s h.0 v)

-- Without that condition it fails: while a probe runs on a half-open circuit that needs two more
-- successes, a call from before the trip that succeeds gives the slot of the probe away, and the next
-- call that arrives becomes one more probe.
pub stale_call_frees_slot :
    (opts : CircuitBreakerOptions) (s : System) (now later : ℕ)
    → s.circuit.state ≡ CircuitState.half_open
    → s.circuit.half_open_probe_in_flight ≡ true
    → suc s.circuit.success_count < opts.success_threshold
    → 0 < s.ordinary
    → (run opts (ordinary_ends now succeeded ∷ arrives later ∷ []) s).probes ≡ suc s.probes
unfolding run step
stale_call_frees_slot opts s now later h f p o = ground arith
