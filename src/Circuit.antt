-- ===== src/Circuit.antt =====
-- src/modules/video-interview/circuit-breaker.service.ts: the circuit breaker of the AI services.
-- The circuits are independent of one another and this models one of them, by name looked up once.
-- `execute` is asynchronous: what happens before the action starts (`admit`) and what happens when it
-- ends (`settle`) are two steps, and steps of other calls may come between them. Times are
-- milliseconds; the deadline of an action is a way for it to fail.
pub mod Laws
pub mod Recovery
pub mod Probes
mod Tests
use beleqet_ecosystem_update.Base.{
  ℕ, suc, ◌+◌, ◌-◌, ◌==◌, ltb, leb, if◌then◌else◌, Bool, true, false, ◌||◌, Option, none, some,
  List, [], ◌∷◌, Dict, lookup, insert, erase,
}

pub data CircuitState : Type 0 where
  closed tripped half_open : CircuitState  -- `tripped` is OPEN

pub record CircuitBreakerOptions : Type 0 where
  pub failure_threshold : ℕ
  pub success_threshold : ℕ
  pub timeout : ℕ
  pub execution_timeout : ℕ

pub record CircuitSnapshot : Type 0 where
  pub state : CircuitState
  pub failure_count : ℕ
  pub success_count : ℕ
  pub last_failure_time : ℕ
  pub next_retry_time : ℕ
  pub half_open_probe_in_flight : Bool

abbrev pub defaults : CircuitBreakerOptions
defaults = record {
  failure_threshold = 3;
  success_threshold = 2;
  timeout = 30_000;
  execution_timeout = 60_000;
}

abbrev pub fresh : CircuitSnapshot
fresh = record {
  state = CircuitState.closed;
  failure_count = 0;
  success_count = 0;
  last_failure_time = 0;
  next_retry_time = 0;
  half_open_probe_in_flight = false;
}

claim_probe : CircuitSnapshot → CircuitSnapshot
claim_probe c = record c {
  state = CircuitState.half_open;
  success_count = 0;
  half_open_probe_in_flight = true;
}

-- The guard of `execute`: the circuit as it is when the action starts, or `none` for a fast fail,
-- which changes nothing.
pub admit_in : CircuitState → ℕ → CircuitSnapshot → Option CircuitSnapshot
unfolding claim_probe
admit_in CircuitState.tripped now c =
    if ltb now c.next_retry_time then none else some (claim_probe c)
admit_in CircuitState.half_open now c =
    if c.half_open_probe_in_flight
    then none
    else some (record c { half_open_probe_in_flight = true })
admit_in CircuitState.closed now c = some c

pub admit : ℕ → CircuitSnapshot → Option CircuitSnapshot
unfolding admit_in
admit now c = admit_in c.state now c

is_half_open : CircuitState → Bool
is_half_open CircuitState.half_open = true
is_half_open _ = false

record_probe_success : CircuitBreakerOptions → CircuitSnapshot → CircuitSnapshot
record_probe_success opts d =
    let e = record d { success_count = suc d.success_count } in
    if leb opts.success_threshold e.success_count
    then record e { state = CircuitState.closed }
    else e

pub record_success : CircuitBreakerOptions → CircuitSnapshot → CircuitSnapshot
unfolding is_half_open record_probe_success
record_success opts c =
    let d = record c { failure_count = 0 } in
    if is_half_open c.state then record_probe_success opts d else d

pub record_failure : CircuitBreakerOptions → ℕ → CircuitSnapshot → CircuitSnapshot
unfolding is_half_open
record_failure opts now c =
    let d = record c { failure_count = suc c.failure_count; last_failure_time = now } in
    if is_half_open d.state || leb opts.failure_threshold d.failure_count
    then record d { state = CircuitState.tripped; next_retry_time = now + opts.timeout }
    else d

-- How an action ended, and the `try`, `catch` and `finally` round it.
pub data Ended : Type 0 where
  succeeded failed : Ended

record_end : CircuitBreakerOptions → ℕ → Ended → CircuitSnapshot → CircuitSnapshot
unfolding record_success record_failure
record_end opts now succeeded c = record_success opts c
record_end opts now failed c = record_failure opts now c

pub settle : CircuitBreakerOptions → ℕ → Ended → CircuitSnapshot → CircuitSnapshot
unfolding record_end
settle opts now ended c = record (record_end opts now ended c) { half_open_probe_in_flight = false }

-- How long an action may run: `runWithExecutionTimeout` sets no deadline for 0.
unfoldable pub ends_by_deadline : CircuitBreakerOptions → ℕ → Ended → Ended
ends_by_deadline opts ran ended =
    if ltb 0 opts.execution_timeout
    then if ltb opts.execution_timeout ran then failed else ended
    else ended

-- A call that no other call interleaves with: `none` is a fast fail.
pub execute : CircuitBreakerOptions → ℕ → ℕ → Ended → CircuitSnapshot → Option CircuitSnapshot
unfolding admit settle ends_by_deadline
execute opts now ran ended c = elim (admit now c) [
  | none ↦ none
  | some d ↦ some (settle opts (now + ran) (ends_by_deadline opts ran ended) d)
]

-- The map of circuits.
pub get_or_create : ℕ → Dict CircuitSnapshot → CircuitSnapshot × Dict CircuitSnapshot
get_or_create name circuits = elim (lookup name circuits) [
  | some c ↦ (c, circuits)
  | none ↦ (fresh, insert name fresh circuits)
]

pub get_state : ℕ → Dict CircuitSnapshot → CircuitState
get_state name circuits = elim (lookup name circuits) [
  | none ↦ CircuitState.closed
  | some c ↦ c.state
]

pub reset : ℕ → Dict CircuitSnapshot → Dict CircuitSnapshot
reset name circuits = erase name circuits

-- Calls of `execute` in flight: those that were admitted while the circuit was closed, and probes.
pub record System : Type 0 where
  pub circuit : CircuitSnapshot
  pub ordinary : ℕ
  pub probes : ℕ

-- What the event loop does next: a new call arrives, or one in flight ends, at a time.
pub data Turn : Type 0 where
  arrives : ℕ → Turn
  ordinary_ends probe_ends : ℕ → Ended → Turn

start_call : CircuitState → CircuitSnapshot → System → System
start_call CircuitState.closed d s = record s { circuit = d; ordinary = suc s.ordinary }
start_call _ d s = record s { circuit = d; probes = suc s.probes }

unfoldable pub step : CircuitBreakerOptions → Turn → System → System
unfolding admit settle start_call
step opts (arrives now) s = elim (admit now s.circuit) [
  | none ↦ s
  | some d ↦ start_call s.circuit.state d s
]
step opts (ordinary_ends now ended) s =
    if s.ordinary == 0
    then s
    else record s { circuit = settle opts now ended s.circuit; ordinary = s.ordinary - 1 }
step opts (probe_ends now ended) s =
    if s.probes == 0
    then s
    else record s { circuit = settle opts now ended s.circuit; probes = s.probes - 1 }

unfoldable pub run : CircuitBreakerOptions → List Turn → System → System
run opts [] s = s
run opts (t ∷ ts) s = run opts ts (step opts t s)
