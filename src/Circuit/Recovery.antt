-- ===== src/Circuit/Recovery.antt =====
-- Successful calls of an open circuit, for calls that run one after another
-- (circuit-breaker.service.ts).
use beleqet_ecosystem_update.Base.{
  ℕ, suc, ◌+◌, ◌≤◌, ◌<◌, ◌≡◌, refl, ap, ◌∙◌, false, Option, none, some, arith, List, [], ◌∷◌,
  length, ◌⊎◌,
}
use beleqet_ecosystem_update.Circuit.{
  CircuitState, CircuitBreakerOptions, CircuitSnapshot, succeeded, execute,
}

-- Calls one after another that succeed, each with the time at which it comes and the time that it takes;
-- the circuit after them if none is refused.
pub successes : CircuitBreakerOptions → List (ℕ × ℕ) → CircuitSnapshot → Option CircuitSnapshot
successes opts [] c = some c
successes opts ((now, ran) ∷ calls) c = elim (execute opts now ran succeeded c) [
  | none ↦ none
  | some d ↦ successes opts calls d
]

-- The calls end before the deadline, where there is one.
abbrev pub InTime : CircuitBreakerOptions → List (ℕ × ℕ) → Type 0
InTime opts [] = Unit {0}
InTime opts ((_, ran) ∷ calls) =
    ((opts.execution_timeout ≡ 0) ⊎ (ran ≤ opts.execution_timeout)) × InTime opts calls

-- A circuit after `k` successful probes, half open or closed.
abbrev pub recovering : CircuitState → ℕ → CircuitSnapshot → CircuitSnapshot
recovering state k c = record c {
  state = state;
  failure_count = 0;
  success_count = k;
  half_open_probe_in_flight = false;
}

-- The first success after the cooldown is the first of the probes.
first_success :
    (opts : CircuitBreakerOptions) (now ran : ℕ) (c : CircuitSnapshot)
    → c.state ≡ CircuitState.tripped
    → c.next_retry_time ≤ now
    → (opts.execution_timeout ≡ 0) ⊎ (ran ≤ opts.execution_timeout)
    → (1 < opts.success_threshold
        → execute opts now ran succeeded c ≡ some (recovering CircuitState.half_open 1 c))
      × (opts.success_threshold ≤ 1
          → execute opts now ran succeeded c ≡ some (recovering CircuitState.closed 1 c))
unfolding execute
first_success opts now ran c h t d = ground arith

next_success :
    (opts : CircuitBreakerOptions) (now ran k : ℕ) (c : CircuitSnapshot)
    → (opts.execution_timeout ≡ 0) ⊎ (ran ≤ opts.execution_timeout)
    → let half = recovering CircuitState.half_open k c in
      (suc k < opts.success_threshold
        → execute opts now ran succeeded half ≡ some (recovering CircuitState.half_open (suc k) c))
      × (opts.success_threshold ≤ suc k
          → execute opts now ran succeeded half ≡ some (recovering CircuitState.closed (suc k) c))
unfolding execute
next_success opts now ran k c d = ground arith

-- The probes that are left.
successes_left :
    (opts : CircuitBreakerOptions) (now ran : ℕ) (calls : List (ℕ × ℕ)) (k : ℕ)
    (c : CircuitSnapshot)
    → k + suc (length calls) ≡ opts.success_threshold
    → InTime opts ((now, ran) ∷ calls)
    → successes opts ((now, ran) ∷ calls) (recovering CircuitState.half_open k c)
      ≡ some (recovering CircuitState.closed (k + suc (length calls)) c)
unfolding successes
successes_left opts now ran [] k c h d =
    rw ((next_success opts now ran k c d.0).1 (omega arith), successes)
      (ap (λ m. some (recovering CircuitState.closed m c)) (omega arith))
successes_left opts now ran ((next, took) ∷ calls) k c h d =
    rw ((next_success opts now ran k c d.0).0 (omega arith), successes)
      (successes_left opts next took calls (suc k) c (omega arith) d.1
        ∙ ap (λ m. some (recovering CircuitState.closed m c)) (omega arith))

-- From an open circuit, as many calls that succeed one after another as the success threshold asks for,
-- of which the first comes once the cooldown is over and the others whenever they do, are all let
-- through and close it, with no failure counted and no probe left; none of them runs beyond the
-- deadline, where there is one, and the threshold is positive.
pub successes_close :
    (opts : CircuitBreakerOptions) (now ran : ℕ) (calls : List (ℕ × ℕ)) (c : CircuitSnapshot)
    → c.state ≡ CircuitState.tripped
    → c.next_retry_time ≤ now
    → suc (length calls) ≡ opts.success_threshold
    → InTime opts ((now, ran) ∷ calls)
    → successes opts ((now, ran) ∷ calls) c
      ≡ some (recovering CircuitState.closed (suc (length calls)) c)
unfolding successes
successes_close opts now ran [] c h t p d =
    rw ((first_success opts now ran c h t d.0).1 (omega arith), successes) refl
successes_close opts now ran ((next, took) ∷ calls) c h t p d =
    rw ((first_success opts now ran c h t d.0).0 (omega arith), successes)
      (successes_left opts next took calls 1 c (omega arith) d.1
        ∙ ap (λ m. some (recovering CircuitState.closed m c)) (omega arith))
