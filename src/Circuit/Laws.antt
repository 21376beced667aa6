-- ===== src/Circuit/Laws.antt =====
-- Failing calls, for calls that run one after another
-- (circuit-breaker.service.ts).
use beleqet_ecosystem_update.Base.{
  ℕ, suc, ◌+◌, ◌≤◌, ◌<◌, ◌≡◌, refl, ◌↔◌, ◌≢◌, ◌⊎◌, false, Option, Option-cases, inl, inr, ◌∙◌, none,
  some, arith, List, [], ◌∷◌, ◌++◌, length,
}
use beleqet_ecosystem_update.Circuit.{
  CircuitState, CircuitBreakerOptions, CircuitSnapshot, Ended, failed, admit, settle, execute,
}

-- What holds of a circuit between two calls that do not overlap.
pub record IsIdle (opts : CircuitBreakerOptions) (c : CircuitSnapshot) : Type 0 where
  pub below_failures : c.state ≡ CircuitState.closed → c.failure_count < opts.failure_threshold
  pub below_successes : c.state ≡ CircuitState.half_open → c.success_count < opts.success_threshold
  pub no_probe : c.half_open_probe_in_flight ≡ false

-- Every call that is let through, with any outcome and whatever time it takes, keeps the invariant:
-- a closed circuit is below its failure threshold, a half-open one below its success threshold, and
-- no probe slot stays taken. The thresholds are positive.
pub execute-IsIdle :
    (opts : CircuitBreakerOptions) (now ran : ℕ) (ended : Ended) (c d : CircuitSnapshot)
    → 0 < opts.failure_threshold
    → 0 < opts.success_threshold
    → IsIdle opts c
    → execute opts now ran ended c ≡ some d
    → IsIdle opts d
unfolding execute
execute-IsIdle opts now ran ended c d pf ps v h = ground arith

-- A circuit without a probe in flight refuses a call exactly while it is open and the time for a
-- retry has not come.
pub execute-none_iff :
    (opts : CircuitBreakerOptions) (now ran : ℕ) (ended : Ended) (c : CircuitSnapshot)
    → c.half_open_probe_in_flight ≡ false
    → (execute opts now ran ended c ≡ none)
      ↔ ((c.state ≡ CircuitState.tripped) × (now < c.next_retry_time))
unfolding execute
execute-none_iff opts now ran ended c h = ground arith

-- One failure of an admitted call opens the circuit exactly if it was not closed or if it was the
-- failure that reaches the threshold; then it refuses calls for the cooldown from the failure on.
pub fail_trips_iff :
    (opts : CircuitBreakerOptions) (now : ℕ) (c d : CircuitSnapshot)
    → admit now c ≡ some d
    → (later : ℕ)
    → let e = settle opts later failed d in
      ((e.state ≡ CircuitState.tripped)
        ↔ ((c.state ≢ CircuitState.closed) ⊎ (opts.failure_threshold ≤ suc c.failure_count)))
      × (e.state ≡ CircuitState.tripped → e.next_retry_time ≡ later + opts.timeout)
unfolding admit settle
fail_trips_iff opts now c d h later = ground arith

-- Failing calls one after another, each with the time at which it comes and the time that it takes; the
-- circuit after them if none is refused.
pub failures : CircuitBreakerOptions → List (ℕ × ℕ) → CircuitSnapshot → Option CircuitSnapshot
failures opts [] c = some c
failures opts ((now, ran) ∷ calls) c = elim (execute opts now ran failed c) [
  | none ↦ none
  | some d ↦ failures opts calls d
]

abbrev pub one_failure : CircuitBreakerOptions → ℕ → CircuitSnapshot → CircuitSnapshot
one_failure opts ended_at c = settle opts ended_at failed c

one_failure_closed :
    (opts : CircuitBreakerOptions) (now ran : ℕ) (c : CircuitSnapshot)
    → c.state ≡ CircuitState.closed
    → (execute opts now ran failed c ≡ some (one_failure opts (now + ran) c))
      × ((one_failure opts (now + ran) c).failure_count ≡ suc c.failure_count)
      × (suc c.failure_count < opts.failure_threshold
          → (one_failure opts (now + ran) c).state ≡ CircuitState.closed)
      × (opts.failure_threshold ≤ suc c.failure_count
          → ((one_failure opts (now + ran) c).state ≡ CircuitState.tripped)
            × ((one_failure opts (now + ran) c).next_retry_time ≡ now + ran + opts.timeout))
unfolding execute settle
one_failure_closed opts now ran c h = ground arith

failures_below :
    (opts : CircuitBreakerOptions) (calls : List (ℕ × ℕ)) (c : CircuitSnapshot)
    → c.state ≡ CircuitState.closed
    → c.failure_count + length calls < opts.failure_threshold
    → (d : CircuitSnapshot) × (failures opts calls c ≡ some d)
      × (d.state ≡ CircuitState.closed)
      × (d.failure_count ≡ c.failure_count + length calls)
unfolding failures
failures_below opts [] c h p = (c, refl, h, omega arith)
failures_below opts ((now, ran) ∷ calls) c h p =
    let (admitted, counted, stays_closed, trips) = one_failure_closed opts now ran c h in
    let (d, e, g, k) =
      failures_below opts calls (one_failure opts (now + ran) c) (stays_closed (omega arith))
        (omega (arith, counted)) in
    (d, rw (admitted, failures) e, g, omega (arith, counted, k))

failures_append :
    (opts : CircuitBreakerOptions) (calls : List (ℕ × ℕ)) (now ran : ℕ) (c d : CircuitSnapshot)
    → failures opts calls c ≡ some d
    → failures opts (calls ++ ((now, ran) ∷ [])) c ≡ execute opts now ran failed d
unfolding failures
failures_append opts [] now ran c d h = ground arith
failures_append opts ((first, took) ∷ calls) now ran c d h =
    elim (Option-cases (execute opts first took failed c)) [
      | inl refused ↦ ground arith
      | inr (e, admitted) ↦
          rw (admitted, failures)
            (failures_append opts calls now ran e d (rw (admitted, failures) at h))
    ]

-- From a closed circuit, calls that fail one after another, whenever they come and however long they
-- take, are all let through and leave it closed while they stay below the failure threshold, and the
-- one that reaches the threshold is let through too and opens it, with the time of the next retry one
-- cooldown after its end.
pub failures_trip :
    (opts : CircuitBreakerOptions) (calls : List (ℕ × ℕ)) (now ran : ℕ) (c : CircuitSnapshot)
    → c.state ≡ CircuitState.closed
    → c.failure_count + suc (length calls) ≡ opts.failure_threshold
    → (d : CircuitSnapshot) × (failures opts calls c ≡ some d)
      × (d.state ≡ CircuitState.closed)
      × (failures opts (calls ++ ((now, ran) ∷ [])) c ≡ some (one_failure opts (now + ran) d))
      × ((one_failure opts (now + ran) d).state ≡ CircuitState.tripped)
      × ((one_failure opts (now + ran) d).next_retry_time ≡ now + ran + opts.timeout)
failures_trip opts calls now ran c h p =
    let (d, e, g, k) = failures_below opts calls c h (omega arith) in
    let (admitted, counted, _, trips) = one_failure_closed opts now ran d g in
    (
      d,
      e,
      g,
      failures_append opts calls now ran c d e ∙ admitted,
      (trips (omega arith)).0,
      (trips (omega arith)).1,
    )
