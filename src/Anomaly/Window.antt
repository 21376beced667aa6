-- ===== src/Anomaly/Window.antt =====
-- What an alert of the sensor stands on (anomaly-sensor.service.ts), against the log of the failed logins
-- of each address.
use beleqet_ecosystem_update.Base.{
  ℕ, ◌+◌, ◌==◌, ◌&&◌, ◌≡◌, ◌≤◌, refl, inl, inr, length, filter, if◌then◌else◌, true, Bool-cases,
  none, List, [], ◌∷◌, ◌++◌, length-append, lookup, insert, erase, arith, lookup-insert,
  lookup-erase, Distinct, Distinct-insert, Distinct-erase,
}
use native.Mathlib.Nat.{le_of_eq}
use beleqet_ecosystem_update.Anomaly.{
  AuthFailures, SensorEvent, is_recent, get_failures, recent_failures, make_room, evict_oldest,
  prune_stale, handle_auth_failed, reset_failures, handle_auth_success, sensor_step, sensor_steps,
  failures_allowed,
}

-- The failed logins of an address that lie within the window of `now`, since its last login that
-- succeeded and the last alert about it: `before` and those of the events.
pub failed_since : ℕ → ℕ → ℕ → List SensorEvent → ℕ
failed_since now email before [] = before
failed_since now email before (SensorEvent.login_failed at who ∷ es) =
    failed_since now email (before + (if who == email && is_recent now at then 1 else 0)) es
failed_since now email before (SensorEvent.alert_sent who ∷ es) =
    failed_since now email (if who == email then 0 else before) es
failed_since now email before (SensorEvent.login_succeeded who ∷ es) =
    failed_since now email (if who == email then 0 else before) es
failed_since now email before (SensorEvent.timer at ∷ es) = failed_since now email before es

count_recent : ℕ → List ℕ → ℕ
count_recent now times = length (filter (is_recent now) times)

-- The failures that the map holds for an address within the window of `now`.
tracked_within : ℕ → ℕ → AuthFailures → ℕ
unfolding get_failures count_recent
tracked_within now email d = count_recent now (get_failures email d)

count_recent-filter :
    (now at : ℕ) (times : List ℕ)
    → count_recent now (filter (is_recent at) times) ≤ count_recent now times
unfolding count_recent
count_recent-filter now at [] = omega arith
count_recent-filter now at (t ∷ times) = ground (arith, count_recent-filter now at times)

count_recent-one : (now at : ℕ) → count_recent now (at ∷ []) ≡ (if is_recent now at then 1 else 0)
unfolding count_recent
count_recent-one now at = ground arith

count_recent-append :
    (now : ℕ) (xs ys : List ℕ)
    → count_recent now (xs ++ ys) ≡ count_recent now xs + count_recent now ys
unfolding count_recent
count_recent-append now [] ys = omega arith
count_recent-append now (x ∷ xs) ys = ground (arith, count_recent-append now xs ys)

tracked_within-erase :
    (now email other : ℕ) (d : AuthFailures)
    → tracked_within now email (erase other d) ≤ tracked_within now email d
unfolding tracked_within count_recent
tracked_within-erase now email other d = let at = lookup-erase other email d in ground arith

tracked_within-evict :
    (now email : ℕ) (d : AuthFailures)
    → tracked_within now email (evict_oldest d) ≤ tracked_within now email d
unfolding evict_oldest
tracked_within-evict now email [] = omega arith
tracked_within-evict now email ((j, t) ∷ d) =
    let less = tracked_within-erase now email j ((j, t) ∷ d) in ground arith

tracked_within-make_room :
    (now email other : ℕ) (d : AuthFailures)
    → tracked_within now email (make_room other d) ≤ tracked_within now email d
unfolding make_room
tracked_within-make_room now email other d =
    let less = tracked_within-evict now email d in ground arith

tracked_within-insert :
    (now email other : ℕ) (times : List ℕ) (d : AuthFailures)
    → tracked_within now email (insert other times d)
      ≡ (if other == email then count_recent now times else tracked_within now email d)
unfolding tracked_within
tracked_within-insert now email other times d =
    let at = lookup-insert other email times d in ground arith

tracked_within-failed :
    (now email at other : ℕ) (d : AuthFailures)
    → tracked_within now email (handle_auth_failed at other d).1
      ≤ tracked_within now email d + (if other == email && is_recent now at then 1 else 0)
unfolding handle_auth_failed recent_failures tracked_within
tracked_within-failed now email at other d =
    let put =
      tracked_within-insert now email other (recent_failures at other d) (make_room other d) in
    let roomed = tracked_within-make_room now email other d in
    let sum = count_recent-append now (filter (is_recent at) (get_failures other d)) (at ∷ []) in
    let few = count_recent-filter now at (get_failures other d) in
    let one : count_recent now (at ∷ []) ≡ (if is_recent now at then 1 else 0) =
      count_recent-one now at in
    elim (Bool-cases (other == email)) [ inl same ↦ ground arith | inr elsewhere ↦ ground arith ]

lookup-prune_stale-none :
    (at email : ℕ) (d : AuthFailures)
    → lookup email d ≡ none
    → lookup email (prune_stale at d) ≡ none
unfolding prune_stale lookup
lookup-prune_stale-none at email [] h = refl
lookup-prune_stale-none at email ((j, t) ∷ d) h = ground (arith, lookup-prune_stale-none at email d)

tracked_within-prune :
    (now email at : ℕ) (d : AuthFailures)
    → Distinct d
    → tracked_within now email (prune_stale at d) ≤ tracked_within now email d
unfolding prune_stale tracked_within get_failures lookup
tracked_within-prune now email at [] u = omega arith
tracked_within-prune now email at ((j, t) ∷ d) u =
    let rest = tracked_within-prune now email at d u.1 in
    let gone = lookup-prune_stale-none at email d in
    let few = count_recent-filter now at t in
    elim (Bool-cases (j == email)) [ inl same ↦ ground arith | inr elsewhere ↦ ground arith ]

Distinct-prune : (at : ℕ) (d : AuthFailures) → Distinct d → Distinct (prune_stale at d)
unfolding prune_stale
Distinct-prune at [] u = tt
Distinct-prune at ((j, t) ∷ d) u =
    let gone = lookup-prune_stale-none at j d in let rest = Distinct-prune at d u.1 in ground arith

Distinct-make_room : (email : ℕ) (d : AuthFailures) → Distinct d → Distinct (make_room email d)
unfolding make_room evict_oldest
Distinct-make_room email [] u = ground arith
Distinct-make_room email ((j, t) ∷ d) u = let left = Distinct-erase j ((j, t) ∷ d) u in ground arith

Distinct-sensor_step :
    (e : SensorEvent) (d : AuthFailures) → Distinct d → Distinct (sensor_step e d)
unfolding sensor_step handle_auth_failed reset_failures handle_auth_success
Distinct-sensor_step (SensorEvent.login_failed now email) d u =
    Distinct-insert email (recent_failures now email d) (make_room email d)
      (Distinct-make_room email d u)
Distinct-sensor_step (SensorEvent.alert_sent email) d u = Distinct-insert email [] d u
Distinct-sensor_step (SensorEvent.login_succeeded email) d u = Distinct-erase email d u
Distinct-sensor_step (SensorEvent.timer now) d u = Distinct-prune now d u

tracked_within-none : (now email : ℕ) → tracked_within now email [] ≡ 0
unfolding tracked_within get_failures count_recent lookup
tracked_within-none now email = refl

tracked_within-reset :
    (now email before who : ℕ) (d : AuthFailures)
    → tracked_within now email d ≤ before
    → tracked_within now email (reset_failures who d) ≤ (if who == email then 0 else before)
unfolding reset_failures count_recent
tracked_within-reset now email before who d low =
    let put = tracked_within-insert now email who [] d in
    elim (Bool-cases (who == email)) [ inl same ↦ ground arith | inr elsewhere ↦ ground arith ]

tracked_within-success :
    (now email before who : ℕ) (d : AuthFailures)
    → tracked_within now email d ≤ before
    → tracked_within now email (handle_auth_success who d) ≤ (if who == email then 0 else before)
unfolding handle_auth_success tracked_within get_failures count_recent
tracked_within-success now email before who d low =
    let gone = lookup-erase who email d in
    elim (Bool-cases (who == email)) [ inl same ↦ ground arith | inr elsewhere ↦ ground arith ]

tracked_within-enough :
    (now email limit : ℕ) (d : AuthFailures)
    → tracked_within now email d ≤ limit
    → failures_allowed ≤ length (filter (is_recent now) (get_failures email d))
    → failures_allowed ≤ limit
unfolding tracked_within count_recent
tracked_within-enough now email limit d low many = omega arith

-- The map never holds more failures of an address than there were.
tracked_within-failed_since :
    (now email before : ℕ) (es : List SensorEvent) (d : AuthFailures)
    → Distinct d
    → tracked_within now email d ≤ before
    → tracked_within now email (sensor_steps es d) ≤ failed_since now email before es
unfolding sensor_steps failed_since sensor_step
tracked_within-failed_since now email before [] d u low = low
tracked_within-failed_since now email before (SensorEvent.login_failed at who ∷ es) d u low =
    let one = tracked_within-failed now email at who d in
    tracked_within-failed_since now email
      (before + (if who == email && is_recent now at then 1 else 0)) es
      (sensor_step (SensorEvent.login_failed at who) d)
      (Distinct-sensor_step (SensorEvent.login_failed at who) d u) (omega arith)
tracked_within-failed_since now email before (SensorEvent.alert_sent who ∷ es) d u low =
    tracked_within-failed_since now email (if who == email then 0 else before) es
      (sensor_step (SensorEvent.alert_sent who) d)
      (Distinct-sensor_step (SensorEvent.alert_sent who) d u)
      (tracked_within-reset now email before who d low)
tracked_within-failed_since now email before (SensorEvent.login_succeeded who ∷ es) d u low =
    tracked_within-failed_since now email (if who == email then 0 else before) es
      (sensor_step (SensorEvent.login_succeeded who) d)
      (Distinct-sensor_step (SensorEvent.login_succeeded who) d u)
      (tracked_within-success now email before who d low)
tracked_within-failed_since now email before (SensorEvent.timer at ∷ es) d u low =
    let one = tracked_within-prune now email at d u in
    tracked_within-failed_since now email before es (sensor_step (SensorEvent.timer at) d)
      (Distinct-sensor_step (SensorEvent.timer at) d u) (omega arith)

-- From a start of the service on, whatever the events, an alert about an address is only sent where more
-- than five of its logins failed in the window of five minutes, the one of now included, since its last
-- login that succeeded and the reset after the last alert about it.
pub alert_is_earned :
    (now email : ℕ) (es : List SensorEvent)
    → (handle_auth_failed now email (sensor_steps es [])).0 ≡ true
    → failures_allowed ≤ failed_since now email 0 es
unfolding handle_auth_failed recent_failures
alert_is_earned now email es alert =
    let held =
      tracked_within-failed_since now email 0 es [] tt (le_of_eq (tracked_within-none now email)) in
    let sum =
      length-append {A = ℕ} (filter (is_recent now) (get_failures email (sensor_steps es [])))
        (now ∷ []) in
    tracked_within-enough now email (failed_since now email 0 es) (sensor_steps es []) held
      (ground arith)
