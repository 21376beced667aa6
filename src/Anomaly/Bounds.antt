-- ===== src/Anomaly/Bounds.antt =====
-- The number of addresses that the sensor keeps (anomaly-sensor.service.ts).
use beleqet_ecosystem_update.Base.{
  ℕ, ◌+◌, ◌==◌, ◌&&◌, ◌≡◌, ◌≤◌, refl, not, length, is_some, if◌then◌else◌, Bool, true, false, List,
  [], ◌∷◌, lookup, insert, erase, arith, All,
}
use beleqet_ecosystem_update.Anomaly.{
  AuthFailures, SensorEvent, max_tracked_emails, prune_stale, evict_oldest, make_room,
  handle_auth_failed, recent_failures, reset_failures, handle_auth_success, sensor_step,
  sensor_steps,
}

-- The empty address has no entry.
unfoldable pub no_empty_key : AuthFailures → Bool
no_empty_key [] = true
no_empty_key ((email, _) ∷ d) = not (email == 0) && no_empty_key d

length-erase-le : (email : ℕ) (d : AuthFailures) → length (erase email d) ≤ length d
unfolding erase
length-erase-le email [] = omega arith
length-erase-le email ((j, t) ∷ d) = ground (arith, length-erase-le email d)

length-insert :
    (email : ℕ) (times : List ℕ) (d : AuthFailures)
    → length (insert email times d) ≡ (if is_some (lookup email d) then length d else length d + 1)
unfolding insert lookup
length-insert email times [] = omega arith
length-insert email times ((j, t) ∷ d) = ground (arith, length-insert email times d)

length-prune_stale : (now : ℕ) (d : AuthFailures) → length (prune_stale now d) ≤ length d
unfolding prune_stale
length-prune_stale now [] = omega arith
length-prune_stale now ((j, t) ∷ d) = ground (arith, length-prune_stale now d)

no_empty_key-oldest :
    (email : ℕ) (times : List ℕ) (d : AuthFailures)
    → no_empty_key ((email, times) ∷ d) ≡ true
    → (email == 0) ≡ false
unfolding no_empty_key
no_empty_key-oldest email times d h = ground arith

-- Room for a new address, where no address is empty: a map at the limit loses one.
make_room-bound :
    (email limit : ℕ) (d : AuthFailures)
    → no_empty_key d ≡ true
    → max_tracked_emails ≤ limit
    → length d ≤ limit
    → (if is_some (lookup email (make_room email d)) then 0 else 1) + length (make_room email d)
      ≤ limit
unfolding make_room evict_oldest lookup erase
make_room-bound email limit [] named high low = ground arith
make_room-bound email limit ((j, t) ∷ d) named high low =
    let oldest = no_empty_key-oldest j t d named in let left = length-erase-le j d in ground arith

-- The map has no empty address but by an event that names one.
unfoldable pub names_email : SensorEvent → Bool
names_email (SensorEvent.login_failed now email) = not (email == 0)
names_email (SensorEvent.alert_sent email) = not (email == 0)
names_email (SensorEvent.login_succeeded email) = true
names_email (SensorEvent.timer now) = true

insert-no_empty_key :
    (email : ℕ) (times : List ℕ) (d : AuthFailures)
    → (email == 0) ≡ false
    → no_empty_key d ≡ true
    → no_empty_key (insert email times d) ≡ true
unfolding no_empty_key insert
insert-no_empty_key email times [] e h = ground arith
insert-no_empty_key email times ((j, t) ∷ d) e h =
    ground (arith, insert-no_empty_key email times d e)

erase-no_empty_key :
    (email : ℕ) (d : AuthFailures) → no_empty_key d ≡ true → no_empty_key (erase email d) ≡ true
unfolding no_empty_key erase
erase-no_empty_key email [] h = refl
erase-no_empty_key email ((j, t) ∷ d) h = ground (arith, erase-no_empty_key email d)

prune_stale-no_empty_key :
    (now : ℕ) (d : AuthFailures) → no_empty_key d ≡ true → no_empty_key (prune_stale now d) ≡ true
unfolding no_empty_key prune_stale
prune_stale-no_empty_key now [] h = refl
prune_stale-no_empty_key now ((j, t) ∷ d) h = ground (arith, prune_stale-no_empty_key now d)

make_room-no_empty_key :
    (email : ℕ) (d : AuthFailures) → no_empty_key d ≡ true → no_empty_key (make_room email d) ≡ true
unfolding make_room evict_oldest
make_room-no_empty_key email [] h = ground arith
make_room-no_empty_key email ((j, t) ∷ d) h =
    let left = erase-no_empty_key j ((j, t) ∷ d) h in ground arith

abbrev alert_sent_count : SensorEvent → ℕ
alert_sent_count (SensorEvent.login_failed now email) = 0
alert_sent_count (SensorEvent.alert_sent email) = 1
alert_sent_count (SensorEvent.login_succeeded email) = 0
alert_sent_count (SensorEvent.timer now) = 0

-- The alerts whose sending ended.
abbrev pub count_alerts_sent : List SensorEvent → ℕ
count_alerts_sent [] = 0
count_alerts_sent (e ∷ es) = alert_sent_count e + count_alerts_sent es

sensor_step-no_empty_key :
    (e : SensorEvent) (d : AuthFailures)
    → names_email e ≡ true
    → no_empty_key d ≡ true
    → no_empty_key (sensor_step e d) ≡ true
unfolding sensor_step names_email handle_auth_failed reset_failures handle_auth_success
sensor_step-no_empty_key (SensorEvent.login_failed now email) d n h =
    insert-no_empty_key email (recent_failures now email d) (make_room email d) (ground arith)
      (make_room-no_empty_key email d h)
sensor_step-no_empty_key (SensorEvent.alert_sent email) d n h =
    insert-no_empty_key email [] d (ground arith) h
sensor_step-no_empty_key (SensorEvent.login_succeeded email) d n h = erase-no_empty_key email d h
sensor_step-no_empty_key (SensorEvent.timer now) d n h = prune_stale-no_empty_key now d h

sensor_step-bound :
    (e : SensorEvent) (limit : ℕ) (d : AuthFailures)
    → no_empty_key d ≡ true
    → max_tracked_emails ≤ limit
    → length d ≤ limit
    → length (sensor_step e d) ≤ limit + alert_sent_count e
unfolding sensor_step handle_auth_failed reset_failures handle_auth_success
sensor_step-bound (SensorEvent.login_failed now email) limit d named high low =
    let room = make_room-bound email limit d named high low in
    let size = length-insert email (recent_failures now email d) (make_room email d) in ground arith
sensor_step-bound (SensorEvent.alert_sent email) limit d named high low =
    let size = length-insert email [] d in ground arith
sensor_step-bound (SensorEvent.login_succeeded email) limit d named high low =
    let size = length-erase-le email d in omega arith
sensor_step-bound (SensorEvent.timer now) limit d named high low =
    let size = length-prune_stale now d in omega arith

abbrev pub AllNamed : List SensorEvent → Type 0
AllNamed = All (λ e. names_email e ≡ true)

-- Over any events that name their address, the map stays within any limit of 10,000 or more that it was
-- within, but for one entry for each alert whose sending ended, since the reset after an alert adds the
-- address again where it was evicted meanwhile.
pub tracked_emails_bound :
    (es : List SensorEvent) (limit : ℕ) (d : AuthFailures)
    → AllNamed es
    → no_empty_key d ≡ true
    → max_tracked_emails ≤ limit
    → length d ≤ limit
    → length (sensor_steps es d) ≤ limit + count_alerts_sent es
unfolding sensor_steps
tracked_emails_bound [] limit d names named high low = omega arith
tracked_emails_bound (e ∷ es) limit d names named high low =
    let one = sensor_step-bound e limit d named high low in
    let rest =
      tracked_emails_bound es (limit + alert_sent_count e) (sensor_step e d) names.1
        (sensor_step-no_empty_key e d names.0 named) (omega arith) one in
    omega arith
