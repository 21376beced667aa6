-- ===== src/Anomaly.antt =====
-- src/modules/anomaly-sensor/anomaly-sensor.service.ts: the failed logins of each email address, and the
-- alert after more than five of them in five minutes. Addresses are numbers, 0 the empty one, which as a
-- key of the map is falsy; times are milliseconds. The handler of a failure is two steps: up to the alert,
-- and the reset after it was sent, between which other events are handled.
pub mod Bounds
pub mod Window
mod Tests
use beleqet_ecosystem_update.Base.{
  ℕ, ◌+◌, ◌*◌, ◌==◌, ◌&&◌, ltb, leb, not, length, filter, is_some, if◌then◌else◌, Bool, true, false,
  Option, none, some, List, [], ◌∷◌, ◌++◌, Dict, lookup, insert, erase,
}

abbrev pub max_tracked_emails : ℕ
max_tracked_emails = 10_000

abbrev pub window_ms : ℕ
window_ms = 5 * 60 * 1_000

abbrev pub failures_allowed : ℕ
failures_allowed = 5

abbrev pub AuthFailures : Type 0
AuthFailures = Dict (List ℕ)

-- `time > now - 5 minutes`, written without the subtraction.
abbrev pub is_recent : ℕ → ℕ → Bool
is_recent now time = ltb now (time + window_ms)

-- `pruneStaleAuthFailures`.
pub prune_stale : ℕ → AuthFailures → AuthFailures
prune_stale now [] = []
prune_stale now ((email, times) ∷ d) =
    let recent = filter (is_recent now) times in
    let rest = prune_stale now d in if length recent == 0 then rest else (email, recent) ∷ rest

pub get_failures : ℕ → AuthFailures → List ℕ
get_failures email d = elim (lookup email d) [ none ↦ [] | some times ↦ times ]

-- The failures of the window with the one of now.
pub recent_failures : ℕ → ℕ → AuthFailures → List ℕ
unfolding get_failures
recent_failures now email d = filter (is_recent now) (get_failures email d) ++ (now ∷ [])

-- The oldest entry goes; `if (oldestKey)` keeps an empty one.
pub evict_oldest : AuthFailures → AuthFailures
evict_oldest [] = []
evict_oldest ((oldest, times) ∷ d) =
    if oldest == 0 then (oldest, times) ∷ d else erase oldest ((oldest, times) ∷ d)

pub make_room : ℕ → AuthFailures → AuthFailures
unfolding evict_oldest
make_room email d =
    if not (is_some (lookup email d)) && leb max_tracked_emails (length d)
    then evict_oldest d
    else d

-- `handleAuthFailed` up to the alert: whether one is sent, and the map.
pub handle_auth_failed : ℕ → ℕ → AuthFailures → Bool × AuthFailures
unfolding recent_failures make_room
handle_auth_failed now email d = (
  ltb failures_allowed (length (recent_failures now email d)),
  insert email (recent_failures now email d) (make_room email d),
)

-- The rest of it, after the alert.
pub reset_failures : ℕ → AuthFailures → AuthFailures
reset_failures email d = insert email [] d

pub handle_auth_success : ℕ → AuthFailures → AuthFailures
handle_auth_success email d = erase email d

-- What happens to the map.
pub data SensorEvent : Type 0 where
  login_failed : ℕ → ℕ → SensorEvent
  alert_sent login_succeeded timer : ℕ → SensorEvent

pub sensor_step : SensorEvent → AuthFailures → AuthFailures
unfolding handle_auth_failed reset_failures handle_auth_success prune_stale
sensor_step (SensorEvent.login_failed now email) d = (handle_auth_failed now email d).1
sensor_step (SensorEvent.alert_sent email) d = reset_failures email d
sensor_step (SensorEvent.login_succeeded email) d = handle_auth_success email d
sensor_step (SensorEvent.timer now) d = prune_stale now d

pub sensor_steps : List SensorEvent → AuthFailures → AuthFailures
unfolding sensor_step
sensor_steps [] d = d
sensor_steps (e ∷ es) d = sensor_steps es (sensor_step e d)
