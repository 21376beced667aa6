-- ===== src/Anomaly/Tests.antt =====
-- The sensor at concrete inputs.
use beleqet_ecosystem_update.Base.{
  ◌+◌, ◌≡◌, ◌≤◌, refl, length, true, List, [], ◌∷◌, lookup, insert, arith,
}
use beleqet_ecosystem_update.Anomaly.{
  SensorEvent, max_tracked_emails, failures_allowed, handle_auth_failed, sensor_steps,
}
use beleqet_ecosystem_update.Anomaly.Bounds.{
  AllNamed, names_email, no_empty_key, count_alerts_sent, tracked_emails_bound,
}
use beleqet_ecosystem_update.Anomaly.Window.{failed_since, alert_is_earned}

abbrev five_failures : List SensorEvent
five_failures =
    SensorEvent.login_failed 1_000 7
    ∷ SensorEvent.login_failed 1_001 7
    ∷ SensorEvent.login_failed 1_002 7
    ∷ SensorEvent.timer 1_003
    ∷ SensorEvent.login_failed 1_004 7
    ∷ SensorEvent.login_failed 1_005 8
    ∷ SensorEvent.login_failed 1_006 7
    ∷ []

five_failures_named : AllNamed five_failures
unfolding names_email
five_failures_named = (refl, (refl, (refl, (refl, (refl, (refl, (refl, tt)))))))

empty_named : no_empty_key [] ≡ true
unfolding no_empty_key
empty_named = refl

sixth_alerts : (handle_auth_failed 1_007 7 (sensor_steps five_failures [])).0 ≡ true
unfolding handle_auth_failed sensor_steps lookup insert
sixth_alerts = refl

alert_is_earned_example : failures_allowed ≤ failed_since 1_007 7 0 five_failures
alert_is_earned_example = alert_is_earned 1_007 7 five_failures sixth_alerts

tracked_emails_bound_example :
    length (sensor_steps five_failures []) ≤ max_tracked_emails + count_alerts_sent five_failures
tracked_emails_bound_example =
    tracked_emails_bound five_failures max_tracked_emails [] five_failures_named empty_named
      (omega arith) (omega arith)
