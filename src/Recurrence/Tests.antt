-- ===== src/Recurrence/Tests.antt =====
-- Runs of the tracker, and the theorems at concrete inputs.
use beleqet_ecosystem_update.Base.{ℕ, lookup, insert, ◌≡◌, refl, ◌≢◌, [], ◌∷◌}
use beleqet_ecosystem_update.Recurrence.{Tracker, ErrorOccurrence, track, history}
use beleqet_ecosystem_update.Recurrence.Laws.{IsBounded, track-IsBounded}

abbrev hit : ℕ → ErrorOccurrence
hit t = record { timestamp = t; path = 1; message = [] }

-- One hit short of an alert at a threshold of two, in a window of 100 ms.
abbrev watching : Tracker
watching = record {
  window_ms = 100;
  threshold = 2;
  store = (7, hit 950 ∷ []) ∷ [];
  alerted = [];
  alerts = [];
}

alert_logged : (track 1000 7 1 [] watching).alerts ≡ (7, 2, 1 ∷ []) ∷ []
unfolding track lookup insert
alert_logged = refl

track-IsBounded_example :
    let t' = track 1000 7 1 [] watching in
    IsBounded 1000 100 (history 7 t') × (◌≢◌ {A = ℕ} 8 7 → history 8 t' ≡ history 8 watching)
track-IsBounded_example = track-IsBounded 1000 7 1 8 [] watching
