-- ===== src/Recurrence/Laws.antt =====
-- `track` and what it keeps (error-recurrence-tracker.service.ts).
use beleqet_ecosystem_update.Base.{
  ℕ, ◌+◌, ◌≤◌, ◌≡◌, refl, true, false, List, [], ◌∷◌, ◌++◌, length, drop, filter, All, All-append,
  All-drop, length-drop, length-append, filter-All, insert, lookup-insert, arith, ltb,
  if◌then◌else◌, Bool-cases, drop-append, ◌==◌, ==_refl, inl, inr, leb, not, ◌&&◌, ◌-◌, ◌≢◌,
}
use beleqet_ecosystem_update.Recurrence.{
  Tracker, ErrorOccurrence, track, refreshed, history, is_recent, trigger_alert, max_occurrences,
  has, remove, occurrence, top_n, paths,
}

-- A history that `track` may leave behind: within the cap, all recent, with short messages.
pub record IsBounded (now window : ℕ) (os : List ErrorOccurrence) : Type 0 where
  pub capped : length os ≤ max_occurrences
  pub recent : All (λ o. is_recent now window o ≡ true) os

refreshed-IsBounded :
    (now window : ℕ) (new : ErrorOccurrence) (os : List ErrorOccurrence)
    → is_recent now window new ≡ true
    → IsBounded now window (refreshed now window new os)
unfolding refreshed
refreshed-IsBounded now window new os h =
    let fresh = filter (is_recent now window) os ++ new ∷ [] in
    let recent : All (λ o. is_recent now window o ≡ true) fresh =
      All-append _ (filter (is_recent now window) os) (new ∷ []) (filter-All _ os) (h, tt) in
    elim (Bool-cases (ltb max_occurrences (length fresh))) [
      | inl over ↦ rw over (record {
        capped = omega (arith, length-drop (length fresh - max_occurrences) fresh);
        recent = All-drop _ (length fresh - max_occurrences) fresh recent;
      })
      | inr within ↦ rw within (record { capped = ground arith; recent = recent })
    ]

new_recent :
    (now window path : ℕ) (m : List ℕ) → is_recent now window (occurrence now path m) ≡ true
unfolding is_recent occurrence
new_recent now window path m = ground arith

abbrev next_history : ℕ → ℕ → ℕ → List ℕ → Tracker → List ErrorOccurrence
next_history now code path message t =
    refreshed now t.window_ms (occurrence now path message) (history code t)

track_store :
    (now code path : ℕ) (message : List ℕ) (t : Tracker)
    → (track now code path message t).store
      ≡ insert code (next_history now code path message t) t.store
unfolding track trigger_alert
track_store now code path message t = ground arith

history-track :
    (now code path other : ℕ) (message : List ℕ) (t : Tracker)
    → history other (track now code path message t)
      ≡ (if code == other then next_history now code path message t else history other t)
unfolding history
history-track now code path other message t =
    rw (track_store now code path message t)
      (ground (arith, lookup-insert code other (next_history now code path message t) t.store))

-- After `track` the history of the code is within the cap of 500 and inside the window, and the
-- histories of the other codes are as they were.
pub track-IsBounded :
    (now code path other : ℕ) (message : List ℕ) (t : Tracker)
    → let t' = track now code path message t in
      IsBounded now t.window_ms (history code t')
      × (other ≢ code → history other t' ≡ history other t)
track-IsBounded now code path other message t = (
  rw (history-track now code path code message t) (
      rw (==_refl code) (
        refreshed-IsBounded now t.window_ms _ (history code t)
          (new_recent now t.window_ms path message))),
  λ ne. rw (history-track now code path other message t) (ground arith),
)

-- The newest occurrence is always kept, last, also when the history is full.
pub refreshed_keeps_newest :
    (now window : ℕ) (new : ErrorOccurrence) (os : List ErrorOccurrence)
    → (older : List ErrorOccurrence) × (refreshed now window new os ≡ older ++ new ∷ [])
unfolding refreshed
refreshed_keeps_newest now window new os =
    let kept = filter (is_recent now window) os in
    let fresh = kept ++ new ∷ [] in
    let size = length-append kept (new ∷ []) in
    elim (Bool-cases (ltb max_occurrences (length fresh))) [
      | inl over ↦ (
        drop (length fresh - max_occurrences) kept,
        rw over
            (drop-append (length fresh - max_occurrences) kept (new ∷ []) (omega (arith, size))),
      )
      | inr within ↦ (kept, rw within refl)
    ]

remove-has : (code : ℕ) (cs : List ℕ) → has code (remove code cs) ≡ false
remove-has code [] = refl
remove-has code (c ∷ cs) = ground (arith, remove-has code cs)

has-append_self : (code : ℕ) (cs : List ℕ) → has code (cs ++ code ∷ []) ≡ true
has-append_self code [] = ground arith
has-append_self code (c ∷ cs) = ground (arith, has-append_self code cs)

-- After `track` the flag of the code is set exactly if its history has reached the threshold, and one
-- alert is logged exactly if it has and the flag was not set before.
pub track_alerts :
    (now code path : ℕ) (message : List ℕ) (t : Tracker)
    → let t' = track now code path message t in
      let reached = leb t.threshold (length (history code t')) in
      (has code t'.alerted ≡ reached)
      × (length t'.alerts
          ≡ length t.alerts + (if reached && not (has code t.alerted) then 1 else 0))
unfolding track trigger_alert
track_alerts now code path message t = ground (
  arith,
  history-track now code path code message t,
  remove-has code t.alerted,
  has-append_self code t.alerted,
  length-append t.alerts (
      (
        code,
        length (next_history now code path message t),
        top_n (paths (next_history now code path message t)) 3,
      )
      ∷ []),
)
