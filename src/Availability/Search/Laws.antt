-- ===== src/Availability/Search/Laws.antt =====
-- The search of `findEarliestAvailableSlot` (helpers/availability.helper.ts).
use beleqet_ecosystem_update.Base.{
  ℕ, zero, suc, ◌+◌, ◌-◌, ◌*◌, ◌≤◌, ◌<◌, ◌≡◌, refl, ◌∙◌, ◌⊎◌, Bool, true, false, some, List, [],
  ◌∷◌, arith, Bool-cases, Option-cases, inl, inr,
}
use beleqet_ecosystem_update.Availability.Overlap.{Window}
use beleqet_ecosystem_update.Availability.Search.{try_window, find_earliest}

-- What a result of the search in a window promises: a free stretch of the asked length inside it.
pub record Fits (busy : ℕ → ℕ → Bool) (step start : ℕ) (w r : Window) : Type 0 where
  pub not_before : start ≤ r.start_time
  pub inside : r.end_time ≤ w.end_time
  pub long : r.end_time ≡ r.start_time + step
  pub free : busy r.start_time r.end_time ≡ false

try_window-Fits :
    (busy : ℕ → ℕ → Bool) (step fuel start : ℕ) (w r : Window)
    → try_window busy step fuel start w ≡ some r
    → Fits busy step start w r
unfolding try_window
try_window-Fits busy step zero start w r h = cc
try_window-Fits busy step (suc fuel) start w r h =
    ground (arith, try_window-Fits busy step fuel (start + step) w r)

-- The first round of the search, by what it finds at the start.
try_window_free :
    (busy : ℕ → ℕ → Bool) (step fuel start : ℕ) (w : Window)
    → start + step ≤ w.end_time
    → busy start (start + step) ≡ false
    → try_window busy step (suc fuel) start w
      ≡ some (record w { start_time = start; end_time = start + step })
unfolding try_window
try_window_free busy step fuel start w h b = ground arith

try_window_busy :
    (busy : ℕ → ℕ → Bool) (step fuel start : ℕ) (w : Window)
    → start + step ≤ w.end_time
    → busy start (start + step) ≡ true
    → try_window busy step (suc fuel) start w ≡ try_window busy step fuel (start + step) w
unfolding try_window
try_window_busy busy step fuel start w h b = ground arith

-- Enough fuel: no start on the grid that fits and is free is passed over.
try_window_complete :
    (busy : ℕ → ℕ → Bool) (step fuel start k t : ℕ) (w : Window)
    → 0 < step
    → w.end_time - start < fuel
    → t ≡ start + k * step
    → t + step ≤ w.end_time
    → busy t (t + step) ≡ false
    → (r : Window) × (try_window busy step fuel start w ≡ some r) × (r.start_time ≤ t)
try_window_complete busy step zero start k t w p f e h b = absurd (omega arith)
try_window_complete busy step (suc fuel) start zero t w p f e h b =
    let same : t ≡ start = omega arith in
    (_, try_window_free busy step fuel start w (omega arith) (rw (← same) b), omega arith)
try_window_complete busy step (suc fuel) start (suc k) t w p f e h b =
    elim (Bool-cases (busy start (start + step))) [
      | inl taken ↦
          let (r, found, early) =
            try_window_complete busy step fuel (start + step) k t w p (grind arith) (grind arith) h
              b in
          (r, try_window_busy busy step fuel start w (grind arith) taken ∙ found, early)
      | inr free ↦ (_, try_window_free busy step fuel start w (grind arith) free, grind arith)
    ]

-- In the first window, whose grid of starts has one that fits and is free, the search finds a stretch
-- of the asked length inside the window, free, and no later than that start.
pub find_earliest_in_first :
    (busy : ℕ → ℕ → Bool) (step k : ℕ) (w : Window) (ws : List Window)
    → 0 < step
    → w.start_time + k * step + step ≤ w.end_time
    → busy (w.start_time + k * step) (w.start_time + k * step + step) ≡ false
    → (r : Window) × (find_earliest busy step (w ∷ ws) ≡ some r)
      × Fits busy step w.start_time w r
      × (r.start_time ≤ w.start_time + k * step)
unfolding find_earliest
find_earliest_in_first busy step k w ws p h b =
    let (r, found, early) =
      try_window_complete busy step (suc (w.end_time - w.start_time)) w.start_time k
        (w.start_time + k * step) w p (omega arith) refl h b in
    (
      r,
      rw (found, find_earliest) refl,
      try_window-Fits busy step (suc (w.end_time - w.start_time)) w.start_time w r found,
      early,
    )

-- A stretch that one of the windows promises.
abbrev pub FitsOne : (ℕ → ℕ → Bool) → ℕ → List Window → Window → Type 0
FitsOne busy step [] r = ⊥
FitsOne busy step (w ∷ ws) r = Fits busy step w.start_time w r ⊎ FitsOne busy step ws r

-- Whatever the windows, a stretch that is found has the asked length, is free, and lies inside one of
-- them.
pub find_earliest-FitsOne :
    (busy : ℕ → ℕ → Bool) (step : ℕ) (ws : List Window) (r : Window)
    → find_earliest busy step ws ≡ some r
    → FitsOne busy step ws r
unfolding find_earliest
find_earliest-FitsOne busy step [] r h = cc
find_earliest-FitsOne busy step (w ∷ ws) r h =
    elim (Option-cases (try_window busy step (suc (w.end_time - w.start_time)) w.start_time w)) [
      | inl missed ↦ inr (find_earliest-FitsOne busy step ws r (rw (missed, find_earliest) at h))
      | inr (s, found) ↦ inl (
          try_window-Fits busy step (suc (w.end_time - w.start_time)) w.start_time w r
            (found ∙ (rw (found, find_earliest) at h)))
    ]
