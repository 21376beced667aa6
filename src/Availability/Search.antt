-- ===== src/Availability/Search.antt =====
-- The automatic scheduling of interview-planner.service.ts: the search for the earliest time in which
-- two users are both available and free (helpers/availability.helper.ts).
pub mod Laws
use Prim.Native.String.{String}
use beleqet_ecosystem_update.Base.{
  ℕ, zero, suc, ◌+◌, ◌-◌, ◌*◌, ◌/◌, ◌==◌, ltb, leb, if◌then◌else◌, keep_if, Bool, true, false, not,
  ◌&&◌, ◌||◌, Option, none, some, List, [], ◌∷◌, Dict, lookup, insert, erase, find_value, Request,
  bad_request, conflict, forbidden, not_found, ◌>>=◌, ◌>>◌, gets, or_throw, throw, throw_if, modify,
  pure, transaction,
}
use beleqet_ecosystem_update.Availability.Overlap.{Slot, Window, overlaps}
use beleqet_ecosystem_update.Availability.Slots.{
  Planner, Action, Interview, minute_ms, validate_interview_application, duration_of,
  create_interview, candidate_busy, employer_busy, is_missing,
}

-- `findEarliestAvailableSlot`: the inner loop tries starts in steps of the duration `step`, while the
-- interview fits into the window; `fuel` bounds its rounds.
pub try_window : (ℕ → ℕ → Bool) → ℕ → ℕ → ℕ → Window → Option Window
try_window busy step zero start w = none
try_window busy step (suc fuel) start w =
    let rest = try_window busy step fuel (start + step) w in
    if leb (start + step) w.end_time
    then (if busy start (start + step)
        then rest
        else some (record w { start_time = start; end_time = start + step }))
    else none

-- Each round moves the start on by a positive step, so `end - start + 1` rounds are enough.
pub find_earliest : (ℕ → ℕ → Bool) → ℕ → List Window → Option Window
unfolding try_window
find_earliest busy step [] = none
find_earliest busy step (w ∷ ws) =
    let rest = find_earliest busy step ws in
    elim (try_window busy step (suc (w.end_time - w.start_time)) w.start_time w) [
      | some found ↦ some found
      | none ↦ rest
    ]

-- `prisma.interview.findFirst` of the search: a scheduled interview of either user.
pub either_busy : ℕ → ℕ → Planner → ℕ → ℕ → Bool
unfolding candidate_busy employer_busy is_missing
either_busy employer candidate p start end = not (
    is_missing (
      find_value (λ i. employer_busy employer start end i || candidate_busy candidate start end i)
        p.interviews))

-- A query of the slots of a user, in order of their start.
insert_slot : Slot → List Slot → List Slot
insert_slot s [] = s ∷ []
insert_slot s (r ∷ rs) = if ltb s.start_time r.start_time then s ∷ r ∷ rs else r ∷ insert_slot s rs

pub slots_of : ℕ → Dict Slot → List Slot
unfolding insert_slot
slots_of user [] = []
slots_of user ((id, s) ∷ d) =
    let rest = slots_of user d in if s.user_id == user then insert_slot s rest else rest

pub auto_schedule_interview : ℕ → ℕ → ℕ → Action Interview
unfolding validate_interview_application duration_of find_earliest either_busy slots_of
    create_interview
auto_schedule_interview id employer application = do
  a ← validate_interview_application employer application
  p ← gets (λ p. p)
  let windows = overlaps (slots_of employer p.slots) (slots_of a.user_id p.slots)
  throw_if (elim windows [ [] ↦ true | _ ↦ false ])
      (conflict "interview.interview.noCommonAvailability")
  chosen ←
      or_throw
        (find_earliest (either_busy employer a.user_id p) (duration_of a * minute_ms) windows)
        (conflict "interview.interview.noAvailableSlot")
  create_interview id employer (record {
    application_id = application;
    start_time = chosen.start_time;
    end_time = chosen.end_time;
    timezone = some chosen.timezone;
  })
