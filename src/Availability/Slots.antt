-- ===== src/Availability/Slots.antt =====
-- src/modules/interview-planner/interview-planner.service.ts and its helpers: availability slots, and
-- interviews that are scheduled in them. Times are milliseconds; the ids of new rows are arguments.
-- Translated messages are named by their keys.
pub mod Laws
use Prim.Native.String.{String}
use beleqet_ecosystem_update.Base.{
  ℕ, zero, suc, ◌+◌, ◌-◌, ◌*◌, ◌/◌, ◌==◌, ltb, leb, if◌then◌else◌, keep_if, Bool, true, false, not,
  ◌&&◌, ◌||◌, Option, none, some, List, [], ◌∷◌, Dict, lookup, insert, erase, find_value, Request,
  bad_request, conflict, forbidden, not_found, ◌>>=◌, ◌>>◌, gets, or_throw, throw, throw_if, modify,
  pure, transaction,
}
use beleqet_ecosystem_update.Availability.Overlap.{Slot, Window, overlaps}

pub data InterviewStatus : Type 0 where
  scheduled completed cancelled rescheduled : InterviewStatus

pub record Interview : Type 0 where
  pub application_id : ℕ
  pub employer_id : ℕ
  pub candidate_id : ℕ
  pub start_time : ℕ
  pub end_time : ℕ
  pub timezone : String
  pub duration_minutes : ℕ
  pub status : InterviewStatus

-- An application with what the planner reads of its job: the employer and the length of interviews.
pub record Application : Type 0 where
  pub user_id : ℕ
  pub employer_id : ℕ
  pub interview_duration_minutes : Option ℕ
  pub interview_scheduled : Bool
  pub interview_slot : Option ℕ

pub record Planner : Type 0 where
  pub slots : Dict Slot
  pub interviews : Dict Interview
  pub applications : Dict Application
  pub notified : List ℕ

abbrev pub Action : Type 0 → Type 0
Action A = Request Planner A

abbrev pub minute_ms : ℕ
minute_ms = 60_000

-- helpers/date.helper.ts
pub validate_range : ℕ → ℕ → Action (Unit {0})
validate_range start end =
    throw_if (leb end start) (bad_request "interview.availability.invalidRange")

-- The filter on which two slots of a user overlap: `startTime < end` and `endTime > start`.
pub clashes : ℕ → ℕ → ℕ → Slot → Bool
clashes user start end s = s.user_id == user && (ltb s.start_time end && ltb start s.end_time)

pub timezone_or_utc : Option String → String
timezone_or_utc none = "UTC"
timezone_or_utc (some z) = z

pub create_availability : ℕ → ℕ → ℕ → ℕ → Option String → Action Slot
unfolding validate_range clashes timezone_or_utc
create_availability id user start end zone = do
  validate_range start end
  overlapping ← gets (λ p. find_value (clashes user start end) p.slots)
  throw_if (elim overlapping [ none ↦ false | some _ ↦ true ])
      (conflict "interview.availability.overlap")
  let slot : Slot = record {
    id = id;
    user_id = user;
    start_time = start;
    end_time = end;
    timezone = timezone_or_utc zone;
  }
  modify (λ p. record p { slots = insert id slot p.slots })
  pure slot

own_slot : ℕ → ℕ → Planner → Option Slot
own_slot id user p = keep_if (λ s. s.user_id == user) (lookup id p.slots)

pub update_availability : ℕ → ℕ → ℕ → ℕ → Option String → Action Slot
unfolding validate_range clashes timezone_or_utc own_slot
update_availability id user start end zone = do
  slot ← or_throw (← gets (own_slot id user)) (not_found "interview.availability.notFound")
  validate_range start end
  overlapping ← gets (λ p. find_value (λ s. not (s.id == id) && clashes user start end s) p.slots)
  throw_if (elim overlapping [ none ↦ false | some _ ↦ true ])
      (conflict "interview.availability.overlap")
  let moved : Slot = record slot {
    start_time = start;
    end_time = end;
    timezone = timezone_or_utc zone;
  }
  modify (λ p. record p { slots = insert id moved p.slots })
  pure moved

pub delete_availability : ℕ → ℕ → Action (Unit {0})
unfolding own_slot
delete_availability id user = do
  slot ← or_throw (← gets (own_slot id user)) (not_found "interview.availability.notFound")
  modify (λ p. record p { slots = erase id p.slots })

-- helpers/application.helper.ts
has_interview : ℕ → Planner → Bool
has_interview application p =
    elim (find_value (λ i. i.application_id == application) p.interviews) [
      | none ↦ false
      | some _ ↦ true
    ]

unfoldable pub validate_interview_application : ℕ → ℕ → Action Application
unfolding has_interview
validate_interview_application employer id = do
  application ←
      or_throw (← gets (λ p. lookup id p.applications))
        (not_found "interview.interview.applicationNotFound")
  throw_if (not (application.employer_id == employer)) (forbidden "interview.interview.forbidden")
  throw_if (← gets (has_interview id)) (conflict "interview.interview.alreadyScheduled")
  pure application

-- helpers/availability.helper.ts: a slot of the user that holds the whole interview.
pub holds : ℕ → ℕ → ℕ → Slot → Bool
holds user start end s = s.user_id == user && (leb s.start_time start && leb end s.end_time)

unfoldable pub is_missing {ℓ} : {A : Type ℓ} → Option A → Bool
is_missing none = true
is_missing (some _) = false

pub validate_availability : ℕ → ℕ → ℕ → ℕ → Action (Unit {0})
unfolding holds is_missing
validate_availability employer candidate start end = do
  for_employer ← gets (λ p. find_value (holds employer start end) p.slots)
  for_candidate ← gets (λ p. find_value (holds candidate start end) p.slots)
  throw_if (is_missing for_employer) (conflict "interview.availability.employerUnavailable")
  throw_if (is_missing for_candidate) (conflict "interview.availability.candidateUnavailable")

is_scheduled : InterviewStatus → Bool
is_scheduled InterviewStatus.scheduled = true
is_scheduled _ = false

-- A scheduled interview that overlaps the times; of a candidate, of an employer.
pub overlaps_interview : ℕ → ℕ → Interview → Bool
unfolding is_scheduled
overlaps_interview start end i =
    is_scheduled i.status && (ltb i.start_time end && ltb start i.end_time)

unfoldable pub candidate_busy : ℕ → ℕ → ℕ → Interview → Bool
unfolding overlaps_interview
candidate_busy candidate start end i = i.candidate_id == candidate && overlaps_interview start end i

unfoldable pub employer_busy : ℕ → ℕ → ℕ → Interview → Bool
unfolding overlaps_interview
employer_busy employer start end i = i.employer_id == employer && overlaps_interview start end i

pub validate_interview_conflicts : ℕ → ℕ → ℕ → ℕ → Action (Unit {0})
unfolding candidate_busy employer_busy is_missing
validate_interview_conflicts employer candidate start end = do
  for_candidate ← gets (λ p. find_value (candidate_busy candidate start end) p.interviews)
  for_employer ← gets (λ p. find_value (employer_busy employer start end) p.interviews)
  throw_if (not (is_missing for_candidate)) (conflict "interview.interview.candidateBusy")
  throw_if (not (is_missing for_employer)) (conflict "interview.interview.employerBusy")

pub record CreateInterviewDto : Type 0 where
  pub application_id : ℕ
  pub start_time : ℕ
  pub end_time : ℕ
  pub timezone : Option String

unfoldable pub duration_of : Application → ℕ
duration_of a = elim a.interview_duration_minutes [ none ↦ 60 | some m ↦ m ]

-- `Math.ceil((end - start) / 60000)`; where the end is not after the start the range is refused.
pub requested_minutes : ℕ → ℕ → ℕ
requested_minutes start end = (end - start + (minute_ms - 1)) / minute_ms

new_interview : ℕ → Application → CreateInterviewDto → Interview
unfolding timezone_or_utc duration_of
new_interview employer a dto = record {
  application_id = dto.application_id;
  employer_id = employer;
  candidate_id = a.user_id;
  start_time = dto.start_time;
  end_time = dto.end_time;
  timezone = timezone_or_utc dto.timezone;
  duration_minutes = duration_of a;
  status = InterviewStatus.scheduled;
}

schedule : ℕ → Interview → Application → Planner → Planner
schedule id i a p = record p {
  interviews = insert id i p.interviews;
  applications =
      insert i.application_id
        (record a { interview_scheduled = true; interview_slot = some i.start_time })
        p.applications;
}

unfoldable pub create_interview : ℕ → ℕ → CreateInterviewDto → Action Interview
unfolding validate_range validate_interview_application requested_minutes duration_of
    validate_availability validate_interview_conflicts new_interview schedule
create_interview id employer dto = do
  validate_range dto.start_time dto.end_time
  a ← validate_interview_application employer dto.application_id
  throw_if (not (requested_minutes dto.start_time dto.end_time == duration_of a))
      (bad_request "interview.interview.invalidDuration")
  i ← transaction do
    validate_availability employer a.user_id dto.start_time dto.end_time
    validate_interview_conflicts employer a.user_id dto.start_time dto.end_time
    modify (schedule id (new_interview employer a dto) a)
    pure (new_interview employer a dto)
  modify (λ p. record p { notified = id ∷ p.notified })
  pure i
