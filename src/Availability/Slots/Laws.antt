-- ===== src/Availability/Slots/Laws.antt =====
-- Creating slots and interviews (interview-planner.service.ts).
use Prim.Native.String.{String}
use beleqet_ecosystem_update.Base.{
  ℕ, ◌+◌, ◌*◌, ◌≤◌, ◌<◌, ◌≡◌, ◌≢◌, true, false, Option, none, some, arith, ok, err, insert, lookup,
  AllRows, AllRows-imp, find_value, find_value_sound, Option-cases, ◌⊎◌, inl, inr, find_value-none,
  lookup-insert, lookup-insert_self, ◌==◌, HttpError,
}
use beleqet_ecosystem_update.Availability.Overlap.{Slot}
use beleqet_ecosystem_update.Availability.Slots.{
  Application, duration_of, Planner, Interview, CreateInterviewDto, clashes, create_availability,
  create_interview, candidate_busy, employer_busy, holds, requested_minutes, InterviewStatus,
}

created_if :
    (id user start end : ℕ) (timezone : Option String) (p : Planner) (s : Slot)
    → (create_availability id user start end timezone p).0 ≡ ok s
    → (start < end) × (find_value (clashes user start end) p.slots ≡ none)
unfolding create_availability
created_if id user start end timezone p s h = ground arith

created_rows :
    (id user start end : ℕ) (timezone : Option String) (p : Planner) (s : Slot)
    → (create_availability id user start end timezone p).0 ≡ ok s
    → (create_availability id user start end timezone p).1.slots ≡ insert id s p.slots
unfolding create_availability
created_rows id user start end timezone p s h = ground arith

clashes-false :
    (user start end : ℕ) (r : Slot)
    → clashes user start end r ≡ false
    → r.user_id ≡ user
    → (r.end_time ≤ start) ⊎ (end ≤ r.start_time)
unfolding clashes
clashes-false user start end r h own = ground arith

-- A slot that was created has its start before its end, and each slot that the user had ends by its
-- start or starts at its end or later. It is stored under its id, and no other row is changed.
pub create_availability_disjoint :
    (id user start end other : ℕ) (timezone : Option String) (p : Planner) (s : Slot)
    → (create_availability id user start end timezone p).0 ≡ ok s
    → let p' = (create_availability id user start end timezone p).1 in
      (start < end)
      × AllRows
          (λ (r : Slot). r.user_id ≡ user → (r.end_time ≤ start) ⊎ (end ≤ r.start_time))
          p.slots
      × (lookup id p'.slots ≡ some s)
      × (other ≢ id → lookup other p'.slots ≡ lookup other p.slots)
create_availability_disjoint id user start end other timezone p s h =
    let (ordered, free) = created_if id user start end timezone p s h in
    let rows = created_rows id user start end timezone p s h in
    (
      ordered,
      AllRows-imp _ _ p.slots (clashes-false user start end)
          (find_value-none (clashes user start end) p.slots free),
      rw rows (lookup-insert_self id s p.slots),
      λ ne. rw rows (ground (arith, lookup-insert id other s p.slots)),
    )

-- A user's slots hold the whole stretch from `start` to `end`.
abbrev pub IsAvailable : ℕ → ℕ → ℕ → Planner → Type 0
IsAvailable user start end p =
    (s : Slot) × (s.user_id ≡ user)
    × (s.start_time ≤ start)
    × (end ≤ s.end_time)
    × (find_value (holds user start end) p.slots ≡ some s)

-- No scheduled interview of those that `of` selects overlaps the stretch from `start` to `end`.
abbrev pub IsFree : (Interview → ℕ) → ℕ → ℕ → ℕ → Planner → Type 0
IsFree of user start end p =
    AllRows
      (λ (j : Interview).
        of j ≡ user
        → j.status ≡ InterviewStatus.scheduled
        → (j.end_time ≤ start) ⊎ (end ≤ j.start_time))
      p.interviews

-- What is known of an interview that was scheduled.
pub record Scheduled (employer : ℕ) (dto : CreateInterviewDto) (p : Planner) (i : Interview)
    : Type 0 where
  pub ordered : dto.start_time < dto.end_time
  pub times : (i.start_time ≡ dto.start_time) × (i.end_time ≡ dto.end_time)
  pub application : Application
  pub applied_for : lookup dto.application_id p.applications ≡ some application
  pub of_employer : application.employer_id ≡ employer
  pub parties :
      (i.employer_id ≡ employer)
      × (i.candidate_id ≡ application.user_id)
      × (i.application_id ≡ dto.application_id)
  pub as_job_sets :
      (application.interview_duration_minutes ≡ some i.duration_minutes)
      ⊎ ((application.interview_duration_minutes ≡ none) × (i.duration_minutes ≡ 60))
  pub long_enough : dto.end_time ≤ dto.start_time + i.duration_minutes * 60_000
  pub not_longer : dto.start_time + i.duration_minutes * 60_000 < dto.end_time + 60_000
  pub employer_available : IsAvailable employer dto.start_time dto.end_time p
  pub candidate_available : IsAvailable i.candidate_id dto.start_time dto.end_time p
  pub employer_free : IsFree (λ j. j.employer_id) employer dto.start_time dto.end_time p
  pub candidate_free : IsFree (λ j. j.candidate_id) i.candidate_id dto.start_time dto.end_time p
  pub only_one : AllRows (λ (j : Interview). j.application_id ≢ dto.application_id) p.interviews

-- The answers that the queries of `createInterview` gave.
record Checked (employer : ℕ) (dto : CreateInterviewDto) (p : Planner) (i : Interview)
    : Type 0 where
  ordered : dto.start_time < dto.end_time
  times : (i.start_time ≡ dto.start_time) × (i.end_time ≡ dto.end_time)
  duration : requested_minutes dto.start_time dto.end_time ≡ i.duration_minutes
  application : Application
  applied_for : lookup dto.application_id p.applications ≡ some application
  of_employer : application.employer_id ≡ employer
  parties :
      (i.employer_id ≡ employer)
      × (i.candidate_id ≡ application.user_id)
      × (i.application_id ≡ dto.application_id)
  as_job_sets : i.duration_minutes ≡ duration_of application
  employer_free :
      find_value (employer_busy employer dto.start_time dto.end_time) p.interviews ≡ none
  candidate_free :
      find_value (candidate_busy i.candidate_id dto.start_time dto.end_time) p.interviews ≡ none
  employer_available : find_value (holds employer dto.start_time dto.end_time) p.slots ≢ none
  candidate_available : find_value (holds i.candidate_id dto.start_time dto.end_time) p.slots ≢ none
  only_one :
      find_value (λ (j : Interview). j.application_id == dto.application_id) p.interviews ≡ none

create_interview-Checked :
    (id employer : ℕ) (dto : CreateInterviewDto) (p : Planner) (i : Interview)
    → (create_interview id employer dto p).0 ≡ ok i
    → Checked employer dto p i
unfolding create_interview
create_interview-Checked id employer dto p i h =
    elim (Option-cases (lookup dto.application_id p.applications)) [
      | inl missing ↦ absurd (ground arith)
      | inr (a, found) ↦ record {
        ordered = ground arith;
        times = ground arith;
        duration = ground arith;
        application = a;
        applied_for = found;
        of_employer = ground arith;
        parties = ground arith;
        as_job_sets = ground arith;
        employer_free = ground arith;
        candidate_free = ground arith;
        employer_available = ground arith;
        candidate_available = ground arith;
        only_one = ground arith;
      }
    ]

rounded_up :
    (start end minutes : ℕ)
    → start < end
    → requested_minutes start end ≡ minutes
    → (end ≤ start + minutes * 60_000) × (start + minutes * 60_000 < end + 60_000)
unfolding requested_minutes
rounded_up start end minutes h e = (omega (arith, e), omega (arith, e))

set_minutes :
    (a : Application) (minutes : ℕ)
    → minutes ≡ duration_of a
    → (a.interview_duration_minutes ≡ some minutes)
      ⊎ ((a.interview_duration_minutes ≡ none) × (minutes ≡ 60))
unfolding duration_of
set_minutes a minutes h = ground arith

employer_busy-false :
    (employer start end : ℕ) (j : Interview)
    → employer_busy employer start end j ≡ false
    → j.employer_id ≡ employer
    → j.status ≡ InterviewStatus.scheduled
    → (j.end_time ≤ start) ⊎ (end ≤ j.start_time)
unfolding employer_busy
employer_busy-false employer start end j h own s = ground arith

candidate_busy-false :
    (candidate start end : ℕ) (j : Interview)
    → candidate_busy candidate start end j ≡ false
    → j.candidate_id ≡ candidate
    → j.status ≡ InterviewStatus.scheduled
    → (j.end_time ≤ start) ⊎ (end ≤ j.start_time)
unfolding candidate_busy
candidate_busy-false candidate start end j h own s = ground arith

holds-true :
    (user start end : ℕ) (s : Slot)
    → holds user start end s ≡ true
    → (s.user_id ≡ user) × (s.start_time ≤ start) × (end ≤ s.end_time)
unfolding holds
holds-true user start end s h = ground arith

holds-IsAvailable :
    (user start end : ℕ) (p : Planner)
    → find_value (holds user start end) p.slots ≢ none
    → IsAvailable user start end p
holds-IsAvailable user start end p ne =
    elim (Option-cases (find_value (holds user start end) p.slots)) [
      | inl missing ↦ absurd (ne missing)
      | inr (s, found) ↦
          let (own, early, late) =
            holds-true user start end s (find_value_sound (holds user start end) p.slots s found) in
          (s, own, early, late, found)
    ]

-- An interview is scheduled only for an application to a job of the employer that has no interview yet,
-- between the employer and the user of the application, at the asked times, which are in order. Its
-- minutes are those that the job sets, 60 where it sets none, and are the asked times rounded up to
-- whole minutes. The employer and the candidate each have a slot that holds the asked times, and neither
-- has a scheduled interview that overlaps them.
pub create_interview-Scheduled :
    (id employer : ℕ) (dto : CreateInterviewDto) (p : Planner) (i : Interview)
    → (create_interview id employer dto p).0 ≡ ok i
    → Scheduled employer dto p i
create_interview-Scheduled id employer dto p i h =
    let c = create_interview-Checked id employer dto p i h in
    let start = dto.start_time in
    let end = dto.end_time in
    record {
      ordered = c.ordered;
      times = c.times;
      application = c.application;
      applied_for = c.applied_for;
      of_employer = c.of_employer;
      parties = c.parties;
      as_job_sets = set_minutes c.application i.duration_minutes c.as_job_sets;
      long_enough = (rounded_up start end i.duration_minutes c.ordered c.duration).0;
      not_longer = (rounded_up start end i.duration_minutes c.ordered c.duration).1;
      employer_available = holds-IsAvailable employer start end p c.employer_available;
      candidate_available = holds-IsAvailable i.candidate_id start end p c.candidate_available;
      employer_free =
          AllRows-imp _ _ p.interviews (employer_busy-false employer start end)
            (find_value-none (employer_busy employer start end) p.interviews c.employer_free);
      candidate_free =
          AllRows-imp _ _ p.interviews (candidate_busy-false i.candidate_id start end) (
            find_value-none (candidate_busy i.candidate_id start end) p.interviews
              c.candidate_free);
      only_one =
          AllRows-imp _ _ p.interviews (λ j q. ground arith)
            (find_value-none (λ (j : Interview). j.application_id == dto.application_id)
              p.interviews c.only_one);
    }

-- A request that is refused, for whatever reason, leaves the planner as it was.
pub create_interview_atomic :
    (id employer : ℕ) (dto : CreateInterviewDto) (p : Planner) {e : HttpError}
    → (create_interview id employer dto p).0 ≡ err e
    → (create_interview id employer dto p).1 ≡ p
unfolding create_interview
create_interview_atomic id employer dto p h = ground arith
