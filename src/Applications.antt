-- ===== src/Applications.antt =====
-- src/modules/applications/applications.service.ts: applications to jobs, from the submission to the
-- employer's decisions and the withdrawal. Ids and texts are numbers; the id of a new application is an
-- argument. Queries that list rows, and the texts of mails, are left out.
pub mod Laws
pub mod Changes
mod Tests
use Prim.Native.String.{String}
use beleqet_ecosystem_update.Base.{
  is_some, ℕ, ◌==◌, if◌then◌else◌, Bool, true, false, not, ◌&&◌, ◌||◌, Option, none, some, List, [],
  ◌∷◌, Dict, lookup, insert, find_row, HttpError, not_found, conflict, internal_server_error,
  Request, ◌>>=◌, ◌>>◌, pure, throw, throw_if, gets, modify, or_throw, transaction,
}

pub data ApplicationStatus : Type 0 where
  submitted screening shortlisted interview_scheduled : ApplicationStatus
  offered rejected withdrawn : ApplicationStatus

-- A job with the user of its company.
pub record Job : Type 0 where
  pub employer : ℕ
  pub published : Bool

pub record CreateApplication : Type 0 where
  pub job_id : ℕ
  pub cover_letter : Option ℕ
  pub resume_url : Option ℕ
  pub portfolio_url : Option ℕ
  pub expected_salary : Option ℕ
  pub screening_answers : Option ℕ

pub record Application : Type 0 where
  pub user_id : ℕ
  pub details : CreateApplication
  pub status : ApplicationStatus

-- Jobs of the queues, and mails, that are added once a submission is stored, and the event that is
-- emitted; a fault of a queue is logged there.
pub data Queued : Type 0 where
  screen_candidate notify_recruiter update_job_stats : ℕ → Queued
  received_email status_email : ℕ → Queued
  submitted_event : ℕ → Queued

pub record ApplicationsDb : Type 0 where
  pub jobs : Dict Job
  pub applications : Dict Application
  pub event_log : List ℕ  -- the applications whose submission is logged
  pub notifications : List (ℕ × ApplicationStatus)
  pub queued : List Queued

abbrev pub Action {ℓ} : Type ℓ → Type ℓ
Action A = Request ApplicationsDb A

abbrev pub is_of : ℕ → ℕ → Application → Bool
is_of job user a = a.details.job_id == job && a.user_id == user

-- `findUnique` by the job and the user, which are unique together.
pub application_of : ℕ → ℕ → ApplicationsDb → Option (ℕ × Application)
application_of job user db = find_row (is_of job user) db.applications

published_job : ℕ → ApplicationsDb → Option Job
published_job job db = elim (lookup job db.jobs) [
  | none ↦ none
  | some j ↦ if j.published then some j else none
]

abbrev enqueue : Queued → Action (Unit {0})
enqueue q = modify (λ db. record db { queued = q ∷ db.queued })

-- The transaction: the row, by which the database demands that the pair and the id are new, and the
-- entry of the log.
pub create_application : ℕ → ℕ → CreateApplication → Action Application
unfolding application_of
create_application id user dto = transaction (do
  throw_if
      (← gets
        (λ db. is_some (application_of dto.job_id user db) || is_some (lookup id db.applications)))
      (internal_server_error "P2002")
  let row : Application = record {
    user_id = user;
    details = dto;
    status = ApplicationStatus.submitted;
  }
  modify (λ db. record db { applications = insert id row db.applications })
  modify (λ db. record db { event_log = id ∷ db.event_log })
  pure row)

-- What `submit` does once its checks have passed, which may be after other requests have written.
pub store_application : ℕ → ℕ → CreateApplication → Action Application
unfolding create_application
store_application id user dto = do
  row ← create_application id user dto
  enqueue (screen_candidate id)
  enqueue (notify_recruiter id)
  enqueue (update_job_stats dto.job_id)
  enqueue (received_email id)
  enqueue (submitted_event id)
  pure row

pub submit : ℕ → ℕ → CreateApplication → Action Application
unfolding published_job application_of store_application
submit id user dto = do
  _ ←
      or_throw (← gets (published_job dto.job_id))
        (not_found "Job not found or no longer accepting applications")
  throw_if (← gets (λ db. is_some (application_of dto.job_id user db)))
      (conflict "You have already applied to this job")
  store_application id user dto

pub find_one : ℕ → Action Application
find_one id = gets (λ db. lookup id db.applications) >>= λ found.
    or_throw found (not_found "Application not found")

-- An application to a job of the employer.
pub own_application : ℕ → ℕ → ApplicationsDb → Option Application
own_application id employer db = elim (lookup id db.applications) [
  | none ↦ none
  | some a ↦ elim (lookup a.details.job_id db.jobs) [
    | none ↦ none
    | some j ↦ if j.employer == employer then some a else none
  ]
]

-- `updateStatus`, to any status.
pub update_status : ℕ → ApplicationStatus → ℕ → Action Application
unfolding own_application
update_status id status employer = do
  a ←
      or_throw (← gets (own_application id employer))
        (not_found "Application not found or you don't have permission to update it")
  let updated : Application = record a { status = status }
  modify (λ db. record db { applications = insert id updated db.applications })
  modify (λ db. record db { notifications = (a.user_id, status) ∷ db.notifications })
  enqueue (status_email id)
  pure updated

pub is_withdrawable : ApplicationStatus → Bool
is_withdrawable ApplicationStatus.submitted = true
is_withdrawable ApplicationStatus.screening = true
is_withdrawable ApplicationStatus.shortlisted = true
is_withdrawable _ = false

pub open_application : ℕ → ℕ → ApplicationsDb → Option Application
unfolding is_withdrawable
open_application id user db = elim (lookup id db.applications) [
  | none ↦ none
  | some a ↦ if a.user_id == user && is_withdrawable a.status then some a else none
]

pub withdraw : ℕ → ℕ → Action Application
unfolding open_application
withdraw id user = do
  a ← or_throw (← gets (open_application id user)) (not_found "Application cannot be withdrawn")
  let updated : Application = record a { status = ApplicationStatus.withdrawn }
  modify (λ db. record db { applications = insert id updated db.applications })
  pure updated
