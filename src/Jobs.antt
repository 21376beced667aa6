-- ===== src/Jobs.antt =====
-- src/modules/jobs/jobs.service.ts over the tables of jobs, companies and users. The rows of jobs stand
-- from the newest to the oldest, and `contains` stands for the search of the database that ignores the
-- case.
pub mod Tables
pub mod Pages
pub mod Changes
mod Tests
use beleqet_ecosystem_update.Base.{
  ℕ, ◌+◌, ◌-◌, ◌*◌, ◌/◌, ◌==◌, ◌&&◌, ◌||◌, not, length, take, drop, filter, map, member,
  if◌then◌else◌, Bool, true, false, Option, none, some, List, [], ◌∷◌, ◌++◌, Dict, lookup, insert,
  find_row, HttpError, not_found, forbidden, internal_server_error, Request, ◌>>=◌, ◌>>◌, pure,
  throw_if, gets, modify, or_throw,
}
use beleqet_ecosystem_update.Jobs.Tables.{
  JobType, JobStatus, Role, Job, User, Mail, JobsDb, Action, CreateJob,
}

-- `findUnique` of the company by its user.
pub company_of : ℕ → Dict ℕ → Option ℕ
company_of user [] = none
company_of user ((id, owner) ∷ d) = if owner == user then some id else company_of user d

status_or_published : Option JobStatus → JobStatus
status_or_published none = JobStatus.published
status_or_published (some s) = s

new_job : ℕ → CreateJob → Job
unfolding status_or_published
new_job company dto = record {
  title = dto.title;
  description = dto.description;
  location = dto.location;
  job_type = dto.job_type;
  category = dto.category;
  company = company;
  status = status_or_published dto.status;
  featured = dto.featured;
  deadline = dto.deadline;
  expiry_date = dto.expiry_date;
}

is_seeker : User → Bool
is_seeker u = elim u.role [ Role.job_seeker ↦ u.is_active | Role.other_role ↦ false ]

-- `sendJobAlerts`.
pub job_alerts : ℕ → Dict User → List Mail
unfolding is_seeker
job_alerts job [] = []
job_alerts job ((_, u) ∷ d) =
    let rest = job_alerts job d in if is_seeker u then Mail.job_alert u.email job ∷ rest else rest

confirmation : ℕ → ℕ → Dict User → List Mail
confirmation job employer users = elim (lookup employer users) [
  | none ↦ []
  | some u ↦ Mail.job_is_live u.email job ∷ []
]

-- `create`; the mails are sent whatever the status of the job.
pub create : ℕ → ℕ → CreateJob → Action Job
unfolding company_of new_job confirmation job_alerts
create fresh employer dto = do
  company ←
      or_throw (← gets (λ db. company_of employer db.companies))
        (forbidden "Create a company profile before posting jobs")
  throw_if (← gets (λ db. not (member dto.category db.categories))) (internal_server_error "P2003")
  modify (λ db. record db {
    jobs = (fresh, new_job company dto) ∷ db.jobs;
    mails = confirmation fresh employer db.users ++ (job_alerts fresh db.users ++ db.mails);
  })
  pure (new_job company dto)

pub record QueryJobs : Type 0 where
  pub q : Option ℕ
  pub category : Option ℕ
  pub location : Option ℕ
  pub job_type : Option JobType
  pub page : Option ℕ
  pub limit : Option ℕ

pub is_published : JobStatus → Bool
is_published JobStatus.published = true
is_published _ = false

same_type : JobType → JobType → Bool
same_type JobType.full_time JobType.full_time = true
same_type JobType.part_time JobType.part_time = true
same_type JobType.remote JobType.remote = true
same_type JobType.hybrid JobType.hybrid = true
same_type JobType.contract JobType.contract = true
same_type _ _ = false

-- `Number(x) || d`.
pub number_or : ℕ → Option ℕ → ℕ
number_or d none = d
number_or d (some n) = if n == 0 then d else n

-- What `findAll` and `findMany` answer.
pub record JobPage : Type 0 where
  pub items : Dict Job
  pub total : ℕ
  pub page : ℕ
  pub limit : ℕ
  pub total_pages : ℕ

if_asked : {A : Type 0} → (A → Bool) → Option A → Bool
if_asked p none = true
if_asked p (some a) = p a

module _ (contains : ℕ → ℕ → Bool) where
  -- The `where` of `findAll`.
  pub matches : QueryJobs → ℕ × Job → Bool
  unfolding is_published if_asked same_type
  matches query row =
      let j = row.1 in
      is_published j.status
      && (if_asked (same_type j.job_type) query.job_type
          && (if_asked (λ c. j.category == c) query.category
              && (if_asked (contains j.location) query.location
                  && if_asked (λ q. contains j.title q || contains j.description q) query.q)))

  -- The rows that match, the featured ones first.
  pub listed : QueryJobs → JobsDb → Dict Job
  unfolding matches
  listed query db =
      let found = filter (matches query) db.jobs in
      filter (λ row. row.1.featured) found ++ filter (λ row. not row.1.featured) found

  pub find_all : QueryJobs → JobsDb → JobPage
  unfolding listed number_or
  find_all query db =
      let page = number_or 1 query.page in
      let limit = number_or 20 query.limit in
      record {
        items = take limit (drop ((page - 1) * limit) (listed query db));
        total = length (filter (matches query) db.jobs);
        page = page;
        limit = limit;
        total_pages = (length (filter (matches query) db.jobs) + limit - 1) / limit;
      }

-- `findOne`.
pub find_one : ℕ → Action Job
find_one id = do or_throw (← gets (λ db. lookup id db.jobs)) (not_found "Job not found")

-- The job if it is one of the employer.
pub own_job : ℕ → ℕ → JobsDb → Option Job
own_job id employer db = elim (lookup id db.jobs) [
  | none ↦ none
  | some j ↦ elim (lookup j.company db.companies) [
    | none ↦ none
    | some owner ↦ if owner == employer then some j else none
  ]
]

-- `update` and `remove`: a change of the job, if it is one of the employer.
change_job : ℕ → ℕ → (Job → Job) → Action Job
unfolding own_job
change_job id employer f = do
  j ← or_throw (← gets (own_job id employer)) (not_found "Job not found or access denied")
  modify (λ db. record db { jobs = insert id (f j) db.jobs })
  pure (f j)

-- The columns that an update names; a date may be taken back.
pub record JobPatch : Type 0 where
  pub title : Option ℕ
  pub description : Option ℕ
  pub location : Option ℕ
  pub job_type : Option JobType
  pub category : Option ℕ
  pub status : Option JobStatus
  pub featured : Option Bool
  pub deadline : Option (Option ℕ)
  pub expiry_date : Option (Option ℕ)

or_old : {A : Type 0} → A → Option A → A
or_old old none = old
or_old old (some new) = new

pub patched : JobPatch → Job → Job
unfolding or_old
patched p j = record j {
  title = or_old j.title p.title;
  description = or_old j.description p.description;
  location = or_old j.location p.location;
  job_type = or_old j.job_type p.job_type;
  category = or_old j.category p.category;
  status = or_old j.status p.status;
  featured = or_old j.featured p.featured;
  deadline = or_old j.deadline p.deadline;
  expiry_date = or_old j.expiry_date p.expiry_date;
}

pub update : ℕ → ℕ → JobPatch → Action Job
unfolding change_job patched if_asked
update id employer dto = do
  _ ← or_throw (← gets (own_job id employer)) (not_found "Job not found or access denied")
  throw_if (← gets (λ db. not (if_asked (λ c. member c db.categories) dto.category)))
      (internal_server_error "P2003")
  change_job id employer (patched dto)

pub remove : ℕ → ℕ → Action Job
unfolding change_job
remove id employer = change_job id employer (λ j. record j { status = JobStatus.archived })

is_of_employer : ℕ → Dict ℕ → ℕ × Job → Bool
is_of_employer employer companies row = elim (lookup row.1.company companies) [
  | none ↦ false
  | some owner ↦ owner == employer
]

-- `findByCompany`.
pub find_by_company : ℕ → JobsDb → Dict Job
unfolding is_of_employer
find_by_company employer db = filter (is_of_employer employer db.companies) db.jobs
