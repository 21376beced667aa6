-- ===== src/Jobs/Changes.antt =====
-- Changes and removals of jobs (src/modules/jobs/jobs.service.ts).
use beleqet_ecosystem_update.Base.{
  ℕ, ◌≡◌, ◌≢◌, inl, inr, member, Bool, true, some, Option-cases, ◌∷◌, ◌++◌, lookup, insert,
  lookup-insert, lookup-insert_self, ok, arith,
}
use beleqet_ecosystem_update.Jobs.Tables.{Job, JobStatus, JobsDb, CreateJob, User, Mail}
use beleqet_ecosystem_update.Jobs.{
  QueryJobs, JobPatch, matches, listed, is_published, own_job, change_job, patched, update, create,
  company_of, job_alerts,
}

-- What a change by an employer has found, and what it leaves alone.
pub record IsOwnChange (id employer : ℕ) (changed : Job → Job) (before after : JobsDb)
    : Type 0 where
  pub job : Job
  pub found : lookup id before.jobs ≡ some job
  pub own : lookup job.company before.companies ≡ some employer
  pub written : lookup id after.jobs ≡ some (changed job)
  pub others : (other : ℕ) → other ≢ id → lookup other after.jobs ≡ lookup other before.jobs

own_job_sound :
    (id employer : ℕ) (db : JobsDb) (j : Job)
    → own_job id employer db ≡ some j
    → (lookup id db.jobs ≡ some j) × (lookup j.company db.companies ≡ some employer)
unfolding own_job
own_job_sound id employer db j h = elim (Option-cases (lookup id db.jobs)) [
  | inl missing ↦ absurd (ground arith)
  | inr (k, found) ↦ elim (Option-cases (lookup k.company db.companies)) [
    | inl missing ↦ absurd (ground arith)
    | inr (owner, owned) ↦
        let this : (owner ≡ employer) × (k ≡ j) = ground arith in ground (arith, this)
  ]
]

change_job-IsOwnChange :
    (id employer : ℕ) (f : Job → Job) (db : JobsDb) (j : Job)
    → (change_job id employer f db).0 ≡ ok j
    → IsOwnChange id employer f db (change_job id employer f db).1
unfolding change_job
change_job-IsOwnChange id employer f db j h = elim (Option-cases (own_job id employer db)) [
  | inl missing ↦ absurd (ground arith)
  | inr (old, mine) ↦
      let (found, own) = own_job_sound id employer db old mine in
      let after : (change_job id employer f db).1 ≡ record db { jobs = insert id (f old) db.jobs } =
        ground arith in
      rw after (record {
        job = old;
        found = found;
        own = own;
        written = lookup-insert_self id (f old) db.jobs;
        others = λ other differs. let at = lookup-insert id other (f old) db.jobs in ground arith;
      })
]

-- An update that is answered is one by the employer whose company the job is of; it writes the columns
-- that it names, and leaves every other job alone.
pub update-IsOwnChange :
    (id employer : ℕ) (dto : JobPatch) (db : JobsDb) (j : Job)
    → (update id employer dto db).0 ≡ ok j
    → IsOwnChange id employer (patched dto) db (update id employer dto db).1
unfolding update
update-IsOwnChange id employer dto db j h = elim (Option-cases (own_job id employer db)) [
  | inl missing ↦ absurd (ground arith)
  | inr (old, mine) ↦
      let same : update id employer dto db ≡ change_job id employer (patched dto) db =
        ground arith in
      let answered : (change_job id employer (patched dto) db).0 ≡ ok j = rw same at h in
      rw same (change_job-IsOwnChange id employer (patched dto) db j answered)
]

-- A job that is kept as a draft is announced all the same: where the employer's row is there, the first
-- mail says that it is live, and every job seeker's alert follows, while no list has the job.
pub draft_is_announced :
    (contains : ℕ → ℕ → Bool) (fresh employer company : ℕ) (dto : CreateJob) (query : QueryJobs)
    (u : User) (db : JobsDb)
    → company_of employer db.companies ≡ some company
    → member dto.category db.categories ≡ true
    → lookup employer db.users ≡ some u
    → dto.status ≡ some JobStatus.draft
    → ((create fresh employer dto db).1.mails
        ≡ Mail.job_is_live u.email fresh ∷ (job_alerts fresh db.users ++ db.mails))
      × (listed contains query (create fresh employer dto db).1 ≡ listed contains query db)
unfolding create listed matches is_published
draft_is_announced contains fresh employer company dto query u db owns there found kept =
    (ground arith, ground arith)
