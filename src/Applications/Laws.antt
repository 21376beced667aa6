-- ===== src/Applications/Laws.antt =====
-- The applications of a user to a job (applications.service.ts).
use beleqet_ecosystem_update.Base.{
  ℕ, ◌+◌, ◌≤◌, ◌≡◌, refl, ◌⊎◌, inl, inr, Bool, true, if◌then◌else◌, none, some, Option-cases,
  Bool-cases, ap, List, [], ◌∷◌, Dict, lookup, insert, find_row, count_rows, arith,
}
use beleqet_ecosystem_update.Applications.{
  Application, ApplicationStatus, ApplicationsDb, CreateApplication, is_of, application_of,
  store_application, submit, update_status, withdraw, own_application, open_application,
}

-- The applications of a user to a job.
unfoldable pub applied : ℕ → ℕ → ApplicationsDb → ℕ
applied job user db = count_rows (λ _ a. is_of job user a) db.applications

unfoldable pub OncePerJob : ApplicationsDb → Type 0
OncePerJob db = (job user : ℕ) → applied job user db ≤ 1

count_rows-insert_new :
    (q : ℕ → Application → Bool) (k : ℕ) (w : Application) (d : Dict Application)
    → lookup k d ≡ none
    → count_rows q (insert k w d) ≡ count_rows q d + (if q k w then 1 else 0)
unfolding lookup insert count_rows
count_rows-insert_new q k w [] h = ground arith
count_rows-insert_new q k w ((j, v) ∷ d) h = ground (arith, count_rows-insert_new q k w d)

-- Replacing a row by one that passes the same test.
count_rows-insert_same :
    (q : ℕ → Application → Bool) (k : ℕ) (v w : Application) (d : Dict Application)
    → lookup k d ≡ some v
    → q k w ≡ q k v
    → count_rows q (insert k w d) ≡ count_rows q d
unfolding lookup insert count_rows
count_rows-insert_same q k v w [] h e = cc
count_rows-insert_same q k v w ((j, x) ∷ d) h e = ground (arith, count_rows-insert_same q k v w d)

count_rows-none :
    (p : Application → Bool) (d : Dict Application)
    → find_row p d ≡ none
    → count_rows (λ _ a. p a) d ≡ 0
unfolding find_row count_rows
count_rows-none p [] h = refl
count_rows-none p ((j, v) ∷ d) h = ground (arith, count_rows-none p d)

-- Where nobody has applied, the first application is the only one.
none_applied :
    (job user : ℕ) (row : Application) (db : ApplicationsDb)
    → application_of row.details.job_id row.user_id db ≡ none
    → is_of job user row ≡ true
    → applied job user db ≡ 0
unfolding applied application_of
none_applied job user row db free own =
    let same_job : row.details.job_id ≡ job = ground arith in
    let same_user : row.user_id ≡ user = ground arith in
    rw (← same_job, ← same_user)
      (count_rows-none (is_of row.details.job_id row.user_id) db.applications free)

applied-insert_new :
    (id : ℕ) (row : Application) (db e : ApplicationsDb)
    → e.applications ≡ insert id row db.applications
    → lookup id db.applications ≡ none
    → application_of row.details.job_id row.user_id db ≡ none
    → OncePerJob db
    → OncePerJob e
unfolding applied OncePerJob
applied-insert_new id row db e written fresh free once job user =
    let counted = count_rows-insert_new (λ _ a. is_of job user a) id row db.applications fresh in
    let before = once job user in
    let stays = ap (count_rows (λ _ a. is_of job user a)) written in
    elim (Bool-cases (is_of job user row)) [
      | inl own ↦ let first = none_applied job user row db free own in ground arith
      | inr other ↦ ground arith
    ]

applied-insert_same :
    (id : ℕ) (a : Application) (status : ApplicationStatus) (db e : ApplicationsDb)
    → e.applications ≡ insert id (record a { status = status }) db.applications
    → lookup id db.applications ≡ some a
    → OncePerJob db
    → OncePerJob e
unfolding applied OncePerJob
applied-insert_same id a status db e written found once job user = rw written (
    rw
      (count_rows-insert_same (λ _ b. is_of job user b) id a (record a { status = status })
        db.applications found refl)
      (once job user))

abbrev pub new_application : ℕ → CreateApplication → Application
new_application user dto = record {
  user_id = user;
  details = dto;
  status = ApplicationStatus.submitted;
}

-- The row is there, new, after a submission is stored, or nothing has changed.
pub store_application-cases :
    (id user : ℕ) (dto : CreateApplication) (db : ApplicationsDb)
    → let e = (store_application id user dto db).1 in
      (e ≡ db)
      ⊎ ((lookup id db.applications ≡ none)
          × (application_of dto.job_id user db ≡ none)
          × (e.applications ≡ insert id (new_application user dto) db.applications))
unfolding store_application
store_application-cases id user dto db = ground arith

store-OncePerJob :
    (id user : ℕ) (dto : CreateApplication) (db : ApplicationsDb)
    → OncePerJob db
    → OncePerJob ((store_application id user dto db).1)
store-OncePerJob id user dto db once = elim (store_application-cases id user dto db) [
  | inl kept ↦ rw kept once
  | inr (fresh, free, written) ↦
      applied-insert_new id (new_application user dto) db _ written fresh free once
]

pub submit-cases :
    (id user : ℕ) (dto : CreateApplication) (db : ApplicationsDb)
    → ((submit id user dto db).1 ≡ db)
      ⊎ ((submit id user dto db).1 ≡ (store_application id user dto db).1)
unfolding submit
submit-cases id user dto db = ground arith

-- An application keeps everything but its status, under an employer's decision or a withdrawal.
pub update_status-cases :
    (id : ℕ) (status : ApplicationStatus) (employer : ℕ) (db : ApplicationsDb)
    → let e = (update_status id status employer db).1 in
      (e ≡ db)
      ⊎ ((a : Application) × (own_application id employer db ≡ some a)
          × (lookup id db.applications ≡ some a)
          × (e.applications ≡ insert id (record a { status = status }) db.applications))
unfolding update_status
update_status-cases id status employer db = elim (Option-cases (own_application id employer db)) [
  | inl missing ↦ inl (ground arith)
  | inr (a, own) ↦ inr (a, own, ground arith, ground arith)
]

pub withdraw-cases :
    (id user : ℕ) (db : ApplicationsDb)
    → let e = (withdraw id user db).1 in
      (e ≡ db)
      ⊎ ((a : Application) × (open_application id user db ≡ some a)
          × (lookup id db.applications ≡ some a)
          × (e.applications
              ≡ insert id (record a { status = ApplicationStatus.withdrawn }) db.applications))
unfolding withdraw
withdraw-cases id user db = elim (Option-cases (open_application id user db)) [
  | inl missing ↦ inl (ground arith)
  | inr (a, own) ↦ inr (a, own, ground arith, ground arith)
]

-- Requests, and the ends of submissions whose checks ran earlier.
pub data ApplicationStep : Type 0 where
  submits stores : ℕ → ℕ → CreateApplication → ApplicationStep
  updates : ℕ → ApplicationStatus → ℕ → ApplicationStep
  withdraws : ℕ → ℕ → ApplicationStep

unfoldable pub step : ApplicationStep → ApplicationsDb → ApplicationsDb
unfolding submit store_application update_status withdraw
step (submits id user dto) db = (submit id user dto db).1
step (stores id user dto) db = (store_application id user dto db).1
step (updates id status employer) db = (update_status id status employer db).1
step (withdraws id user) db = (withdraw id user db).1

unfoldable pub run : List ApplicationStep → ApplicationsDb → ApplicationsDb
unfolding step
run [] db = db
run (t ∷ ts) db = run ts (step t db)

step-OncePerJob :
    (t : ApplicationStep) (db : ApplicationsDb) → OncePerJob db → OncePerJob (step t db)
unfolding step
step-OncePerJob (stores id user dto) db once = store-OncePerJob id user dto db once
step-OncePerJob (submits id user dto) db once = elim (submit-cases id user dto db) [
  | inl kept ↦ rw kept once
  | inr stored ↦ rw stored (store-OncePerJob id user dto db once)
]
step-OncePerJob (updates id status employer) db once =
    elim (update_status-cases id status employer db) [
      | inl kept ↦ rw kept once
      | inr (a, _, found, written) ↦ applied-insert_same id a status db _ written found once
    ]
step-OncePerJob (withdraws id user) db once = elim (withdraw-cases id user db) [
  | inl kept ↦ rw kept once
  | inr (a, _, found, written) ↦
      applied-insert_same id a ApplicationStatus.withdrawn db _ written found once
]

-- Whatever submissions, ends of submissions that were checked earlier, decisions and withdrawals come, a
-- user has at most one application to a job; also where two submissions race.
pub run-OncePerJob :
    (ts : List ApplicationStep) (db : ApplicationsDb) → OncePerJob db → OncePerJob (run ts db)
unfolding run
run-OncePerJob [] db once = once
run-OncePerJob (t ∷ ts) db once = run-OncePerJob ts (step t db) (step-OncePerJob t db once)
