-- ===== src/Jobs/Tests.antt =====
-- Jobs at concrete inputs. The search of these tests finds equal texts alone.
use beleqet_ecosystem_update.Base.{
  ℕ, ◌==◌, ◌≡◌, ◌++◌, refl, Bool, true, false, none, some, [], ◌∷◌, lookup, ok,
}
use beleqet_ecosystem_update.Jobs.Tables.{Job, JobType, JobStatus, Role, Mail, JobsDb, CreateJob}
use beleqet_ecosystem_update.Jobs.{
  QueryJobs, JobPatch, listed, update, create, patched, company_of, job_alerts,
}
use beleqet_ecosystem_update.Jobs.Changes.{IsOwnChange, update-IsOwnChange, draft_is_announced}

abbrev contains : ℕ → ℕ → Bool
contains t q = t == q

abbrev a_job : Bool → Job
a_job featured = record {
  title = 20;
  description = 21;
  location = 22;
  job_type = JobType.remote;
  category = 3;
  company = 5;
  status = JobStatus.published;
  featured = featured;
  deadline = none;
  expiry_date = none;
}

abbrev board : JobsDb
board = record {
  jobs = (12, a_job false) ∷ (11, a_job true) ∷ (10, a_job false) ∷ [];
  companies = (5, 9) ∷ (6, 8) ∷ [];
  users =
      (9, record { email = 90; role = Role.other_role; is_active = true })
      ∷ (7, record { email = 70; role = Role.job_seeker; is_active = true })
      ∷ [];
  categories = 3 ∷ [];
  mails = [];
}

owns : company_of 9 board.companies ≡ some 5
unfolding company_of
owns = refl

employer_there :
    lookup 9 board.users ≡ some (record { email = 90; role = Role.other_role; is_active = true })
unfolding lookup
employer_there = refl

abbrev two_a_page : QueryJobs
two_a_page = record {
  q = some 20;
  category = none;
  location = none;
  job_type = some JobType.remote;
  page = none;
  limit = some 2;
}

abbrev close_it : JobPatch
close_it = record {
  title = none;
  description = some 25;
  location = none;
  job_type = none;
  category = some 3;
  status = some JobStatus.closed;
  featured = none;
  deadline = some (some 700);
  expiry_date = none;
}

closed_by_owner : (update 11 9 close_it board).0 ≡ ok (patched close_it (a_job true))
unfolding update lookup
closed_by_owner = refl

update-IsOwnChange_example :
    IsOwnChange 11 9 (patched close_it) board (update 11 9 close_it board).1
update-IsOwnChange_example =
    update-IsOwnChange 11 9 close_it board (patched close_it (a_job true)) closed_by_owner

abbrev archived_job : Job
archived_job = record (a_job true) { status = JobStatus.archived }

abbrev a_draft : CreateJob
a_draft = record {
  title = 20;
  description = 21;
  location = 22;
  job_type = JobType.remote;
  category = 3;
  status = some JobStatus.draft;
  featured = false;
  deadline = none;
  expiry_date = none;
}

draft_is_announced_example :
    ((create 13 9 a_draft board).1.mails
      ≡ Mail.job_is_live 90 13 ∷ (job_alerts 13 board.users ++ []))
    × (listed contains two_a_page (create 13 9 a_draft board).1 ≡ listed contains two_a_page board)
draft_is_announced_example =
    draft_is_announced contains 13 9 5 a_draft two_a_page
      (record { email = 90; role = Role.other_role; is_active = true }) board owns refl
      employer_there refl
