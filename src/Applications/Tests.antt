-- ===== src/Applications/Tests.antt =====
-- The theorems of the applications at concrete inputs: user 7 applies to job 1 of employer 2.
use beleqet_ecosystem_update.Base.{refl, true, none, List, [], ◌∷◌, lookup, count_rows, arith}
use beleqet_ecosystem_update.Applications.{ApplicationStatus, ApplicationsDb, CreateApplication}
use beleqet_ecosystem_update.Applications.Laws.{
  ApplicationStep, OncePerJob, applied, run, new_application, run-OncePerJob,
}
use beleqet_ecosystem_update.Applications.Changes.{Kept, step-Kept}

abbrev dto : CreateApplication
dto = record {
  job_id = 1;
  cover_letter = none;
  resume_url = none;
  portfolio_url = none;
  expected_salary = none;
  screening_answers = none;
}

abbrev start : ApplicationsDb
start = record {
  jobs = (1, record { employer = 2; published = true }) ∷ [];
  applications = [];
  event_log = [];
  notifications = [];
  queued = [];
}

-- Two submissions whose checks have both passed, and a withdrawal.
abbrev race : List ApplicationStep
race =
    ApplicationStep.stores 10 7 dto
    ∷ ApplicationStep.stores 11 7 dto
    ∷ ApplicationStep.withdraws 10 7
    ∷ []

start-OncePerJob : OncePerJob start
unfolding OncePerJob applied count_rows
start-OncePerJob job user = omega arith

run-OncePerJob_example : OncePerJob (run race start)
run-OncePerJob_example = run-OncePerJob race start start-OncePerJob

abbrev applied_once : ApplicationsDb
applied_once = record start { applications = (10, new_application 7 dto) ∷ [] }

step-Kept_example :
    Kept
      (ApplicationStep.updates 10 ApplicationStatus.offered 2)
      10
      (new_application 7 dto)
      applied_once
unfolding lookup
step-Kept_example =
    step-Kept (ApplicationStep.updates 10 ApplicationStatus.offered 2) 10 (new_application 7 dto)
      applied_once refl
