-- ===== src/Jobs/Tables.antt =====
-- The rows of prisma/schema.prisma that src/modules/jobs/jobs.service.ts reads and writes. Texts are
-- numbers; of a job's columns those that only describe it further are left out.
use beleqet_ecosystem_update.Base.{ℕ, Bool, Option, List, Dict, Request}

pub data JobType : Type 0 where
  full_time part_time remote hybrid contract : JobType

pub data JobStatus : Type 0 where
  draft published closed archived : JobStatus

pub data Role : Type 0 where
  job_seeker other_role : Role

pub record Job : Type 0 where
  pub title : ℕ
  pub description : ℕ
  pub location : ℕ
  pub job_type : JobType
  pub category : ℕ
  pub company : ℕ
  pub status : JobStatus
  pub featured : Bool
  pub deadline : Option ℕ
  pub expiry_date : Option ℕ

pub record User : Type 0 where
  pub email : ℕ
  pub role : Role
  pub is_active : Bool

-- The confirmation to the employer that a job is live, and the alert about it to a job seeker.
pub data Mail : Type 0 where
  job_is_live job_alert : ℕ → ℕ → Mail

-- `companies` says whose a company is.
pub record JobsDb : Type 0 where
  pub jobs : Dict Job
  pub companies : Dict ℕ
  pub users : Dict User
  pub categories : List ℕ
  pub mails : List Mail

abbrev pub Action {ℓ} : Type ℓ → Type ℓ
Action A = Request JobsDb A

pub record CreateJob : Type 0 where
  pub title : ℕ
  pub description : ℕ
  pub location : ℕ
  pub job_type : JobType
  pub category : ℕ
  pub status : Option JobStatus
  pub featured : Bool
  pub deadline : Option ℕ
  pub expiry_date : Option ℕ
