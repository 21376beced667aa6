-- ===== src/Jobs/Pages.antt =====
-- The paging of `findAll` (src/modules/jobs/jobs.service.ts).
use beleqet_ecosystem_update.Base.{ℕ, zero, suc, Bool, some, [], ◌++◌, Dict}
use beleqet_ecosystem_update.Jobs.Tables.{Job, JobsDb}
use beleqet_ecosystem_update.Jobs.{QueryJobs, find_all}

module _ (contains : ℕ → ℕ → Bool) where
  -- The items of some pages, from one of them on.
  pub pages : QueryJobs → JobsDb → ℕ → ℕ → Dict Job
  unfolding find_all
  pages query db zero page = []
  pages query db (suc n) page =
      (find_all contains (record query { page = some page }) db).items
      ++ pages query db n (suc page)
