-- ===== src/Marketplace/Tables.antt =====
-- The tables of prisma/schema.prisma that the marketplace reads and writes.
-- A row is named by its unique key: a wallet by its owner (`userId` is unique) and an escrow by its
-- gig (`freelanceJobId` is unique), so the surrogate `id` of these two is left out.
-- Identifiers are only compared and are numbers; balances are integers, the other amounts, which the
-- DTOs bound below by zero, are numbers. A write to a row that is not there throws, as Prisma does.
use Prim.Native.String.{String}
use beleqet_ecosystem_update.Base.{
  ℕ, ◌==◌, Option, List, ◌∷◌, [], ◌++◌, ℤ, Dict, lookup, insert, find_value, Request, HttpError,
  internal_server_error, ◌>>=◌, gets, or_throw, modify,
}

pub data FreelanceJobStatus : Type 0 where
  draft funded open_for_bids in_progress completed cancelled : FreelanceJobStatus

pub data BidStatus : Type 0 where
  pending accepted rejected withdrawn : BidStatus

pub data ContractStatus : Type 0 where
  active completed disputed cancelled : ContractStatus

pub data MilestoneStatus : Type 0 where
  pending in_progress submitted approved revision_requested : MilestoneStatus

pub data EscrowStatus : Type 0 where
  pending funded in_review released refunded disputed : EscrowStatus

pub data WalletTransactionType : Type 0 where
  credit_pending credit_available debit_withdrawal debit_fee : WalletTransactionType

pub record FreelanceJob : Type 0 where
  pub client_id : ℕ
  pub budget_max : ℕ
  pub currency : String
  pub status : FreelanceJobStatus

pub record Bid : Type 0 where
  pub job_id : ℕ
  pub freelancer_id : ℕ
  pub amount : ℕ
  pub timeline_days : ℕ
  pub status : BidStatus

pub record Contract : Type 0 where
  pub job_id : ℕ
  pub client_id : ℕ
  pub freelancer_id : ℕ
  pub agreed_amount : ℕ
  pub currency : String
  pub status : ContractStatus

pub record Milestone : Type 0 where
  pub contract_id : ℕ
  pub amount : ℕ
  pub status : MilestoneStatus

pub record EscrowTransaction : Type 0 where
  pub gross_amount : ℕ
  pub platform_fee : ℕ
  pub net_amount : ℕ
  pub wallet_applied_amount : ℕ
  pub status : EscrowStatus
  pub gateway_ref : ℕ

pub record EmployerWallet : Type 0 where
  pub balance : ℤ
  pub locked_balance : ℤ

pub record FreelancerWallet : Type 0 where
  pub pending_balance : ℤ
  pub available_balance : ℤ
  pub currency : String

-- What the `note` of a ledger entry says.
pub data Note : Type 0 where
  fully_funded partially_funded abandoned_refund excess_refund dispute_refund : ℕ → Note
  milestone_cleared hold_cleared withdrawal_pending rejected_by_gateway network_error : Note

-- A row of `WalletTransaction` or `EmployerWalletTransaction`, under the owner of its wallet.
pub record LedgerEntry : Type 0 where
  pub owner : ℕ
  pub kind : WalletTransactionType
  pub amount : ℕ
  pub note : Note

pub record Dispute : Type 0 where
  pub contract_id : ℕ
  pub raised_by_id : ℕ
  pub reason : String
  pub resolution : Option String

-- The jobs on the escrow queue, with their payloads.
pub data QueueJob : Type 0 where
  process_webhook : ℕ → String → Option ℕ → QueueJob
  auto_release : ℕ → ℕ → ℕ → ℕ → QueueJob
  process_withdrawal : ℕ → ℕ → QueueJob
  unlock_funds : ℕ → ℕ → ℕ → QueueJob
  unknown : QueueJob

-- Rows of the event log, notifications that are queued, and events that are emitted.
pub data Event : Type 0 where
  escrow_initiated escrow_funded : ℕ → ℕ → Event
  milestone_approved wallet_credited : ℕ → ℕ → ℕ → Event
  notify_in_app notify_telegram : ℕ → Event

pub record Db : Type 0 where
  pub jobs : Dict FreelanceJob
  pub bids : Dict Bid
  pub contracts : Dict Contract
  pub milestones : Dict Milestone
  pub escrows : Dict EscrowTransaction
  pub employer_wallets : Dict EmployerWallet
  pub freelancer_wallets : Dict FreelancerWallet
  pub employer_ledger : List LedgerEntry
  pub freelancer_ledger : Dict LedgerEntry
  pub disputes : Dict Dispute
  pub chat_rooms : Dict (ℕ × ℕ)
  pub telegram_ids : Dict ℕ
  pub queue : List (QueueJob × ℕ)  -- with the delay in milliseconds
  pub events : List Event

abbrev pub Action : Type 0 → Type 0
Action A = Request Db A

-- Prisma's P2025, which no handler catches.
abbrev pub record_not_found : HttpError
record_not_found = internal_server_error "P2025"

abbrev pub find_wallet : ℕ → Db → Option EmployerWallet
find_wallet user db = lookup user db.employer_wallets

abbrev pub put_wallet : ℕ → EmployerWallet → Db → Db
put_wallet user w db = record db { employer_wallets = insert user w db.employer_wallets }

abbrev pub find_escrow : ℕ → Db → Option EscrowTransaction
find_escrow job db = lookup job db.escrows

abbrev pub put_escrow : ℕ → EscrowTransaction → Db → Db
put_escrow job e db = record db { escrows = insert job e db.escrows }

abbrev pub contract_of : ℕ → Db → Option Contract
contract_of job db = find_value (λ c. c.job_id == job) db.contracts

abbrev pub put_job : ℕ → FreelanceJob → Db → Db
put_job id j db = record db { jobs = insert id j db.jobs }

abbrev pub put_contract : ℕ → Contract → Db → Db
put_contract id c db = record db { contracts = insert id c db.contracts }

abbrev pub put_freelancer_wallet : ℕ → FreelancerWallet → Db → Db
put_freelancer_wallet user w db = record db {
  freelancer_wallets = insert user w db.freelancer_wallets;
}

abbrev pub enqueue : QueueJob → ℕ → Db → Db
enqueue job delay db = record db { queue = db.queue ++ (job, delay) ∷ [] }

abbrev pub log_event : Event → Db → Db
log_event e db = record db { events = db.events ++ e ∷ [] }

abbrev pub post_employer : LedgerEntry → Db → Db
post_employer entry db = record db { employer_ledger = db.employer_ledger ++ entry ∷ [] }

abbrev pub post_freelancer : ℕ → LedgerEntry → Db → Db
post_freelancer id entry db = record db { freelancer_ledger = insert id entry db.freelancer_ledger }

-- `update` of one row: it throws where there is none.
abbrev pub update_wallet : ℕ → (EmployerWallet → EmployerWallet) → Action (Unit {0})
update_wallet user f = do
  w ← or_throw (← gets (find_wallet user)) record_not_found
  modify (put_wallet user (f w))

abbrev pub update_escrow : ℕ → (EscrowTransaction → EscrowTransaction) → Action (Unit {0})
update_escrow job f = do
  e ← or_throw (← gets (find_escrow job)) record_not_found
  modify (put_escrow job (f e))

abbrev pub update_job : ℕ → (FreelanceJob → FreelanceJob) → Action (Unit {0})
update_job id f = do
  j ← or_throw (← gets (λ db. lookup id db.jobs)) record_not_found
  modify (put_job id (f j))

abbrev pub update_contract : ℕ → (Contract → Contract) → Action (Unit {0})
update_contract id f = do
  c ← or_throw (← gets (λ db. lookup id db.contracts)) record_not_found
  modify (put_contract id (f c))
