-- ===== src/Marketplace/Freelance.antt =====
-- src/modules/freelance/freelance.service.ts: gigs, bids, contracts and milestones.
-- The ids of new rows are arguments. The queries that only list rows are left out, but for the paging
-- of `findJobs`.
pub mod Laws
use Prim.Native.String.{String}
use beleqet_ecosystem_update.Base.{
  is_some, ℕ, ◌+◌, ◌-◌, ◌*◌, ◌/◌, ◌==◌, ltb, if◌then◌else◌, keep_if, Bool, true, false, ◌&&◌,
  Option, none, some, List, [], ◌∷◌, ℤ, pos, ◌+ℤ◌, Dict, lookup, insert, find_value, map_values,
  not_found, conflict, forbidden, internal_server_error, ◌>>=◌, ◌>>◌, gets, or_throw, throw_if,
  modify, pure, when, transaction,
}
use beleqet_ecosystem_update.Marketplace.Tables.{
  Db, Action, FreelanceJob, FreelanceJobStatus, Bid, BidStatus, Contract, ContractStatus, Milestone,
  MilestoneStatus, EscrowTransaction, EscrowStatus, EmployerWallet, LedgerEntry, Note,
  WalletTransactionType, find_wallet, put_wallet, put_escrow, find_escrow, contract_of,
  put_contract, post_employer, update_job, put_job,
}
use beleqet_ecosystem_update.Marketplace.Wallet.{etb}
use beleqet_ecosystem_update.Marketplace.Escrow.{platform_fee_of}

-- Prisma's P2002: a unique constraint does not hold.
abbrev unique_violated : Bool → Action (Unit {0})
unique_violated c = throw_if c (internal_server_error "P2002")

pub create_job : ℕ → ℕ → ℕ → String → Action (Unit {0})
create_job id client budget_max currency = modify (
    put_job id (record {
      client_id = client;
      budget_max = budget_max;
      currency = currency;
      status = FreelanceJobStatus.open_for_bids;
    }))

-- The paging of `findJobs`: `Number(x) || default` of the page and the limit, the rows to skip, and
-- the number of pages.
unfoldable pub or_default : ℕ → Option ℕ → ℕ
or_default d none = d
or_default d (some n) = if n == 0 then d else n

pub rows_to_skip : Option ℕ → Option ℕ → ℕ
unfolding or_default
rows_to_skip page limit = (or_default 1 page - 1) * or_default 20 limit

pub total_pages : ℕ → Option ℕ → ℕ
unfolding or_default
total_pages total limit = (total + or_default 20 limit - 1) / or_default 20 limit

accepts_bids : FreelanceJobStatus → Bool
accepts_bids FreelanceJobStatus.open_for_bids = true
accepts_bids FreelanceJobStatus.funded = true
accepts_bids _ = false

-- `findUnique` by gig and freelancer.
pub bid_of : ℕ → ℕ → Dict Bid → Option Bid
bid_of job freelancer = find_value (λ b. b.job_id == job && b.freelancer_id == freelancer)

pub submit_bid : ℕ → ℕ → ℕ → ℕ → ℕ → Action (Unit {0})
unfolding accepts_bids bid_of
submit_bid id freelancer job amount timeline_days = do
  gig ← gets (λ db. keep_if (λ j. accepts_bids j.status) (lookup job db.jobs))
  or_throw gig (not_found "Gig not found or no longer accepting bids") >>= λ _. pure tt
  existing ← gets (λ db. bid_of job freelancer db.bids)
  throw_if (is_some existing) (conflict "You have already submitted a bid")
  modify (λ db. record db {
    bids =
        insert id
          (record {
            job_id = job;
            freelancer_id = freelancer;
            amount = amount;
            timeline_days = timeline_days;
            status = BidStatus.pending;
          })
          db.bids;
  })

-- `findFirst` of a bid on a gig of the client.
pub client_bid : ℕ → ℕ → Db → Option Bid
client_bid id client db = elim (lookup id db.bids) [
  | none ↦ none
  | some b ↦ elim (keep_if (λ j. j.client_id == client) (lookup b.job_id db.jobs)) [
    | none ↦ none
    | some _ ↦ some b
  ]
]

-- The two updates of the bids of a gig: the chosen one is accepted and the others are rejected.
pub decide_bid : ℕ → ℕ → ℕ → Bid → Bid
decide_bid chosen job id b =
    if id == chosen
    then record b { status = BidStatus.accepted }
    else if b.job_id == job
    then record b { status = BidStatus.rejected }
    else b

pub decide_bids : ℕ → ℕ → Dict Bid → Dict Bid
unfolding decide_bid
decide_bids chosen job = map_values (decide_bid chosen job)

pub new_contract : ℕ → Bid → Contract
new_contract client b = record {
  job_id = b.job_id;
  client_id = client;
  freelancer_id = b.freelancer_id;
  agreed_amount = b.amount;
  currency = etb;
  status = ContractStatus.active;
}

is_open_escrow : EscrowStatus → Bool
is_open_escrow EscrowStatus.funded = true
is_open_escrow EscrowStatus.pending = true
is_open_escrow _ = false

-- The upsert that credits an employer.
credit_employer : ℕ → ℕ → Db → Db
credit_employer client amount db = elim (find_wallet client db) [
  | some w ↦ put_wallet client (record w { balance = w.balance +ℤ pos amount }) db
  | none ↦ put_wallet client (record { balance = pos amount; locked_balance = pos 0 }) db
]

excess_entry : ℕ → ℕ → ℕ → LedgerEntry
excess_entry client job amount = record {
  owner = client;
  kind = WalletTransactionType.credit_available;
  amount = amount;
  note = Note.excess_refund job;
}

reprice : ℕ → EscrowTransaction → EscrowTransaction
reprice amount e = record e {
  gross_amount = amount;
  platform_fee = platform_fee_of amount;
  net_amount = amount - platform_fee_of amount;
}

-- The refund of `acceptBid`, for an escrow that is funded or pending and exceeds the bid.
pub refund_excess : ℕ → Bid → Db → Db
unfolding is_open_escrow credit_employer excess_entry reprice
refund_excess client b db =
    elim (keep_if (λ e. is_open_escrow e.status && ltb b.amount e.gross_amount)
      (find_escrow b.job_id db)) [
        | none ↦ db
        | some e ↦ put_escrow b.job_id (reprice b.amount e) (
            post_employer (excess_entry client b.job_id (e.gross_amount - b.amount))
              (credit_employer client (e.gross_amount - b.amount) db))
      ]

-- The transaction of `acceptBid`. The contract's gig is unique.
pub accept_chosen : ℕ → ℕ → ℕ → Bid → Action Contract
unfolding decide_bids new_contract refund_excess
accept_chosen id contract client b = transaction do
  modify (λ db. record db { bids = decide_bids id b.job_id db.bids })
  unique_violated (is_some (← gets (contract_of b.job_id)))
  modify (put_contract contract (new_contract client b))
  update_job b.job_id (λ j. record j { status = FreelanceJobStatus.in_progress })
  modify (refund_excess client b)
  modify (λ db. record db { chat_rooms = insert contract (client, b.freelancer_id) db.chat_rooms })
  pure (new_contract client b)

pub accept_bid : ℕ → ℕ → ℕ → Action Contract
unfolding client_bid accept_chosen
accept_bid id contract client = do
  b ← or_throw (← gets (client_bid id client)) (not_found "Bid not found")
  accept_chosen id contract client b

pub reject_bid : ℕ → ℕ → Action (Unit {0})
unfolding client_bid
reject_bid id client = do
  b ← or_throw (← gets (client_bid id client)) (not_found "Bid not found")
  modify (λ db. record db { bids = insert id (record b { status = BidStatus.rejected }) db.bids })

pub create_milestone : ℕ → ℕ → ℕ → ℕ → Action (Unit {0})
create_milestone id freelancer contract amount = do
  found ← gets (λ db. keep_if (λ c. c.freelancer_id == freelancer) (lookup contract db.contracts))
  or_throw found (forbidden "Contract not found or you are not authorized") >>= λ _. pure tt
  modify (λ db. record db {
    milestones =
        insert id
          (record { contract_id = contract; amount = amount; status = MilestoneStatus.pending })
          db.milestones;
  })
