-- ===== src/Marketplace/Tests.antt =====
-- The theorems of the marketplace at concrete inputs: client 7, freelancer 8, gig 1.

use beleqet_ecosystem_update.Base.{
  ℕ, ◌+◌, ◌*◌, ◌==◌, ◌≡◌, ◌≢◌, refl, if◌then◌else◌, none, some, [], ◌∷◌, pos, ◌+ℤ◌, ◌≤ℤ◌, Dict,
  lookup, find_value, ok, arith,
}
use beleqet_ecosystem_update.Marketplace.Tables.{
  Db, FreelanceJob, FreelanceJobStatus, Bid, BidStatus, Contract, MilestoneStatus,
  EscrowTransaction, EscrowStatus, EmployerWallet, FreelancerWallet, Dispute, find_wallet,
  find_escrow,
}
use beleqet_ecosystem_update.Marketplace.Wallet.{Exchange, WithdrawDto, Payout, withdraw_from}
use beleqet_ecosystem_update.Marketplace.Wallet.Laws.{Accounts, withdraw_from-Accounts}
use beleqet_ecosystem_update.Marketplace.Escrow.{Checkout, gross_of, initiate, initiate_from}
use beleqet_ecosystem_update.Marketplace.Settlement.{Settled, webhook, unlock_job, run_moves}
use beleqet_ecosystem_update.Marketplace.Initiate.{
  settlement_outcomes, late_payment_overdraws, initiate_in_full,
}
use beleqet_ecosystem_update.Marketplace.Stale.{initiate_from_nonneg}
use beleqet_ecosystem_update.Marketplace.Freelance.{accept_bid}
use beleqet_ecosystem_update.Marketplace.Freelance.Laws.{accept_bid_decides}

abbrev gig : FreelanceJob
gig = record {
  client_id = 7;
  budget_max = 100;
  currency = "ETB";
  status = FreelanceJobStatus.open_for_bids;
}

abbrev wallet_of : ℕ → EmployerWallet
wallet_of n = record { balance = pos n; locked_balance = pos 0 }

abbrev earnings : FreelancerWallet
earnings = record { pending_balance = pos 40; available_balance = pos 60; currency = "ETB" }

abbrev offer : ℕ → ℕ → Bid
offer freelancer amount = record {
  job_id = 1;
  freelancer_id = freelancer;
  amount = amount;
  timeline_days = 5;
  status = BidStatus.pending;
}

-- A gig with two bids; the contracts, escrows and disputes are given.
abbrev market : ℕ → Dict Contract → Dict EscrowTransaction → Dict Dispute → Db
market balance contracts escrows disputes = record {
  jobs = (1, gig) ∷ [];
  bids = (2, offer 8 80) ∷ (3, offer 9 90) ∷ [];
  contracts = contracts;
  milestones =
      (4, record { contract_id = 6; amount = 50; status = MilestoneStatus.submitted }) ∷ [];
  escrows = escrows;
  employer_wallets = (7, wallet_of balance) ∷ [];
  freelancer_wallets = (8, earnings) ∷ [];
  employer_ledger = [];
  freelancer_ledger = [];
  disputes = disputes;
  chat_rooms = [];
  telegram_ids = [];
  queue = [];
  events = [];
}

abbrev open_market : ℕ → Db
open_market balance = market balance [] [] []

settlement_outcomes_example : Settled 1 7 60 (wallet_of 60) (
    run_moves 1 7 60
      (webhook "failed" ∷ webhook "success" ∷ unlock_job ∷ [])
      (initiate 7 1 99 Checkout.refused (open_market 60)).1)
unfolding lookup find_value gross_of
settlement_outcomes_example =
    settlement_outcomes 7 1 99 Checkout.refused gig (wallet_of 60) (open_market 60) refl refl refl
      (omega arith) (omega arith) (webhook "failed" ∷ webhook "success" ∷ unlock_job ∷ [])

late_payment_overdraws_example :
    let db' =
      run_moves 1 7 60
        (unlock_job ∷ webhook "success" ∷ [])
        (initiate 7 1 99 Checkout.refused (open_market 60)).1 in
    (v : EmployerWallet) × (e : EscrowTransaction) × (find_escrow 1 db' ≡ some e)
    × (e.status ≡ EscrowStatus.funded)
    × (find_wallet 7 db' ≡ some v)
    × (v.balance ≡ pos 60)
    × (v.locked_balance +ℤ pos 60 ≡ pos 0)
unfolding lookup find_value gross_of
late_payment_overdraws_example =
    late_payment_overdraws 7 1 99 Checkout.refused gig (wallet_of 60) (open_market 60) refl refl
      refl (omega arith) (omega arith)

initiate_in_full_example :
    let db' = (initiate 7 1 99 Checkout.refused (open_market 150)).1 in
    (v : EmployerWallet) × (e : EscrowTransaction) × (find_wallet 7 db' ≡ some v)
    × (v.balance +ℤ pos 100 ≡ pos 150)
    × (v.locked_balance ≡ pos 0)
    × (find_escrow 1 db' ≡ some e)
    × (e.status ≡ EscrowStatus.funded)
    × (e.gross_amount ≡ 100)
    × (e.platform_fee + e.net_amount ≡ 100)
unfolding lookup find_value gross_of
initiate_in_full_example =
    initiate_in_full 7 1 99 Checkout.refused gig (wallet_of 150) (open_market 150) refl refl refl
      (omega arith) (omega arith)

-- The wallet that was read held 150; it holds 30 by now.
initiate_from_nonneg_example :
    let now = open_market 30 in
    let after = (initiate_from 7 1 gig none (some (wallet_of 150)) 99 Checkout.refused now).1 in
    (u : EmployerWallet) × (find_wallet 7 after ≡ some u)
    × (pos 0 ≤ℤ u.balance)
    × (pos 0 ≤ℤ u.locked_balance)
    × ((other : ℕ) → other ≢ 7 → find_wallet other after ≡ find_wallet other now)
unfolding lookup
initiate_from_nonneg_example =
    initiate_from_nonneg 7 1 gig none (some (wallet_of 150)) 99 Checkout.refused (wallet_of 30)
      (open_market 30) refl (omega arith)

-- Whole rates per unit.
abbrev exchange : Exchange
exchange = record {
  Rate = ℕ;
  is_falsy = λ r. r == 0;
  scale = λ amount from to. amount * to;
  rates = λ currency. none;
}

abbrev request : WithdrawDto
request = record { amount = 25; currency = some "ETB" }

withdraw_from-Accounts_example :
    Accounts exchange earnings 8 request
      (open_market 0)
      (withdraw_from exchange earnings 11 8 request Payout.rejected (open_market 0))
withdraw_from-Accounts_example =
    withdraw_from-Accounts exchange earnings 11 8 request Payout.rejected (open_market 0)

accept_bid_decides_example :
    let (r, db') = accept_bid 2 6 7 (open_market 0) in
    (lookup 2 db'.bids ≡ some (record (offer 8 80) { status = BidStatus.accepted }))
    × ((o : Bid)
        → ◌≢◌ {A = ℕ} 3 2
        → lookup 3 (open_market 0).bids ≡ some o
        → lookup 3 db'.bids
          ≡ some (if o.job_id == 1 then record o { status = BidStatus.rejected } else o))
    × ((c : Contract) × (r ≡ ok c) × (c.agreed_amount ≡ 80) × (lookup 6 db'.contracts ≡ some c))
unfolding lookup find_value
accept_bid_decides_example =
    accept_bid_decides 2 6 7 3 (offer 8 80) gig (open_market 0) refl refl refl refl

abbrev unpaid : EscrowTransaction
unpaid = record {
  gross_amount = 100;
  platform_fee = 10;
  net_amount = 90;
  wallet_applied_amount = 0;
  status = EscrowStatus.pending;
  gateway_ref = 99;
}
