-- ===== src/Marketplace/Processor.antt =====
-- src/modules/escrow/escrow.processor.ts: the jobs of the escrow queue.
use Prim.Native.String.{String}
use text.Mathlib.Text.{◌==◌ as str_eq}
use beleqet_ecosystem_update.Base.{
  ℕ, ◌-◌, ◌==◌, ltb, if◌then◌else◌, Bool, true, false, ◌||◌, Option, none, some, pos, ◌+ℤ◌, ◌-ℤ◌,
  lookup, Dict, [], ◌∷◌, internal_server_error, ◌>>=◌, ◌>>◌, or_throw, throw, modify, pure, when,
  transaction,
}
use beleqet_ecosystem_update.Marketplace.Tables.{
  Db, Action, FreelanceJob, FreelanceJobStatus, EscrowTransaction, EscrowStatus, EmployerWallet,
  LedgerEntry, Note, WalletTransactionType, QueueJob, Event, find_wallet, put_wallet, find_escrow,
  put_escrow, put_freelancer_wallet, enqueue, log_event, post_employer, post_freelancer, update_job,
}
use beleqet_ecosystem_update.Marketplace.Wallet.{etb, Payout}
use beleqet_ecosystem_update.Marketplace.Escrow.{unlock}

-- What Prisma makes of a condition whose value is `undefined`: it is not fixed here.
pub matches_ref : Bool → ℕ → Option ℕ → EscrowTransaction → Bool
matches_ref undefined_matches reference (some tx_ref) e =
    e.gateway_ref == reference || e.gateway_ref == tx_ref
matches_ref undefined_matches reference none e = e.gateway_ref == reference || undefined_matches

-- The first escrow, with its gig, that a test accepts.
pub find_escrow_by :
    (EscrowTransaction → Bool) → Dict EscrowTransaction → Option (ℕ × EscrowTransaction)
find_escrow_by p [] = none
find_escrow_by p ((job, e) ∷ d) = if p e then some (job, e) else find_escrow_by p d

unfoldable pub is_success : String → Bool
is_success s = str_eq s "success" || str_eq s "SUCCESS"

-- The states in which `releaseLockedFunds` has nothing left to do.
unfoldable pub is_settled : EscrowStatus → Bool
is_settled EscrowStatus.funded = true
is_settled EscrowStatus.refunded = true
is_settled _ = false

unfoldable pub is_funded : EscrowStatus → Bool
is_funded EscrowStatus.funded = true
is_funded _ = false

unfoldable pub refund : ℕ → EmployerWallet → EmployerWallet
refund amount w = record {
  balance = w.balance +ℤ pos amount;
  locked_balance = w.locked_balance -ℤ pos amount;
}

refund_entry : ℕ → ℕ → ℕ → LedgerEntry
refund_entry client job amount = record {
  owner = client;
  kind = WalletTransactionType.credit_available;
  amount = amount;
  note = Note.abandoned_refund job;
}

-- The writes of `releaseLockedFunds`, one transaction.
unfoldable pub refund_escrow : ℕ → EscrowTransaction → ℕ → EmployerWallet → ℕ → Db → Db
unfolding refund refund_entry
refund_escrow job e client w amount db = post_employer (refund_entry client job amount) (
    put_wallet client (refund amount w)
      (put_escrow job (record e { status = EscrowStatus.refunded }) db))

unfoldable pub release_locked_funds : ℕ → ℕ → ℕ → Db → Db
unfolding refund_escrow is_settled
release_locked_funds job client amount db = elim (find_escrow job db) [
  | none ↦ db
  | some e ↦ if is_settled e.status then db else elim (find_wallet client db) [
    | none ↦ db
    | some w ↦ refund_escrow job e client w amount db
  ]
]

partial_entry : ℕ → ℕ → ℕ → LedgerEntry
partial_entry client job amount = record {
  owner = client;
  kind = WalletTransactionType.debit_withdrawal;
  amount = amount;
  note = Note.partially_funded job;
}

-- What a funded escrow takes from the wallet: the amount that `initiate` locked, if any.
unfoldable pub spend_locked : ℕ → ℕ → ℕ → Db → Db
unfolding unlock partial_entry
spend_locked job client amount db =
    if ltb 0 amount
    then elim (find_wallet client db) [
      | none ↦ db
      | some w ↦
          post_employer (partial_entry client job amount) (put_wallet client (unlock amount w) db)
    ]
    else db

fund_job : FreelanceJob → FreelanceJob
fund_job j = record j { status = FreelanceJobStatus.funded }

-- The transaction of a successful payment, and the notification that follows it.
unfoldable pub fund_escrow : ℕ → EscrowTransaction → ℕ → Action (Unit {0})
unfolding spend_locked fund_job
fund_escrow job e client = transaction do
  modify (put_escrow job (record e { status = EscrowStatus.funded }))
  update_job job fund_job
  modify (spend_locked job client e.wallet_applied_amount)
  modify (log_event (Event.escrow_funded job e.gross_amount))
  modify (log_event (Event.notify_in_app client))

-- The rest of `handleWebhook`, for the escrow that the payload names and the client of its gig.
unfoldable pub settle_payment : String → ℕ → EscrowTransaction → ℕ → Action (Unit {0})
unfolding is_funded is_success fund_escrow release_locked_funds
settle_payment status job e client =
    if is_funded e.status
    then pure tt
    else if is_success status
    then fund_escrow job e client
    else when (ltb 0 e.wallet_applied_amount)
        (modify (release_locked_funds job client e.wallet_applied_amount))

-- `handleWebhook`. The raw answer of the gateway, which is stored for reference, is left out.
unfoldable pub handle_webhook : Bool → ℕ → String → Option ℕ → Action (Unit {0})
unfolding matches_ref find_escrow_by settle_payment
handle_webhook undefined_matches reference status tx_ref db =
    elim (find_escrow_by (matches_ref undefined_matches reference tx_ref) db.escrows) [
      | none ↦ pure tt db
      | some (job, e) ↦
          (do
            j ← or_throw (lookup job db.jobs) (internal_server_error "foreign key")
            settle_payment status job e j.client_id)
            db
    ]

cleared_entry : ℕ → ℕ → LedgerEntry
cleared_entry freelancer amount = record {
  owner = freelancer;
  kind = WalletTransactionType.credit_available;
  amount = amount;
  note = Note.milestone_cleared;
}

-- The upsert of `handleAutoRelease`.
pub clear_pending : ℕ → ℕ → Db → Db
clear_pending freelancer amount db = elim (lookup freelancer db.freelancer_wallets) [
  | some w ↦
      put_freelancer_wallet freelancer
        (record w {
          pending_balance = w.pending_balance -ℤ pos amount;
          available_balance = w.available_balance +ℤ pos amount;
        })
        db
  | none ↦
      put_freelancer_wallet freelancer
        (record { pending_balance = pos 0; available_balance = pos amount; currency = etb }) db
]

notify_cleared : ℕ → Db → Db
notify_cleared freelancer db = elim (lookup freelancer db.telegram_ids) [
  | none ↦ log_event (Event.notify_in_app freelancer) db
  | some id ↦ log_event (Event.notify_telegram id) (log_event (Event.notify_in_app freelancer) db)
]

-- `handleAutoRelease`: too early, the job is queued again for the time that is left. `entry` is the
-- id of the new ledger entry.
unfoldable pub handle_auto_release : ℕ → ℕ → ℕ → ℕ → ℕ → ℕ → Db → Db
unfolding clear_pending cleared_entry notify_cleared
handle_auto_release entry now milestone freelancer amount release_at db =
    if ltb now release_at
    then enqueue (QueueJob.auto_release milestone freelancer amount release_at) (release_at - now)
        db
    else notify_cleared freelancer (
        log_event (Event.wallet_credited milestone freelancer amount) (
          post_freelancer entry (cleared_entry freelancer amount)
            (clear_pending freelancer amount db)))

-- `handleWithdrawal`: it pays out through the gateway and notifies, or throws for a retry.
pub handle_withdrawal : ℕ → ℕ → Payout → Action (Unit {0})
handle_withdrawal user amount Payout.rejected =
    throw (internal_server_error "Chapa withdrawal rejected")
handle_withdrawal user amount Payout.unreachable =
    throw (internal_server_error "Chapa withdrawal failed")
handle_withdrawal user amount _ = modify (log_event (Event.notify_in_app user))

-- `process`: the dispatch on the name of the job.
pub process : Bool → ℕ → ℕ → Payout → QueueJob → Action (Unit {0})
unfolding handle_webhook handle_auto_release handle_withdrawal release_locked_funds
process undefined_matches entry now payout (QueueJob.process_webhook reference status tx_ref) =
    handle_webhook undefined_matches reference status tx_ref
process undefined_matches entry now payout (QueueJob.auto_release milestone freelancer amount at) =
    modify (handle_auto_release entry now milestone freelancer amount at)
process undefined_matches entry now payout (QueueJob.process_withdrawal user amount) =
    handle_withdrawal user amount payout
process undefined_matches entry now payout (QueueJob.unlock_funds job client amount) =
    modify (release_locked_funds job client amount)
process undefined_matches entry now payout QueueJob.unknown = pure tt
