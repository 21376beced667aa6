-- ===== src/Marketplace/Escrow.antt =====
-- src/modules/escrow/escrow.service.ts: funding an escrow and approving a milestone.
-- `Math.round(x * 0.1)` of a whole x below 2^31 is (x + 5) / 10: the product is within 1e-6 of the
-- exact tenth, which is a half or at least a tenth away from one, and halves round up.
use Prim.Native.String.{String}
use beleqet_ecosystem_update.Base.{
  ℕ, ◌+◌, ◌-◌, ◌*◌, ◌/◌, ◌==◌, ltb, if◌then◌else◌, keep_if, ◌&&◌, Option, none, some, ℤ, pos,
  pos_part, ◌+ℤ◌, ◌-ℤ◌, ltb_ℤ, leb_ℤ, lookup, insert, Result, ok, err, bad_request, not_found,
  internal_server_error, ◌>>=◌, ◌>>◌, gets, or_throw, modify, pure, when,
}
use beleqet_ecosystem_update.Marketplace.Tables.{
  Db, Action, FreelanceJob, Contract, Milestone, MilestoneStatus, EscrowTransaction, EscrowStatus,
  EmployerWallet, LedgerEntry, Note, WalletTransactionType, QueueJob, Event, find_wallet,
  put_wallet, put_escrow, contract_of, put_freelancer_wallet, enqueue, log_event, post_employer,
  update_wallet,
}
use beleqet_ecosystem_update.Marketplace.Wallet.{Exchange, convert_currency, etb, or_etb}

abbrev pub platform_fee_of : ℕ → ℕ
platform_fee_of gross = (gross + 5) / 10

abbrev pub day_ms : ℕ
day_ms = 86_400_000

-- What the gateway answers when a checkout is initialized; `unconfigured` without a secret key.
pub data Checkout : Type 0 where
  unconfigured refused unreachable : Checkout
  opened : ℕ → Checkout

-- Where the client pays: nowhere, on the page of the frontend, or at the gateway's address.
pub data CheckoutUrl : Type 0 where
  settled own_page : CheckoutUrl
  gateway_page : ℕ → CheckoutUrl

pub record Initiated : Type 0 where
  pub escrow_id : ℕ
  pub checkout_url : CheckoutUrl
  pub gross_amount : ℕ
  pub platform_fee : ℕ
  pub net_amount : ℕ
  pub wallet_applied_amount : ℕ
  pub amount_to_pay : Option ℕ

unfoldable pub gross_of : Option Contract → FreelanceJob → ℕ
gross_of (some c) job = c.agreed_amount
gross_of none job = job.budget_max

-- `employerWallet?.balance || 0`
pub available_of : Option EmployerWallet → ℤ
available_of none = pos 0
available_of (some w) = w.balance

-- What of the gross amount the wallet pays.
unfoldable pub wallet_share : ℕ → ℤ → ℕ
wallet_share gross available =
    if ltb_ℤ (pos 0) available
    then if leb_ℤ (pos gross) available then gross else pos_part available
    else 0

unfoldable pub lock : ℕ → EmployerWallet → EmployerWallet
lock amount w = record {
  balance = w.balance -ℤ pos amount;
  locked_balance = w.locked_balance +ℤ pos amount;
}

-- The guarded `updateMany`: it locks the amount if the balance still covers it, or throws.
pub lock_funds : ℕ → ℕ → Action (Unit {0})
unfolding lock
lock_funds client amount = do
  w ← gets (find_wallet client)
  covered ←
      or_throw (keep_if (λ w. leb_ℤ (pos amount) w.balance) w)
        (bad_request "Insufficient balance or concurrent transaction")
  modify (put_wallet client (lock amount covered))

unfoldable pub new_escrow : ℕ → ℕ → ℕ → EscrowTransaction
new_escrow gross applied tx_ref = record {
  gross_amount = gross;
  platform_fee = platform_fee_of gross;
  net_amount = gross - platform_fee_of gross;
  wallet_applied_amount = applied;
  status = if gross - applied == 0 then EscrowStatus.funded else EscrowStatus.pending;
  gateway_ref = tx_ref;
}

unfoldable pub unlock : ℕ → EmployerWallet → EmployerWallet
unlock amount w = record w { locked_balance = w.locked_balance -ℤ pos amount }

debit_entry : ℕ → ℕ → ℕ → LedgerEntry
debit_entry client job amount = record {
  owner = client;
  kind = WalletTransactionType.debit_withdrawal;
  amount = amount;
  note = Note.fully_funded job;
}

-- The branch of an escrow that the wallet pays in full. `employerWallet!.id` is a TypeError if no
-- wallet was read, which an amount of zero lets happen.
pub settle_in_full : ℕ → ℕ → Option EmployerWallet → ℕ → Action (Unit {0})
unfolding debit_entry unlock
settle_in_full client job wallet applied = do
  read ← or_throw wallet (internal_server_error "TypeError")
  modify (post_employer (debit_entry client job applied))
  update_wallet client (unlock applied)

pub checkout_url_of : Checkout → CheckoutUrl
checkout_url_of (opened url) = CheckoutUrl.gateway_page url
checkout_url_of _ = CheckoutUrl.own_page

receipt : ℕ → ℕ → ℕ → CheckoutUrl → Option ℕ → Initiated
receipt job gross applied url to_pay = record {
  escrow_id = job;
  checkout_url = url;
  gross_amount = gross;
  platform_fee = platform_fee_of gross;
  net_amount = gross - platform_fee_of gross;
  wallet_applied_amount = applied;
  amount_to_pay = to_pay;
}

-- The end of `initiate`: an escrow that is paid in full is settled, another one waits for the client.
pub finish : ℕ → ℕ → Option EmployerWallet → ℕ → ℕ → Checkout → Action Initiated
unfolding settle_in_full checkout_url_of receipt
finish client job_id wallet gross applied checkout =
    if gross - applied == 0
    then (do
      settle_in_full client job_id wallet applied
      pure (receipt job_id gross applied CheckoutUrl.settled none))
    else (do
      modify (log_event (Event.escrow_initiated job_id gross))
      pure (receipt job_id gross applied (checkout_url_of checkout) (some (gross - applied))))

-- `initiate` once the gig, its contract and the wallet have been read; the wallet in the database may
-- have changed since.
unfoldable pub initiate_from :
    ℕ → ℕ → FreelanceJob → Option Contract → Option EmployerWallet → ℕ → Checkout → Action Initiated
unfolding gross_of available_of wallet_share lock_funds new_escrow finish
initiate_from client job_id job contract wallet tx_ref checkout =
    let gross = gross_of contract job in
    let available = available_of wallet in
    let applied = wallet_share gross available in
    let to_pay = gross - applied in
    do
      when (ltb_ℤ (pos 0) available) (lock_funds client applied)
      modify (put_escrow job_id (new_escrow gross applied tx_ref))
      when (ltb 0 applied && ltb 0 to_pay)
          (modify (enqueue (QueueJob.unlock_funds job_id client applied) day_ms))
      finish client job_id wallet gross applied checkout

unfoldable pub initiate : ℕ → ℕ → ℕ → Checkout → Action Initiated
unfolding initiate_from
initiate client job_id tx_ref checkout = do
  found ← gets (λ db. keep_if (λ j. j.client_id == client) (lookup job_id db.jobs))
  job ← or_throw found (not_found "Gig not found")
  contract ← gets (contract_of job_id)
  wallet ← gets (find_wallet client)
  initiate_from client job_id job contract wallet tx_ref checkout

-- `handleWebhook` of the service only queues the payload.
unfoldable pub handle_webhook : ℕ → String → Option ℕ → Action (Unit {0})
handle_webhook reference status tx_ref =
    modify (enqueue (QueueJob.process_webhook reference status tx_ref) 0)

-- The payout part of `releaseMilestone`, whose errors are logged and swallowed.
pub credit_pending : ℕ → ℕ → Db → Db
credit_pending freelancer amount db = elim (lookup freelancer db.freelancer_wallets) [
  | some w ↦
      put_freelancer_wallet freelancer
        (record w { pending_balance = w.pending_balance +ℤ pos amount }) db
  | none ↦
      put_freelancer_wallet freelancer
        (record { pending_balance = pos amount; available_balance = pos 0; currency = etb }) db
]

pub queue_payout : ℕ → ℕ → ℕ → Result ℕ → Db → Db
unfolding credit_pending
queue_payout milestone freelancer now (err _) db = db
queue_payout milestone freelancer now (ok gross) db =
    let net = gross - platform_fee_of gross in
    enqueue (QueueJob.auto_release milestone freelancer net (now + 3 * day_ms)) 0
      (credit_pending freelancer net db)

-- `findFirst` on the milestone and the client of its contract.
pub client_milestone : ℕ → ℕ → Db → Option (Milestone × Contract)
client_milestone id client db = elim (lookup id db.milestones) [
  | none ↦ none
  | some m ↦ elim (keep_if (λ c. c.client_id == client) (lookup m.contract_id db.contracts)) [
    | none ↦ none
    | some c ↦ some (m, c)
  ]
]

approve : ℕ → Milestone → Db → Db
approve id m db = record db {
  milestones = insert id (record m { status = MilestoneStatus.approved }) db.milestones;
}

unfoldable pub release_milestone : Exchange → ℕ → ℕ → ℕ → Action (Unit {0})
unfolding client_milestone queue_payout approve
release_milestone x id client now = do
  (m, c) ← or_throw (← gets (client_milestone id client)) (not_found "Milestone not found")
  modify (approve id m)
  modify (log_event (Event.milestone_approved id c.freelancer_id m.amount))
  modify (queue_payout id c.freelancer_id now (convert_currency x m.amount (or_etb c.currency) etb))
