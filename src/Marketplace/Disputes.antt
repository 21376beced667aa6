-- ===== src/Marketplace/Disputes.antt =====
-- src/modules/dispute-manager/dispute-manager.service.ts: disputes over contracts.
-- The redaction of personal data (`sanitizePii`, by regular expressions) is an argument.
pub mod Laws
use Prim.Native.String.{String}
use text.Mathlib.Text.{◌==◌ as str_eq}
use beleqet_ecosystem_update.Base.{
  ℕ, ◌==◌, ltb, if◌then◌else◌, Bool, true, false, not, ◌&&◌, ◌||◌, Option, none, some, ℤ, pos, ◌+ℤ◌,
  lookup, insert, find_value, HttpError, bad_request, not_found, internal_server_error, ◌>>=◌, ◌>>◌,
  gets, or_throw, throw_if, modify, pure,
}
use beleqet_ecosystem_update.Marketplace.Tables.{
  Db, Action, Contract, ContractStatus, Dispute, EmployerWallet, LedgerEntry, Note,
  WalletTransactionType, find_wallet, put_wallet, put_contract, post_employer, update_contract,
}

-- The contract of a dispute is unique.
pub has_dispute : ℕ → Db → Bool
has_dispute contract db = elim (find_value (λ d. d.contract_id == contract) db.disputes) [
  | none ↦ false
  | some _ ↦ true
]

new_dispute : ℕ → ℕ → String → Dispute
new_dispute contract user reason = record {
  contract_id = contract;
  raised_by_id = user;
  reason = reason;
  resolution = none;
}

-- The two writes are not in one transaction.
pub create_dispute : (String → String) → ℕ → ℕ → ℕ → String → Action Dispute
unfolding has_dispute new_dispute
create_dispute sanitize id user contract reason = do
  c ← or_throw (← gets (λ db. lookup contract db.contracts)) (not_found "Contract not found")
  throw_if (not (c.client_id == user) && not (c.freelancer_id == user))
      (bad_request "You are not authorized to raise a dispute for this contract")
  modify (put_contract contract (record c { status = ContractStatus.disputed }))
  throw_if (← gets (has_dispute contract)) (internal_server_error "P2002")
  modify (λ db. record db {
    disputes = insert id (new_dispute contract user (sanitize reason)) db.disputes;
  })
  pure (new_dispute contract user (sanitize reason))

-- `ResolveDisputeDto`; an amount that is absent, or negative, takes the
-- branches of 0.
pub record ResolveDisputeDto : Type 0 where
  pub resolution : String
  pub refund_amount : ℕ

-- `if (dispute.resolution)`: a text that is not empty.
pub is_resolved : Dispute → Bool
is_resolved d = elim d.resolution [ none ↦ false | some r ↦ not (str_eq r "") ]

refund_entry : ℕ → ℕ → ℕ → LedgerEntry
refund_entry client contract amount = record {
  owner = client;
  kind = WalletTransactionType.credit_available;
  amount = amount;
  note = Note.dispute_refund contract;
}

-- The refund to the employer, if there is one and the employer has a wallet.
pub pay_refund : ℕ → ℕ → ℕ → Db → Db
unfolding refund_entry
pay_refund client contract amount db = if amount == 0 then db else elim (find_wallet client db) [
  | none ↦ db
  | some w ↦
      post_employer (refund_entry client contract amount)
        (put_wallet client (record w { balance = w.balance +ℤ pos amount }) db)
]

pub final_status : ℕ → ContractStatus
final_status refund = if ltb 0 refund then ContractStatus.cancelled else ContractStatus.completed

pub resolve_dispute : ℕ → ResolveDisputeDto → Action Dispute
unfolding is_resolved pay_refund final_status
resolve_dispute id dto = do
  d ← or_throw (← gets (λ db. lookup id db.disputes)) (not_found "Dispute not found")
  c ←
      or_throw (← gets (λ db. lookup d.contract_id db.contracts))
        (internal_server_error "foreign key")
  throw_if (is_resolved d) (bad_request "Dispute is already resolved")
  throw_if (ltb 0 dto.refund_amount && ltb c.agreed_amount dto.refund_amount)
      (bad_request "Refund amount cannot exceed the contract agreed amount")
  let resolved : Dispute = record d { resolution = some dto.resolution }
  modify (λ db. record db { disputes = insert id resolved db.disputes })
  modify (pay_refund c.client_id d.contract_id dto.refund_amount)
  update_contract d.contract_id (λ c. record c { status = final_status dto.refund_amount })
  pure resolved
