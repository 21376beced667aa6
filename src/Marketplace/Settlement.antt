-- ===== src/Marketplace/Settlement.antt =====
-- The life of one escrow after `initiate`: the webhooks and unlock jobs of
-- src/modules/escrow/escrow.processor.ts that name it, in any order and number.
pub mod Laws
use Prim.Native.String.{String}
use beleqet_ecosystem_update.Base.{
  ℕ, insert, Option-cases, ◌≡◌, refl, ◌≢◌, ◌⊎◌, inl, inr, Bool, true, false, Option, none, some,
  List, [], ◌∷◌, ℤ, pos, ◌+ℤ◌, ◌-ℤ◌, lookup, lookup-insert, lookup-insert_self, ok, arith, int_laws,
  ◌<◌, Bool-cases, ltb, lt→ltb, eq_of_parts, +ℤ_parts, -ℤ_of_eq_add, -ℤ-add_of_eq,
}
use beleqet_ecosystem_update.Marketplace.Tables.{
  Db, FreelanceJob, EscrowTransaction, EscrowStatus, EmployerWallet, find_wallet, find_escrow,
}
use beleqet_ecosystem_update.Marketplace.Escrow.{unlock}
use beleqet_ecosystem_update.Marketplace.Processor.{
  release_locked_funds, settle_payment, fund_escrow, is_success, is_settled, refund_escrow, refund,
  is_funded, spend_locked,
}

-- What the escrow queue is asked to do about the escrow: the status that the gateway reports, or the
-- unlock job that `initiate` queued.
pub data Move : Type 0 where
  webhook : String → Move
  unlock_job : Move

-- The handler of one such job; the escrow is read when the job runs.
pub run_move : ℕ → ℕ → ℕ → Move → Db → Db
unfolding settle_payment release_locked_funds
run_move job client amount unlock_job db = release_locked_funds job client amount db
run_move job client amount (webhook status) db = elim (find_escrow job db) [
  | none ↦ db
  | some e ↦ (settle_payment status job e client db).1
]

pub run_moves : ℕ → ℕ → ℕ → List Move → Db → Db
run_moves job client amount [] db = db
run_moves job client amount (m ∷ ms) db =
    run_moves job client amount ms (run_move job client amount m db)

-- The four outcomes that money can have, from a wallet `w` that was read before `initiate`:
-- locked; spent; given back; and spent after it was given back.
pub data Outcome (e : EscrowTransaction) (v w : EmployerWallet) (amount : ℕ) : Type 0 where
  is_locked :
      e.status ≡ EscrowStatus.pending
      → v.balance +ℤ pos amount ≡ w.balance
      → v.locked_balance ≡ w.locked_balance +ℤ pos amount
      → Outcome e v w amount
  is_spent :
      e.status ≡ EscrowStatus.funded
      → v.balance +ℤ pos amount ≡ w.balance
      → v.locked_balance ≡ w.locked_balance
      → Outcome e v w amount
  is_returned :
      e.status ≡ EscrowStatus.refunded
      → v.balance ≡ w.balance
      → v.locked_balance ≡ w.locked_balance
      → Outcome e v w amount
  is_overdrawn :
      e.status ≡ EscrowStatus.funded
      → v.balance ≡ w.balance
      → v.locked_balance +ℤ pos amount ≡ w.locked_balance
      → Outcome e v w amount

-- The escrow and the wallet stand in the database in one of these ways.
pub record Settled (job client amount : ℕ) (w : EmployerWallet) (db : Db) : Type 0 where
  pub escrow : EscrowTransaction
  pub wallet : EmployerWallet
  pub escrow_found : find_escrow job db ≡ some escrow
  pub wallet_found : find_wallet client db ≡ some wallet
  pub applied : escrow.wallet_applied_amount ≡ amount
  pub outcome : Outcome escrow wallet w amount
