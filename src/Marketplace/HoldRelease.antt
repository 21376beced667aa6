-- ===== src/Marketplace/HoldRelease.antt =====
-- src/modules/wallet/wallet.processor.ts: the job of the wallet queue that ends a hold period. The wallet
-- of a freelancer is named by the user, who has one; the link of the entry to a milestone is left out.
use beleqet_ecosystem_update.Base.{
  ℕ, ◌≡◌, refl, some, pos, ◌+ℤ◌, ◌-ℤ◌, int_laws, lookup, lookup-insert_self, ok, ◌>>=◌, ◌>>◌, gets,
  or_throw, modify, pure, arith,
}
use beleqet_ecosystem_update.Marketplace.Tables.{
  Db, Action, FreelancerWallet, LedgerEntry, WalletTransactionType, Note, put_freelancer_wallet,
  post_freelancer, record_not_found,
}

-- The jobs by their names.
pub data WalletJob : Type 0 where
  release_pending : ℕ → ℕ → WalletJob
  other_job : WalletJob

hold_entry : ℕ → ℕ → LedgerEntry
hold_entry user amount = record {
  owner = user;
  kind = WalletTransactionType.credit_available;
  amount = amount;
  note = Note.hold_cleared;
}

-- `process`; `entry` is the id of the new entry of the ledger. There is no transaction.
pub process_wallet_job : ℕ → WalletJob → Action (Unit {0})
unfolding hold_entry
process_wallet_job entry (release_pending user amount) = do
  w ← or_throw (← gets (λ db. lookup user db.freelancer_wallets)) record_not_found
  modify (
      put_freelancer_wallet user (record w {
        pending_balance = w.pending_balance -ℤ pos amount;
        available_balance = w.available_balance +ℤ pos amount;
      }))
  modify (post_freelancer entry (hold_entry user amount))
process_wallet_job entry other_job = pure tt

-- A job of a hold that has ended moves its amount from the pending to the available balance of the
-- freelancer, their sum unchanged.
pub release_pending_moves :
    (entry user amount : ℕ) (w : FreelancerWallet) (db : Db)
    → lookup user db.freelancer_wallets ≡ some w
    → let (r, db') = process_wallet_job entry (release_pending user amount) db in
      (r ≡ ok tt)
      × (v : FreelancerWallet) × (lookup user db'.freelancer_wallets ≡ some v)
      × (v.available_balance ≡ w.available_balance +ℤ pos amount)
      × (v.pending_balance +ℤ v.available_balance ≡ w.pending_balance +ℤ w.available_balance)
unfolding process_wallet_job
release_pending_moves entry user amount w db h =
    let moved : FreelancerWallet = record w {
      pending_balance = w.pending_balance -ℤ pos amount;
      available_balance = w.available_balance +ℤ pos amount;
    } in
    (
      ground arith,
      moved,
      ground (arith, lookup-insert_self user moved db.freelancer_wallets),
      refl,
      omega int_laws,
    )
