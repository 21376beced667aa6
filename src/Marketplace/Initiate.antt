-- ===== src/Marketplace/Initiate.antt =====
-- `initiate` of src/modules/escrow/escrow.service.ts, and the webhooks and unlock jobs of
-- escrow.processor.ts that run after it.

use beleqet_ecosystem_update.Base.{
  ℕ, ◌+◌, ==_refl, ◌≡◌, refl, some, List, [], ◌∷◌, ℤ, pos, pos_part, ◌+ℤ◌, ◌<ℤ◌, ◌≤ℤ◌, lookup,
  insert, lookup-insert_self, arith, int_laws, -ℤ-add_of_eq, -ℤ_of_eq_add, ◌<◌,
}
use beleqet_ecosystem_update.Marketplace.Tables.{
  Db, FreelanceJob, EscrowTransaction, EscrowStatus, EmployerWallet, find_wallet, find_escrow,
  contract_of,
}
use beleqet_ecosystem_update.Marketplace.Escrow.{
  unlock, initiate, initiate_from, lock, gross_of, wallet_share, new_escrow, Checkout,
}
use beleqet_ecosystem_update.Marketplace.Processor.{refund}
use beleqet_ecosystem_update.Marketplace.Settlement.{
  Settled, is_locked, Move, unlock_job, webhook, run_moves,
}
use beleqet_ecosystem_update.Marketplace.Settlement.Laws.{run_moves-Settled, late_success}

-- A wallet that covers a part of the amount: the part is the balance.
share_part : (gross : ℕ) (b : ℤ) → pos 0 <ℤ b → b <ℤ pos gross → wallet_share gross b ≡ pos_part b
unfolding wallet_share
share_part gross b p q = ground arith

share_full : (gross : ℕ) (b : ℤ) → 0 < gross → pos gross ≤ℤ b → wallet_share gross b ≡ gross
unfolding wallet_share
share_full gross b p q = ground arith

module _ (client job_id tx_ref : ℕ) (checkout : Checkout) (job : FreelanceJob) (w : EmployerWallet)
    (db : Db) (found : lookup job_id db.jobs ≡ some job) (owned : job.client_id ≡ client)
    (read : find_wallet client db ≡ some w) where
  reads :
      initiate client job_id tx_ref checkout db
      ≡ initiate_from client job_id job (contract_of job_id db) (some w) tx_ref checkout db
  unfolding initiate
  reads = rw found (rw (owned, ==_refl client) (rw read))

  module _ (positive : pos 0 <ℤ w.balance)
      (short : w.balance <ℤ pos (gross_of (contract_of job_id db) job)) where
    partial_writes :
        let db' = (initiate client job_id tx_ref checkout db).1 in
        (find_escrow job_id db'
          ≡ some (new_escrow (gross_of (contract_of job_id db) job) (pos_part w.balance) tx_ref))
        × (find_wallet client db' ≡ some (lock (pos_part w.balance) w))
        × (lookup job_id db'.jobs ≡ some job)
    unfolding initiate_from
    partial_writes = rw reads (
        ground (
          arith,
          share_part (gross_of (contract_of job_id db) job) w.balance positive short,
          lookup-insert_self client (lock (pos_part w.balance) w) db.employer_wallets,
          lookup-insert_self job_id
              (new_escrow (gross_of (contract_of job_id db) job) (pos_part w.balance) tx_ref)
              db.escrows,
        ))

    -- After a gig whose wallet covers a part of the price is initiated, whatever webhooks and unlock
    -- jobs run, in any order and number, leave the client's wallet in one of four ways, told by the
    -- status of the escrow: the part locked (pending), spent once (funded), given back (refunded), or
    -- given back and then taken from the locked balance once more (funded).
    pub settlement_outcomes :
        (ms : List Move)
        → Settled job_id client (pos_part w.balance) w (
            run_moves job_id client
              (pos_part w.balance)
              ms
              (initiate client job_id tx_ref checkout db).1)
    unfolding new_escrow lock
    settlement_outcomes ms =
        run_moves-Settled job_id client (pos_part w.balance) w ms _ (omega arith) (record {
          escrow = _;
          wallet = lock (pos_part w.balance) w;
          escrow_found = partial_writes.0;
          wallet_found = partial_writes.1;
          applied = refl;
          outcome = is_locked (ground arith) (-ℤ-add_of_eq _ _ _ refl) refl;
        })

    -- A payment that the gateway reports after the unlock job has run: the escrow becomes funded, the
    -- balance stays as it was before `initiate`, and the locked balance falls below what it was then
    -- by the part that the wallet was to pay.
    pub late_payment_overdraws :
        let moves = unlock_job ∷ webhook "success" ∷ [] in
        let db' =
          run_moves job_id client
            (pos_part w.balance)
            moves
            (initiate client job_id tx_ref checkout db).1 in
        (v : EmployerWallet) × (e : EscrowTransaction) × (find_escrow job_id db' ≡ some e)
        × (e.status ≡ EscrowStatus.funded)
        × (find_wallet client db' ≡ some v)
        × (v.balance ≡ w.balance)
        × (v.locked_balance +ℤ pos (pos_part w.balance) ≡ w.locked_balance)
    unfolding new_escrow lock unlock refund
    late_payment_overdraws =
        let (wallet_after, escrow_after) =
          late_success job_id client (pos_part w.balance) _ (lock (pos_part w.balance) w) job _
            partial_writes.0 (ground arith) refl (omega arith) partial_writes.1 partial_writes.2 in
        (
          unlock (pos_part w.balance) (refund (pos_part w.balance) (lock (pos_part w.balance) w)),
          _,
          escrow_after,
          refl,
          wallet_after,
          omega int_laws,
          rw (-ℤ-add_of_eq _ _ _ refl) (-ℤ_of_eq_add _ _ _ refl),
        )

  full_writes :
      let gross = gross_of (contract_of job_id db) job in
      0 < gross
      → pos gross ≤ℤ w.balance
      → let db' = (initiate client job_id tx_ref checkout db).1 in
        (find_wallet client db' ≡ some (unlock gross (lock gross w)))
        × (find_escrow job_id db' ≡ some (new_escrow gross gross tx_ref))
  unfolding initiate_from
  full_writes p q =
      let gross = gross_of (contract_of job_id db) job in
      rw reads (
        ground (
          arith,
          share_full gross w.balance p q,
          lookup-insert_self client (lock gross w) db.employer_wallets,
          lookup-insert_self client (unlock gross (lock gross w))
              (insert client (lock gross w) db.employer_wallets),
          lookup-insert_self job_id (new_escrow gross gross tx_ref) db.escrows,
        ))

  -- A gig whose price the wallet covers is funded at once: the balance falls by the price, the locked
  -- balance is what it was, and the escrow holds the price and the fee that adds up to it with the net.
  pub initiate_in_full :
      let gross = gross_of (contract_of job_id db) job in
      0 < gross
      → pos gross ≤ℤ w.balance
      → let db' = (initiate client job_id tx_ref checkout db).1 in
        (v : EmployerWallet) × (e : EscrowTransaction) × (find_wallet client db' ≡ some v)
        × (v.balance +ℤ pos gross ≡ w.balance)
        × (v.locked_balance ≡ w.locked_balance)
        × (find_escrow job_id db' ≡ some e)
        × (e.status ≡ EscrowStatus.funded)
        × (e.gross_amount ≡ gross)
        × (e.platform_fee + e.net_amount ≡ gross)
  unfolding new_escrow lock unlock
  initiate_in_full p q =
      let gross = gross_of (contract_of job_id db) job in
      let (wallet, escrow) = full_writes p q in
      (
        unlock gross (lock gross w),
        new_escrow gross gross tx_ref,
        wallet,
        omega int_laws,
        -ℤ_of_eq_add _ _ _ refl,
        escrow,
        ground arith,
        refl,
        omega arith,
      )
