-- ===== src/Marketplace/Settlement/Laws.antt =====
-- Webhooks and unlock jobs one by one, on a wallet and an escrow
-- (src/modules/escrow/escrow.processor.ts).
use Prim.Native.String.{String}
use beleqet_ecosystem_update.Base.{
  ℕ, insert, Option-cases, ◌≡◌, refl, inl, inr, true, false, none, some, List, [], ◌∷◌, lookup,
  lookup-insert_self, arith, ◌<◌, Bool-cases, lt→ltb, -ℤ_of_eq_add, -ℤ-add_of_eq,
}
use beleqet_ecosystem_update.Marketplace.Tables.{
  Db, FreelanceJob, EscrowTransaction, EscrowStatus, EmployerWallet, find_wallet, find_escrow,
}
use beleqet_ecosystem_update.Marketplace.Escrow.{unlock}
use beleqet_ecosystem_update.Marketplace.Processor.{
  release_locked_funds, settle_payment, fund_escrow, is_success, is_settled, refund_escrow, refund,
  is_funded, spend_locked,
}
use beleqet_ecosystem_update.Marketplace.Settlement.{
  Move, webhook, unlock_job, run_move, run_moves, Outcome, is_locked, is_spent, is_returned,
  is_overdrawn, Settled,
}

release_of_settled :
    (job client amount : ℕ) (e : EscrowTransaction) (db : Db)
    → find_escrow job db ≡ some e
    → is_settled e.status ≡ true
    → release_locked_funds job client amount db ≡ db
unfolding release_locked_funds
release_of_settled job client amount e db found done = rw (found, release_locked_funds) (rw done)

release_of_open :
    (job client amount : ℕ) (e : EscrowTransaction) (v : EmployerWallet) (db : Db)
    → find_escrow job db ≡ some e
    → is_settled e.status ≡ false
    → find_wallet client db ≡ some v
    → release_locked_funds job client amount db ≡ refund_escrow job e client v amount db
unfolding release_locked_funds
release_of_open job client amount e v db found open_still held =
    rw (found, release_locked_funds) (rw open_still (rw (held, release_locked_funds)))

-- With its gig in the database the transaction goes through; without it nothing is written.
fund_of_job :
    (job client : ℕ) (e : EscrowTransaction) (v : EmployerWallet) (j : FreelanceJob) (db : Db)
    → lookup job db.jobs ≡ some j
    → 0 < e.wallet_applied_amount
    → find_wallet client db ≡ some v
    → let db' = (fund_escrow job e client db).1 in
      (db'.escrows ≡ insert job (record e { status = EscrowStatus.funded }) db.escrows)
      × (db'.employer_wallets
          ≡ insert client (unlock e.wallet_applied_amount v) db.employer_wallets)
unfolding fund_escrow spend_locked
fund_of_job job client e v j db found some_applied held = ground arith

fund_of_no_job :
    (job client : ℕ) (e : EscrowTransaction) (db : Db)
    → lookup job db.jobs ≡ none
    → (fund_escrow job e client db).1 ≡ db
unfolding fund_escrow
fund_of_no_job job client e db missing = ground arith

stays :
    (job client amount : ℕ) (e : EscrowTransaction) (v w : EmployerWallet) (db : Db)
    → find_escrow job db ≡ some e
    → find_wallet client db ≡ some v
    → e.wallet_applied_amount ≡ amount
    → Outcome e v w amount
    → Settled job client amount w db
stays job client amount e v w db fe fv a o = record {
  escrow = e;
  wallet = v;
  escrow_found = fe;
  wallet_found = fv;
  applied = a;
  outcome = o;
}

-- An unlock job, on an escrow in any of its states.
release_Settled :
    (job client amount : ℕ) (e : EscrowTransaction) (v w : EmployerWallet) (db : Db)
    → find_escrow job db ≡ some e
    → find_wallet client db ≡ some v
    → e.wallet_applied_amount ≡ amount
    → Outcome e v w amount
    → Settled job client amount w (release_locked_funds job client amount db)
unfolding refund_escrow is_settled refund
release_Settled job client amount e v w db fe fv a (is_locked s b l) =
    rw (release_of_open job client amount e v db fe (rw s refl) fv) (record {
      escrow = record e { status = EscrowStatus.refunded };
      wallet = refund amount v;
      escrow_found = lookup-insert_self job _ db.escrows;
      wallet_found = lookup-insert_self client _ db.employer_wallets;
      applied = a;
      outcome = is_returned refl b (-ℤ_of_eq_add _ _ _ l);
    })
release_Settled job client amount e v w db fe fv a (is_spent s b l) =
    rw (release_of_settled job client amount e db fe (rw s))
      (stays job client amount e v w db fe fv a (is_spent s b l))
release_Settled job client amount e v w db fe fv a (is_returned s b l) =
    rw (release_of_settled job client amount e db fe (rw s))
      (stays job client amount e v w db fe fv a (is_returned s b l))
release_Settled job client amount e v w db fe fv a (is_overdrawn s b l) =
    rw (release_of_settled job client amount e db fe (rw s))
      (stays job client amount e v w db fe fv a (is_overdrawn s b l))

-- What a successful payment makes of an escrow that is not funded.
fund_Settled :
    (job client amount : ℕ) (e : EscrowTransaction) (v w : EmployerWallet) (db : Db)
    → find_escrow job db ≡ some e
    → find_wallet client db ≡ some v
    → e.wallet_applied_amount ≡ amount
    → 0 < amount
    → Outcome e v w amount
    → Outcome (record e { status = EscrowStatus.funded }) (unlock amount v) w amount
    → Settled job client amount w (fund_escrow job e client db).1
fund_Settled job client amount e v w db fe fv a p o o' = elim (Option-cases (lookup job db.jobs)) [
  | inl missing ↦
      rw (fund_of_no_job job client e db missing) (stays job client amount e v w db fe fv a o)
  | inr (j, found) ↦
      let (es, ws) = fund_of_job job client e v j db found (rw a p) fv in
      stays job client amount (record e { status = EscrowStatus.funded }) (unlock amount v) w _
        (rw es (lookup-insert_self job _ db.escrows))
        (rw (ws, a) (lookup-insert_self client _ db.employer_wallets)) a o'
]

-- A webhook that reports a success, on an escrow in any of its states.
success_Settled :
    (job client amount : ℕ) (e : EscrowTransaction) (v w : EmployerWallet) (db : Db)
    (status : String)
    → is_success status ≡ true
    → find_escrow job db ≡ some e
    → find_wallet client db ≡ some v
    → e.wallet_applied_amount ≡ amount
    → 0 < amount
    → Outcome e v w amount
    → Settled job client amount w (settle_payment status job e client db).1
unfolding settle_payment is_funded unlock
success_Settled job client amount e v w db status good fe fv a p (is_locked s b l) =
    rw (s, settle_payment)
      (rw good (
        fund_Settled job client amount e v w db fe fv a p (is_locked s b l)
          (is_spent refl b (-ℤ_of_eq_add _ _ _ l))))
success_Settled job client amount e v w db status good fe fv a p (is_spent s b l) =
    rw (s, settle_payment) (stays job client amount e v w db fe fv a (is_spent s b l))
success_Settled job client amount e v w db status good fe fv a p (is_returned s b l) =
    rw (s, settle_payment)
      (rw good (
        fund_Settled job client amount e v w db fe fv a p (is_returned s b l)
          (is_overdrawn refl b (-ℤ-add_of_eq _ _ _ l))))
success_Settled job client amount e v w db status good fe fv a p (is_overdrawn s b l) =
    rw (s, settle_payment) (stays job client amount e v w db fe fv a (is_overdrawn s b l))

-- A webhook that reports anything else.
failure_Settled :
    (job client amount : ℕ) (e : EscrowTransaction) (v w : EmployerWallet) (db : Db)
    (status : String)
    → is_success status ≡ false
    → find_escrow job db ≡ some e
    → find_wallet client db ≡ some v
    → e.wallet_applied_amount ≡ amount
    → 0 < amount
    → Outcome e v w amount
    → Settled job client amount w (settle_payment status job e client db).1
unfolding settle_payment
failure_Settled job client amount e v w db status bad fe fv a p o =
    elim (Bool-cases (is_funded e.status)) [
      | inl done ↦ rw (done, settle_payment) (stays job client amount e v w db fe fv a o)
      | inr open_still ↦
          rw (open_still, settle_payment)
            (rw bad
              (rw (a, lt→ltb 0 amount p) (release_Settled job client amount e v w db fe fv a o)))
    ]

run_move-Settled :
    (job client amount : ℕ) (w : EmployerWallet) (db : Db) (m : Move)
    → 0 < amount
    → Settled job client amount w db
    → Settled job client amount w (run_move job client amount m db)
unfolding run_move
run_move-Settled job client amount w db unlock_job p s =
    release_Settled job client amount s.escrow s.wallet w db s.escrow_found s.wallet_found s.applied
      s.outcome
run_move-Settled job client amount w db (webhook status) p s =
    rw (s.escrow_found, run_move)
      (elim (Bool-cases (is_success status)) [
        | inl good ↦
            success_Settled job client amount s.escrow s.wallet w db status good s.escrow_found
              s.wallet_found s.applied p s.outcome
        | inr bad ↦
            failure_Settled job client amount s.escrow s.wallet w db status bad s.escrow_found
              s.wallet_found s.applied p s.outcome
      ])

pub run_moves-Settled :
    (job client amount : ℕ) (w : EmployerWallet) (ms : List Move) (db : Db)
    → 0 < amount
    → Settled job client amount w db
    → Settled job client amount w (run_moves job client amount ms db)
unfolding run_moves
run_moves-Settled job client amount w [] db p s = s
run_moves-Settled job client amount w (m ∷ ms) db p s =
    run_moves-Settled job client amount w ms (run_move job client amount m db) p
      (run_move-Settled job client amount w db m p s)

-- A success that comes after the unlock job takes the amount from the locked balance once more, and
-- funds the escrow.
pub late_success :
    (job client amount : ℕ) (e : EscrowTransaction) (v : EmployerWallet) (j : FreelanceJob)
    (db : Db)
    → find_escrow job db ≡ some e
    → e.status ≡ EscrowStatus.pending
    → e.wallet_applied_amount ≡ amount
    → 0 < amount
    → find_wallet client db ≡ some v
    → lookup job db.jobs ≡ some j
    → let db' = run_moves job client amount (unlock_job ∷ webhook "success" ∷ []) db in
      (find_wallet client db' ≡ some (unlock amount (refund amount v)))
      × (find_escrow job db' ≡ some (record e { status = EscrowStatus.funded }))
unfolding run_moves run_move settle_payment is_funded is_settled is_success refund_escrow
late_success job client amount e v j db fe pending applied p fv fj =
    let e' = record e { status = EscrowStatus.refunded } in
    let db' = refund_escrow job e client v amount db in
    let fe' = lookup-insert_self job e' db.escrows in
    let fv' = lookup-insert_self client (refund amount v) db.employer_wallets in
    let (es, ws) = fund_of_job job client e' (refund amount v) j db' fj (rw applied p) fv' in
    rw (release_of_open job client amount e v db fe (rw pending) fv) (
      rw (fe', run_move)
        (
          rw ws (rw applied (lookup-insert_self client _ _)),
          rw es (lookup-insert_self job (record e { status = EscrowStatus.funded }) _),
        ))
