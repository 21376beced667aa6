-- ===== src/Marketplace/Freelance/Laws.antt =====
-- Decisions of a client about bids (freelance.service.ts).
use beleqet_ecosystem_update.Base.{
  ℕ, ◌<◌, ◌≡◌, refl, ◌≢◌, none, some, pos, ◌+ℤ◌, lookup, lookup-map_values, insert,
  lookup-insert_self, ok, err, internal_server_error, ◌-◌, arith, if◌then◌else◌, ◌==◌, ==_refl,
}
use beleqet_ecosystem_update.Marketplace.Tables.{
  Db, Bid, BidStatus, Contract, EscrowTransaction, EscrowStatus, EmployerWallet, FreelanceJob,
  find_wallet, find_escrow, contract_of,
}
use beleqet_ecosystem_update.Marketplace.Freelance.{
  accept_bid, decide_bids, decide_bid, new_contract, refund_excess,
}

accepted_writes :
    (id contract client : ℕ) (b : Bid) (j : FreelanceJob) (db : Db)
    → lookup id db.bids ≡ some b
    → lookup b.job_id db.jobs ≡ some j
    → j.client_id ≡ client
    → contract_of b.job_id db ≡ none
    → let (r, db') = accept_bid id contract client db in
      (r ≡ ok (new_contract client b))
      × (db'.bids ≡ decide_bids id b.job_id db.bids)
      × (db'.contracts ≡ insert contract (new_contract client b) db.contracts)
unfolding accept_bid
accepted_writes id contract client b j db fb fj own free = ground arith

-- Accepting a bid of one's own gig, which has no contract yet, accepts that bid, rejects every other
-- bid on the gig, leaves the bids on other gigs alone, and makes the contract at the price of the bid.
pub accept_bid_decides :
    (id contract client other : ℕ) (b : Bid) (j : FreelanceJob) (db : Db)
    → lookup id db.bids ≡ some b
    → lookup b.job_id db.jobs ≡ some j
    → j.client_id ≡ client
    → contract_of b.job_id db ≡ none
    → let (r, db') = accept_bid id contract client db in
      (lookup id db'.bids ≡ some (record b { status = BidStatus.accepted }))
      × ((o : Bid)
          → other ≢ id
          → lookup other db.bids ≡ some o
          → lookup other db'.bids
            ≡ some (if o.job_id == b.job_id then record o { status = BidStatus.rejected } else o))
      × ((c : Contract) × (r ≡ ok c)
          × (c.agreed_amount ≡ b.amount)
          × (lookup contract db'.contracts ≡ some c))
unfolding decide_bids decide_bid new_contract
accept_bid_decides id contract client other b j db fb fj own free =
    let (answer, bids, contracts) = accepted_writes id contract client b j db fb fj own free in
    let decided = lookup-map_values (decide_bid id b.job_id) in
    (
      rw bids (rw (decided id db.bids b fb) (rw (==_refl id))),
      λ o ne fo. rw bids (rw (decided other db.bids o fo) (ground arith)),
      (
        new_contract client b,
        answer,
        refl,
        rw contracts (lookup-insert_self contract (new_contract client b) db.contracts),
      ),
    )

-- A gig that has a contract cannot be given to another bid: the whole transaction is taken back.
pub accept_bid_once :
    (id contract client : ℕ) (b : Bid) (j : FreelanceJob) (c : Contract) (db : Db)
    → lookup id db.bids ≡ some b
    → lookup b.job_id db.jobs ≡ some j
    → j.client_id ≡ client
    → contract_of b.job_id db ≡ some c
    → accept_bid id contract client db ≡ (err (internal_server_error "P2002"), db)
unfolding accept_bid
accept_bid_once id contract client b j c db fb fj own taken = ground arith

-- The excess of an escrow over the bid is credited to the client's balance also while the escrow is
-- pending, that is before anything has been paid for it.
pub pending_escrow_refunded :
    (client : ℕ) (b : Bid) (e : EscrowTransaction) (w : EmployerWallet) (db : Db)
    → find_escrow b.job_id db ≡ some e
    → e.status ≡ EscrowStatus.pending
    → b.amount < e.gross_amount
    → find_wallet client db ≡ some w
    → find_wallet client (refund_excess client b db)
      ≡ some (record w { balance = w.balance +ℤ pos (e.gross_amount - b.amount) })
unfolding refund_excess
pending_escrow_refunded client b e w db fe p lt fw = ground (
  arith,
  lookup-insert_self client (record w { balance = w.balance +ℤ pos (e.gross_amount - b.amount) })
      db.employer_wallets,
)
