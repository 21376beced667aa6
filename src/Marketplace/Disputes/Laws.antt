-- ===== src/Marketplace/Disputes/Laws.antt =====
-- The resolution of disputes (dispute-manager.service.ts).
use Prim.Native.String.{String}
use text.Mathlib.Text.{◌==◌ as str_eq}
use beleqet_ecosystem_update.Base.{
  ℕ, suc, ◌≤◌, ◌≡◌, refl, true, false, some, pos, ◌+ℤ◌, if◌then◌else◌, lookup, lookup-insert_self,
  ok, err, bad_request, internal_server_error, arith, ◌==◌,
}
use beleqet_ecosystem_update.Marketplace.Tables.{
  Db, Contract, ContractStatus, Dispute, EmployerWallet, find_wallet,
}
use beleqet_ecosystem_update.Marketplace.Disputes.{
  ResolveDisputeDto, create_dispute, resolve_dispute, is_resolved, has_dispute, final_status,
}

module _ (id : ℕ) (dto : ResolveDisputeDto) (d : Dispute) (c : Contract) (w : EmployerWallet)
    (db : Db) (found : lookup id db.disputes ≡ some d)
    (about : lookup d.contract_id db.contracts ≡ some c)
    (held : find_wallet c.client_id db ≡ some w) where
  -- A dispute that is open, with a refund of at most the agreed amount, is resolved: the employer's
  -- balance grows by the refund, and the contract is cancelled if there is one and completed if not.
  pub resolve_pays :
      is_resolved d ≡ false
      → dto.refund_amount ≤ c.agreed_amount
      → let (r, db') = resolve_dispute id dto db in
        (r ≡ ok (record d { resolution = some dto.resolution }))
        × (find_wallet c.client_id db'
            ≡ some (
                if dto.refund_amount == 0
                then w
                else record w { balance = w.balance +ℤ pos dto.refund_amount }))
        × (lookup d.contract_id db'.contracts
            ≡ some (record c {
              status =
                  if dto.refund_amount == 0
                  then ContractStatus.completed
                  else ContractStatus.cancelled;
            }))
  unfolding resolve_dispute
  resolve_pays fresh bounded = ground (
    arith,
    lookup-insert_self c.client_id (record w { balance = w.balance +ℤ pos dto.refund_amount })
        db.employer_wallets,
    lookup-insert_self d.contract_id (record c { status = ContractStatus.cancelled }) db.contracts,
    lookup-insert_self d.contract_id (record c { status = ContractStatus.completed }) db.contracts,
  )

  -- A refund above the agreed amount is refused, and nothing is written.
  pub resolve_excessive :
      is_resolved d ≡ false
      → suc c.agreed_amount ≤ dto.refund_amount
      → resolve_dispute id dto db
        ≡ (err (bad_request "Refund amount cannot exceed the contract agreed amount"), db)
  unfolding resolve_dispute
  resolve_excessive fresh over = ground arith

resolve_writes :
    (id : ℕ) (dto : ResolveDisputeDto) (d : Dispute) (c : Contract) (db : Db)
    → lookup id db.disputes ≡ some d
    → lookup d.contract_id db.contracts ≡ some c
    → is_resolved d ≡ false
    → dto.refund_amount ≤ c.agreed_amount
    → let db' = (resolve_dispute id dto db).1 in
      (lookup id db'.disputes ≡ some (record d { resolution = some dto.resolution }))
      × (lookup d.contract_id db'.contracts
          ≡ some (record c { status = final_status dto.refund_amount }))
unfolding resolve_dispute
resolve_writes id dto d c db found about fresh bounded = ground (
  arith,
  lookup-insert_self id (record d { resolution = some dto.resolution }) db.disputes,
  lookup-insert_self d.contract_id (record c { status = final_status dto.refund_amount })
      db.contracts,
)

refused_of_resolved :
    (id : ℕ) (dto : ResolveDisputeDto) (d : Dispute) (c : Contract) (db : Db)
    → lookup id db.disputes ≡ some d
    → lookup d.contract_id db.contracts ≡ some c
    → is_resolved d ≡ true
    → resolve_dispute id dto db ≡ (err (bad_request "Dispute is already resolved"), db)
unfolding resolve_dispute
refused_of_resolved id dto d c db found about done = ground arith

-- Once a dispute is resolved, with a text as the decorators of the DTO demand, every later attempt to
-- resolve it is refused and writes nothing.
pub resolve_twice :
    (id : ℕ) (dto later : ResolveDisputeDto) (d : Dispute) (c : Contract) (db : Db)
    → lookup id db.disputes ≡ some d
    → lookup d.contract_id db.contracts ≡ some c
    → is_resolved d ≡ false
    → dto.refund_amount ≤ c.agreed_amount
    → str_eq dto.resolution "" ≡ false
    → let db' = (resolve_dispute id dto db).1 in
      resolve_dispute id later db' ≡ (err (bad_request "Dispute is already resolved"), db')
unfolding is_resolved
resolve_twice id dto later d c db found about fresh bounded text =
    let (dispute, contract) = resolve_writes id dto d c db found about fresh bounded in
    refused_of_resolved id later _ _ _ dispute contract (rw text refl)

-- A second dispute over a contract throws, for the contract of a dispute is unique, but the contract
-- has become disputed by then, whatever its status was.
pub second_dispute_reopens :
    (sanitize : String → String) (id user contract : ℕ) (reason : String) (c : Contract) (db : Db)
    → lookup contract db.contracts ≡ some c
    → c.client_id ≡ user
    → has_dispute contract db ≡ true
    → let (r, db') = create_dispute sanitize id user contract reason db in
      (r ≡ err (internal_server_error "P2002"))
      × (lookup contract db'.contracts ≡ some (record c { status = ContractStatus.disputed }))
      × (db'.disputes ≡ db.disputes)
unfolding create_dispute
second_dispute_reopens sanitize id user contract reason c db found owner twice = ground (
  arith,
  lookup-insert_self contract (record c { status = ContractStatus.disputed }) db.contracts,
)
