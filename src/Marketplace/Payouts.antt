-- ===== src/Marketplace/Payouts.antt =====
-- The way of a milestone's money to the freelancer: `releaseMilestone` of
-- src/modules/escrow/escrow.service.ts and the auto-release job of escrow.processor.ts.

use beleqet_ecosystem_update.Base.{
  ℕ, ◌+◌, ◌-◌, ◌≤◌, ◌<◌, ◌≡◌, refl, some, [], ◌∷◌, ◌++◌, ◌*◌, pos, ◌+ℤ◌, ◌-ℤ◌, lookup,
  lookup-insert_self, ok, err, HttpError, arith, int_laws,
}
use beleqet_ecosystem_update.Marketplace.Tables.{
  Db, Contract, Milestone, MilestoneStatus, FreelancerWallet, QueueJob,
}
use beleqet_ecosystem_update.Marketplace.Wallet.{Exchange, convert_currency, etb, or_etb}
use beleqet_ecosystem_update.Marketplace.Escrow.{
  release_milestone, client_milestone, platform_fee_of, day_ms,
}
use beleqet_ecosystem_update.Marketplace.Processor.{handle_auto_release}

module _ (x : Exchange) (id client now : ℕ) (m : Milestone) (c : Contract) (w : FreelancerWallet)
    (db : Db) (found : client_milestone id client db ≡ some (m, c))
    (held : lookup c.freelancer_id db.freelancer_wallets ≡ some w) where
  -- Approving a milestone whose price can be converted, whatever its status was, credits the price less
  -- the platform's tenth to the pending balance and queues its release in three days.
  pub release_milestone_credits :
      (gross : ℕ)
      → convert_currency x m.amount (or_etb c.currency) etb ≡ ok gross
      → let net = gross - platform_fee_of gross in
        let (r, db') = release_milestone x id client now db in
        (r ≡ ok tt)
        × (lookup c.freelancer_id db'.freelancer_wallets
            ≡ some (record w { pending_balance = w.pending_balance +ℤ pos net }))
        × (lookup id db'.milestones ≡ some (record m { status = MilestoneStatus.approved }))
        × (db'.queue
            ≡ db.queue ++ (QueueJob.auto_release id c.freelancer_id net (now + 3 * day_ms), 0) ∷ [])
  unfolding release_milestone
  release_milestone_credits gross rate =
      let net = gross - platform_fee_of gross in
      ground (
        arith,
        lookup-insert_self c.freelancer_id
            (record w { pending_balance = w.pending_balance +ℤ pos net }) db.freelancer_wallets,
        lookup-insert_self id (record m { status = MilestoneStatus.approved }) db.milestones,
      )

  -- Where there is no rate the answer is a success too and the milestone is approved, but nothing is
  -- credited or queued.
  pub release_milestone_without_rate :
      (e : HttpError)
      → convert_currency x m.amount (or_etb c.currency) etb ≡ err e
      → let (r, db') = release_milestone x id client now db in
        (r ≡ ok tt)
        × (db'.freelancer_wallets ≡ db.freelancer_wallets)
        × (db'.queue ≡ db.queue)
        × (lookup id db'.milestones ≡ some (record m { status = MilestoneStatus.approved }))
  unfolding release_milestone
  release_milestone_without_rate e rate =
      ground (
        arith,
        lookup-insert_self id (record m { status = MilestoneStatus.approved }) db.milestones,
      )

-- The auto-release job moves its amount from the pending to the available balance of the freelancer,
-- their sum unchanged, but not before its time: then it is queued again for the rest of the wait.
pub auto_release_moves :
    (entry now milestone freelancer amount at : ℕ) (w : FreelancerWallet) (db : Db)
    → lookup freelancer db.freelancer_wallets ≡ some w
    → let db' = handle_auto_release entry now milestone freelancer amount at db in
      (now < at
        → (db'.freelancer_wallets ≡ db.freelancer_wallets)
          × (db'.queue
              ≡ db.queue ++ (QueueJob.auto_release milestone freelancer amount at, at - now) ∷ []))
      × (at ≤ now
          → (v : FreelancerWallet) × (lookup freelancer db'.freelancer_wallets ≡ some v)
            × (v.available_balance ≡ w.available_balance +ℤ pos amount)
            × (v.pending_balance +ℤ v.available_balance ≡ w.pending_balance +ℤ w.available_balance))
unfolding handle_auto_release
auto_release_moves entry now milestone freelancer amount at w db h =
    let moved = record w {
      pending_balance = w.pending_balance -ℤ pos amount;
      available_balance = w.available_balance +ℤ pos amount;
    } in
    (
      λ early. ground arith,
      λ due. (
        moved,
        ground (arith, lookup-insert_self freelancer moved db.freelancer_wallets),
        refl,
        omega int_laws,
      ),
    )
