-- ===== src/Marketplace/Stale.antt =====
-- `initiate` of src/modules/escrow/escrow.service.ts reads the wallet and locks the money later; other
-- requests may change the wallet in between.
use beleqet_ecosystem_update.Base.{
  ℕ, ◌≡◌, Option, none, some, ℤ, pos, ◌-ℤ◌, ◌≤ℤ◌, lookup-insert_self, insert, arith, int_laws, true,
  leb_ℤ, leb→le, ltb_ℤ, false, ◌+ℤ◌, Bool-cases, Option-cases, inl, inr, ◌≢◌, lookup-insert,
}
use beleqet_ecosystem_update.Marketplace.Tables.{
  Db, FreelanceJob, Contract, EmployerWallet, find_wallet,
}
use beleqet_ecosystem_update.Marketplace.Escrow.{
  initiate_from, lock, unlock, gross_of, available_of, wallet_share, Checkout,
}

-- Taking an amount that a balance covers leaves it non-negative.
covered_nonneg : (amount : ℕ) (b : ℤ) → leb_ℤ (pos amount) b ≡ true → pos 0 ≤ℤ b -ℤ pos amount
covered_nonneg amount b h = omega (int_laws, leb→le _ _ h)

more_locked : (b : ℤ) (amount : ℕ) → b ≤ℤ b +ℤ pos amount
more_locked b amount = omega int_laws

locked_and_unlocked : (b : ℤ) (amount : ℕ) → b ≤ℤ b +ℤ pos amount -ℤ pos amount
locked_and_unlocked b amount = omega int_laws

nothing_unlocked : (b : ℤ) (amount : ℕ) → amount ≡ 0 → b ≤ℤ b -ℤ pos amount
nothing_unlocked b amount h = omega int_laws

nothing_available : (gross : ℕ) (b : ℤ) → ltb_ℤ (pos 0) b ≡ false → wallet_share gross b ≡ 0
unfolding wallet_share
nothing_available gross b h = ground arith

-- The wallet after a request: not overdrawn, and with no less locked than before.
abbrev Keeps : EmployerWallet → Option EmployerWallet → Type 0
Keeps v none = ⊥
Keeps v (some u) = (pos 0 ≤ℤ u.balance) × (v.locked_balance ≤ℤ u.locked_balance)

initiate_from-Keeps :
    (client job_id : ℕ) (job : FreelanceJob) (contract : Option Contract)
    (read : Option EmployerWallet) (tx_ref : ℕ) (checkout : Checkout) (v : EmployerWallet) (db : Db)
    → find_wallet client db ≡ some v
    → pos 0 ≤ℤ v.balance
    → Keeps v
        (find_wallet client (initiate_from client job_id job contract read tx_ref checkout db).1)
unfolding initiate_from lock unlock
initiate_from-Keeps client job_id job contract read tx_ref checkout v db h p =
    let amount = wallet_share (gross_of contract job) (available_of read) in
    elim (Bool-cases (ltb_ℤ (pos 0) (available_of read))) [
      | inl some_available ↦ rw some_available (
          ground (
            arith,
            covered_nonneg amount v.balance,
            more_locked v.locked_balance amount,
            locked_and_unlocked v.locked_balance amount,
            lookup-insert_self client (lock amount v) db.employer_wallets,
            lookup-insert_self client (unlock amount (lock amount v))
                (insert client (lock amount v) db.employer_wallets),
          ))
      | inr none_available ↦ rw none_available (
          ground (
            arith,
            nothing_unlocked v.locked_balance amount
                (nothing_available (gross_of contract job) (available_of read) none_available),
            lookup-insert_self client (unlock amount v) db.employer_wallets,
          ))
    ]

initiate_from_others :
    (client job_id : ℕ) (job : FreelanceJob) (contract : Option Contract)
    (read : Option EmployerWallet) (tx_ref : ℕ) (checkout : Checkout) (v : EmployerWallet) (db : Db)
    → find_wallet client db ≡ some v
    → (other : ℕ) → other ≢ client
    → find_wallet other (initiate_from client job_id job contract read tx_ref checkout db).1
      ≡ find_wallet other db
unfolding initiate_from
initiate_from_others client job_id job contract read tx_ref checkout v db h other ne =
    let amount = wallet_share (gross_of contract job) (available_of read) in
    ground (
      arith,
      lookup-insert_self client (lock amount v) db.employer_wallets,
      lookup-insert client other (lock amount v) db.employer_wallets,
      lookup-insert client other (unlock amount (lock amount v))
          (insert client (lock amount v) db.employer_wallets),
      lookup-insert client other (unlock amount v) db.employer_wallets,
    )

-- Where the balance of the client's wallet is not below zero, whatever the wallet looked like when it
-- was read, and with or without an exception, `initiate` leaves the wallet in its place, with a balance
-- that is not below zero and with no less locked than before, and every other client's wallet as it was.
pub initiate_from_nonneg :
    (client job_id : ℕ) (job : FreelanceJob) (contract : Option Contract)
    (read : Option EmployerWallet) (tx_ref : ℕ) (checkout : Checkout) (v : EmployerWallet) (db : Db)
    → find_wallet client db ≡ some v
    → pos 0 ≤ℤ v.balance
    → let after = (initiate_from client job_id job contract read tx_ref checkout db).1 in
      (u : EmployerWallet) × (find_wallet client after ≡ some u)
      × (pos 0 ≤ℤ u.balance)
      × (v.locked_balance ≤ℤ u.locked_balance)
      × ((other : ℕ) → other ≢ client → find_wallet other after ≡ find_wallet other db)
initiate_from_nonneg client job_id job contract read tx_ref checkout v db h p =
    let after = (initiate_from client job_id job contract read tx_ref checkout db).1 in
    let kept = initiate_from-Keeps client job_id job contract read tx_ref checkout v db h p in
    let others = initiate_from_others client job_id job contract read tx_ref checkout v db h in
    elim (Option-cases (find_wallet client after)) [
      | inl gone ↦ absurd (rw gone at kept)
      | inr (u, found) ↦
          let fine : Keeps v (some u) = rw found at kept in (u, found, fine.0, fine.1, others)
    ]
