-- ===== src/Marketplace/Wallet/Laws.antt =====
-- Withdrawals (wallet.service.ts).

use beleqet_ecosystem_update.Base.{
  ℕ, ◌≡◌, refl, inl, inr, none, some, ℤ, pos, ◌+ℤ◌, ◌-ℤ◌, ◌≤ℤ◌, lookup, insert, lookup-insert_self,
  Result, ok, err, HttpError, bad_request, ◌>>=◌, pure, arith, ltb_ℤ, -ℤ-add_of_eq, ◌>>◌,
  Option-cases, leb_ℤ, Bool-cases, true, false,
}
use beleqet_ecosystem_update.Marketplace.Tables.{
  Db, FreelancerWallet, Note, post_freelancer, put_freelancer_wallet,
}
use beleqet_ecosystem_update.Marketplace.Wallet.{
  Exchange, WithdrawDto, Payout, unconfigured, success, rejected, unreachable, convert_currency,
  requested_currency, pending_entry, reserve, restore, pay_out, withdraw_from,
}

abbrev pub available : ℕ → Db → ℤ
available user db = elim (lookup user db.freelancer_wallets) [
  | none ↦ pos 0
  | some w ↦ w.available_balance
]

abbrev reserved : ℕ → ℕ → ℕ → FreelancerWallet → Db → Db
reserved tx user amount v db = post_freelancer tx (pending_entry user amount) (
    put_freelancer_wallet user (record v { available_balance = v.available_balance -ℤ pos amount })
      db)

reserve_covered :
    (tx user amount : ℕ) (v : FreelancerWallet) (db : Db)
    → lookup user db.freelancer_wallets ≡ some v
    → leb_ℤ (pos amount) v.available_balance ≡ true
    → reserve tx user amount db ≡ (ok tt, reserved tx user amount v db)
unfolding reserve
reserve_covered tx user amount v db h c = ground arith

reserve_short :
    (tx user amount : ℕ) (v : FreelancerWallet) (db : Db)
    → lookup user db.freelancer_wallets ≡ some v
    → leb_ℤ (pos amount) v.available_balance ≡ false
    → reserve tx user amount db ≡ (err (bad_request "Insufficient available balance"), db)
unfolding reserve
reserve_short tx user amount v db h c = ground arith

reserve_missing :
    (tx user amount : ℕ) (db : Db)
    → lookup user db.freelancer_wallets ≡ none
    → reserve tx user amount db ≡ (err (bad_request "Insufficient available balance"), db)
unfolding reserve
reserve_missing tx user amount db h = ground arith

available-reserved :
    (tx user amount : ℕ) (v : FreelancerWallet) (db : Db)
    → available user (reserved tx user amount v db) ≡ v.available_balance -ℤ pos amount
available-reserved tx user amount v db = ground (
  arith,
  lookup-insert_self user (record v { available_balance = v.available_balance -ℤ pos amount })
      db.freelancer_wallets,
)

-- Giving the amount back undoes the debit, and throws nothing.
restore-reserved :
    (tx user amount : ℕ) (note : Note) (v : FreelancerWallet) (db : Db)
    → ((restore tx user amount note (reserved tx user amount v db)).0 ≡ ok tt)
      × (available user (restore tx user amount note (reserved tx user amount v db)).1
          ≡ v.available_balance -ℤ pos amount +ℤ pos amount)
unfolding restore
restore-reserved tx user amount note v db =
    let debited = record v { available_balance = v.available_balance -ℤ pos amount } in
    let credited = record v {
      available_balance = v.available_balance -ℤ pos amount +ℤ pos amount;
    } in
    ground (
      arith,
      lookup-insert_self user debited db.freelancer_wallets,
      lookup-insert_self tx (pending_entry user amount) db.freelancer_ledger,
      lookup-insert_self user credited (insert user debited db.freelancer_wallets),
    )

-- What taking an amount, with an answer, from the available balance at `db` has done, by how it ended.
abbrev Debited : ℕ → Db → ℕ → ℕ → Result ℕ × Db → Type 0
Debited user db amount answer (ok a, db') =
    (a ≡ answer)
    × (pos amount ≤ℤ available user db)
    × (available user db' ≡ available user db -ℤ pos amount)
Debited user db amount answer (err _, db') = available user db' ≡ available user db

pay_out-Debited :
    (tx user amount answer : ℕ) (payout : Payout) (v : FreelancerWallet) (db : Db)
    → lookup user db.freelancer_wallets ≡ some v
    → leb_ℤ (pos amount) v.available_balance ≡ true
    → Debited user db amount answer
        ((pay_out tx user amount payout >>= λ _. pure answer) (reserved tx user amount v db))
unfolding pay_out
pay_out-Debited tx user amount answer unconfigured v db h c =
    ground (arith, available-reserved tx user amount v db)
pay_out-Debited tx user amount answer success v db h c =
    ground (arith, available-reserved tx user amount v db)
pay_out-Debited tx user amount answer rejected v db h c = ground (
  arith,
  restore-reserved tx user amount Note.rejected_by_gateway v db,
  -ℤ-add_of_eq v.available_balance v.available_balance (pos amount) refl,
)
pay_out-Debited tx user amount answer unreachable v db h c = ground (
  arith,
  restore-reserved tx user amount Note.network_error v db,
  -ℤ-add_of_eq v.available_balance v.available_balance (pos amount) refl,
)

-- Once the amount in the wallet's currency is known.
take_out : ℕ → ℕ → ℕ → ℕ → Payout → Db → Result ℕ × Db
take_out tx user amount answer payout = do
  reserve tx user amount
  pay_out tx user amount payout
  pure answer

take_out_of_err :
    (tx user amount answer : ℕ) (payout : Payout) (e : HttpError) (db db' : Db)
    → reserve tx user amount db ≡ (err e, db')
    → take_out tx user amount answer payout db ≡ (err e, db')
unfolding take_out
take_out_of_err tx user amount answer payout e db db' h = ground arith

take_out_of_ok :
    (tx user amount answer : ℕ) (payout : Payout) (db db' : Db)
    → reserve tx user amount db ≡ (ok tt, db')
    → take_out tx user amount answer payout db
      ≡ (pay_out tx user amount payout >>= λ _. pure answer) db'
unfolding take_out
take_out_of_ok tx user amount answer payout db db' h = ground arith

take_out-Debited :
    (tx user amount answer : ℕ) (payout : Payout) (db : Db)
    → Debited user db amount answer (take_out tx user amount answer payout db)
take_out-Debited tx user amount answer payout db =
    elim (Option-cases (lookup user db.freelancer_wallets)) [
      | inl missing ↦
          rw
            (take_out_of_err tx user amount answer payout _ db db
              (reserve_missing tx user amount db missing))
            refl
      | inr (v, h) ↦ elim (Bool-cases (leb_ℤ (pos amount) v.available_balance)) [
        | inl c ↦
            rw
              (take_out_of_ok tx user amount answer payout db _
                (reserve_covered tx user amount v db h c))
              (pay_out-Debited tx user amount answer payout v db h c)
        | inr c ↦
            rw
              (take_out_of_err tx user amount answer payout _ db db
                (reserve_short tx user amount v db h c))
              refl
      ]
    ]

-- What a withdrawal that began at `db` has done to the available balance, by how it ended: the wallet
-- whose currency it uses is the one that was read.
abbrev pub Accounts : Exchange → FreelancerWallet → ℕ → WithdrawDto → Db → Result ℕ × Db → Type 0
Accounts x w user dto db (ok a, db') =
    (a ≡ dto.amount)
    × ((amount : ℕ) × (convert_currency x dto.amount (requested_currency dto) w.currency
          ≡ ok amount)
        × (pos amount ≤ℤ available user db)
        × (available user db' ≡ available user db -ℤ pos amount))
Accounts x w user dto db (err _, db') = available user db' ≡ available user db

Accounts-of_Debited :
    (x : Exchange) (w : FreelancerWallet) (user amount : ℕ) (dto : WithdrawDto) (db : Db)
    (r : Result ℕ × Db)
    → convert_currency x dto.amount (requested_currency dto) w.currency ≡ ok amount
    → Debited user db amount dto.amount r
    → Accounts x w user dto db r
Accounts-of_Debited x w user amount dto db (ok a, db') h d = (d.0, (amount, h, d.1, d.2))
Accounts-of_Debited x w user amount dto db (err e, db') h d = d

-- A withdrawal that began with any reading of the wallet, also one that is out of date: if it
-- succeeds, it answers the amount asked for, and the wallet held that amount, converted to the
-- currency read, and is debited by it once; if it throws, on whatever path, the available balance is
-- what it was.
pub withdraw_from-Accounts :
    (x : Exchange) (w : FreelancerWallet) (tx user : ℕ) (dto : WithdrawDto) (payout : Payout)
    (db : Db)
    → Accounts x w user dto db (withdraw_from x w tx user dto payout db)
unfolding withdraw_from take_out
withdraw_from-Accounts x w tx user dto payout db =
    go (convert_currency x dto.amount (requested_currency dto) w.currency) refl
  where
    go :
        (r : Result ℕ)
        → convert_currency x dto.amount (requested_currency dto) w.currency ≡ r
        → Accounts x w user dto db (withdraw_from x w tx user dto payout db)
    go (err e) h = rw (h, withdraw_from) refl
    go (ok amount) h =
        rw (h, withdraw_from)
          (elim (Bool-cases (ltb_ℤ w.available_balance (pos amount))) [
            | inl short ↦ rw short refl
            | inr enough ↦ rw enough (
                Accounts-of_Debited x w user amount dto db _ h
                  (take_out-Debited tx user amount dto.amount payout db))
          ])
