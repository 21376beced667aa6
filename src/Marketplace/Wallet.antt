-- ===== src/Marketplace/Wallet.antt =====
-- src/modules/wallet/wallet.service.ts: wallets, currency conversion and withdrawals.
pub mod Laws
use Prim.Native.String.{String}
use text.Mathlib.Text.{◌==◌ as str_eq}
use beleqet_ecosystem_update.Base.{
  ℕ, ◌==◌, leb, if◌then◌else◌, Bool, ◌&&◌, Option, none, some, pos, ◌+ℤ◌, ◌-ℤ◌, leb_ℤ, ltb_ℤ,
  lookup, Result, ok, err, bad_request, not_found, internal_server_error, ◌>>=◌, ◌>>◌, gets,
  or_throw, throw, throw_if, modify, pure, transaction,
}
use beleqet_ecosystem_update.Marketplace.Tables.{
  Action, EmployerWallet, FreelancerWallet, LedgerEntry, Note, WalletTransactionType, find_wallet,
  put_wallet, put_freelancer_wallet, post_freelancer, record_not_found,
}

-- The floating-point numbers of the language, as far as a conversion uses them: which are falsy (0
-- and NaN), and `Math.round(amount * (rateTo / rateFrom))`; and the rates that the service caches.
pub record Exchange : Type 1 where
  pub Rate : Type 0
  pub is_falsy : Rate → Bool
  pub scale : ℕ → Rate → Rate → ℕ
  pub rates : String → Option Rate

abbrev pub etb : String
etb = "ETB"

-- `s || 'ETB'`
abbrev pub or_etb : String → String
or_etb s = if str_eq s "" then etb else s

module _ (x : Exchange) where
  -- `!rate` is true of a missing rate, too.
  abbrev usable : Option x.Rate → Option x.Rate
  usable none = none
  usable (some r) = if x.is_falsy r then none else some r

  -- The `else` of `convertCurrency`, on the two rates that were looked up.
  pub convert_by : ℕ → Option x.Rate → Option x.Rate → Result ℕ
  convert_by amount (some rate_from) (some rate_to) = ok (x.scale amount rate_from rate_to)
  convert_by _ _ _ = err (bad_request "Exchange rate not found")

  pub convert_currency : ℕ → String → String → Result ℕ
  convert_currency amount from to =
      if str_eq from to
      then ok amount
      else convert_by amount (usable (x.rates from)) (usable (x.rates to))

-- `getEmployerWallet`: the wallet is created when it is first asked for.
pub get_employer_wallet : ℕ → Action EmployerWallet
get_employer_wallet user db = elim (find_wallet user db) [
  | some w ↦ pure w db
  | none ↦
      let w : EmployerWallet = record { balance = pos 0; locked_balance = pos 0 } in
      pure w (put_wallet user w db)
]

-- `getOrCreate`: an upsert with an empty update.
pub get_or_create : ℕ → Action FreelancerWallet
get_or_create user db = elim (lookup user db.freelancer_wallets) [
  | some w ↦ pure w db
  | none ↦
      let w : FreelancerWallet = record {
        pending_balance = pos 0;
        available_balance = pos 0;
        currency = etb;
      } in
      pure w (put_freelancer_wallet user w db)
]

pub record WithdrawDto : Type 0 where
  pub amount : ℕ
  pub currency : Option String

abbrev pub max_withdrawal : ℕ
max_withdrawal = 1_000_000

-- The bounds that the decorators of `WithdrawDto` put on the amount.
pub accepts_amount : WithdrawDto → Bool
accepts_amount dto = leb 1 dto.amount && leb dto.amount max_withdrawal

-- What the payment gateway makes of a transfer; `unconfigured` if there is no secret key.
pub data Payout : Type 0 where
  unconfigured success rejected unreachable : Payout

abbrev requested_currency : WithdrawDto → String
requested_currency dto = elim dto.currency [ none ↦ etb | some c ↦ or_etb c ]

-- `updateMany` on the wallet of a user if it holds the amount: the number of rows changed.
pub debit_available : ℕ → ℕ → Action ℕ
debit_available user amount db = elim (lookup user db.freelancer_wallets) [
  | none ↦ (ok 0, db)
  | some w ↦
      if leb_ℤ (pos amount) w.available_balance
      then (
        ok 1,
        put_freelancer_wallet user
            (record w { available_balance = w.available_balance -ℤ pos amount }) db,
      )
      else (ok 0, db)
]

pub pending_entry : ℕ → ℕ → LedgerEntry
pending_entry user amount = record {
  owner = user;
  kind = WalletTransactionType.debit_withdrawal;
  amount = amount;
  note = Note.withdrawal_pending;
}

-- The transaction of a withdrawal: the guarded debit and its ledger entry, under the id `tx`.
pub reserve : ℕ → ℕ → ℕ → Action (Unit {0})
unfolding debit_available pending_entry
reserve tx user amount = transaction do
  count ← debit_available user amount
  throw_if (count == 0) (bad_request "Insufficient available balance")
  modify (post_freelancer tx (pending_entry user amount))

-- The transaction that gives the amount back after a payout that failed.
pub restore : ℕ → ℕ → ℕ → Note → Action (Unit {0})
restore tx user amount note = transaction do
  w ← or_throw (← gets (λ db. lookup user db.freelancer_wallets)) record_not_found
  modify (
      put_freelancer_wallet user
        (record w { available_balance = w.available_balance +ℤ pos amount }))
  entry ← or_throw (← gets (λ db. lookup tx db.freelancer_ledger)) record_not_found
  modify (post_freelancer tx (record entry { note = note }))

-- After the reservation: the call of the gateway.
pub pay_out : ℕ → ℕ → ℕ → Payout → Action (Unit {0})
unfolding restore
pay_out tx user amount unconfigured = pure tt
pay_out tx user amount success = pure tt
pay_out tx user amount rejected = do
  restore tx user amount Note.rejected_by_gateway
  throw (internal_server_error "Payout rejected by payment gateway")
pay_out tx user amount unreachable = do
  restore tx user amount Note.network_error
  throw (internal_server_error "Could not reach payment gateway. Your balance has been restored.")

-- `withdraw` from the moment the wallet has been read (as `w`, perhaps out of date by then). The
-- answer is the amount that was asked for; what is debited is that amount in the wallet's currency.
pub withdraw_from : Exchange → FreelancerWallet → ℕ → ℕ → WithdrawDto → Payout → Action ℕ
unfolding convert_currency convert_by reserve pay_out
withdraw_from x w tx user dto payout db =
    elim (convert_currency x dto.amount (requested_currency dto) w.currency) [
      | err e ↦ (err e, db)
      | ok amount ↦
          (do
            throw_if (ltb_ℤ w.available_balance (pos amount))
                (bad_request "Insufficient available balance")
            reserve tx user amount
            pay_out tx user amount payout
            pure dto.amount)
            db
    ]

unfoldable pub withdraw : Exchange → ℕ → ℕ → WithdrawDto → Payout → Action ℕ
unfolding withdraw_from
withdraw x tx user dto payout = do
  w ← or_throw (← gets (λ db. lookup user db.freelancer_wallets)) (not_found "Wallet not found")
  withdraw_from x w tx user dto payout
