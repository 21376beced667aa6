-- ===== src/Auth/TwoFactor.antt =====
-- src/modules/two-factor/two-factor.service.ts: one-time passwords, step-up tokens and backup codes.
-- The generation and encryption of secrets, the check of a one-time password and of a bcrypt hash, and
-- the store of used codes (Redis) are parameters. Times are milliseconds.
pub mod Laws
use Prim.Native.String.{String}
use text.Mathlib.Text.{◌==◌ as str_eq}
use beleqet_ecosystem_update.Base.{
  ℕ, ◌+◌, ◌*◌, ◌/◌, ◌==◌, ltb, if◌then◌else◌, Bool, true, false, not, ◌&&◌, ◌||◌, Option, none,
  some, List, [], ◌∷◌, ◌++◌, map, length, Dict, lookup, insert, erase, find_row, keep_rows,
  bad_request, conflict, unauthorized, ◌>>=◌, ◌>>◌, gets, or_throw, throw, throw_if, modify, pure,
  transaction, ◌≡◌, ◌≤◌, ◌<◌, Request,
}
use beleqet_ecosystem_update.Auth.Tables.{
  AuthDb, UserTwoFactor, BackupCode, Posted, put_two_factor, post, enabled_factor, record_not_found,
}
use beleqet_ecosystem_update.Auth.StepUp.{Claims}
use beleqet_ecosystem_update.Auth.BackupCodes.{add_codes}

-- `SET key 1 PX 90000 NX` on keys of a user and a code. The laws are those of NX and PX: it answers OK
-- exactly if the key is not held; it then holds the key for that time; and it lets go of none.
pub record UsedCodes : Type 1 where
  pub Store : Type 0
  pub is_held : ℕ → ℕ → ℕ → Store → Bool
  pub set_nx : ℕ → ℕ → ℕ → Store → Bool × Store
  pub answers :
      (now user code : ℕ) (s : Store) → (set_nx now user code s).0 ≡ not (is_held now user code s)
  pub held_after :
      (now later user code : ℕ) (s : Store)
      → (set_nx now user code s).0 ≡ true
      → now ≤ later
      → later < now + 90_000
      → is_held later user code (set_nx now user code s).1 ≡ true
  pub keeps :
      (now later user code user' code' : ℕ) (s : Store)
      → now ≤ later
      → is_held later user code s ≡ true
      → is_held later user code (set_nx now user' code' s).1 ≡ true

-- `verify` of otplib at a time, and the cipher.
pub record Codes : Type 0 where
  pub encrypt : ℕ → ℕ
  pub decrypt : ℕ → ℕ
  pub is_valid : ℕ → ℕ → ℕ → Bool

abbrev pub enrollment_ms : ℕ
enrollment_ms = 10 * 60 * 1_000

abbrev audit : ℕ → String → String → AuthDb → AuthDb
audit user event reason = post (Posted.audit user event reason)

module _ (r : UsedCodes) (o : Codes) where
  -- The database and the store of used codes.
  abbrev pub TwoFactorState : Type 0
  TwoFactorState = AuthDb × r.Store

  abbrev Service : Type 0 → Type 0
  Service A = Request TwoFactorState A

  abbrev on_db : (AuthDb → AuthDb) → Service (Unit {0})
  on_db f = modify (λ (s : TwoFactorState). (f s.0, s.1))

  pub check_replay : ℕ → ℕ → ℕ → Service Bool
  check_replay now user code s =
      let (fresh, used) = r.set_nx now user code s.1 in pure fresh (s.0, used)

  -- `startEnrollment`, with a new secret and the enrollment token that is signed.
  pub start_enrollment : ℕ → ℕ → ℕ → ℕ → Service ℕ
  start_enrollment now user secret token = do
    throw_if (← gets (λ s. elim (enabled_factor user s.0) [ none ↦ false | some _ ↦ true ]))
        (conflict "Two-factor authentication is already enabled")
    or_throw (← gets (λ s. lookup user s.0.users)) (bad_request "User not found") >>= λ _. pure tt
    on_db (λ db.
        put_two_factor user
          (record {
            secret = o.encrypt secret;
            enabled = false;
            enrollment_token = some token;
            enrollment_expires_at = some (now + enrollment_ms);
            last_verified_at = elim (lookup user db.two_factors) [
              | none ↦ none
              | some f ↦ f.last_verified_at
            ];
          })
          db)
    pure token

  -- One check of a code, in the order of the service: is it right, and is it new?
  pub data Checked : Type 0 where
    accepted invalid_code replay_attempt : Checked

  pub check_code : ℕ → ℕ → UserTwoFactor → ℕ → Service Checked
  unfolding check_replay
  check_code now user f code =
      if o.is_valid now (o.decrypt f.secret) code
      then (do
        fresh ← check_replay now user code
        pure (if fresh then accepted else replay_attempt))
      else pure invalid_code

  -- The transaction that ends the enrollment.
  enable : ℕ → ℕ → UserTwoFactor → List ℕ → AuthDb → AuthDb
  unfolding add_codes
  enable first user f hashes db = record db {
    two_factors =
        insert user
          (record f { enabled = true; enrollment_token = none; enrollment_expires_at = none })
          db.two_factors;
    backup_codes = add_codes first user hashes db.backup_codes;
  }

  abbrev reject : ℕ → String → String → String → Service (Unit {0})
  reject user event reason message = on_db (audit user event reason) >> throw (bad_request message)

  -- `confirmEnrollment`: `claims` is what the verification of the enrollment token gives.
  pub confirm_enrollment : ℕ → ℕ → Option Claims → ℕ → ℕ → List ℕ → Service (Unit {0})
  unfolding check_code enable
  confirm_enrollment now user none code first hashes =
      reject user "2FA_ENROLL_FAILURE" "expired_token" "Invalid or expired enrollment token"
  confirm_enrollment now user (some c) code first hashes =
      if not (c.sub == user) || not (str_eq c.purpose "2fa_enrollment")
      then reject user "2FA_ENROLL_FAILURE" "invalid_token" "Invalid enrollment token"
      else (do
        f ←
            or_throw (← gets (λ s. lookup user s.0.two_factors))
              (bad_request "No pending enrollment found")
        throw_if f.enabled (conflict "Already enabled")
        checked ← check_code now user f code
        elim checked [
          | invalid_code ↦ reject user "2FA_ENROLL_FAILURE" "invalid_code" "Invalid code"
          | replay_attempt ↦
              reject user "2FA_ENROLL_FAILURE" "replay_attempt" "This code has already been used"
          | accepted ↦ on_db (enable first user f hashes)
        ])

  -- `verifyLogin`
  unfoldable pub verify_login : ℕ → ℕ → ℕ → Service Bool
  unfolding check_code
  verify_login now user code = do
    factor ← gets (λ s. enabled_factor user s.0)
    elim factor [
      | none ↦ pure false
      | some f ↦ (do
        checked ← check_code now user f code
        elim checked [
          | accepted ↦ pure true
          | invalid_code ↦ on_db (audit user "2FA_VERIFY_FAILURE" "invalid_code") >> pure false
          | replay_attempt ↦ on_db (audit user "2FA_VERIFY_FAILURE" "replay_attempt") >> pure false
        ])
    ]

  abbrev refuse {ℓ} : {A : Type ℓ} → ℕ → String → String → String → Request TwoFactorState A
  refuse user event reason message s =
      throw (unauthorized message) (audit user event reason s.0, s.1)

  -- `verifyStepUp`: the claims of the step-up token, which is signed for fifteen minutes.
  pub verify_step_up : ℕ → ℕ → ℕ → Option String → Service Claims
  unfolding check_code
  verify_step_up now user code action = do
    factor ← gets (λ s. enabled_factor user s.0)
    elim factor [
      | none ↦
          refuse user "2FA_STEPUP_FAILURE" "not_enabled" "Two-factor authentication is not enabled"
      | some f ↦ (do
        checked ← check_code now user f code
        elim checked [
          | invalid_code ↦ refuse user "2FA_STEPUP_FAILURE" "invalid_code" "Invalid code"
          | replay_attempt ↦
              refuse user "2FA_STEPUP_FAILURE" "replay_attempt" "This code has already been used"
          | accepted ↦ (do
            on_db (put_two_factor user (record f { last_verified_at = some now }))
            pure (record {
              sub = user;
              purpose = "2fa_step_up";
              verified_at = some (now / 1_000);
              action = action;
            }))
        ])
    ]
