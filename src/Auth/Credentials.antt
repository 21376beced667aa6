-- ===== src/Auth/Credentials.antt =====
-- src/modules/auth/auth.service.ts: verification of addresses, passwords and their recovery, and changes
-- that ask for a second factor.
pub mod Laws
use Prim.Native.String.{String}
use text.Mathlib.Text.{◌==◌ as str_eq}
use beleqet_ecosystem_update.Base.{
  is_some, ℕ, ◌+◌, ◌/◌, ◌==◌, ltb, if◌then◌else◌, Bool, true, false, not, ◌&&◌, ◌||◌, Option, none,
  some, List, Dict, lookup, insert, erase, keep_rows, bad_request, conflict, unauthorized, ◌>>=◌,
  ◌>>◌, gets, or_throw, throw_if, modify, pure, when,
}
use beleqet_ecosystem_update.Auth.Tables.{
  Action, AuthDb, User, VerificationToken, VerificationTokenType, Posted, not_unique,
  record_not_found, put_user, post, update_user, enabled_factor,
}
use beleqet_ecosystem_update.Auth.Sessions.{
  Outside, hour_ms, email_taken, end_sessions, send_verification_email, ignoring,
}
use beleqet_ecosystem_update.Auth.StepUp.{Claims, Jwt, expired, verified_time}

abbrev is_kind : VerificationTokenType → VerificationTokenType → Bool
is_kind VerificationTokenType.email_verification VerificationTokenType.email_verification = true
is_kind VerificationTokenType.password_reset VerificationTokenType.password_reset = true
is_kind VerificationTokenType.oauth_link_confirmation
      VerificationTokenType.oauth_link_confirmation =
    true
is_kind _ _ = false

-- A token of that kind which has not expired.
unfoldable pub live_token : VerificationTokenType → ℕ → ℕ → AuthDb → Option VerificationToken
live_token kind now token db = elim (lookup token db.verification_tokens) [
  | none ↦ none
  | some t ↦ if not (is_kind t.kind kind) || ltb t.expires_at now then none else some t
]

pub verify_email : ℕ → ℕ → Action (Unit {0})
unfolding live_token
verify_email now token = do
  t ←
      or_throw (← gets (live_token VerificationTokenType.email_verification now token))
        (bad_request "Invalid or expired verification token")
  update_user t.user_id (λ u. record u { email_verified = true })
  modify (λ db. record db { verification_tokens = erase token db.verification_tokens })

-- The answer is the same whether or not the address is known.
pub forgot_password : Outside → ℕ → ℕ → String → Action (Unit {0})
forgot_password o now fresh email = do
  found ← gets (email_taken (o.lower email))
  elim found [
    | none ↦ pure tt
    | some (id, u) ↦ (do
      throw_if (← gets (λ db. is_some (lookup fresh db.verification_tokens))) not_unique
      modify (λ db. record db {
        verification_tokens =
            insert fresh
              (record {
                user_id = id;
                kind = VerificationTokenType.password_reset;
                expires_at = now + hour_ms;
              })
              db.verification_tokens;
      })
      modify (post (Posted.reset_email id)))
  ]

pub drop_reset_tokens : ℕ → AuthDb → AuthDb
drop_reset_tokens user db = record db {
  verification_tokens =
      keep_rows
        (λ _ t. not (t.user_id == user && is_kind t.kind VerificationTokenType.password_reset))
        db.verification_tokens;
}

-- `resetPassword`, with a new hash of the password.
pub reset_password : ℕ → ℕ → List ℕ → Action (Unit {0})
unfolding live_token end_sessions drop_reset_tokens
reset_password now token hash = do
  t ←
      or_throw (← gets (live_token VerificationTokenType.password_reset now token))
        (bad_request "Invalid or expired reset token")
  update_user t.user_id (λ u. record u { password_hash = some hash })
  modify (end_sessions t.user_id)
  modify (drop_reset_tokens t.user_id)

-- The checks of a step-up token: its claims, its purpose, its age in seconds, and its user.
valid_step_up : Jwt → ℕ → ℕ → ℕ → Action (Unit {0})
unfolding expired
valid_step_up jwt now user token = do
  c ← or_throw (jwt.verify_temp token) (unauthorized "Invalid or expired step-up token")
  at ←
      or_throw (if str_eq c.purpose "2fa_step_up" then verified_time c else none)
        (unauthorized "Invalid step-up token purpose")
  throw_if (expired (now / 1_000) at) (unauthorized "Step-up verification has expired.")
  throw_if (not (c.sub == user)) (unauthorized "Step-up token does not match current user")

-- `requireStepUpOrThrow`
pub require_step_up : Jwt → ℕ → ℕ → Option ℕ → Action (Unit {0})
unfolding valid_step_up
require_step_up jwt now user token = do
  factor ← gets (enabled_factor user)
  elim factor [
    | none ↦ pure tt
    | some _ ↦ (do
      given ← or_throw token (unauthorized "Step-up verification required.")
      valid_step_up jwt now user given)
  ]

module _ (o : Outside) (jwt : Jwt) where
  -- `changePassword`, with a new hash of the new password.
  unfoldable pub change_password : ℕ → ℕ → String → List ℕ → Option ℕ → Action (Unit {0})
  unfolding require_step_up end_sessions
  change_password now user current hash token = do
    u ← or_throw (← gets (λ db. lookup user db.users)) (unauthorized "User not found")
    old ← or_throw u.password_hash (bad_request "This account has no password to change.")
    throw_if (not (o.compare_hash current old)) (bad_request "Current password is incorrect")
    require_step_up jwt now user token
    update_user user (λ u. record u { password_hash = some hash })
    modify (end_sessions user)

  -- Whether an address belongs to another user.
  abbrev taken_by_other : ℕ → String → AuthDb → Bool
  taken_by_other user email db = elim (email_taken email db) [
    | none ↦ false
    | some (id, _) ↦ not (id == user)
  ]

  pub change_email : ℕ → ℕ → ℕ → String → String → Option ℕ → Action (Unit {0})
  unfolding require_step_up send_verification_email email_taken
  change_email now fresh user new_email password token = do
    u ← or_throw (← gets (λ db. lookup user db.users)) (unauthorized "User not found")
    throw_if (← gets (taken_by_other user (o.normalize new_email)))
        (conflict "Email is already in use")
    old ←
        or_throw u.password_hash (bad_request "This account has no password to verify this change.")
    throw_if (not (o.compare_hash password old)) (bad_request "Password is incorrect")
    require_step_up jwt now user token
    update_user user (λ u. record u { email = o.normalize new_email; email_verified = false })
    ignoring (send_verification_email now fresh user)
