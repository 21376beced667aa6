-- ===== src/Auth/Linking.antt =====
-- src/modules/auth/services/account-linking.service.ts and repositories/account.repository.ts: social
-- logins. The errors of the domain are the HTTP errors that auth-exception.filter.ts makes of them. The
-- provider's tokens, which are only stored, are left out.
pub mod Laws
use Prim.Native.String.{String}
use text.Mathlib.Text.{◌==◌ as str_eq}
use beleqet_ecosystem_update.Base.{
  is_some, ℕ, ◌+◌, ◌*◌, ◌==◌, ltb, if◌then◌else◌, Bool, true, false, not, ◌&&◌, ◌||◌, Option, none,
  some, List, Dict, lookup, insert, erase, find_value, forbidden, bad_request, conflict, ◌>>=◌,
  ◌>>◌, gets, or_throw, throw, throw_if, modify, pure, Request, ok, err,
}
use beleqet_ecosystem_update.Auth.Tables.{
  Action, AuthDb, User, OauthProvider, OauthAccount, VerificationToken, VerificationTokenType,
  Posted, not_unique, put_user, post,
}
use beleqet_ecosystem_update.Auth.Sessions.{email_taken}
use beleqet_ecosystem_update.Auth.Credentials.{live_token}

pub record OauthProfile : Type 0 where
  pub provider : OauthProvider
  pub provider_account_id : ℕ
  pub email : String
  pub email_verified : Bool

abbrev pub same_provider : OauthProvider → OauthProvider → Bool
same_provider OauthProvider.google OauthProvider.google = true
same_provider OauthProvider.linkedin OauthProvider.linkedin = true
same_provider _ _ = false

pub find_oauth_account : OauthProvider → ℕ → AuthDb → Option OauthAccount
find_oauth_account provider account db =
    find_value (λ a. same_provider a.provider provider && a.provider_account_id == account)
      db.oauth_accounts

-- Social accounts have no password; the role is the default of the table.
pub social_user : String → Bool → User
social_user email verified = record {
  email = email;
  password_hash = none;
  role = "JOB_SEEKER";
  is_active = true;
  email_verified = verified;
}

pub link : ℕ → ℕ → OauthProfile → AuthDb → AuthDb
link id user p db = record db {
  oauth_accounts =
      insert id
        (record {
          user_id = user;
          provider = p.provider;
          provider_account_id = p.provider_account_id;
        })
        db.oauth_accounts;
}

-- The unique constraints on addresses and on a provider's accounts.
pub attach_oauth_account : ℕ → ℕ → OauthProfile → Action (Unit {0})
unfolding link find_oauth_account
attach_oauth_account id user p = do
  throw_if (← gets (λ db. is_some (find_oauth_account p.provider p.provider_account_id db)))
      not_unique
  modify (link id user p)

pub create_user_with_oauth_account : (String → String) → ℕ → ℕ → OauthProfile → Action (Unit {0})
unfolding social_user attach_oauth_account email_taken
create_user_with_oauth_account normalize user id p = do
  throw_if (← gets (λ db. is_some (email_taken (normalize p.email) db))) not_unique
  throw_if (← gets (λ db. is_some (find_oauth_account p.provider p.provider_account_id db)))
      not_unique
  modify (put_user user (social_user (normalize p.email) p.email_verified))
  modify (link id user p)

abbrev pub confirmation_ms : ℕ
confirmation_ms = 30 * 60 * 1_000

pub issue_verification_token : ℕ → ℕ → ℕ → VerificationTokenType → Action (Unit {0})
issue_verification_token now fresh user kind = do
  throw_if (← gets (λ db. is_some (lookup fresh db.verification_tokens))) not_unique
  modify (λ db. record db {
    verification_tokens =
        insert fresh (record { user_id = user; kind = kind; expires_at = now + confirmation_ms })
          db.verification_tokens;
  })

-- `consumeVerificationToken`, a transaction: the user of the token, which is deleted.
pub consume_verification_token : ℕ → ℕ → VerificationTokenType → Action (Option ℕ)
unfolding live_token
consume_verification_token now token kind = do
  found ← gets (live_token kind now token)
  elim found [
    | none ↦ pure none
    | some t ↦ (do
      modify (λ db. record db { verification_tokens = erase token db.verification_tokens })
      pure (some t.user_id))
  ]

pub data OauthSignInOutcome : Type 0 where
  logs_in signs_up : ℕ → OauthSignInOutcome
  pending_confirmation : ℕ → ℕ → OauthSignInOutcome

abbrev identity_taken {ℓ} : {A : Type ℓ} → Request AuthDb A
identity_taken = throw (conflict "This social account is already linked to a different user.")

abbrev audit : ℕ → String → String → AuthDb → AuthDb
audit user event reason = post (Posted.audit user event reason)

-- The account with the address of the profile is never linked here.
match_by_email : ℕ → ℕ → ℕ → OauthProfile → Action OauthSignInOutcome
unfolding issue_verification_token
match_by_email now fresh user p =
    if p.email_verified
    then (do
      issue_verification_token now fresh user VerificationTokenType.oauth_link_confirmation
      modify (audit user "AccountLinkAttempt" "")
      pure (pending_confirmation user fresh))
    else (do
      modify (audit user "AccountLinkRejected" "unverified_email")
      throw (forbidden "Cannot link or sign in: provider did not verify ownership of email."))

-- `handleOAuthSignIn`; `user` and `id` name a new user and a new link.
pub handle_oauth_sign_in :
    (String → String) → ℕ → ℕ → ℕ → ℕ → OauthProfile → Action OauthSignInOutcome
unfolding find_oauth_account create_user_with_oauth_account match_by_email email_taken
handle_oauth_sign_in normalize now fresh user id p = do
  linked ← gets (find_oauth_account p.provider p.provider_account_id)
  elim linked [
    | some a ↦ (do
      owner ← gets (λ db. lookup a.user_id db.users)
      elim owner [ none ↦ identity_taken | some _ ↦ pure (logs_in a.user_id) ])
    | none ↦ (do
      found ← gets (email_taken (normalize p.email))
      elim found [
        | none ↦ create_user_with_oauth_account normalize user id p >> pure (signs_up user)
        | some (existing, _) ↦ match_by_email now fresh existing p
      ])
  ]

abbrev invalid_confirmation {ℓ} : {A : Type ℓ} → Request AuthDb A
invalid_confirmation =
    throw (bad_request "The link-confirmation token is invalid, expired, or already used.")

-- The user is looked up before the identity is attached; a failure to attach is an invalid confirmation.
attach : ℕ → ℕ → OauthProfile → Action ℕ
unfolding attach_oauth_account
attach id user p db = elim (lookup user db.users) [
  | none ↦ invalid_confirmation db
  | some _ ↦
      let (answer, db') = attach_oauth_account id user p db in
      elim answer [
        | err _ ↦ invalid_confirmation db'
        | ok _ ↦ pure user (audit user "AccountLinkSucceeded" "" db')
      ]
]

-- `confirmPendingLink`
pub confirm_pending_link : ℕ → ℕ → ℕ → OauthProfile → Action ℕ
unfolding consume_verification_token find_oauth_account attach
confirm_pending_link now token id p = do
  consumed ← consume_verification_token now token VerificationTokenType.oauth_link_confirmation
  linked ← gets (find_oauth_account p.provider p.provider_account_id)
  elim consumed [
    | none ↦ invalid_confirmation
    | some user ↦ elim linked [
      | none ↦ attach id user p
      | some a ↦
          if a.user_id == user
          then (do
            owner ← gets (λ db. lookup user db.users)
            elim owner [ none ↦ invalid_confirmation | some _ ↦ pure user ])
          else identity_taken
    ]
  ]
