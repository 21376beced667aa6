-- ===== src/Auth/Tables.antt =====
-- The tables of prisma/schema.prisma that accounts are kept in. A row of tokens is named by the token
-- and a second factor by its user, which are unique. Tokens, codes and secrets are only compared and are
-- numbers; a password hash is the list of its characters. Times are milliseconds.
use Prim.Native.String.{String}
use beleqet_ecosystem_update.Base.{
  ℕ, Bool, Option, none, some, List, ◌∷◌, [], ◌++◌, Dict, lookup, insert, Request, HttpError,
  internal_server_error, if◌then◌else◌, ◌>>=◌, gets, or_throw, modify,
}

pub record User : Type 0 where
  pub email : String
  pub password_hash : Option (List ℕ)  -- none for a social login
  pub role : String
  pub is_active : Bool
  pub email_verified : Bool

pub record RefreshToken : Type 0 where
  pub user_id : ℕ
  pub expires_at : ℕ

pub data VerificationTokenType : Type 0 where
  email_verification password_reset oauth_link_confirmation : VerificationTokenType

pub record VerificationToken : Type 0 where
  pub user_id : ℕ
  pub kind : VerificationTokenType
  pub expires_at : ℕ

pub data OauthProvider : Type 0 where
  google linkedin : OauthProvider

pub record OauthAccount : Type 0 where
  pub user_id : ℕ
  pub provider : OauthProvider
  pub provider_account_id : ℕ

pub record UserTwoFactor : Type 0 where
  pub secret : ℕ  -- encrypted
  pub enabled : Bool
  pub enrollment_token : Option ℕ
  pub enrollment_expires_at : Option ℕ
  pub last_verified_at : Option ℕ

-- The codes of a user's second factor; the factor is named by its user.
pub record BackupCode : Type 0 where
  pub two_factor_id : ℕ
  pub code_hash : ℕ
  pub used_at : Option ℕ

-- Mails that are queued, events that are emitted and entries of the audit log.
pub data Posted : Type 0 where
  verification_email welcome_email login_alert logout_alert reset_email : ℕ → Posted
  login_failed login_success : String → Posted
  audit : ℕ → String → String → Posted

pub record AuthDb : Type 0 where
  pub users : Dict User
  pub refresh_tokens : Dict RefreshToken
  pub verification_tokens : Dict VerificationToken
  pub oauth_accounts : Dict OauthAccount
  pub two_factors : Dict UserTwoFactor
  pub backup_codes : Dict BackupCode
  pub posted : List Posted

abbrev pub Action : Type 0 → Type 0
Action A = Request AuthDb A

-- Prisma's P2002: a unique constraint does not hold; and P2025: there is no row to update.
abbrev pub not_unique : HttpError
not_unique = internal_server_error "P2002"

abbrev pub record_not_found : HttpError
record_not_found = internal_server_error "P2025"

abbrev pub put_user : ℕ → User → AuthDb → AuthDb
put_user id u db = record db { users = insert id u db.users }

abbrev pub put_two_factor : ℕ → UserTwoFactor → AuthDb → AuthDb
put_two_factor user f db = record db { two_factors = insert user f db.two_factors }

abbrev pub post : Posted → AuthDb → AuthDb
post p db = record db { posted = db.posted ++ p ∷ [] }

abbrev pub update_user : ℕ → (User → User) → Action (Unit {0})
update_user id f = do
  u ← or_throw (← gets (λ db. lookup id db.users)) record_not_found
  modify (put_user id (f u))

-- The second factor of a user, if it is enabled.
abbrev pub enabled_factor : ℕ → AuthDb → Option UserTwoFactor
enabled_factor user db = elim (lookup user db.two_factors) [
  | none ↦ none
  | some f ↦ if f.enabled then some f else none
]
