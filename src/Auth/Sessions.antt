-- ===== src/Auth/Sessions.antt =====
-- src/modules/auth/auth.service.ts: registration, login and sessions. A new row's id, a new token and
-- a new hash are arguments; so is what the text functions and bcrypt make of their inputs.
pub mod Laws
use Prim.Native.String.{String}
use text.Mathlib.Text.{◌==◌ as str_eq}
use beleqet_ecosystem_update.Base.{
  is_some, ℕ, zero, suc, ◌+◌, ◌-◌, ◌*◌, ◌==◌, ltb, leb, if◌then◌else◌, Bool, true, false, not, ◌&&◌,
  ◌||◌, Option, none, some, List, [], ◌∷◌, ◌++◌, map, length, take, member, Dict, lookup, insert,
  erase, find_row, keep_rows, conflict, unauthorized, ◌>>=◌, ◌>>◌, gets, or_throw, throw, throw_if,
  modify, pure, when,
}
use beleqet_ecosystem_update.Auth.Tables.{
  Action, AuthDb, User, RefreshToken, VerificationToken, VerificationTokenType, Posted, not_unique,
  put_user, post, update_user, enabled_factor,
}

abbrev pub day_ms : ℕ
day_ms = 86_400_000

abbrev pub hour_ms : ℕ
hour_ms = 3_600_000

-- `toLowerCase().trim()`, `toLowerCase()`, and `bcrypt.compare`.
pub record Outside : Type 0 where
  pub normalize : String → String
  pub lower : String → String
  pub compare_hash : String → List ℕ → Bool

abbrev pub session_limit : ℕ
session_limit = 5

-- The sessions of a user with their ends, in the order of the ends.
insert_session : ℕ × ℕ → List (ℕ × ℕ) → List (ℕ × ℕ)
insert_session s [] = s ∷ []
insert_session s (r ∷ rs) = if ltb s.1 r.1 then s ∷ r ∷ rs else r ∷ insert_session s rs

unfoldable pub sessions_of : ℕ → Dict RefreshToken → List (ℕ × ℕ)
unfolding insert_session
sessions_of user [] = []
sessions_of user ((token, r) ∷ d) =
    let rest = sessions_of user d in
    if r.user_id == user then insert_session (token, r.expires_at) rest else rest

-- The tokens that make room for one more session: all but the last four.
pub excess_tokens : List (ℕ × ℕ) → List ℕ
excess_tokens active =
    if leb session_limit (length active)
    then map (λ s. s.0) (take (length active - (session_limit - 1)) active)
    else []

pub drop_tokens : List ℕ → Dict RefreshToken → Dict RefreshToken
drop_tokens tokens = keep_rows (λ token _. not (member token tokens))

-- The access token is the claims that it signs.
pub record Tokens : Type 0 where
  pub sub : ℕ
  pub email : String
  pub role : String
  pub refresh_token : ℕ

-- `setDate(getDate() + 30)`, without changes of the clock.
unfoldable pub new_session : ℕ → ℕ → RefreshToken
new_session user now = record { user_id = user; expires_at = now + 30 * day_ms }

pub issue_tokens : ℕ → ℕ → ℕ → User → Action Tokens
unfolding sessions_of excess_tokens drop_tokens new_session
issue_tokens now fresh id u = do
  active ← gets (λ db. sessions_of id db.refresh_tokens)
  modify (λ db. record db { refresh_tokens = drop_tokens (excess_tokens active) db.refresh_tokens })
  throw_if (← gets (λ db. is_some (lookup fresh db.refresh_tokens))) not_unique
  modify (λ db. record db { refresh_tokens = insert fresh (new_session id now) db.refresh_tokens })
  pure (record { sub = id; email = u.email; role = u.role; refresh_token = fresh })

pub issue_tokens_for_user_id : ℕ → ℕ → ℕ → Action Tokens
unfolding issue_tokens
issue_tokens_for_user_id now fresh id = do
  u ← or_throw (← gets (λ db. lookup id db.users)) (unauthorized "User not found")
  issue_tokens now fresh id u

-- `sendVerificationEmail`: the token is good for a day.
unfoldable pub send_verification_email : ℕ → ℕ → ℕ → Action (Unit {0})
send_verification_email now fresh id db = elim (lookup id db.users) [
  | none ↦ pure tt db
  | some u ↦
      (do
        throw_if (← gets (λ db. is_some (lookup fresh db.verification_tokens))) not_unique
        modify (λ db. record db {
          verification_tokens =
              insert fresh
                (record {
                  user_id = id;
                  kind = VerificationTokenType.email_verification;
                  expires_at = now + day_ms;
                })
                db.verification_tokens;
        })
        modify (post (Posted.verification_email id)))
        db
]

-- `.catch(...)` on a promise: the error is logged.
abbrev pub ignoring : Action (Unit {0}) → Action (Unit {0})
ignoring m db = pure tt (m db).1

unfoldable pub email_taken : String → AuthDb → Option (ℕ × User)
email_taken email db = find_row (λ u. str_eq u.email email) db.users

pub new_user : String → List ℕ → Option String → User
new_user email hash role = record {
  email = email;
  password_hash = some hash;
  role = elim role [ none ↦ "JOB_SEEKER" | some r ↦ r ];
  is_active = true;
  email_verified = false;
}

-- WordPress hashes begin with `$wp$`, for which a `$` is put.
pub standard_hash : List ℕ → List ℕ
standard_hash [] = []
standard_hash (a ∷ []) = a ∷ []
standard_hash (a ∷ b ∷ []) = a ∷ b ∷ []
standard_hash (a ∷ b ∷ c ∷ []) = a ∷ b ∷ c ∷ []
standard_hash (a ∷ b ∷ c ∷ d ∷ hash) =
    if a == b'$' && (b == b'w' && (c == b'p' && d == b'$'))
    then b'$' ∷ hash
    else a ∷ b ∷ c ∷ d ∷ hash

is_legacy : List ℕ → Bool
is_legacy (a ∷ b ∷ c ∷ d ∷ hash) = a == b'$' && (b == b'w' && (c == b'p' && d == b'$'))
is_legacy _ = false

module _ (o : Outside) where
  pub register : ℕ → ℕ → ℕ → ℕ → String → List ℕ → Option String → Action Tokens
  unfolding email_taken new_user send_verification_email issue_tokens
  register now id verification fresh email hash role = do
    throw_if (← gets (λ db. is_some (email_taken (o.normalize email) db)))
        (conflict "Email already registered")
    let u = new_user (o.normalize email) hash role
    modify (put_user id u)
    ignoring (send_verification_email now verification id)
    modify (post (Posted.welcome_email id))
    issue_tokens now fresh id u

  -- `validateUser`: the user with its id. `rehash` is a new hash of the password.
  pub validate_user : String → String → List ℕ → Action (ℕ × User)
  unfolding email_taken standard_hash is_legacy
  validate_user email password rehash = do
    let address = o.normalize email
    found ← gets (email_taken address)
    when (not (is_some found)) (modify (post (Posted.login_failed address)))
    (id, u) ← or_throw found (unauthorized "Invalid credentials")
    when (not u.is_active) (modify (post (Posted.login_failed address)))
    throw_if (not u.is_active) (unauthorized "Invalid credentials")
    hash ← or_throw u.password_hash (unauthorized "This account uses social login.")
    let valid = o.compare_hash password (standard_hash hash)
    when (not valid) (modify (post (Posted.login_failed address)))
    throw_if (not valid) (unauthorized "Invalid credentials")
    when (is_legacy hash) (update_user id (λ u. record u { password_hash = some rehash }))
    modify (post (Posted.login_success address))
    pure (id, u)

-- The answer of `login`: tokens, or a challenge for the second factor.
pub data LoginResult : Type 0 where
  signed_in : Tokens → LoginResult
  requires_2fa : ℕ → LoginResult

pub login : ℕ → ℕ → ℕ → User → Action LoginResult
unfolding issue_tokens
login now fresh id u = do
  modify (post (Posted.login_alert id))
  factor ← gets (enabled_factor id)
  elim factor [
    | some _ ↦ pure (requires_2fa id)
    | none ↦ (do tokens ← issue_tokens now fresh id u; pure (signed_in tokens))
  ]

-- The session and its user; the foreign key makes the user exist.
unfoldable pub refresh : ℕ → ℕ → ℕ → Action Tokens
unfolding issue_tokens
refresh now fresh token = do
  stored ←
      or_throw (← gets (λ db. lookup token db.refresh_tokens))
        (unauthorized "Invalid or expired refresh token")
  throw_if (ltb stored.expires_at now) (unauthorized "Invalid or expired refresh token")
  u ←
      or_throw (← gets (λ db. lookup stored.user_id db.users))
        (unauthorized "Invalid or expired refresh token")
  modify (λ db. record db { refresh_tokens = erase token db.refresh_tokens })
  issue_tokens now fresh stored.user_id u

unfoldable pub end_sessions : ℕ → AuthDb → AuthDb
end_sessions user db = record db {
  refresh_tokens = keep_rows (λ _ r. not (r.user_id == user)) db.refresh_tokens;
}

pub logout : ℕ → Action (Unit {0})
unfolding end_sessions
logout user = do
  found ← gets (λ db. lookup user db.users)
  modify (end_sessions user)
  when (is_some found) (modify (post (Posted.logout_alert user)))
