-- ===== src/Auth/Tests.antt =====
-- The theorems of the accounts at concrete inputs: user 1, with token 10 and a second factor.

use text.Mathlib.Text.{◌==◌ as str_eq}
use beleqet_ecosystem_update.Base.{
  ℕ, ◌+◌, ◌≤◌, ◌<◌, ◌==◌, ltb, ◌≡◌, refl, if◌then◌else◌, Bool, true, false, not, ◌&&◌, ◌||◌, none,
  some, List, [], ◌∷◌, lookup, insert, erase, keep_rows, find_row, count_rows, ok, err,
  unauthorized, arith, length, ◌⊎◌,
}
use beleqet_ecosystem_update.Auth.Tables.{
  AuthDb, User, RefreshToken, VerificationToken, VerificationTokenType, UserTwoFactor, BackupCode,
  OauthAccount, OauthProvider,
}
use beleqet_ecosystem_update.Auth.Sessions.{
  Outside, Tokens, sessions_of, session_limit, issue_tokens, new_session, refresh,
}
use beleqet_ecosystem_update.Auth.Sessions.Laws.{issue_tokens_capped, refresh_once}
use beleqet_ecosystem_update.Auth.TwoFactor.{UsedCodes, Codes, TwoFactorState, verify_login}
use beleqet_ecosystem_update.Auth.TwoFactor.Laws.{Use, Call, use_code, do_calls, code_accepted_once}
use beleqet_ecosystem_update.Auth.Sessions.{email_taken}
use beleqet_ecosystem_update.Auth.StepUp.{Claims, Jwt, GuardedRequest, can_activate, in_scope}
use beleqet_ecosystem_update.Auth.StepUp.Laws.{Shows, guard_needs_factor, foreign_step_up_accepted}
use beleqet_ecosystem_update.Auth.BackupCodes.{
  usable_code, unused, remaining, verify_backup_code, verify_backup_code_from,
}
use beleqet_ecosystem_update.Auth.BackupCodes.Laws.{
  Redeems, verify_backup_code_spends, backup_code_accepted_twice,
}
use beleqet_ecosystem_update.Auth.Linking.{
  OauthProfile, logs_in, find_oauth_account, link, handle_oauth_sign_in,
}
use beleqet_ecosystem_update.Auth.Linking.Laws.{sign_in_never_links}

-- Keys with the time at which they are let go.
abbrev held : ℕ → ℕ → ℕ → List (ℕ × ℕ × ℕ) → Bool
held now user code [] = false
held now user code ((u, c, t) ∷ s) = (u == user && (c == code && ltb now t)) || held now user code s

abbrev set_key : ℕ → ℕ → ℕ → List (ℕ × ℕ × ℕ) → Bool × List (ℕ × ℕ × ℕ)
set_key now user code s =
    if held now user code s then (false, s) else (true, (user, code, now + 90_000) ∷ s)

set_key-answers :
    (now user code : ℕ) (s : List (ℕ × ℕ × ℕ))
    → (set_key now user code s).0 ≡ not (held now user code s)
set_key-answers now user code s = ground arith

set_key-holds :
    (now later user code : ℕ) (s : List (ℕ × ℕ × ℕ))
    → (set_key now user code s).0 ≡ true
    → now ≤ later
    → later < now + 90_000
    → held later user code (set_key now user code s).1 ≡ true
set_key-holds now later user code s h p q = ground arith

set_key-keeps :
    (now later user code user' code' : ℕ) (s : List (ℕ × ℕ × ℕ))
    → now ≤ later
    → held later user code s ≡ true
    → held later user code (set_key now user' code' s).1 ≡ true
set_key-keeps now later user code user' code' s p h = ground arith

abbrev keys : UsedCodes
keys = record {
  Store = List (ℕ × ℕ × ℕ);
  is_held = held;
  set_nx = set_key;
  answers = set_key-answers;
  held_after = set_key-holds;
  keeps = set_key-keeps;
}

abbrev codes : Codes
codes = record { encrypt = λ s. s; decrypt = λ s. s; is_valid = λ now secret code. secret == code }

abbrev user_one : User
user_one = record {
  email = "one@example.com";
  password_hash = some (1 ∷ []);
  role = "JOB_SEEKER";
  is_active = true;
  email_verified = true;
}

abbrev session : ℕ → RefreshToken
session ends = record { user_id = 1; expires_at = ends }

abbrev reset_token : VerificationToken
reset_token = record {
  user_id = 1;
  kind = VerificationTokenType.password_reset;
  expires_at = 1_000;
}

abbrev confirmation : VerificationToken
confirmation = record {
  user_id = 1;
  kind = VerificationTokenType.oauth_link_confirmation;
  expires_at = 1_000;
}

abbrev factor : UserTwoFactor
factor = record {
  secret = 123_456;
  enabled = true;
  enrollment_token = none;
  enrollment_expires_at = none;
  last_verified_at = none;
}

abbrev backup : ℕ → BackupCode
backup hash = record { two_factor_id = 1; code_hash = hash; used_at = none }

abbrev accounts : AuthDb
accounts = record {
  users = (1, user_one) ∷ [];
  refresh_tokens = (10, session 900) ∷ (11, session 950) ∷ [];
  verification_tokens = (20, reset_token) ∷ (21, confirmation) ∷ [];
  oauth_accounts = [];
  two_factors = (1, factor) ∷ [];
  backup_codes = (30, backup 7) ∷ (31, backup 8) ∷ [];
  posted = [];
}

abbrev outside : Outside
outside = record {
  normalize = λ s. s;
  lower = λ s. s;
  compare_hash = λ password hash. str_eq password "right";
}

-- Token 50 is a step-up token of user 1 and 51 one of user 2; 60 is an access token of user 1.
abbrev stepped_up : ℕ → Claims
stepped_up user = record {
  sub = user;
  purpose = "2fa_step_up";
  verified_at = some 100;
  action = none;
}

abbrev jwt : Jwt
jwt = record {
  verify_temp = λ token.
      if token == 50
      then some (stepped_up 1)
      else if token == 51
      then some (stepped_up 2)
      else none;
  verify_access = λ token. if token == 60 then some 1 else none;
}

abbrev asking : ℕ → GuardedRequest
asking header = record {
  authorization = some 60;
  step_up_header = some header;
  route_action = none;
}

abbrev google_one : OauthProfile
google_one = record {
  provider = OauthProvider.google;
  provider_account_id = 77;
  email = "other@example.com";
  email_verified = true;
}

abbrev both : TwoFactorState keys codes
both = (accounts, [])

code_accepted_once_example :
    (use_code keys codes (Use.step_up none) 60_000 1 123_456 (
      do_calls keys codes
        ((500, Call.uses Use.login 1 123_456) ∷ [])
        (use_code keys codes Use.login 1_000 1 123_456 both).1)).0
    ≡ false
unfolding use_code verify_login lookup
code_accepted_once_example =
    code_accepted_once keys codes Use.login (Use.step_up none) 1_000 60_000 1 123_456
      ((500, Call.uses Use.login 1 123_456) ∷ []) both (omega arith) (omega arith) (omega arith, tt)
      refl

issue_tokens_capped_example :
    let (r, db') = issue_tokens 5 12 1 user_one accounts in
    (length (sessions_of 1 db'.refresh_tokens) ≤ session_limit)
    × ((t : Tokens)
        → r ≡ ok t
        → (t.sub ≡ 1) × (lookup t.refresh_token db'.refresh_tokens ≡ some (new_session 1 5)))
issue_tokens_capped_example = issue_tokens_capped 5 12 1 user_one accounts

refresh_once_example :
    let db' = (refresh 5 12 10 accounts).1 in
    refresh 6 13 10 db' ≡ (err (unauthorized "Invalid or expired refresh token"), db')
unfolding refresh lookup erase keep_rows insert
refresh_once_example =
    refresh_once 5 12 10 6 13 accounts
      (record { sub = 1; email = "one@example.com"; role = "JOB_SEEKER"; refresh_token = 12 })
      (λ e. omega (arith, e)) refl

verify_backup_code_spends_example :
    let db' = (verify_backup_code (λ code hash. code == hash) 5 1 7 accounts).1 in
    Redeems (λ code hash. code == hash) 5 1 7 accounts.backup_codes db'.backup_codes
    × (unused 1 db'.backup_codes ≡ 1)
    × (unused 1 accounts.backup_codes ≡ 2)
unfolding verify_backup_code verify_backup_code_from lookup find_row insert count_rows remaining
verify_backup_code_spends_example =
    verify_backup_code_spends (λ code hash. code == hash) 5 1 7 1 accounts (refl, (refl, tt)) refl

backup_code_accepted_twice_example :
    let matches = λ (code hash : ℕ). code == hash in
    let read = accounts.backup_codes in
    let (first, db') = verify_backup_code_from (some factor) read matches 5 1 7 accounts in
    let (second, _) = verify_backup_code_from (some factor) read matches 6 1 7 db' in
    (first ≡ ok (remaining 1 30 read)) × (second ≡ ok (remaining 1 30 read))
unfolding usable_code find_row lookup
backup_code_accepted_twice_example =
    backup_code_accepted_twice (λ code hash. code == hash) 5 6 1 7 30 factor (backup 7) accounts
      refl (refl, (refl, tt))

guard_needs_factor_example :
    ((token : ℕ) × (some 50 ≡ some token) × Shows jwt 200 (asking 50) token)
    ⊎ Shows jwt 200 (asking 50) 60
unfolding can_activate lookup
guard_needs_factor_example =
    guard_needs_factor jwt 200 60 1 (asking 50) factor accounts none refl refl refl refl

in_scope-none : in_scope none none ≡ true
unfolding in_scope
in_scope-none = refl

abbrev shown_by_two : Shows jwt 200 (asking 51) 51
shown_by_two = record {
  claims = stepped_up 2;
  verified = refl;
  purpose = refl;
  at = 100;
  stamped = refl;
  recent = omega arith;
  scoped = in_scope-none;
}

foreign_step_up_accepted_example :
    (can_activate jwt 200 true (record (asking 51) { step_up_header = none }) accounts
      ≡ err (unauthorized "This action requires recent two-factor verification."))
    × (can_activate jwt 200 true (asking 51) accounts ≡ ok none)
unfolding lookup
foreign_step_up_accepted_example =
    foreign_step_up_accepted jwt 200 60 51 1 (asking 51) factor accounts refl refl refl refl refl
      shown_by_two (omega arith) (λ e. omega (arith, e))

sign_in_never_links_example :
    let (r, db') = handle_oauth_sign_in (λ s. s) 5 40 2 41 google_one accounts in
    ((u : ℕ)
      → r ≡ ok (logs_in u)
      → (a : OauthAccount) × (find_oauth_account OauthProvider.google 77 accounts ≡ some a)
        × (a.user_id ≡ u))
    × ((db'.oauth_accounts ≡ accounts.oauth_accounts)
        ⊎ ((db'.oauth_accounts ≡ (link 41 2 google_one accounts).oauth_accounts)
            × (email_taken "other@example.com" accounts ≡ none)))
sign_in_never_links_example = sign_in_never_links (λ s. s) 5 40 2 41 google_one accounts
