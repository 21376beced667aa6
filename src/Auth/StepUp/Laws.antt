-- ===== src/Auth/StepUp/Laws.antt =====
-- The guard of sensitive actions (step-up.guard.ts).
use text.Mathlib.Text.{◌==◌ as str_eq}
use beleqet_ecosystem_update.Base.{
  ℕ, ◌+◌, ◌≤◌, ◌<◌, ◌≡◌, ◌⊎◌, inl, inr, true, Option, none, some, ok, err, unauthorized, ◌≢◌, arith,
  Option-cases,
}
use beleqet_ecosystem_update.Auth.Tables.{AuthDb, enabled_factor, UserTwoFactor}
use beleqet_ecosystem_update.Auth.StepUp.{
  Claims, Jwt, GuardedRequest, can_activate, try_verify_step_up, in_scope, step_up_window, validate,
  by_bearer, expired,
}

-- A token that shows a second factor of the last fifteen minutes, for the action of the route.
pub record Shows (jwt : Jwt) (now : ℕ) (request : GuardedRequest) (token : ℕ) : Type 0 where
  pub claims : Claims
  pub verified : jwt.verify_temp token ≡ some claims
  pub purpose : str_eq claims.purpose "2fa_step_up" ≡ true
  pub at : ℕ
  pub stamped : claims.verified_at ≡ some at
  pub recent : now ≤ at + step_up_window
  pub scoped : in_scope claims.action request.route_action ≡ true

try_verify-Shows :
    (jwt : Jwt) (now token : ℕ) (request : GuardedRequest) (c : Claims) (t : ℕ) (user r : Option ℕ)
    → try_verify_step_up jwt token ≡ some (c, t)
    → validate now request (c, t) user ≡ ok r
    → Shows jwt now request token
unfolding try_verify_step_up validate expired
try_verify-Shows jwt now token request c t user r h v = record {
  claims = c;
  verified = ground arith;
  purpose = ground arith;
  at = t;
  stamped = ground arith;
  recent = ground arith;
  scoped = ground arith;
}

from_bearer-Shows :
    (jwt : Jwt) (now bearer user : ℕ) (request : GuardedRequest) (f : UserTwoFactor) (db : AuthDb)
    (r : Option ℕ)
    → jwt.verify_access bearer ≡ some user
    → enabled_factor user db ≡ some f
    → by_bearer jwt now request bearer db ≡ ok r
    → Shows jwt now request bearer
unfolding by_bearer
from_bearer-Shows jwt now bearer user request f db r held factor allowed =
    elim (Option-cases (try_verify_step_up jwt bearer)) [
      | inl plain ↦ absurd (ground arith)
      | inr ((c, t), good) ↦
          try_verify-Shows jwt now bearer request c t (some c.sub) r good (ground arith)
    ]

-- Where the bearer of a request has a second factor, a sensitive action is allowed only if the request
-- shows a second factor of the last fifteen minutes, for that action: by its header or by the bearer token.
pub guard_needs_factor :
    (jwt : Jwt) (now bearer user : ℕ) (request : GuardedRequest) (f : UserTwoFactor) (db : AuthDb)
    (r : Option ℕ)
    → request.authorization ≡ some bearer
    → jwt.verify_access bearer ≡ some user
    → enabled_factor user db ≡ some f
    → can_activate jwt now true request db ≡ ok r
    → ((token : ℕ) × (request.step_up_header ≡ some token) × Shows jwt now request token)
      ⊎ Shows jwt now request bearer
unfolding can_activate
guard_needs_factor jwt now bearer user request f db r authorized held factor allowed =
    elim (Option-cases request.step_up_header) [
      | inl bare ↦
          inr (from_bearer-Shows jwt now bearer user request f db r held factor (ground arith))
      | inr (token, header) ↦ elim (Option-cases (try_verify_step_up jwt token)) [
        | inl plain ↦
            inr (from_bearer-Shows jwt now bearer user request f db r held factor (ground arith))
        | inr ((c, t), good) ↦
            inl
              (token, header, try_verify-Shows jwt now token request c t none r good (ground arith))
      ]
    ]

-- The user of the header's token is not compared with that of the bearer token. A user with a second
-- factor who has an access token, which is no step-up token, is refused a sensitive action without a
-- header, and is allowed it by the same request with the step-up token of another user in the header,
-- which shows that user's second factor of the last fifteen minutes, for the action.
pub foreign_step_up_accepted :
    (jwt : Jwt) (now bearer token user : ℕ) (request : GuardedRequest) (f : UserTwoFactor)
    (db : AuthDb)
    → request.authorization ≡ some bearer
    → jwt.verify_access bearer ≡ some user
    → jwt.verify_temp bearer ≡ none
    → enabled_factor user db ≡ some f
    → request.step_up_header ≡ some token
    → (s : Shows jwt now request token) → 0 < s.at
    → s.claims.sub ≢ user
    → (can_activate jwt now true (record request { step_up_header = none }) db
        ≡ err (unauthorized "This action requires recent two-factor verification."))
      × (can_activate jwt now true request db ≡ ok none)
unfolding can_activate try_verify_step_up validate expired by_bearer
foreign_step_up_accepted jwt now bearer token user request f db auth held plain factor header s p
      _ =
    (ground arith, ground (arith, s.verified, s.purpose, s.stamped, s.recent, s.scoped))
