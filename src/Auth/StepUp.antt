-- ===== src/Auth/StepUp.antt =====
-- src/modules/two-factor/guards/step-up.guard.ts: sensitive actions ask for a recent second factor.
-- What the verification of a token's signature and end makes of the token now is an argument.
pub mod Laws
use Prim.Native.String.{String}
use text.Mathlib.Text.{◌==◌ as str_eq}
use beleqet_ecosystem_update.Base.{
  ℕ, ◌+◌, ◌*◌, ◌/◌, ◌==◌, ltb, if◌then◌else◌, Bool, true, false, not, ◌&&◌, Option, none, some,
  Result, ok, err, forbidden, unauthorized, lookup,
}
use beleqet_ecosystem_update.Auth.Tables.{AuthDb, UserTwoFactor, enabled_factor}

-- The claims of a token that is signed with the temporary secret.
pub record Claims : Type 0 where
  pub sub : ℕ
  pub purpose : String
  pub verified_at : Option ℕ  -- seconds
  pub action : Option String

-- `jwt.verify`, with the temporary secret and with that of access tokens.
pub record Jwt : Type 0 where
  pub verify_temp : ℕ → Option Claims
  pub verify_access : ℕ → Option ℕ

-- `generateStepUpChallenge` signs these.
pub challenge : ℕ → Claims
challenge user = record {
  sub = user;
  purpose = "2fa_step_up_challenge";
  verified_at = none;
  action = some "sensitive_action";
}

-- `payload['2fa_verified_at']` if it is truthy.
abbrev pub verified_time : Claims → Option ℕ
verified_time c = elim c.verified_at [ none ↦ none | some t ↦ if t == 0 then none else some t ]

-- A step-up token with the time of its verification.
pub try_verify_step_up : Jwt → ℕ → Option (Claims × ℕ)
try_verify_step_up jwt token = elim (jwt.verify_temp token) [
  | none ↦ none
  | some c ↦ elim (verified_time c) [
    | none ↦ none
    | some t ↦ if str_eq c.purpose "2fa_step_up" then some (c, t) else none
  ]
]

abbrev pub step_up_window : ℕ
step_up_window = 15 * 60

-- `now - verified_at > 15 * 60`, in seconds.
unfoldable pub expired : ℕ → ℕ → Bool
expired now verified_at = ltb (verified_at + step_up_window) now

abbrev truthy : Option String → Option String
truthy none = none
truthy (some s) = if str_eq s "" then none else some s

-- Whether an action that a token is limited to is that of the route.
unfoldable pub in_scope : Option String → Option String → Bool
in_scope action route = elim (truthy action) [
  | none ↦ true
  | some a ↦ elim (truthy route) [ none ↦ true | some r ↦ str_eq a r ]
]

pub record GuardedRequest : Type 0 where
  pub authorization : Option ℕ
  pub step_up_header : Option ℕ
  pub route_action : Option String

-- `validateStepUpExpiry` and `validateActionScope`, and the user that the request is given, if any.
validate : ℕ → GuardedRequest → Claims × ℕ → Option ℕ → Result (Option ℕ)
unfolding expired in_scope
validate now request (c, t) user =
    if expired now t
    then err (unauthorized "Step-up verification has expired. Please re-verify.")
    else if in_scope c.action request.route_action
    then ok user
    else err (forbidden "Step-up token scoped to another action")

-- The access token is the last resort: it serves a user without a second factor.
by_access : Jwt → ℕ → AuthDb → Result (Option ℕ)
by_access jwt token db = elim (jwt.verify_access token) [
  | none ↦ err (unauthorized "Invalid or expired token")
  | some user ↦ elim (enabled_factor user db) [
    | none ↦ ok (some user)
    | some _ ↦ err (unauthorized "This action requires recent two-factor verification.")
  ]
]

by_bearer : Jwt → ℕ → GuardedRequest → ℕ → AuthDb → Result (Option ℕ)
unfolding validate by_access try_verify_step_up
by_bearer jwt now request token db = elim (try_verify_step_up jwt token) [
  | some (c, t) ↦ validate now request (c, t) (some c.sub)
  | none ↦ by_access jwt token db
]

abbrev from_header : Jwt → GuardedRequest → Option (Claims × ℕ)
from_header jwt request = elim request.step_up_header [
  | none ↦ none
  | some token ↦ try_verify_step_up jwt token
]

-- `canActivate`: an exception, or the user that it sets on the request; `none` leaves the user that an
-- earlier guard has set. Times are seconds.
unfoldable pub can_activate : Jwt → ℕ → Bool → GuardedRequest → AuthDb → Result (Option ℕ)
unfolding by_bearer validate try_verify_step_up
can_activate jwt now is_sensitive request db =
    if is_sensitive
    then elim request.authorization [
      | none ↦ err (unauthorized "Missing authorization header")
      | some token ↦ elim (from_header jwt request) [
        | some (c, t) ↦ validate now request (c, t) none
        | none ↦ by_bearer jwt now request token db
      ]
    ]
    else ok none
