-- ===== src/Auth/TwoFactor/Laws.antt =====
-- The check of one-time codes (two-factor.service.ts).
use Prim.Native.String.{String}
use beleqet_ecosystem_update.Base.{
  ℕ, ◌+◌, ◌≤◌, ◌<◌, ◌≡◌, Bool, true, false, Option, none, some, List, [], ◌∷◌, All, ok, err, arith,
  lookup, ◌≢◌, Option-cases, inl, inr,
}
use beleqet_ecosystem_update.Auth.Tables.{AuthDb, UserTwoFactor, enabled_factor}
use beleqet_ecosystem_update.Auth.StepUp.{Claims}
use beleqet_ecosystem_update.Auth.TwoFactor.{
  UsedCodes, Codes, TwoFactorState, check_code, accepted, confirm_enrollment, verify_login,
  verify_step_up,
}

-- The two ways to use a code, and what else happens: enrollments, and any change of the database.
pub data Use : Type 0 where
  login : Use
  step_up : Option String → Use

pub data Call : Type 0 where
  uses : Use → ℕ → ℕ → Call
  confirms : ℕ → Option Claims → ℕ → ℕ → List ℕ → Call
  changes : (AuthDb → AuthDb) → Call

module _ (r : UsedCodes) (o : Codes) where
  -- Whether a use of a code is accepted, and the state behind it.
  unfoldable pub use_code : Use → ℕ → ℕ → ℕ → TwoFactorState r o → Bool × TwoFactorState r o
  use_code login now user code s =
      let (answer, s') = verify_login r o now user code s in
      (elim answer [ ok b ↦ b | err _ ↦ false ], s')
  use_code (step_up action) now user code s =
      let (answer, s') = verify_step_up r o now user code action s in
      (elim answer [ ok _ ↦ true | err _ ↦ false ], s')

  -- A call at a time.
  pub do_call : ℕ × Call → TwoFactorState r o → TwoFactorState r o
  unfolding use_code
  do_call (now, uses u user code) s = (use_code u now user code s).1
  do_call (now, confirms user claims code first hashes) s =
      (confirm_enrollment r o now user claims code first hashes s).1
  do_call (now, changes f) s = (f s.0, s.1)

  pub do_calls : List (ℕ × Call) → TwoFactorState r o → TwoFactorState r o
  do_calls [] s = s
  do_calls (c ∷ cs) s = do_calls cs (do_call c s)

  abbrev Held : ℕ → ℕ → ℕ → TwoFactorState r o → Type 0
  Held later user code s = r.is_held later user code s.1 ≡ true

  check_code-keeps :
      (later user code now user' code' : ℕ) (f : UserTwoFactor) (s : TwoFactorState r o)
      → now ≤ later
      → Held later user code s
      → Held later user code (check_code r o now user' f code' s).1
  unfolding check_code
  check_code-keeps later user code now user' code' f s p h =
      ground (arith, r.keeps now later user code user' code' s.1 p h)

  use_code-keeps :
      (later user code now user' code' : ℕ) (u : Use) (s : TwoFactorState r o)
      → now ≤ later
      → Held later user code s
      → Held later user code (use_code u now user' code' s).1
  unfolding use_code verify_login verify_step_up
  use_code-keeps later user code now user' code' login s p h =
      elim (Option-cases (enabled_factor user' s.0)) [
        | inl missing ↦ ground arith
        | inr (f, found) ↦ ground (arith, check_code-keeps later user code now user' code' f s p h)
      ]
  use_code-keeps later user code now user' code' (step_up a) s p h =
      elim (Option-cases (enabled_factor user' s.0)) [
        | inl missing ↦ ground arith
        | inr (f, found) ↦ ground (arith, check_code-keeps later user code now user' code' f s p h)
      ]

  confirm-keeps :
      (later user code now user' code' first : ℕ) (claims : Option Claims) (hashes : List ℕ)
      (s : TwoFactorState r o)
      → now ≤ later
      → Held later user code s
      → Held later user code (confirm_enrollment r o now user' claims code' first hashes s).1
  unfolding confirm_enrollment
  confirm-keeps later user code now user' code' first none hashes s p h = h
  confirm-keeps later user code now user' code' first (some c) hashes s p h =
      elim (Option-cases (lookup user' s.0.two_factors)) [
        | inl missing ↦ ground arith
        | inr (f, found) ↦ ground (arith, check_code-keeps later user code now user' code' f s p h)
      ]

  do_calls-keeps :
      (later user code : ℕ) (cs : List (ℕ × Call)) (s : TwoFactorState r o)
      → All (λ c. c.0 ≤ later) cs
      → Held later user code s
      → Held later user code (do_calls cs s)
  unfolding do_calls do_call
  do_calls-keeps later user code [] s p h = h
  do_calls-keeps later user code ((now, uses u user' code') ∷ cs) s p h =
      do_calls-keeps later user code cs _ p.1
        (use_code-keeps later user code now user' code' u s p.0 h)
  do_calls-keeps later user code ((now, confirms user' claims code' first hashes) ∷ cs) s p h =
      do_calls-keeps later user code cs _ p.1
        (confirm-keeps later user code now user' code' first claims hashes s p.0 h)
  do_calls-keeps later user code ((now, changes f) ∷ cs) s p h =
      do_calls-keeps later user code cs (f s.0, s.1) p.1 h

  check_code-holds :
      (later user code now : ℕ) (f : UserTwoFactor) (s : TwoFactorState r o)
      → now ≤ later
      → later < now + 90_000
      → (check_code r o now user f code s).0 ≡ ok accepted
      → Held later user code (check_code r o now user f code s).1
  unfolding check_code
  check_code-holds later user code now f s p q h =
      ground (arith, r.held_after now later user code s.1)

  check_code-refuses :
      (later user code : ℕ) (f : UserTwoFactor) (s : TwoFactorState r o)
      → Held later user code s
      → (check_code r o later user f code s).0 ≢ ok accepted
  unfolding check_code
  check_code-refuses later user code f s h e = ground (arith, r.answers later user code s.1)

  use_code-holds :
      (u : Use) (later user code now : ℕ) (s : TwoFactorState r o)
      → now ≤ later
      → later < now + 90_000
      → (use_code u now user code s).0 ≡ true
      → Held later user code (use_code u now user code s).1
  unfolding use_code verify_login verify_step_up
  use_code-holds login later user code now s p q h = elim (Option-cases (enabled_factor user s.0)) [
    | inl missing ↦ ground arith
    | inr (f, found) ↦ ground (arith, check_code-holds later user code now f s p q)
  ]
  use_code-holds (step_up a) later user code now s p q h =
      elim (Option-cases (enabled_factor user s.0)) [
        | inl missing ↦ ground arith
        | inr (f, found) ↦ ground (arith, check_code-holds later user code now f s p q)
      ]

  use_code-refuses :
      (u : Use) (later user code : ℕ) (s : TwoFactorState r o)
      → Held later user code s
      → (use_code u later user code s).0 ≡ false
  unfolding use_code verify_login verify_step_up
  use_code-refuses login later user code s h = elim (Option-cases (enabled_factor user s.0)) [
    | inl missing ↦ ground arith
    | inr (f, found) ↦ ground (arith, check_code-refuses later user code f s h)
  ]
  use_code-refuses (step_up a) later user code s h = elim (Option-cases (enabled_factor user s.0)) [
    | inl missing ↦ ground arith
    | inr (f, found) ↦ ground (arith, check_code-refuses later user code f s h)
  ]

  -- A one-time code that a login or a step-up has accepted is accepted by neither for the next ninety
  -- seconds, whatever logins, step-ups, enrollments and changes of the database come in between.
  pub code_accepted_once :
      (first second : Use) (now later user code : ℕ) (cs : List (ℕ × Call)) (s : TwoFactorState r o)
      → now ≤ later
      → later < now + 90_000
      → All (λ c. c.0 ≤ later) cs
      → (use_code first now user code s).0 ≡ true
      → (use_code second later user code (do_calls cs (use_code first now user code s).1)).0 ≡ false
  code_accepted_once first second now later user code cs s p q between ok_once =
      use_code-refuses second later user code _ (
        do_calls-keeps later user code cs _ between
          (use_code-holds first later user code now s p q ok_once))
