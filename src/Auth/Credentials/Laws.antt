-- ===== src/Auth/Credentials/Laws.antt =====
-- Recovering and changing a password (auth.service.ts).
use Prim.Native.String.{String}
use text.Mathlib.Text.{◌==◌ as str_eq}
use beleqet_ecosystem_update.Base.{
  ℕ, ◌+◌, ◌/◌, ◌==◌, ◌≤◌, ◌≡◌, refl, true, false, not, ◌&&◌, ◌≢◌, Option, some, List, [], ◌∷◌, Dict,
  lookup, insert, lookup-insert_self, keep_rows, ok, arith, Option-cases, inl, inr,
}
use beleqet_ecosystem_update.Auth.Tables.{
  AuthDb, User, RefreshToken, VerificationToken, VerificationTokenType,
}
use beleqet_ecosystem_update.Auth.Sessions.{sessions_of, end_sessions}
use beleqet_ecosystem_update.Auth.StepUp.{Jwt, Claims, step_up_window}
use beleqet_ecosystem_update.Auth.Credentials.{
  reset_password, live_token, drop_reset_tokens, is_kind,
}

sessions_of-ended :
    (user : ℕ) (d : Dict RefreshToken)
    → sessions_of user (keep_rows (λ _ r. not (r.user_id == user)) d) ≡ []
unfolding sessions_of keep_rows
sessions_of-ended user [] = refl
sessions_of-ended user ((t, r) ∷ d) = ground (arith, sessions_of-ended user d)

-- No row of the user's reset tokens is left.
dropped :
    (user token : ℕ) (d : Dict VerificationToken) (t : VerificationToken)
    → lookup token (
        keep_rows
          (λ _ t. not (t.user_id == user && is_kind t.kind VerificationTokenType.password_reset))
          d)
      ≡ some t
    → (t.user_id == user && is_kind t.kind VerificationTokenType.password_reset) ≡ false
unfolding keep_rows lookup
dropped user token [] t h = cc
dropped user token ((j, r) ∷ d) t h = ground (arith, dropped user token d t)

live_token_kept :
    (user later token : ℕ) (db : AuthDb) (t : VerificationToken)
    → live_token VerificationTokenType.password_reset later token (drop_reset_tokens user db)
      ≡ some t
    → t.user_id ≢ user
unfolding live_token drop_reset_tokens
live_token_kept user later token db t h e =
    ground (arith, dropped user token db.verification_tokens t)

abbrev after_reset : ℕ → List ℕ → User → AuthDb → AuthDb
after_reset user hash u db = drop_reset_tokens user (
    end_sessions user
      (record db { users = insert user (record u { password_hash = some hash }) db.users }))

reset_writes :
    (now token : ℕ) (hash : List ℕ) (t : VerificationToken) (u : User) (db : AuthDb)
    → live_token VerificationTokenType.password_reset now token db ≡ some t
    → lookup t.user_id db.users ≡ some u
    → reset_password now token hash db ≡ (ok tt, after_reset t.user_id hash u db)
unfolding reset_password
reset_writes now token hash t u db live found = ground arith

-- A password that is reset by a token is the new one, no session of the user is left, and no reset token
-- of the user, this one included, is good any more.
pub reset_password_revokes :
    (now token : ℕ) (hash : List ℕ) (t : VerificationToken) (db : AuthDb)
    → live_token VerificationTokenType.password_reset now token db ≡ some t
    → (reset_password now token hash db).0 ≡ ok tt
    → let db' = (reset_password now token hash db).1 in
      (sessions_of t.user_id db'.refresh_tokens ≡ [])
      × ((u : User) → lookup t.user_id db'.users ≡ some u → u.password_hash ≡ some hash)
      × ((later other : ℕ) (r : VerificationToken)
          → live_token VerificationTokenType.password_reset later other db' ≡ some r
          → r.user_id ≢ t.user_id)
unfolding reset_password end_sessions drop_reset_tokens
reset_password_revokes now token hash t db live done =
    elim (Option-cases (lookup t.user_id db.users)) [
      | inl missing ↦ absurd (ground arith)
      | inr (u, found) ↦
          let written = record db {
            users = insert t.user_id (record u { password_hash = some hash }) db.users;
          } in
          rw (reset_writes now token hash t u db live found) (
            sessions_of-ended t.user_id db.refresh_tokens,
            λ v h. ground (
              arith,
              lookup-insert_self t.user_id (record u { password_hash = some hash }) db.users,
            ),
            λ later other r h.
                live_token_kept t.user_id later other (end_sessions t.user_id written) r h,
          )
    ]

-- A signed token for a step-up, of this very user, whose second factor was verified no more than fifteen
-- minutes ago.
pub record Proven (jwt : Jwt) (now user : ℕ) (token : Option ℕ) : Type 0 where
  pub given : ℕ
  pub claims : Claims
  pub at : ℕ
  pub present : token ≡ some given
  pub verified : jwt.verify_temp given ≡ some claims
  pub purpose : str_eq claims.purpose "2fa_step_up" ≡ true
  pub own : claims.sub ≡ user
  pub stamped : claims.verified_at ≡ some at
  pub recent : now / 1_000 ≤ at + step_up_window
