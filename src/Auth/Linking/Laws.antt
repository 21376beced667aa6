-- ===== src/Auth/Linking/Laws.antt =====
-- Social logins: `signIn` and its links (account-linking.service.ts).
use Prim.Native.String.{String}
use beleqet_ecosystem_update.Base.{
  ℕ, ◌≡◌, ◌⊎◌, inl, inr, none, some, Option-cases, lookup, erase, lookup-insert_self,
  lookup-erase_self, ok, err, bad_request, arith,
}
use beleqet_ecosystem_update.Auth.Tables.{
  AuthDb, User, OauthAccount, VerificationToken, VerificationTokenType,
}
use beleqet_ecosystem_update.Auth.Sessions.{email_taken}
use beleqet_ecosystem_update.Auth.Credentials.{live_token}
use beleqet_ecosystem_update.Auth.Linking.{
  OauthProfile, logs_in, find_oauth_account, link, handle_oauth_sign_in, confirm_pending_link,
  attach,
}

-- A sign-in logs in only the user that the identity was already linked to, and adds no link but one of a
-- new user, whose address no account has: an account with the same address is never linked by it.
pub sign_in_never_links :
    (normalize : String → String) (now fresh user id : ℕ) (p : OauthProfile) (db : AuthDb)
    → let (r, db') = handle_oauth_sign_in normalize now fresh user id p db in
      ((u : ℕ)
        → r ≡ ok (logs_in u)
        → (a : OauthAccount) × (find_oauth_account p.provider p.provider_account_id db ≡ some a)
          × (a.user_id ≡ u))
      × ((db'.oauth_accounts ≡ db.oauth_accounts)
          ⊎ ((db'.oauth_accounts ≡ (link id user p db).oauth_accounts)
              × (email_taken (normalize p.email) db ≡ none)))
unfolding handle_oauth_sign_in
sign_in_never_links normalize now fresh user id p db =
    elim (Option-cases (find_oauth_account p.provider p.provider_account_id db)) [
      | inr (a, linked) ↦ (λ u h. (a, linked, ground arith), inl (ground arith))
      | inl unlinked ↦ elim (Option-cases (email_taken (normalize p.email) db)) [
        | inr ((existing, owner), taken) ↦ (λ u h. absurd (ground arith), inl (ground arith))
        | inl free ↦ (λ u h. absurd (ground arith), inr (ground arith, free))
      ]
    ]

no_token :
    (now token id : ℕ) (p : OauthProfile) (db : AuthDb)
    → lookup token db.verification_tokens ≡ none
    → confirm_pending_link now token id p db
      ≡ (err (bad_request "The link-confirmation token is invalid, expired, or already used."), db)
unfolding confirm_pending_link live_token
no_token now token id p db h = ground arith

attach-keeps_tokens :
    (id user : ℕ) (p : OauthProfile) (db : AuthDb)
    → (attach id user p db).1.verification_tokens ≡ db.verification_tokens
unfolding attach
attach-keeps_tokens id user p db = ground arith

spends_token :
    (now token id : ℕ) (p : OauthProfile) (t : VerificationToken) (db : AuthDb)
    → live_token VerificationTokenType.oauth_link_confirmation now token db ≡ some t
    → lookup token (confirm_pending_link now token id p db).1.verification_tokens ≡ none
unfolding confirm_pending_link
spends_token now token id p t db h =
    let gone = record db { verification_tokens = erase token db.verification_tokens } in
    ground (
      arith,
      attach-keeps_tokens id t.user_id p gone,
      lookup-erase_self token db.verification_tokens,
    )

-- A confirmation that succeeds has a live token of the user that it answers, and spends it: every later
-- confirmation with that token is refused and writes nothing.
pub confirm_once :
    (now token id user later id' : ℕ) (p p' : OauthProfile) (db : AuthDb)
    → (confirm_pending_link now token id p db).0 ≡ ok user
    → let db' = (confirm_pending_link now token id p db).1 in
      ((t : VerificationToken) × (live_token VerificationTokenType.oauth_link_confirmation now token
            db
          ≡ some t)
        × (t.user_id ≡ user))
      × (confirm_pending_link later token id' p' db' ≡ (
        err (bad_request "The link-confirmation token is invalid, expired, or already used."),
        db',
      ))
unfolding confirm_pending_link attach
confirm_once now token id user later id' p p' db h =
    elim (Option-cases (live_token VerificationTokenType.oauth_link_confirmation now token db)) [
      | inl dead ↦ absurd (ground arith)
      | inr (t, live) ↦ (
        (t, live, ground arith),
        no_token later token id' p' _ (spends_token now token id p t db live),
      )
    ]

-- The token is bound to no profile: whatever identity is shown with a live token of a user, if it is not
-- linked yet, becomes a login of that user.
pub confirm_any_profile :
    (now token id : ℕ) (p : OauthProfile) (t : VerificationToken) (u : User) (db : AuthDb)
    → live_token VerificationTokenType.oauth_link_confirmation now token db ≡ some t
    → lookup t.user_id db.users ≡ some u
    → find_oauth_account p.provider p.provider_account_id db ≡ none
    → let (r, db') = confirm_pending_link now token id p db in
      (r ≡ ok t.user_id)
      × (lookup id db'.oauth_accounts
          ≡ some (record {
            user_id = t.user_id;
            provider = p.provider;
            provider_account_id = p.provider_account_id;
          }))
unfolding confirm_pending_link attach link find_oauth_account
confirm_any_profile now token id p t u db live found unlinked = ground (
  arith,
  lookup-insert_self id
      (record {
        user_id = t.user_id;
        provider = p.provider;
        provider_account_id = p.provider_account_id;
      })
      db.oauth_accounts,
)
