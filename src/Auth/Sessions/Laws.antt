-- ===== src/Auth/Sessions/Laws.antt =====
-- Sessions and their refresh tokens (auth.service.ts).
use beleqet_ecosystem_update.Base.{
  ℕ, suc, ◌-◌, ◌≤◌, ◌≡◌, ◌≢◌, refl, ap, inl, inr, Bool, true, not, Option-cases, none, some, List,
  [], ◌∷◌, map, length, take, drop, filter, member, length-drop, length-filter-le,
  length-filter-append, take-append-drop, Dict, lookup, insert, erase, keep_rows, lookup-insert,
  lookup-insert_self, lookup-keep_rows-none, lookup-erase_self, ok, err, unauthorized, arith,
}
use beleqet_ecosystem_update.Auth.Tables.{AuthDb, User, RefreshToken}
use beleqet_ecosystem_update.Auth.Sessions.{
  Tokens, sessions_of, excess_tokens, drop_tokens, new_session, issue_tokens, refresh,
  insert_session, session_limit,
}

length-filter-insert_session :
    (p : ℕ × ℕ → Bool) (s : ℕ × ℕ) (rs : List (ℕ × ℕ))
    → length (filter p (insert_session s rs)) ≡ length (filter p (s ∷ rs))
unfolding insert_session
length-filter-insert_session p s [] = refl
length-filter-insert_session p s (r ∷ rs) = ground (arith, length-filter-insert_session p s rs)

length-insert_session :
    (s : ℕ × ℕ) (rs : List (ℕ × ℕ)) → length (insert_session s rs) ≡ suc (length rs)
unfolding insert_session
length-insert_session s [] = refl
length-insert_session s (r ∷ rs) = ground (arith, length-insert_session s rs)

abbrev spared : List ℕ → ℕ × ℕ → Bool
spared tokens s = not (member s.0 tokens)

length-sessions_of-drop_tokens :
    (user : ℕ) (tokens : List ℕ) (d : Dict RefreshToken)
    → length (sessions_of user (drop_tokens tokens d))
      ≡ length (filter (spared tokens) (sessions_of user d))
unfolding sessions_of drop_tokens keep_rows
length-sessions_of-drop_tokens user tokens [] = refl
length-sessions_of-drop_tokens user tokens ((token, r) ∷ d) = ground (
  arith,
  length-filter-insert_session (spared tokens) (token, r.expires_at) (sessions_of user d),
  length-insert_session (token, r.expires_at) (sessions_of user (drop_tokens tokens d)),
  length-sessions_of-drop_tokens user tokens d,
)

length-sessions_of-insert :
    (user k : ℕ) (r : RefreshToken) (d : Dict RefreshToken)
    → length (sessions_of user (insert k r d)) ≤ suc (length (sessions_of user d))
unfolding sessions_of insert
length-sessions_of-insert user k r [] = ground (arith, length-insert_session (k, r.expires_at) [])
length-sessions_of-insert user k r ((j, q) ∷ d) = ground (
  arith,
  length-insert_session (k, r.expires_at) (sessions_of user d),
  length-insert_session (j, q.expires_at) (sessions_of user d),
  length-insert_session (j, q.expires_at) (sessions_of user (insert k r d)),
  length-sessions_of-insert user k r d,
)

-- Tokens that are all on the list leave none.
none_spared :
    (tokens : List ℕ) (ss : List (ℕ × ℕ))
    → ((s : ℕ × ℕ) → member s.0 (map (λ r. r.0) ss) ≡ true → member s.0 tokens ≡ true)
    → length (filter (spared tokens) ss) ≡ 0
none_spared tokens [] h = refl
none_spared tokens (s ∷ ss) h =
    ground (arith, h s, none_spared tokens ss (λ r m. h r (ground arith)))

length-spared-le :
    (k : ℕ) (ss : List (ℕ × ℕ))
    → length (filter (spared (map (λ s. s.0) (take k ss))) ss) ≤ length ss - k
length-spared-le k ss =
    let p = spared (map (λ s. s.0) (take k ss)) in
    rw (← ap (λ l. length (filter p l)) (take-append-drop k ss)) (
      omega (
        arith,
        length-filter-append p (take k ss) (drop k ss),
        none_spared (map (λ s. s.0) (take k ss)) (take k ss) (λ s m. m),
        length-filter-le p (drop k ss),
        length-drop k ss,
      ))

-- What room the excess tokens leave.
room_made :
    (id : ℕ) (d : Dict RefreshToken)
    → suc (length (sessions_of id (drop_tokens (excess_tokens (sessions_of id d)) d)))
      ≤ session_limit
unfolding excess_tokens
room_made id d =
    let active = sessions_of id d in
    ground (
      arith,
      length-sessions_of-drop_tokens id (excess_tokens active) d,
      length-filter-le (spared (excess_tokens active)) active,
      length-spared-le (length active - 4) active,
    )

-- However many sessions a user had, with `issueTokens` there are five at most, and a success puts the
-- new one among them for thirty days.
pub issue_tokens_capped :
    (now fresh id : ℕ) (u : User) (db : AuthDb)
    → let (r, db') = issue_tokens now fresh id u db in
      (length (sessions_of id db'.refresh_tokens) ≤ session_limit)
      × ((t : Tokens)
          → r ≡ ok t
          → (t.sub ≡ id) × (lookup t.refresh_token db'.refresh_tokens ≡ some (new_session id now)))
unfolding issue_tokens
issue_tokens_capped now fresh id u db =
    let kept = drop_tokens (excess_tokens (sessions_of id db.refresh_tokens)) db.refresh_tokens in
    (
      ground (
        arith,
        room_made id db.refresh_tokens,
        length-sessions_of-insert id fresh (new_session id now) kept,
      ),
      λ t h. ground (arith, lookup-insert_self fresh (new_session id now) kept),
    )

issue_tokens-keeps_none :
    (now fresh id token : ℕ) (u : User) (db : AuthDb)
    → fresh ≢ token
    → lookup token db.refresh_tokens ≡ none
    → lookup token (issue_tokens now fresh id u db).1.refresh_tokens ≡ none
unfolding issue_tokens drop_tokens
issue_tokens-keeps_none now fresh id token u db ne h =
    let active = sessions_of id db.refresh_tokens in
    let kept = drop_tokens (excess_tokens active) db.refresh_tokens in
    ground (
      arith,
      lookup-keep_rows-none (λ t _. not (member t (excess_tokens active))) token db.refresh_tokens,
      lookup-insert fresh token (new_session id now) kept,
    )

refused_of_none :
    (now fresh token : ℕ) (db : AuthDb)
    → lookup token db.refresh_tokens ≡ none
    → refresh now fresh token db ≡ (err (unauthorized "Invalid or expired refresh token"), db)
unfolding refresh
refused_of_none now fresh token db h = ground arith

refresh-spends :
    (now fresh token : ℕ) (db : AuthDb) (t : Tokens)
    → fresh ≢ token
    → (refresh now fresh token db).0 ≡ ok t
    → lookup token (refresh now fresh token db).1.refresh_tokens ≡ none
unfolding refresh
refresh-spends now fresh token db t ne h = elim (Option-cases (lookup token db.refresh_tokens)) [
  | inl missing ↦ ground arith
  | inr (r, stored) ↦ elim (Option-cases (lookup r.user_id db.users)) [
    | inl missing ↦ ground arith
    | inr (u, found) ↦
        let rotated = record db { refresh_tokens = erase token db.refresh_tokens } in
        ground (
          arith,
          issue_tokens-keeps_none now fresh r.user_id token u rotated,
          lookup-erase_self token db.refresh_tokens,
        )
  ]
]

-- A refresh token that has been exchanged for new tokens, for others than itself, is refused afterwards
-- at any time, and a refusal writes nothing.
pub refresh_once :
    (now fresh token later fresh' : ℕ) (db : AuthDb) (t : Tokens)
    → fresh ≢ token
    → (refresh now fresh token db).0 ≡ ok t
    → let db' = (refresh now fresh token db).1 in
      refresh later fresh' token db' ≡ (err (unauthorized "Invalid or expired refresh token"), db')
refresh_once now fresh token later fresh' db t ne h =
    refused_of_none later fresh' token _ (refresh-spends now fresh token db t ne h)
