-- ===== src/Auth/BackupCodes/Laws.antt =====
-- What `verifyBackupCode` does with the codes of a user (two-factor.service.ts).
use beleqet_ecosystem_update.Base.{
  ℕ, ◌+◌, ◌==◌, ◌≡◌, refl, [], ◌∷◌, Bool, true, ◌&&◌, none, some, Option-cases, inl, inr, Dict,
  lookup, insert, lookup-insert, lookup-insert_self, ◌≢◌, find_row_sound, count_rows,
  count_rows-insert, Distinct, lookup-find_row-some, ok, arith,
}
use beleqet_ecosystem_update.Auth.Tables.{AuthDb, BackupCode, UserTwoFactor}
use beleqet_ecosystem_update.Auth.BackupCodes.{
  is_unused, usable_code, unused, remaining, verify_backup_code, verify_backup_code_from,
}

abbrev spent : ℕ → BackupCode → BackupCode
spent now b = record b { used_at = some now }

remaining_without :
    (user id : ℕ) (d : Dict BackupCode) → lookup id d ≡ none → remaining user id d ≡ unused user d
unfolding remaining unused lookup count_rows
remaining_without user id [] h = refl
remaining_without user id ((j, c) ∷ d) h = ground (arith, remaining_without user id d)

remaining_with :
    (user id : ℕ) (b : BackupCode) (d : Dict BackupCode)
    → lookup id d ≡ some b
    → Distinct d
    → (b.two_factor_id == user) ≡ true
    → is_unused b ≡ true
    → remaining user id d + 1 ≡ unused user d
unfolding remaining unused lookup count_rows
remaining_with user id b [] h u o f = cc
remaining_with user id b ((j, c) ∷ d) h u o f =
    ground (arith, remaining_with user id b d, remaining_without user id d)

-- Spending a usable code leaves one unused code less, and as many as the answer counts.
spend_counts :
    (matches : ℕ → ℕ → Bool) (now user code id : ℕ) (b : BackupCode) (d : Dict BackupCode)
    → usable_code matches user code d ≡ some (id, b)
    → Distinct d
    → (unused user (insert id (spent now b) d) + 1 ≡ unused user d)
      × (remaining user id d ≡ unused user (insert id (spent now b) d))
unfolding usable_code unused
spend_counts matches now user code id b d h u =
    let p =
      λ (c : BackupCode). c.two_factor_id == user && (is_unused c && matches code c.code_hash) in
    let q = λ (j : ℕ) (c : BackupCode). c.two_factor_id == user && is_unused c in
    let passes = find_row_sound p d id b h in
    ground (
      arith,
      count_rows-insert p q d id b (spent now b) h u,
      remaining_with user id b d (lookup-find_row-some p d id b h u) u,
    )

-- What an accepted code does: a code of the user that was unused and that it matches is marked as used,
-- and no other row of the codes is changed.
pub record Redeems (matches : ℕ → ℕ → Bool) (now user code : ℕ) (before after : Dict BackupCode)
    : Type 0 where
  pub id : ℕ
  pub row : BackupCode
  pub stored : lookup id before ≡ some row
  pub own : row.two_factor_id ≡ user
  pub was_unused : is_unused row ≡ true
  pub matching : matches code row.code_hash ≡ true
  pub marked : lookup id after ≡ some (spent now row)
  pub others : (other : ℕ) → other ≢ id → lookup other after ≡ lookup other before

accepted :
    (matches : ℕ → ℕ → Bool) (now user code n : ℕ) (db : AuthDb)
    → Distinct db.backup_codes
    → (verify_backup_code matches now user code db).0 ≡ ok n
    → (id : ℕ) × (b : BackupCode) × (usable_code matches user code db.backup_codes ≡ some (id, b))
      × (lookup id db.backup_codes ≡ some b)
      × (n ≡ remaining user id db.backup_codes)
      × ((verify_backup_code matches now user code db).1.backup_codes
          ≡ insert id (spent now b) db.backup_codes)
unfolding verify_backup_code verify_backup_code_from
accepted matches now user code n db u h =
    elim (Option-cases (usable_code matches user code db.backup_codes)) [
      | inl missing ↦ absurd (ground arith)
      | inr ((id, b), found) ↦
          let p = λ (c : BackupCode).
            c.two_factor_id == user && (is_unused c && matches code c.code_hash) in
          let stored = lookup-find_row-some p db.backup_codes id b found u in
          (id, b, found, stored, ground arith, ground arith)
    ]

usable_code-row :
    (matches : ℕ → ℕ → Bool) (user code id : ℕ) (b : BackupCode) (d : Dict BackupCode)
    → usable_code matches user code d ≡ some (id, b)
    → (b.two_factor_id ≡ user) × (is_unused b ≡ true) × (matches code b.code_hash ≡ true)
unfolding usable_code
usable_code-row matches user code id b d found =
    let p =
      λ (c : BackupCode). c.two_factor_id == user && (is_unused c && matches code c.code_hash) in
    let passes = find_row_sound p d id b found in ground arith

-- A backup code that is accepted matches a code of the user that was unused. That code is then marked as
-- used and every other row of the codes is as it was; the answer is the number of the user's codes that
-- are unused afterwards, one less than before.
pub verify_backup_code_spends :
    (matches : ℕ → ℕ → Bool) (now user code n : ℕ) (db : AuthDb)
    → Distinct db.backup_codes
    → (verify_backup_code matches now user code db).0 ≡ ok n
    → let db' = (verify_backup_code matches now user code db).1 in
      Redeems matches now user code db.backup_codes db'.backup_codes
      × (unused user db'.backup_codes ≡ n)
      × (unused user db.backup_codes ≡ n + 1)
verify_backup_code_spends matches now user code n db u h =
    let (id, b, found, stored, left, written) = accepted matches now user code n db u h in
    let (own, fresh, good) = usable_code-row matches user code id b db.backup_codes found in
    let (counts, rest) = spend_counts matches now user code id b db.backup_codes found u in
    rw written (
      record {
        id = id;
        row = b;
        stored = stored;
        own = own;
        was_unused = fresh;
        matching = good;
        marked = lookup-insert_self id (spent now b) db.backup_codes;
        others = λ other ne. ground (arith, lookup-insert id other (spent now b) db.backup_codes);
      },
      omega (arith, rest, left),
      omega (arith, counts, rest, left),
    )

-- Two requests with the same code that have both read the codes before either writes are both accepted.
pub backup_code_accepted_twice :
    (matches : ℕ → ℕ → Bool) (now later user code id : ℕ) (f : UserTwoFactor) (b : BackupCode)
    (db : AuthDb)
    → usable_code matches user code db.backup_codes ≡ some (id, b)
    → Distinct db.backup_codes
    → let read = db.backup_codes in
      let (first, db') = verify_backup_code_from (some f) read matches now user code db in
      let (second, _) = verify_backup_code_from (some f) read matches later user code db' in
      (first ≡ ok (remaining user id read)) × (second ≡ ok (remaining user id read))
unfolding verify_backup_code_from usable_code
backup_code_accepted_twice matches now later user code id f b db found u =
    let p =
      λ (c : BackupCode). c.two_factor_id == user && (is_unused c && matches code c.code_hash) in
    ground (
      arith,
      lookup-find_row-some p db.backup_codes id b found u,
      lookup-insert_self id (spent now b) db.backup_codes,
    )
