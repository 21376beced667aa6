-- ===== src/Auth/BackupCodes.antt =====
-- The backup codes of src/modules/two-factor/two-factor.service.ts and backup-code.service.ts, and the
-- end of a second factor. New codes are an argument, as their bcrypt hashes; `matches` is
-- `bcrypt.compareSync`. Ids of codes are numbers, new ones `first` and those after it.
pub mod Laws
use Prim.Native.String.{String}
use beleqet_ecosystem_update.Base.{
  ℕ, ◌+◌, ◌%◌, ◌==◌, ltb, if◌then◌else◌, Bool, true, false, not, ◌&&◌, Option, none, some, List, [],
  ◌∷◌, map, Dict, lookup, insert, erase, find_row, keep_rows, count_rows, bad_request, unauthorized,
  ◌>>=◌, ◌>>◌, gets, or_throw, throw, modify, pure, Request,
}
use beleqet_ecosystem_update.Auth.Tables.{
  Action, AuthDb, UserTwoFactor, BackupCode, Posted, post, enabled_factor, record_not_found,
}

abbrev pub is_unused : BackupCode → Bool
is_unused b = elim b.used_at [ none ↦ true | some _ ↦ false ]

-- `randomCode`: the places in the alphabet of 31 letters, from random bytes.
abbrev pub alphabet_length : ℕ
alphabet_length = 31

pub random_code : List ℕ → List ℕ
random_code = map (λ byte. byte % alphabet_length)

unfoldable pub add_codes : ℕ → ℕ → List ℕ → Dict BackupCode → Dict BackupCode
add_codes first user [] d = d
add_codes first user (hash ∷ hashes) d =
    add_codes (first + 1) user hashes
      (insert first (record { two_factor_id = user; code_hash = hash; used_at = none }) d)

-- An unused code of the user that matches.
unfoldable pub usable_code : (ℕ → ℕ → Bool) → ℕ → ℕ → Dict BackupCode → Option (ℕ × BackupCode)
usable_code matches user code =
    find_row (λ b. b.two_factor_id == user && (is_unused b && matches code b.code_hash))

-- The unused codes of a user, and those that are left without one of them.
pub unused : ℕ → Dict BackupCode → ℕ
unused user = count_rows (λ _ b. b.two_factor_id == user && is_unused b)

unfoldable pub remaining : ℕ → ℕ → Dict BackupCode → ℕ
remaining user id = count_rows (λ j b. b.two_factor_id == user && (not (j == id) && is_unused b))

abbrev refuse {ℓ} : {A : Type ℓ} → ℕ → String → String → Request AuthDb A
refuse user reason message db =
    throw (unauthorized message) (post (Posted.audit user "2FA_BACKUP_FAILURE" reason) db)

-- `verifyBackupCode` from the moment the factor and its codes have been read; the codes may have
-- changed since. The update names the code by its id alone.
unfoldable pub verify_backup_code_from :
    Option UserTwoFactor → Dict BackupCode → (ℕ → ℕ → Bool) → ℕ → ℕ → ℕ → Action ℕ
unfolding usable_code remaining
verify_backup_code_from none read matches now user code =
    refuse user "not_enabled" "Two-factor authentication is not enabled"
verify_backup_code_from (some f) read matches now user code =
    elim (usable_code matches user code read) [
      | none ↦ refuse user "invalid_or_used_code" "Invalid or already used backup code"
      | some (id, _) ↦ (do
        b ← or_throw (← gets (λ db. lookup id db.backup_codes)) record_not_found
        modify (λ db. record db {
          backup_codes = insert id (record b { used_at = some now }) db.backup_codes;
        })
        pure (remaining user id read))
    ]

unfoldable pub verify_backup_code : (ℕ → ℕ → Bool) → ℕ → ℕ → ℕ → Action ℕ
unfolding verify_backup_code_from
verify_backup_code matches now user code db =
    verify_backup_code_from (enabled_factor user db) db.backup_codes matches now user code db

pub regenerate_backup_codes : ℕ → ℕ → List ℕ → Action (Unit {0})
unfolding add_codes
regenerate_backup_codes first user hashes = do
  or_throw (← gets (enabled_factor user)) (bad_request "Two-factor authentication is not enabled")
      >>= λ _. pure tt
  modify (λ db. record db {
    backup_codes =
        add_codes first user hashes
          (keep_rows (λ _ b. not (b.two_factor_id == user)) db.backup_codes);
  })

-- `disable`: the codes go with the factor.
pub disable : ℕ → Action (Unit {0})
disable user = do
  or_throw (← gets (enabled_factor user)) (bad_request "Two-factor authentication is not enabled")
      >>= λ _. pure tt
  modify (λ db. record db {
    two_factors = erase user db.two_factors;
    backup_codes = keep_rows (λ _ b. not (b.two_factor_id == user)) db.backup_codes;
  })

-- `cleanupExpiredEnrollments`: factors that were never confirmed, and the number of those removed. They
-- have no codes.
is_stale : ℕ → UserTwoFactor → Bool
is_stale now f = elim f.enrollment_expires_at [ none ↦ false | some t ↦ not f.enabled && ltb t now ]

pub cleanup_expired_enrollments : ℕ → Action ℕ
unfolding is_stale
cleanup_expired_enrollments now = do
  count ← gets (λ db. count_rows (λ _ f. is_stale now f) db.two_factors)
  modify (λ db. record db { two_factors = keep_rows (λ _ f. not (is_stale now f)) db.two_factors })
  pure count
