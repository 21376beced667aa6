-- ===== src/Kyc.antt =====
-- src/modules/kyc/kyc.service.ts: identity verification. The table of verifications is keyed by
-- `userId`, which is unique. Uploads and the provider are other services: what they answered is an
-- argument of a submission. Scores are hundredths of a percent, texts numbers, the empty one 0.
pub mod Laws
mod Tests
use Prim.Native.String.{String}
use beleqet_ecosystem_update.Base.{
  ℕ, ◌==◌, ltb, leb, if◌then◌else◌, Bool, true, false, not, ◌&&◌, ◌||◌, Option, none, some, List,
  [], ◌∷◌, Dict, lookup, insert, find_row, Result, ok, err, HttpError, bad_request, not_found,
  conflict, internal_server_error, Request, ◌>>=◌, ◌>>◌, pure, throw, throw_if, gets, modify,
  or_throw, transaction,
}

pub data KycStatus : Type 0 where
  pending approved rejected : KycStatus

pub record KycVerificationResult : Type 0 where
  pub match_score : ℕ
  pub liveness_passed : Bool
  pub is_document_valid : Bool
  pub rejection_reason : ℕ

-- A reason is a text of the provider or of an administrator, or the one that the service composes.
pub data Reason : Type 0 where
  given : ℕ → Reason
  verification_failed : ℕ → Bool → Bool → Reason

pub record KycVerification : Type 0 where
  pub id : ℕ
  pub document_type : ℕ
  pub document_url : ℕ
  pub face_scan_url : ℕ
  pub status : KycStatus
  pub match_score : ℕ
  pub liveness_passed : Bool
  pub rejection_reason : Option Reason
  pub verified_at : Option ℕ

pub data KycEvent : Type 0 where
  kyc_submitted : KycStatus → ℕ → ℕ → KycEvent
  kyc_approved kyc_rejected : ℕ → ℕ → ℕ → KycEvent

-- `users` keeps `kycVerified` of each user.
pub record KycDb : Type 0 where
  pub verifications : Dict KycVerification
  pub users : Dict Bool
  pub event_log : List KycEvent

abbrev pub Action {ℓ} : Type ℓ → Type ℓ
Action A = Request KycDb A

abbrev pub auto_approve_threshold : ℕ
auto_approve_threshold = 8_000

abbrev pub auto_reject_threshold : ℕ
auto_reject_threshold = 5_000

pub is_approved : KycStatus → Bool
is_approved KycStatus.approved = true
is_approved KycStatus.pending = false
is_approved KycStatus.rejected = false

-- The status and the reason that a submission is given.
given_reason : ℕ → Option Reason
given_reason text = if text == 0 then none else some (given text)

pub decide : KycVerificationResult → KycStatus × Option Reason
unfolding given_reason
decide r =
    if r.is_document_valid && (r.liveness_passed && leb auto_approve_threshold r.match_score)
    then (KycStatus.approved, given_reason r.rejection_reason)
    else if not r.is_document_valid
        || (not r.liveness_passed || ltb r.match_score auto_reject_threshold)
    then (
      KycStatus.rejected,
      if r.rejection_reason == 0
          then some (verification_failed r.match_score r.liveness_passed r.is_document_valid)
          else some (given r.rejection_reason),
    )
    else (KycStatus.pending, given_reason r.rejection_reason)

-- The transaction that ends each of the operations: the row, `kycVerified` of the user, who must
-- exist, and the entry of the log.
pub save_decision : ℕ → KycVerification → Bool → KycEvent → Action KycVerification
save_decision user row flag event = transaction (do
  modify (λ db. record db { verifications = insert user row db.verifications })
  _ ←
      or_throw (← gets (λ db. lookup user db.users))
        (internal_server_error "Record to update not found.")
  modify (λ db. record db { users = insert user flag db.users })
  modify (λ db. record db { event_log = event ∷ db.event_log })
  pure row)

-- The id that `upsert` leaves: that of the row there is, or a new one.
kept_id : ℕ → Option KycVerification → ℕ
kept_id fresh none = fresh
kept_id fresh (some row) = row.id

-- The checks of `submitVerification`, before the files leave; `files` is that both are there.
refuse_open : Option KycVerification → Action (Unit {0})
refuse_open none = pure tt
refuse_open (some row) = elim row.status [
  | pending ↦ throw (conflict "You have a verification pending review. Please wait.")
  | approved ↦ throw (conflict "Your account is already KYC verified.")
  | rejected ↦ pure tt
]

check_submission : ℕ → Bool → Action (Unit {0})
unfolding refuse_open
check_submission user files = do
  throw_if (not files)
      (bad_request "Both identification document and live face scan files are required.")
  refuse_open (← gets (λ db. lookup user db.verifications))

pub record Submission : Type 0 where
  pub user_id : ℕ
  pub document_type : ℕ
  pub fresh_id : ℕ
  pub now : ℕ

verified_time : KycStatus → ℕ → Option ℕ
unfolding is_approved
verified_time status now = if is_approved status then some now else none

-- The transaction of `submitVerification`, from the answers of the uploads and of the provider.
pub store_submission : Submission → ℕ × ℕ → KycVerificationResult → Action KycVerification
unfolding decide save_decision kept_id verified_time is_approved
store_submission s urls r = do
  found ← gets (λ db. lookup s.user_id db.verifications)
  let row : KycVerification = record {
    id = kept_id s.fresh_id found;
    document_type = s.document_type;
    document_url = urls.0;
    face_scan_url = urls.1;
    status = (decide r).0;
    match_score = r.match_score;
    liveness_passed = r.liveness_passed;
    rejection_reason = (decide r).1;
    verified_at = verified_time (decide r).0 s.now;
  }
  save_decision s.user_id row (is_approved (decide r).0)
      (kyc_submitted (decide r).0 row.id s.user_id)

-- What follows the checks: either of the two other services may throw.
pub store_answers :
    Submission → Result (ℕ × ℕ) → Result KycVerificationResult → Action KycVerification
unfolding store_submission
store_answers s (ok urls) (ok r) = store_submission s urls r
store_answers s (ok urls) (err e) = throw e
store_answers s (err e) verdict = throw e

pub submit_verification :
    Submission → Bool → Result (ℕ × ℕ) → Result KycVerificationResult → Action KycVerification
unfolding check_submission
submit_verification s files uploads verdict =
    check_submission s.user_id files >> store_answers s uploads verdict

get_verification_status : ℕ → Action KycVerification
get_verification_status user = gets (λ db. lookup user db.verifications) >>= λ found.
    or_throw found (not_found "No KYC record found for this user.")

abbrev pub find_verification : ℕ → KycDb → Option (ℕ × KycVerification)
find_verification id db = find_row (λ row. row.id == id) db.verifications

pub approve_verification : ℕ → ℕ → ℕ → Action KycVerification
unfolding save_decision
approve_verification now id admin = do
  (user, row) ←
      or_throw (← gets (find_verification id)) (not_found "KYC verification record not found.")
  let updated = record row {
    status = KycStatus.approved;
    rejection_reason = none;
    verified_at = some now;
  }
  save_decision user updated true (kyc_approved id admin user)

-- `blank` is that the reason is empty once trimmed.
pub reject_verification : ℕ → ℕ → Bool → ℕ → Action KycVerification
unfolding save_decision
reject_verification id admin blank reason = do
  throw_if blank (bad_request "Rejection reason must be provided.")
  (user, row) ←
      or_throw (← gets (find_verification id)) (not_found "KYC verification record not found.")
  let updated = record row {
    status = KycStatus.rejected;
    rejection_reason = some (given reason);
    verified_at = none;
  }
  save_decision user updated false (kyc_rejected id admin user)
