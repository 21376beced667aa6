-- ===== src/Kyc/Laws.antt =====
-- The flag of a user and the verification of the same user, over histories of submissions and of
-- decisions by an administrator (kyc.service.ts).
use beleqet_ecosystem_update.Base.{
  is_some, ℕ, ◌≤◌, ◌<◌, Bool, true, false, none, some, List, [], ◌∷◌, ◌≡◌, refl, ap, ◌∙◌, ◌≢◌, ◌↔◌,
  ◌⊎◌, lookup, insert, lookup-insert, Result, ok, err, arith, inl, inr, Option-cases,
}
use beleqet_ecosystem_update.Kyc.{
  KycDb, KycEvent, KycVerification, KycVerificationResult, KycStatus, Submission, decide,
  is_approved, verified_time, save_decision, store_submission, store_answers, submit_verification,
  approve_verification, reject_verification, find_verification, auto_approve_threshold,
  auto_reject_threshold,
}

-- A user's flag says that the verification is approved, which is when it has a date; without a
-- verification the flag is not set.
pub record IsConsistent (db : KycDb) : Type 0 where
  pub flag_of_row :
      (user : ℕ) (row : KycVerification)
      → lookup user db.verifications ≡ some row
      → (lookup user db.users ≡ some (is_approved row.status))
        × (is_some row.verified_at ≡ is_approved row.status)
  pub no_row : (user : ℕ) → lookup user db.verifications ≡ none → lookup user db.users ≢ some true

-- Writing a verification and the flag that goes with it.
write-IsConsistent :
    (db e : KycDb) (user : ℕ) (row : KycVerification)
    → IsConsistent db
    → is_some row.verified_at ≡ is_approved row.status
    → e.verifications ≡ insert user row db.verifications
    → e.users ≡ insert user (is_approved row.status) db.users
    → IsConsistent e
write-IsConsistent db e user row v dated hv hu = record {
  flag_of_row = λ u r h.
      let at_row = lookup-insert user u row db.verifications in
      let at_flag = lookup-insert user u (is_approved row.status) db.users in
      let before = v.flag_of_row u r in ground arith;
  no_row = λ u h.
      let at_row = lookup-insert user u row db.verifications in
      let at_flag = lookup-insert user u (is_approved row.status) db.users in
      let before = v.no_row u in ground arith;
}

decision_saved : ℕ → KycVerification → Bool → KycEvent → KycDb → KycDb
decision_saved user row flag event db = record {
  verifications = insert user row db.verifications;
  users = insert user flag db.users;
  event_log = event ∷ db.event_log;
}

-- The transaction writes all three tables or none.
save_decision-cases :
    (db : KycDb) (user : ℕ) (row : KycVerification) (flag : Bool) (event : KycEvent)
    → ((save_decision user row flag event db).1 ≡ db)
      ⊎ ((save_decision user row flag event db).1 ≡ decision_saved user row flag event db)
unfolding save_decision decision_saved
save_decision-cases db user row flag event = ground arith

save-IsConsistent :
    (db : KycDb) (user : ℕ) (row : KycVerification) (flag : Bool) (event : KycEvent)
    → IsConsistent db
    → flag ≡ is_approved row.status
    → is_some row.verified_at ≡ flag
    → IsConsistent ((save_decision user row flag event db).1)
unfolding decision_saved
save-IsConsistent db user row flag event v same dated =
    elim (save_decision-cases db user row flag event) [
      | inl kept ↦ rw kept v
      | inr written ↦ rw written (
          write-IsConsistent db (decision_saved user row flag event db) user row v (dated ∙ same)
            refl (ap (λ b. insert user b db.users) same))
    ]

-- What happens to the table: the end of a submission, at any time after its checks, and the decisions
-- of an administrator.
pub data KycStep : Type 0 where
  stores : Submission → ℕ × ℕ → KycVerificationResult → KycStep
  submits : Submission → Bool → Result (ℕ × ℕ) → Result KycVerificationResult → KycStep
  approves : ℕ → ℕ → ℕ → KycStep
  rejects : ℕ → ℕ → Bool → ℕ → KycStep

unfoldable pub step : KycStep → KycDb → KycDb
unfolding submit_verification approve_verification reject_verification store_submission
step (stores s urls r) db = (store_submission s urls r db).1
step (submits s files uploads verdict) db = (submit_verification s files uploads verdict db).1
step (approves now id admin) db = (approve_verification now id admin db).1
step (rejects id admin blank reason) db = (reject_verification id admin blank reason db).1

unfoldable pub run : List KycStep → KycDb → KycDb
unfolding step
run [] db = db
run (t ∷ ts) db = run ts (step t db)

is_some-verified_time :
    (status : KycStatus) (now : ℕ) → is_some (verified_time status now) ≡ is_approved status
unfolding verified_time is_approved
is_some-verified_time KycStatus.pending now = refl
is_some-verified_time KycStatus.approved now = refl
is_some-verified_time KycStatus.rejected now = refl

store-IsConsistent :
    (s : Submission) (urls : ℕ × ℕ) (r : KycVerificationResult) (db : KycDb)
    → IsConsistent db
    → IsConsistent ((store_submission s urls r db).1)
unfolding store_submission
store-IsConsistent s urls r db v =
    save-IsConsistent db s.user_id _ _ _ v refl (is_some-verified_time ((decide r).0) s.now)

answers-IsConsistent :
    (s : Submission) (uploads : Result (ℕ × ℕ)) (verdict : Result KycVerificationResult)
    (db : KycDb)
    → IsConsistent db
    → IsConsistent ((store_answers s uploads verdict db).1)
unfolding store_answers
answers-IsConsistent s (ok urls) (ok r) db v = store-IsConsistent s urls r db v
answers-IsConsistent s (ok urls) (err e) db v = v
answers-IsConsistent s (err e) verdict db v = v

-- A submission that is refused changes nothing.
submit-cases :
    (s : Submission) (files : Bool) (uploads : Result (ℕ × ℕ))
    (verdict : Result KycVerificationResult) (db : KycDb)
    → ((submit_verification s files uploads verdict db).1 ≡ db)
      ⊎ (submit_verification s files uploads verdict db ≡ store_answers s uploads verdict db)
unfolding submit_verification
submit-cases s files uploads verdict db = ground arith

submit-IsConsistent :
    (s : Submission) (files : Bool) (uploads : Result (ℕ × ℕ))
    (verdict : Result KycVerificationResult) (db : KycDb)
    → IsConsistent db
    → IsConsistent ((submit_verification s files uploads verdict db).1)
submit-IsConsistent s files uploads verdict db v = elim (submit-cases s files uploads verdict db) [
  | inl kept ↦ rw kept v
  | inr stored ↦ rw stored (answers-IsConsistent s uploads verdict db v)
]

approve-IsConsistent :
    (now id admin : ℕ) (db : KycDb)
    → IsConsistent db
    → IsConsistent ((approve_verification now id admin db).1)
unfolding approve_verification is_approved
approve-IsConsistent now id admin db v = elim (Option-cases (find_verification id db)) [
  | inl missing ↦ rw (missing, approve_verification) v
  | inr ((user, row), found) ↦
      rw (found, approve_verification) (save-IsConsistent db user _ _ _ v refl refl)
]

reject-IsConsistent :
    (id admin : ℕ) (blank : Bool) (reason : ℕ) (db : KycDb)
    → IsConsistent db
    → IsConsistent ((reject_verification id admin blank reason db).1)
unfolding reject_verification is_approved
reject-IsConsistent id admin true reason db v = v
reject-IsConsistent id admin false reason db v = elim (Option-cases (find_verification id db)) [
  | inl missing ↦ rw (missing, reject_verification) v
  | inr ((user, row), found) ↦
      rw (found, reject_verification) (save-IsConsistent db user _ _ _ v refl refl)
]

step-IsConsistent : (t : KycStep) (db : KycDb) → IsConsistent db → IsConsistent (step t db)
unfolding step
step-IsConsistent (stores s urls r) db v = store-IsConsistent s urls r db v
step-IsConsistent (submits s files uploads verdict) db v =
    submit-IsConsistent s files uploads verdict db v
step-IsConsistent (approves now id admin) db v = approve-IsConsistent now id admin db v
step-IsConsistent (rejects id admin blank reason) db v =
    reject-IsConsistent id admin blank reason db v

-- After any sequence of submissions, of ends of submissions that were checked earlier, and of
-- decisions by administrators, successful or not, a user's flag still says whether the verification
-- is approved, an approved one has a date and no other has, and a user without one is not flagged.
pub run-IsConsistent : (ts : List KycStep) (db : KycDb) → IsConsistent db → IsConsistent (run ts db)
unfolding run
run-IsConsistent [] db v = v
run-IsConsistent (t ∷ ts) db v = run-IsConsistent ts (step t db) (step-IsConsistent t db v)

-- A submission is approved exactly if the document is valid, the liveness check passed and the score
-- reaches the threshold for approval, rejected exactly if one of the checks failed or the score is
-- below the threshold for rejection, and a rejection always has a reason.
pub decide_iff :
    (r : KycVerificationResult)
    → (((decide r).0 ≡ KycStatus.approved) ↔ (
        (r.is_document_valid ≡ true)
        × (r.liveness_passed ≡ true)
        × (auto_approve_threshold ≤ r.match_score)))
      × (((decide r).0 ≡ KycStatus.rejected) ↔ (
          (r.is_document_valid ≡ false)
          ⊎ ((r.liveness_passed ≡ false) ⊎ (r.match_score < auto_reject_threshold))))
      × ((decide r).0 ≡ KycStatus.rejected → (decide r).1 ≢ none)
unfolding decide
decide_iff r = ground arith
