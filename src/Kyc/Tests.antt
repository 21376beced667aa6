-- ===== src/Kyc/Tests.antt =====
-- The theorems of the identity verification at concrete inputs.
use beleqet_ecosystem_update.Base.{◌≡◌, refl, true, false, [], ◌∷◌, ok, List, lookup, insert, arith}
use beleqet_ecosystem_update.Kyc.{KycDb, KycVerificationResult, Submission, store_answers}
use beleqet_ecosystem_update.Kyc.Laws.{IsConsistent, KycStep, run, run-IsConsistent}

abbrev start : KycDb
start = record { verifications = []; users = (1, false) ∷ []; event_log = [] }

abbrev good : KycVerificationResult
good = record {
  match_score = 9_000;
  liveness_passed = true;
  is_document_valid = true;
  rejection_reason = 0;
}

abbrev submission : Submission
submission = record { user_id = 1; document_type = 0; fresh_id = 5; now = 100 }

abbrev history : List KycStep
history = KycStep.submits submission true (ok (3, 4)) (ok good) ∷ KycStep.rejects 5 2 false 6 ∷ []

start-IsConsistent : IsConsistent start
unfolding lookup
start-IsConsistent = record {
  flag_of_row = λ user row h. absurd cc;
  no_row = λ user h e. ground arith;
}

approved_at_once :
    (run (KycStep.submits submission true (ok (3, 4)) (ok good) ∷ []) start).users ≡ (1, true) ∷ []
unfolding run store_answers lookup insert
approved_at_once = refl

run-IsConsistent_example : IsConsistent (run history start)
run-IsConsistent_example = run-IsConsistent history start start-IsConsistent
