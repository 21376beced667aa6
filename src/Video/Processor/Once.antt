-- ===== src/Video/Processor/Once.antt =====
-- Transcription jobs that overlap, and `maybeEnqueueEvaluation` (video-interview.processor.ts).
use beleqet_ecosystem_update.Base.{
  ℕ, ◌+◌, ◌==◌, ◌≡◌, ◌≤◌, inl, inr, if◌then◌else◌, Bool-cases, Option, none, some, Option-cases,
  List, [], ◌∷◌, lookup, insert, lookup-insert, lookup-insert_self, arith, Request, ◌>>◌,
  rethrow_after,
}
use native.Mathlib.Nat.{le_of_eq}
use beleqet_ecosystem_update.Video.Tables.{
  VideoDb, VideoInterview, VideoInterviewStatus, VideoResponse, VideoJob, set_status,
  update_response,
}
use beleqet_ecosystem_update.Video.Processor.{
  QueueAnswer, Transcription, is_claimable, claim_evaluation, maybe_enqueue_evaluation,
  all_transcribed, start_transcription, finish_transcription, mark_failed, store_transcript,
  in_time, whisper_options,
}

-- The evaluations of a session among the jobs that were added.
pub count_evaluations : ℕ → List VideoJob → ℕ
count_evaluations session [] = 0
count_evaluations session (VideoJob.evaluate s ∷ jobs) =
    (if s == session then 1 else 0) + count_evaluations session jobs
count_evaluations session (VideoJob.transcribe _ _ ∷ jobs) = count_evaluations session jobs
count_evaluations session (VideoJob.notify_complete _ ∷ jobs) = count_evaluations session jobs

pub claims_left : Option VideoInterview → ℕ
unfolding is_claimable
claims_left none = 0
claims_left (some v) = if is_claimable v.status then 1 else 0

-- The evaluations that were added, and the one that may still be claimed.
evaluation_slots : ℕ → VideoDb → ℕ
unfolding count_evaluations claims_left
evaluation_slots session db =
    count_evaluations session db.added + claims_left (lookup session db.sessions)

-- A job of transcription starts, or the call of one ends.
pub data TranscriptionStep : Type 0 where
  starts : ℕ → ℕ → TranscriptionStep
  ends : ℕ → ℕ → ℕ → ℕ → QueueAnswer → Option Transcription → TranscriptionStep

transcription_step : TranscriptionStep → VideoDb → VideoDb
unfolding start_transcription finish_transcription
transcription_step (starts now response) db = (start_transcription now response db).1
transcription_step (ends now ran response session queue call) db =
    (finish_transcription now ran response session queue call db).1

pub transcription_steps : List TranscriptionStep → VideoDb → VideoDb
unfolding transcription_step
transcription_steps [] db = db
transcription_steps (s ∷ steps) db = transcription_steps steps (transcription_step s db)

claim_evaluation-slots :
    (session other : ℕ) (queue : QueueAnswer) (db : VideoDb)
    → evaluation_slots session (claim_evaluation other queue db).1 ≤ evaluation_slots session db
unfolding evaluation_slots claim_evaluation set_status
claim_evaluation-slots session other queue db = elim (Option-cases (lookup other db.sessions)) [
  | inl missing ↦ ground arith
  | inr (v, found) ↦
      let claimed =
        lookup-insert other session (record v { status = VideoInterviewStatus.processing })
          db.sessions in
      let again =
        lookup-insert_self other (record v { status = VideoInterviewStatus.processing })
          db.sessions in
      let given_back =
        lookup-insert other session (record v { status = VideoInterviewStatus.in_progress })
          (insert other (record v { status = VideoInterviewStatus.processing }) db.sessions) in
      ground arith
]

-- What two requests and a handler keep low, one after the other.
module _ {S : Type 0} (measure : S → ℕ) where
  then-low :
      {B : Type 0} (m : Request S (Unit {0})) (k : Request S B) (s : S)
      → measure (m s).1 ≤ measure s
      → ((t : S) → measure (k t).1 ≤ measure t)
      → measure ((m >> k) s).1 ≤ measure s
  then-low m k s low rest = let after = rest (m s).1 in ground arith

  rethrow_after-low :
      {A : Type 0} (m : Request S A) (handler : S → S) (s : S)
      → measure (m s).1 ≤ measure s
      → ((t : S) → measure (handler t) ≤ measure t)
      → measure (rethrow_after m handler s).1 ≤ measure s
  rethrow_after-low m handler s low rest = let after = rest (m s).1 in ground arith

-- A change of a response leaves the sessions and what was added alone.
update_response-slots :
    (session response : ℕ) (f : VideoResponse → VideoResponse) (db : VideoDb)
    → evaluation_slots session (update_response response f db).1 ≡ evaluation_slots session db
unfolding evaluation_slots update_response
update_response-slots session response f db = ground arith

maybe_enqueue-slots :
    (session other : ℕ) (queue : QueueAnswer) (db : VideoDb)
    → evaluation_slots session (maybe_enqueue_evaluation other queue db).1
      ≤ evaluation_slots session db
unfolding maybe_enqueue_evaluation
maybe_enqueue-slots session other queue db =
    let claim = claim_evaluation-slots session other queue db in
    elim (Bool-cases (all_transcribed other db)) [
      | inl all ↦ ground arith
      | inr some_left ↦ ground arith
    ]

store_transcript-slots :
    (session ran response other : ℕ) (queue : QueueAnswer) (call : Option Transcription)
    (db : VideoDb)
    → evaluation_slots session (store_transcript ran response other queue call db).1
      ≤ evaluation_slots session db
unfolding store_transcript
store_transcript-slots session ran response other queue none db = ground arith
store_transcript-slots session ran response other queue (some t) db =
    then-low (evaluation_slots session) (update_response response _)
      (maybe_enqueue_evaluation other queue) db
      (le_of_eq (update_response-slots session response _ db))
      (maybe_enqueue-slots session other queue)

mark_failed-slots :
    (session response : ℕ) (db : VideoDb)
    → evaluation_slots session (mark_failed response db) ≡ evaluation_slots session db
unfolding mark_failed
mark_failed-slots session response db = update_response-slots session response _ db

transcription_step-slots :
    (session : ℕ) (s : TranscriptionStep) (db : VideoDb)
    → evaluation_slots session (transcription_step s db) ≤ evaluation_slots session db
unfolding transcription_step evaluation_slots start_transcription mark_failed update_response
transcription_step-slots session (starts now response) db = ground arith
transcription_step-slots session (ends now ran response other queue call) db =
    rethrow_after-low (evaluation_slots session)
      (store_transcript ran response other queue (in_time whisper_options ran call))
      (mark_failed response) _
      (store_transcript-slots session ran response other queue (in_time whisper_options ran call) _)
      (λ t. le_of_eq (mark_failed-slots session response t))

transcription_steps-slots :
    (session : ℕ) (steps : List TranscriptionStep) (db : VideoDb)
    → evaluation_slots session (transcription_steps steps db) ≤ evaluation_slots session db
unfolding transcription_steps
transcription_steps-slots session [] db = ground arith
transcription_steps-slots session (s ∷ steps) db =
    let one = transcription_step-slots session s db in
    let rest = transcription_steps-slots session steps (transcription_step s db) in ground arith

-- Over any sequence of starts and ends of transcriptions, of whatever sessions, responses, outcomes and
-- answers of the queue, at most one evaluation of a session is added, and none where the session was
-- being evaluated, was erased or is not there (`claims_left` is 0 then, and 1 otherwise).
pub evaluation_added_once :
    (session : ℕ) (steps : List TranscriptionStep) (db : VideoDb)
    → count_evaluations session (transcription_steps steps db).added
      ≤ count_evaluations session db.added + claims_left (lookup session db.sessions)
unfolding evaluation_slots
evaluation_added_once session steps db =
    let slots = transcription_steps-slots session steps db in ground arith
