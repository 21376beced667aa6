-- ===== src/Video/Processor.antt =====
-- src/modules/video-interview/video-interview.processor.ts: the jobs of the queue. A job that calls a model
-- is two steps, `start` up to the call and `finish` from its end, between which other requests and jobs
-- run; each passes the circuit breaker. What the model answers and what the queue knows of the job with
-- the name `evaluate-<session>` are arguments.
pub mod Laws
pub mod Once
pub mod Deleted
use beleqet_ecosystem_update.Base.{
  ℕ, ◌+◌, ◌-◌, ◌*◌, ◌==◌, ◌&&◌, ltb, leb, not, length, if◌then◌else◌, Bool, true, false, Option,
  none, some, List, [], ◌∷◌, map, Dict, lookup, insert, find_row, HttpError, internal_server_error,
  service_unavailable, Request, ◌>>=◌, ◌>>◌, pure, throw, throw_if, gets, modify, or_throw,
  transaction, rethrow_after, Result, ok, err,
}
use beleqet_ecosystem_update.Circuit.{
  CircuitBreakerOptions, CircuitSnapshot, Ended, succeeded, failed, admit, settle, ends_by_deadline,
  defaults,
}
use beleqet_ecosystem_update.Video.Tables.{
  Action, VideoDb, VideoInterview, VideoInterviewStatus, VideoResponse, VideoJob, ProcessingStatus,
  Question, InterviewEvaluation, put_session, put_response, set_status, update_response, add_job,
  count_transcribed,
}
use beleqet_ecosystem_update.Video.Sessions.{erase_session, gdpr_retention_ms}

abbrev pub whisper_options : CircuitBreakerOptions
whisper_options = record defaults {
  failure_threshold = 3;
  timeout = 60_000;
  execution_timeout = 120_000;
}

abbrev pub ollama_options : CircuitBreakerOptions
ollama_options = record defaults {
  failure_threshold = 3;
  timeout = 120_000;
  execution_timeout = 180_000;
}

abbrev pub service_open : HttpError
service_open = service_unavailable "circuit open"

-- What the queue holds under the name of the evaluation: nothing, a job that has ended, one that has
-- not, or no answer.
pub data QueueAnswer : Type 0 where
  absent ended busy unreachable : QueueAnswer

-- The statuses from which an evaluation may be claimed.
pub is_claimable : VideoInterviewStatus → Bool
is_claimable VideoInterviewStatus.processing = false
is_claimable VideoInterviewStatus.expired = false
is_claimable _ = true

-- `updateMany` with the statuses as a condition: whether it has claimed the session.
pub claim_session : ℕ → VideoDb → Bool × VideoDb
unfolding is_claimable
claim_session session db = elim (lookup session db.sessions) [
  | none ↦ (false, db)
  | some v ↦
      if is_claimable v.status
      then (true, put_session session (record v { status = VideoInterviewStatus.processing }) db)
      else (false, db)
]

-- Adding the evaluation; where the queue does not answer the claim is given back.
add_evaluation : ℕ → QueueAnswer → Action (Unit {0})
unfolding set_status
add_evaluation session absent = modify (add_job (VideoJob.evaluate session))
add_evaluation session ended = modify (add_job (VideoJob.evaluate session))
add_evaluation session busy = pure tt
add_evaluation session unreachable =
    set_status session VideoInterviewStatus.in_progress >> throw (internal_server_error "queue")

-- The rest of `maybeEnqueueEvaluation` once all questions were found to be transcribed.
pub claim_evaluation : ℕ → QueueAnswer → Action (Unit {0})
unfolding claim_session add_evaluation
claim_evaluation session queue db =
    let (claimed, db') = claim_session session db in
    if claimed then add_evaluation session queue db' else pure tt db'

-- Whether every question has a transcript.
pub all_transcribed : ℕ → VideoDb → Bool
unfolding count_transcribed
all_transcribed session db = elim (lookup session db.sessions) [
  | none ↦ false
  | some v ↦ leb (length v.questions) (count_transcribed session db)
]

pub maybe_enqueue_evaluation : ℕ → QueueAnswer → Action (Unit {0})
unfolding claim_evaluation all_transcribed
maybe_enqueue_evaluation session queue db =
    if all_transcribed session db then claim_evaluation session queue db else pure tt db

-- A call of a model: not made, or made with these.
pub data Started {ℓ} (A : Type ℓ) : Type ℓ where
  skipped : Started A
  calling : A → Started A

mark_failed : ℕ → VideoDb → VideoDb
unfolding update_response
mark_failed response db =
    (update_response response
      (λ r. record r { processing_status = ProcessingStatus.transcription_failed }) db).1

admit_whisper : ℕ → Action (Unit {0})
admit_whisper now db = elim (admit now db.whisper) [
  | none ↦ throw service_open db
  | some c ↦ pure tt (record db { whisper = c })
]

-- `processTranscription` up to the call of Whisper with the URL and the language.
pub start_transcription : ℕ → ℕ → Action (Started (ℕ × ℕ))
unfolding admit_whisper update_response mark_failed
start_transcription now response db = elim (lookup response db.responses) [
  | none ↦ pure skipped db
  | some r ↦ elim r.video_url [
    | none ↦ pure skipped db
    | some url ↦
        (do
          update_response response
              (λ r. record r { processing_status = ProcessingStatus.transcribing })
          rethrow_after (admit_whisper now) (mark_failed response)
          pure (calling (url, r.language)))
          db
  ]
]

pub record Transcription : Type 0 where
  pub text : ℕ
  pub raw : ℕ

-- How the call ended: with an answer in time, or not.
ending : {A : Type 0} → Option A → Ended
ending none = failed
ending (some _) = succeeded

in_time : {A : Type 0} → CircuitBreakerOptions → ℕ → Option A → Option A
unfolding ends_by_deadline
in_time opts ran none = none
in_time opts ran (some a) = elim (ends_by_deadline opts ran succeeded) [
  | succeeded ↦ some a
  | failed ↦ none
]

store_transcript : ℕ → ℕ → ℕ → QueueAnswer → Option Transcription → Action (Unit {0})
unfolding update_response maybe_enqueue_evaluation
store_transcript ran response session queue none = throw (internal_server_error "whisper")
store_transcript ran response session queue (some t) = do
  update_response response (λ r. record r {
    transcript = some t.text;
    raw_whisper_response = some t.raw;
    processing_duration_ms = some ran;
    processing_status = ProcessingStatus.transcribed;
  })
  maybe_enqueue_evaluation session queue

-- The end of the call at `now` after `ran` milliseconds, and the rest of `processTranscription`.
pub finish_transcription : ℕ → ℕ → ℕ → ℕ → QueueAnswer → Option Transcription → Action (Unit {0})
unfolding in_time ending store_transcript mark_failed
finish_transcription now ran response session queue call = do
  modify (λ db. record db {
    whisper = settle whisper_options now (ending (in_time whisper_options ran call)) db.whisper;
  })
  rethrow_after (store_transcript ran response session queue (in_time whisper_options ran call))
      (mark_failed response)

admit_ollama : ℕ → Action (Unit {0})
admit_ollama now db = elim (admit now db.ollama) [
  | none ↦ throw service_open db
  | some c ↦ pure tt (record db { ollama = c })
]

fail_session : ℕ → VideoDb → VideoDb
unfolding set_status
fail_session session db = (set_status session VideoInterviewStatus.failed db).1

-- `processEvaluation` up to the call, with the session as it was read.
pub start_evaluation : ℕ → ℕ → Action (Started VideoInterview)
unfolding set_status admit_ollama fail_session
start_evaluation now session db = elim (lookup session db.sessions) [
  | none ↦ pure skipped db
  | some v ↦
      (do
        set_status session VideoInterviewStatus.processing
        rethrow_after (admit_ollama now) (fail_session session)
        pure (calling v))
        db
]

pub record Evaluation : Type 0 where
  pub overall_score : ℕ
  pub scores : ℕ
  pub reasoning : ℕ
  pub raw : ℕ
  pub model_used : ℕ

delete_at : ℕ → Option ℕ → ℕ
delete_at now none = now + gdpr_retention_ms
delete_at now (some at) = at

store_evaluation : ℕ → ℕ → VideoInterview → Option Evaluation → Action (Unit {0})
unfolding set_status delete_at
store_evaluation now session read none = throw (internal_server_error "ollama")
store_evaluation now session read (some e) = do
  transaction (do
    modify (λ db. record db {
      evaluations =
          insert session
            (record {
              overall_score = e.overall_score;
              scores = e.scores;
              reasoning = e.reasoning;
              raw_ai_response = e.raw;
              model_used = e.model_used;
              gdpr_delete_at = delete_at now read.gdpr_delete_at;
            })
            db.evaluations;
    })
    set_status session VideoInterviewStatus.completed)
  modify (add_job (VideoJob.notify_complete session))

-- The rest of `processEvaluation`; `read` is the session that `start_evaluation` answered.
pub finish_evaluation : ℕ → ℕ → ℕ → VideoInterview → Option Evaluation → Action (Unit {0})
unfolding in_time ending store_evaluation fail_session
finish_evaluation now ran session read call = do
  modify (λ db. record db {
    ollama = settle ollama_options now (ending (in_time ollama_options ran call)) db.ollama;
  })
  rethrow_after (store_evaluation now session read (in_time ollama_options ran call))
      (fail_session session)

-- The sessions whose time has come and that are not `EXPIRED` yet.
unfoldable pub is_due : ℕ → VideoInterview → Bool
is_due now v = elim v.gdpr_delete_at [
  | none ↦ false
  | some at ↦ leb at now && elim v.status [ VideoInterviewStatus.expired ↦ false | _ ↦ true ]
]

pub due_sessions : ℕ → Dict VideoInterview → List ℕ
unfolding is_due
due_sessions now [] = []
due_sessions now ((id, v) ∷ d) =
    let rest = due_sessions now d in if is_due now v then id ∷ rest else rest

pub erase_all : List ℕ → Action (Unit {0})
unfolding erase_session
erase_all [] = pure tt
erase_all (id ∷ ids) = erase_session id none >> erase_all ids

pub cleanup_expired_interviews : ℕ → Action (Unit {0})
unfolding due_sessions erase_all
cleanup_expired_interviews now = do ids ← gets (λ db. due_sessions now db.sessions); erase_all ids
