-- ===== src/Video/Tables.antt =====
-- The rows of prisma/schema.prisma that video interviews are kept in. Texts, URLs and the answers of the
-- models are numbers; a session's evaluation is named by the session, which is unique. Times are
-- milliseconds.
use beleqet_ecosystem_update.Base.{
  ℕ, ◌==◌, ◌&&◌, if◌then◌else◌, Bool, true, false, Option, none, List, ◌∷◌, Dict, lookup, insert,
  map_values, count_rows, Request, HttpError, internal_server_error, ◌>>=◌, gets, or_throw, modify,
}
use beleqet_ecosystem_update.Circuit.{CircuitSnapshot}

pub data VideoInterviewStatus : Type 0 where
  pending in_progress processing completed failed expired : VideoInterviewStatus

pub data ProcessingStatus : Type 0 where
  waiting transcribing transcribed transcription_failed : ProcessingStatus

pub record Question : Type 0 where
  pub id : ℕ
  pub text : ℕ
  pub duration_sec : ℕ

pub record VideoInterview : Type 0 where
  pub application_id : ℕ
  pub user_id : ℕ
  pub status : VideoInterviewStatus
  pub questions : List Question
  pub locale : ℕ
  pub job_title : ℕ
  pub scheduled_at : Option ℕ
  pub expires_at : Option ℕ
  pub gdpr_delete_at : Option ℕ

pub record VideoResponse : Type 0 where
  pub video_interview_id : ℕ
  pub question_index : ℕ
  pub video_url : Option ℕ
  pub transcript : Option ℕ
  pub raw_whisper_response : Option ℕ
  pub processing_duration_ms : Option ℕ
  pub language : ℕ
  pub processing_status : ProcessingStatus

pub record InterviewEvaluation : Type 0 where
  pub overall_score : ℕ
  pub scores : ℕ
  pub reasoning : ℕ
  pub raw_ai_response : ℕ
  pub model_used : ℕ
  pub gdpr_delete_at : ℕ

-- An application with its candidate and the user of the company whose job it is for.
pub record ApplicationRef : Type 0 where
  pub candidate : ℕ
  pub employer : ℕ
  pub title : ℕ

-- The jobs that are added to the queue.
pub data VideoJob : Type 0 where
  transcribe : ℕ → ℕ → VideoJob
  evaluate notify_complete : ℕ → VideoJob

-- `whisper` and `ollama` are the circuits of the two services.
pub record VideoDb : Type 0 where
  pub applications : Dict ApplicationRef
  pub sessions : Dict VideoInterview
  pub responses : Dict VideoResponse
  pub evaluations : Dict InterviewEvaluation
  pub added : List VideoJob
  pub whisper : CircuitSnapshot
  pub ollama : CircuitSnapshot

abbrev pub Action {ℓ} : Type ℓ → Type ℓ
Action A = Request VideoDb A

abbrev pub record_not_found : HttpError
record_not_found = internal_server_error "P2025"

abbrev pub add_job : VideoJob → VideoDb → VideoDb
add_job j db = record db { added = j ∷ db.added }

abbrev pub put_session : ℕ → VideoInterview → VideoDb → VideoDb
put_session id v db = record db { sessions = insert id v db.sessions }

abbrev pub put_response : ℕ → VideoResponse → VideoDb → VideoDb
put_response id r db = record db { responses = insert id r db.responses }

-- `update` of one row, which must be there.
unfoldable pub set_status : ℕ → VideoInterviewStatus → Action (Unit {0})
set_status id status = do
  v ← or_throw (← gets (λ db. lookup id db.sessions)) record_not_found
  modify (put_session id (record v { status = status }))

unfoldable pub update_response : ℕ → (VideoResponse → VideoResponse) → Action (Unit {0})
update_response id f = do
  r ← or_throw (← gets (λ db. lookup id db.responses)) record_not_found
  modify (put_response id (f r))

-- The responses of a session lose what tells of the candidate.
abbrev pub blank : VideoResponse → VideoResponse
blank r = record r { video_url = none; transcript = none; raw_whisper_response = none }

abbrev pub blank_of : ℕ → ℕ → VideoResponse → VideoResponse
blank_of session _ r = if r.video_interview_id == session then blank r else r

unfoldable pub blank_responses : ℕ → VideoDb → VideoDb
blank_responses session db = record db { responses = map_values (blank_of session) db.responses }

abbrev pub is_transcribed : ProcessingStatus → Bool
is_transcribed ProcessingStatus.transcribed = true
is_transcribed _ = false

unfoldable pub count_transcribed : ℕ → VideoDb → ℕ
count_transcribed session db =
    count_rows (λ _ r. r.video_interview_id == session && is_transcribed r.processing_status)
      db.responses
