-- ===== src/Video/Sessions.antt =====
-- src/modules/video-interview/video-interview.service.ts: sessions, the submission of responses, and the
-- deletion that the GDPR asks for. `allowed` is what `assertAllowedVideoUrl` says of a URL; messages are
-- the keys of their translations.
pub mod Laws
use beleqet_ecosystem_update.Base.{
  ℕ, ◌+◌, ◌*◌, ◌==◌, ◌&&◌, ltb, leb, not, length, is_some, if◌then◌else◌, Bool, true, false, Option,
  none, some, List, [], ◌∷◌, Dict, lookup, insert, erase, find_row, find_value, HttpError,
  not_found, forbidden, bad_request, conflict, internal_server_error, Request, ◌>>=◌, ◌>>◌, pure,
  throw, throw_if, gets, modify, or_throw, transaction, when,
}
use beleqet_ecosystem_update.Video.Tables.{
  Action, VideoDb, VideoInterview, VideoInterviewStatus, VideoResponse, VideoJob, ProcessingStatus,
  Question, ApplicationRef, put_session, put_response, set_status, add_job, blank_responses,
  record_not_found,
}

abbrev pub gdpr_retention_ms : ℕ
gdpr_retention_ms = 90 * 24 * 60 * 60 * 1_000

-- `en`, where nothing else is asked for.
abbrev pub default_language : ℕ
default_language = 0

or_default : Option ℕ → ℕ
or_default none = default_language
or_default (some l) = l

pub record CreateInterviewSession : Type 0 where
  pub application_id : ℕ
  pub questions : List Question
  pub scheduled_at : Option ℕ
  pub expires_at : Option ℕ
  pub locale : Option ℕ

new_session : ℕ → ApplicationRef → CreateInterviewSession → VideoInterview
unfolding or_default
new_session now a dto = record {
  application_id = dto.application_id;
  user_id = a.candidate;
  status = VideoInterviewStatus.pending;
  questions = dto.questions;
  locale = or_default dto.locale;
  job_title = a.title;
  scheduled_at = dto.scheduled_at;
  expires_at = dto.expires_at;
  gdpr_delete_at = some (now + gdpr_retention_ms);
}

session_of : ℕ → VideoDb → Option VideoInterview
session_of application db = find_value (λ v. v.application_id == application) db.sessions

pub create_session : ℕ → ℕ → ℕ → CreateInterviewSession → Action VideoInterview
unfolding session_of new_session
create_session now fresh employer dto = do
  a ←
      or_throw (← gets (λ db. lookup dto.application_id db.applications))
        (not_found "video_interview.application_not_found")
  throw_if (not (a.employer == employer)) (forbidden "video_interview.forbidden")
  throw_if (← gets (λ db. is_some (session_of dto.application_id db)))
      (conflict "video_interview.already_exists")
  throw_if (← gets (λ db. is_some (lookup fresh db.sessions))) (internal_server_error "P2002")
  modify (put_session fresh (new_session now a dto))
  pure (new_session now a dto)

-- A time that lies before now.
abbrev pub is_past : ℕ → Option ℕ → Bool
is_past now at = elim at [ none ↦ false | some t ↦ ltb t now ]

abbrev is_expired : VideoInterviewStatus → Bool
is_expired VideoInterviewStatus.expired = true
is_expired _ = false

pub get_session : ℕ → ℕ → ℕ → Action VideoInterview
get_session now id user = do
  v ← or_throw (← gets (λ db. lookup id db.sessions)) (not_found "video_interview.not_found")
  throw_if (is_past now v.gdpr_delete_at && is_expired v.status)
      (not_found "video_interview.gdpr_deleted")
  throw_if (not (v.user_id == user)) (forbidden "video_interview.forbidden")
  throw_if (is_past now v.expires_at) (bad_request "video_interview.expired")
  pure v

pub record SubmitResponse : Type 0 where
  pub question_index : ℕ
  pub video_url : ℕ
  pub language : Option ℕ

-- The upsert by the session and the index, which are unique together: a row that was there begins anew.
pub response_of : ℕ → ℕ → VideoDb → Option (ℕ × VideoResponse)
response_of session index db =
    find_row (λ r. r.video_interview_id == session && r.question_index == index) db.responses

unfoldable pub recorded : ℕ → SubmitResponse → Option (ℕ × VideoResponse) → VideoResponse
unfolding or_default
recorded session dto none = record {
  video_interview_id = session;
  question_index = dto.question_index;
  video_url = some dto.video_url;
  transcript = none;
  raw_whisper_response = none;
  processing_duration_ms = none;
  language = or_default dto.language;
  processing_status = ProcessingStatus.waiting;
}
recorded session dto (some (_, r)) = record r {
  video_url = some dto.video_url;
  transcript = none;
  raw_whisper_response = none;
  language = or_default dto.language;
  processing_status = ProcessingStatus.waiting;
}

pub row_id : ℕ → Option (ℕ × VideoResponse) → ℕ
row_id fresh none = fresh
row_id fresh (some (id, _)) = id

unfoldable pub upsert_response : ℕ → ℕ → SubmitResponse → Action ℕ
unfolding response_of recorded row_id
upsert_response fresh session dto = do
  found ← gets (response_of session dto.question_index)
  modify (put_response (row_id fresh found) (recorded session dto found))
  pure (row_id fresh found)

drop_evaluation : ℕ → VideoDb → VideoDb
drop_evaluation session db = record db { evaluations = erase session db.evaluations }

-- What a response makes of the status that was read before it was stored: the first one starts the
-- session, and one after an evaluation starts it again.
unfoldable pub resume : ℕ → VideoInterviewStatus → Action (Unit {0})
unfolding set_status drop_evaluation
resume session VideoInterviewStatus.pending = set_status session VideoInterviewStatus.in_progress
resume session VideoInterviewStatus.in_progress = pure tt
resume session VideoInterviewStatus.expired = pure tt
resume session _ =
    transaction
      (modify (drop_evaluation session) >> set_status session VideoInterviewStatus.in_progress)

-- The checks of `submitResponse`.
unfoldable pub check_response : ℕ → ℕ → ℕ → Bool → SubmitResponse → Action VideoInterview
check_response now session user allowed dto = do
  v ← or_throw (← gets (λ db. lookup session db.sessions)) (not_found "video_interview.not_found")
  throw_if (not (v.user_id == user)) (forbidden "video_interview.forbidden")
  throw_if (is_past now v.expires_at) (bad_request "video_interview.expired")
  throw_if (leb (length v.questions) dto.question_index)
      (bad_request "video_interview.invalid_question_index")
  throw_if (not allowed) (bad_request "video_interview.invalid_video_url")
  pure v

unfoldable pub submit_response : ℕ → ℕ → ℕ → ℕ → Bool → SubmitResponse → Action ℕ
unfolding check_response upsert_response resume
submit_response now fresh session user allowed dto = do
  v ← check_response now session user allowed dto
  response ← upsert_response fresh session dto
  resume session v.status
  modify (add_job (VideoJob.transcribe response session))
  pure response

-- The transaction that erases a session, after which it is `EXPIRED`.
unfoldable pub erase_session : ℕ → Option ℕ → Action (Unit {0})
unfolding blank_responses drop_evaluation
erase_session session deleted_at = transaction (do
  modify (blank_responses session)
  modify (drop_evaluation session)
  v ← or_throw (← gets (λ db. lookup session db.sessions)) record_not_found
  modify (
      put_session session (record v {
        status = VideoInterviewStatus.expired;
        gdpr_delete_at = elim deleted_at [ none ↦ v.gdpr_delete_at | some at ↦ some at ];
      })))

unfoldable pub request_gdpr_deletion : ℕ → ℕ → ℕ → Action (Unit {0})
unfolding erase_session
request_gdpr_deletion now session user = do
  v ← or_throw (← gets (λ db. lookup session db.sessions)) (not_found "video_interview.not_found")
  throw_if (not (v.user_id == user)) (forbidden "video_interview.forbidden")
  erase_session session (some now)
