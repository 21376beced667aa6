-- ===== src/Video/Tests.antt =====
-- Video interviews at concrete inputs.
use beleqet_ecosystem_update.Base.{
  ℕ, ◌≡◌, ◌≤◌, ◌+◌, refl, inl, true, Option, none, some, List, [], ◌∷◌, lookup, ok,
}
use beleqet_ecosystem_update.Video.Tables.{
  VideoDb, VideoInterview, VideoInterviewStatus, VideoResponse, ProcessingStatus, Question,
}
use beleqet_ecosystem_update.Video.Sessions.{SubmitResponse, request_gdpr_deletion, submit_response}
use beleqet_ecosystem_update.Video.Sessions.Laws.{IsErased, request_gdpr_deletion-IsErased}
use beleqet_ecosystem_update.Video.Processor.{
  Transcription, absent, is_due, cleanup_expired_interviews,
}
use beleqet_ecosystem_update.Video.Processor.Laws.{cleanup_erases}
use beleqet_ecosystem_update.Video.Processor.Once.{
  TranscriptionStep, transcription_steps, count_evaluations, claims_left, evaluation_added_once,
}
use beleqet_ecosystem_update.Video.Processor.Deleted.{KeepsResponse, deleted_session_takes_response}
use beleqet_ecosystem_update.Circuit.{fresh}

abbrev two_questions : List Question
two_questions =
    record { id = 0; text = 20; duration_sec = 60 }
    ∷ record { id = 1; text = 21; duration_sec = 90 }
    ∷ []

abbrev interview : VideoInterview
interview = record {
  application_id = 5;
  user_id = 9;
  status = VideoInterviewStatus.in_progress;
  questions = two_questions;
  locale = 0;
  job_title = 30;
  scheduled_at = none;
  expires_at = none;
  gdpr_delete_at = some 1_000;
}

abbrev recording : ℕ → VideoResponse
recording question = record {
  video_interview_id = 1;
  question_index = question;
  video_url = some 40;
  transcript = none;
  raw_whisper_response = none;
  processing_duration_ms = none;
  language = 0;
  processing_status = ProcessingStatus.waiting;
}

abbrev two_recordings : VideoDb
two_recordings = record {
  applications = [];
  sessions = (1, interview) ∷ [];
  responses = (10, recording 0) ∷ (11, recording 1) ∷ [];
  evaluations = [];
  added = [];
  whisper = fresh;
  ollama = fresh;
}

abbrev transcript : Option Transcription
transcript = some (record { text = 50; raw = 51 })

-- Both transcriptions run at once, and both find all questions answered.
abbrev both_at_once : List TranscriptionStep
both_at_once =
    TranscriptionStep.starts 0 10
    ∷ TranscriptionStep.starts 0 11
    ∷ TranscriptionStep.ends 10 10 10 1 absent transcript
    ∷ TranscriptionStep.ends 11 11 11 1 absent transcript
    ∷ TranscriptionStep.ends 12 12 11 1 absent transcript
    ∷ []

evaluation_added_once_example :
    count_evaluations 1 (transcription_steps both_at_once two_recordings).added
    ≤ count_evaluations 1 [] + claims_left (lookup 1 ((1, interview) ∷ []))
evaluation_added_once_example = evaluation_added_once 1 both_at_once two_recordings

interview_found : lookup 1 ((1, interview) ∷ []) ≡ some interview
unfolding lookup
interview_found = refl

deletion_answered : (request_gdpr_deletion 500 1 9 two_recordings).0 ≡ ok tt
unfolding request_gdpr_deletion lookup
deletion_answered = refl

request_gdpr_deletion-IsErased_example :
    (interview.user_id ≡ 9) × IsErased 1 (request_gdpr_deletion 500 1 9 two_recordings).1
request_gdpr_deletion-IsErased_example =
    request_gdpr_deletion-IsErased 500 1 9 interview two_recordings interview_found
      deletion_answered

interview_due : is_due 1_000 interview ≡ true
unfolding is_due
interview_due = refl

cleanup_erases_example :
    ((cleanup_expired_interviews 1_000 two_recordings).0 ≡ ok tt)
    × IsErased 1 (cleanup_expired_interviews 1_000 two_recordings).1
cleanup_erases_example =
    cleanup_erases 1_000 1 two_recordings (inl (interview, interview_found, interview_due))

abbrev again : SubmitResponse
again = record { question_index = 1; video_url = 41; language = none }

deleted_session_takes_response_example :
    KeepsResponse 1 41
      (submit_response 2_000 12 1 9 true again (request_gdpr_deletion 500 1 9 two_recordings).1)
deleted_session_takes_response_example =
    deleted_session_takes_response 500 2_000 12 1 9 again interview two_recordings interview_found
      refl refl refl
