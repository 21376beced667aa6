-- ===== src/Video/Processor/Deleted.antt =====
-- A session after its deletion: `submitResponse` of video-interview.service.ts, and which sessions the
-- nightly job of video-interview.processor.ts looks for.
use beleqet_ecosystem_update.Base.{
  ℕ, ◌≡◌, refl, leb, length, true, false, Option, none, some, lookup, lookup-insert_self, Result,
  ok, arith,
}
use beleqet_ecosystem_update.Video.Tables.{
  VideoDb, VideoInterview, VideoInterviewStatus, VideoResponse,
}
use beleqet_ecosystem_update.Video.Sessions.{
  SubmitResponse, submit_response, request_gdpr_deletion, upsert_response, check_response, resume,
  recorded, row_id, response_of,
}
use beleqet_ecosystem_update.Video.Sessions.Laws.{erase_session-writes, erased_db, erased_row}
use beleqet_ecosystem_update.Video.Processor.{is_due}

-- Where a deleted session is found, and nothing of it is due for deletion any more.
abbrev pub KeepsResponse : ℕ → ℕ → Result ℕ × VideoDb → Type 0
KeepsResponse session url (answer, db) =
    (id : ℕ) × (r : VideoResponse) × (v : VideoInterview) × (answer ≡ ok id)
    × (lookup id db.responses ≡ some r)
    × (r.video_url ≡ some url)
    × (lookup session db.sessions ≡ some v)
    × ((t : ℕ) → is_due t v ≡ false)

recorded-keeps_url :
    (session : ℕ) (dto : SubmitResponse) (found : Option (ℕ × VideoResponse))
    → (recorded session dto found).video_url ≡ some dto.video_url
unfolding recorded
recorded-keeps_url session dto none = refl
recorded-keeps_url session dto (some (id, r)) = refl

submit_response-keeps :
    (later fresh session user : ℕ) (dto : SubmitResponse) (v : VideoInterview) (db : VideoDb)
    → lookup session db.sessions ≡ some v
    → v.user_id ≡ user
    → v.expires_at ≡ none
    → leb (length v.questions) dto.question_index ≡ false
    → v.status ≡ VideoInterviewStatus.expired
    → KeepsResponse session dto.video_url (submit_response later fresh session user true dto db)
unfolding is_due submit_response check_response upsert_response resume
submit_response-keeps later fresh session user dto v db found own endless asked over =
    let row = response_of session dto.question_index db in
    let stored = lookup-insert_self (row_id fresh row) (recorded session dto row) db.responses in
    let url = recorded-keeps_url session dto row in
    (
      row_id fresh row,
      recorded session dto row,
      v,
      ground arith,
      ground arith,
      url,
      ground arith,
      λ t. ground arith,
    )

-- After a request for deletion the candidate's next response to a session without a deadline is accepted
-- and its video kept, in a session that the nightly job will not look for at any time.
pub deleted_session_takes_response :
    (now later fresh session user : ℕ) (dto : SubmitResponse) (v : VideoInterview) (db : VideoDb)
    → lookup session db.sessions ≡ some v
    → v.user_id ≡ user
    → v.expires_at ≡ none
    → leb (length v.questions) dto.question_index ≡ false
    → KeepsResponse session dto.video_url (
        submit_response later fresh session user true dto
          (request_gdpr_deletion now session user db).1)
unfolding request_gdpr_deletion
deleted_session_takes_response now later fresh session user dto v db found own endless asked =
    let writes = erase_session-writes session (some now) v db found in
    let deleted : (request_gdpr_deletion now session user db).1
        ≡ erased_db session (some now) v db =
      ground arith in
    let there = lookup-insert_self session (erased_row (some now) v) db.sessions in
    rw deleted (
      submit_response-keeps later fresh session user dto (erased_row (some now) v)
        (erased_db session (some now) v db) there own endless asked refl)
