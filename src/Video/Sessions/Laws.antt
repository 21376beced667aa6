-- ===== src/Video/Sessions/Laws.antt =====
-- The deletion of a session (video-interview.service.ts, and the nightly job of
-- video-interview.processor.ts).
use beleqet_ecosystem_update.Base.{
  ℕ, ◌==◌, ◌≡◌, refl, ap, sym, ◌∙◌, inl, inr, ◌⊎◌, Bool-cases, Option, none, some, Option-cases,
  Dict, lookup, insert, erase, map_values, lookup-insert, lookup-erase, lookup-erase_self,
  lookup-map_values, lookup-map_values-none, ok, arith,
}
use beleqet_ecosystem_update.Video.Tables.{
  VideoDb, VideoInterview, VideoInterviewStatus, VideoResponse, blank_of, blank_responses,
}
use beleqet_ecosystem_update.Video.Sessions.{erase_session, request_gdpr_deletion, drop_evaluation}

-- Nothing that tells of the candidate is left of a response.
pub IsBlank : VideoResponse → Type 0
IsBlank r = (r.video_url ≡ none) × (r.transcript ≡ none) × (r.raw_whisper_response ≡ none)

-- A session that is erased: its responses are blank, it has no evaluation, and it is `EXPIRED`.
pub record IsErased (session : ℕ) (db : VideoDb) : Type 0 where
  pub blank_rows :
      (id : ℕ) (r : VideoResponse)
      → lookup id db.responses ≡ some r
      → r.video_interview_id ≡ session
      → IsBlank r
  pub no_evaluation : lookup session db.evaluations ≡ none
  pub ended :
      (v : VideoInterview)
      → lookup session db.sessions ≡ some v
      → v.status ≡ VideoInterviewStatus.expired

lookup-blank_of :
    (session id : ℕ) (r : VideoResponse) (d : Dict VideoResponse)
    → lookup id (map_values (blank_of session) d) ≡ some r
    → (old : VideoResponse) × (lookup id d ≡ some old) × (r ≡ blank_of session id old)
lookup-blank_of session id r d h = elim (Option-cases (lookup id d)) [
  | inl missing ↦
      let none_left = lookup-map_values-none (blank_of session) id d missing in absurd cc
  | inr (old, found) ↦
      let left = lookup-map_values (blank_of session) id d old found in (old, found, cc)
]

abbrev pub erased_row : Option ℕ → VideoInterview → VideoInterview
erased_row deleted_at v = record v {
  status = VideoInterviewStatus.expired;
  gdpr_delete_at = elim deleted_at [ none ↦ v.gdpr_delete_at | some at ↦ some at ];
}

abbrev pub erased_db : ℕ → Option ℕ → VideoInterview → VideoDb → VideoDb
erased_db session deleted_at v db = record db {
  responses = map_values (blank_of session) db.responses;
  evaluations = erase session db.evaluations;
  sessions = insert session (erased_row deleted_at v) db.sessions;
}

-- What erasing writes, where the session is there.
pub erase_session-writes :
    (session : ℕ) (at : Option ℕ) (v : VideoInterview) (db : VideoDb)
    → lookup session db.sessions ≡ some v
    → erase_session session at db ≡ (ok tt, erased_db session at v db)
unfolding erase_session blank_responses drop_evaluation
erase_session-writes session at v db h = ground arith

blank_of-IsBlank :
    (session other id : ℕ) (old : VideoResponse)
    → (blank_of session id old).video_interview_id ≡ other
    → (session ≡ other) ⊎ IsBlank old
    → IsBlank (blank_of session id old)
unfolding IsBlank
blank_of-IsBlank session other id old e before = ground arith

blank_of-keeps_owner :
    (session id : ℕ) (old : VideoResponse)
    → (blank_of session id old).video_interview_id ≡ old.video_interview_id
blank_of-keeps_owner session id old = ground arith

-- Erasing a session keeps those that are erased, whichever of them it is.
pub erased_db-IsErased :
    (session other : ℕ) (at : Option ℕ) (v : VideoInterview) (db : VideoDb)
    → (session ≡ other) ⊎ IsErased other db
    → IsErased other (erased_db session at v db)
erased_db-IsErased session other at v db before = record {
  blank_rows = λ id r h e.
      let (old, found, same) = lookup-blank_of session id r db.responses h in
      let owner = blank_of-keeps_owner session id old in
      let owned : (blank_of session id old).video_interview_id ≡ other = rw same at e in
      rw same (
        blank_of-IsBlank session other id old owned (elim before [
          | inl this ↦ inl this
          | inr erased ↦ inr (erased.blank_rows id old found (sym owner ∙ owned))
        ]));
  no_evaluation = elim before [
    | inl this ↦ rw this (lookup-erase_self other db.evaluations)
    | inr erased ↦
        let at_other = lookup-erase session other db.evaluations in
        let none_there = erased.no_evaluation in ground arith
  ];
  ended = λ w h.
      let at_other = lookup-insert session other (erased_row at v) db.sessions in
      elim (Bool-cases (session == other)) [
        | inl this ↦
            let found : some w ≡ some (erased_row at v) = ground arith in
            let same : w ≡ erased_row at v = cc in ap (λ (x : VideoInterview). x.status) same
        | inr elsewhere ↦ elim before [
          | inl this ↦ absurd (ground arith)
          | inr erased ↦ erased.ended w (ground arith)
        ]
      ];
}

-- A request for deletion that is answered is one of the candidate, and leaves the session erased: no
-- URL, transcript or answer of the model in its responses, no evaluation, and the status `EXPIRED`.
pub request_gdpr_deletion-IsErased :
    (now session user : ℕ) (v : VideoInterview) (db : VideoDb)
    → lookup session db.sessions ≡ some v
    → (request_gdpr_deletion now session user db).0 ≡ ok tt
    → (v.user_id ≡ user) × IsErased session (request_gdpr_deletion now session user db).1
unfolding request_gdpr_deletion
request_gdpr_deletion-IsErased now session user v db found done =
    let writes = erase_session-writes session (some now) v db found in
    let own : v.user_id ≡ user = ground arith in
    let answered : request_gdpr_deletion now session user db
        ≡ (ok tt, erased_db session (some now) v db) =
      ground arith in
    (own, rw answered (erased_db-IsErased session session (some now) v db (inl refl)))
