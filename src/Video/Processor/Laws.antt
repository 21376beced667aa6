-- ===== src/Video/Processor/Laws.antt =====
-- The nightly deletion (video-interview.processor.ts).
use beleqet_ecosystem_update.Base.{
  ℕ, ◌==◌, ◌≡◌, ◌≢◌, refl, inl, inr, ◌⊎◌, true, Bool-cases, none, some, Option-cases, List, [], ◌∷◌,
  Dict, lookup, insert, member, lookup-insert, ok, arith,
}
use beleqet_ecosystem_update.Video.Tables.{VideoDb, VideoInterview}
use beleqet_ecosystem_update.Video.Sessions.Laws.{
  IsErased, erased_db, erased_row, erase_session-writes, erased_db-IsErased,
}
use beleqet_ecosystem_update.Video.Processor.{
  is_due, due_sessions, erase_all, cleanup_expired_interviews,
}

-- Sessions that are all there.
abbrev Present : List ℕ → Dict VideoInterview → Type 0
Present ids d = (id : ℕ) → member id ids ≡ true → lookup id d ≢ none

Present-insert :
    (ids : List ℕ) (id : ℕ) (v : VideoInterview) (d : Dict VideoInterview)
    → Present ids d
    → Present ids (insert id v d)
Present-insert ids id v d there other m =
    let at = lookup-insert id other v d in let was = there other m in ground arith

erase_all-none :
    (session : ℕ) (db : VideoDb)
    → (member session [] ≡ true) ⊎ IsErased session db
    → ((erase_all [] db).0 ≡ ok tt) × IsErased session (erase_all [] db).1
unfolding erase_all
erase_all-none session db before = (refl, elim before [ inl m ↦ absurd cc | inr e ↦ e ])

erase_all-step :
    (id : ℕ) (ids : List ℕ) (v : VideoInterview) (db : VideoDb)
    → lookup id db.sessions ≡ some v
    → erase_all (id ∷ ids) db ≡ erase_all ids (erased_db id none v db)
unfolding erase_all
erase_all-step id ids v db h = let writes = erase_session-writes id none v db h in ground arith

-- Erasing sessions that are there succeeds, and erases each of them and none that was erased again.
erase_all-IsErased :
    (ids : List ℕ) (session : ℕ) (db : VideoDb)
    → Present ids db.sessions
    → (member session ids ≡ true) ⊎ IsErased session db
    → ((erase_all ids db).0 ≡ ok tt) × IsErased session (erase_all ids db).1
erase_all-IsErased [] session db there before = erase_all-none session db before
erase_all-IsErased (id ∷ ids) session db there before =
    elim (Option-cases (lookup id db.sessions)) [
      | inl missing ↦ absurd (there id (ground arith) missing)
      | inr (v, found) ↦
          let rest =
            erase_all-IsErased ids session (erased_db id none v db)
              (Present-insert ids id (erased_row none v) db.sessions
                (λ other m. there other (ground arith)))
              (elim (Bool-cases (id == session)) [
                | inl this ↦ inr (erased_db-IsErased id session none v db (inl (ground arith)))
                | inr elsewhere ↦ elim before [
                  | inl m ↦ inl (ground arith)
                  | inr e ↦ inr (erased_db-IsErased id session none v db (inr e))
                ]
              ]) in
          rw (erase_all-step id ids v db found) rest
    ]

due_sessions-Present : (now : ℕ) (d : Dict VideoInterview) → Present (due_sessions now d) d
unfolding due_sessions lookup
due_sessions-Present now [] id m = cc
due_sessions-Present now ((j, v) ∷ d) id m = ground (arith, due_sessions-Present now d id)

member-due_sessions :
    (now id : ℕ) (v : VideoInterview) (d : Dict VideoInterview)
    → lookup id d ≡ some v
    → is_due now v ≡ true
    → member id (due_sessions now d) ≡ true
unfolding due_sessions lookup
member-due_sessions now id v [] h due = cc
member-due_sessions now id v ((j, w) ∷ d) h due = ground (arith, member-due_sessions now id v d)

-- The nightly job succeeds, and erases every session whose time to be deleted has come and that was not
-- `EXPIRED` yet; a session that was erased before stays so.
pub cleanup_erases :
    (now session : ℕ) (db : VideoDb)
    → ((v : VideoInterview) × (lookup session db.sessions ≡ some v) × (is_due now v ≡ true))
      ⊎ IsErased session db
    → ((cleanup_expired_interviews now db).0 ≡ ok tt)
      × IsErased session (cleanup_expired_interviews now db).1
unfolding cleanup_expired_interviews
cleanup_erases now session db before =
    erase_all-IsErased (due_sessions now db.sessions) session db
      (due_sessions-Present now db.sessions)
      (elim before [
        | inl (v, found, due) ↦ inl (member-due_sessions now session v db.sessions found due)
        | inr erased ↦ inr erased
      ])
