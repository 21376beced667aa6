-- ===== src/Applications/Changes.antt =====
-- Changes of an application (applications.service.ts).
use beleqet_ecosystem_update.Base.{
  ℕ, ◌≡◌, refl, ap, ◌⊎◌, inl, inr, true, false, ◌==◌, some, Bool-cases, lookup, insert,
  lookup-insert, arith, Dict, ◌∙◌,
}
use beleqet_ecosystem_update.Applications.{
  Application, ApplicationStatus, ApplicationsDb, CreateApplication, is_withdrawable,
  own_application, open_application, submit, store_application,
}
use beleqet_ecosystem_update.Applications.Laws.{
  ApplicationStep, step, store_application-cases, submit-cases, update_status-cases, withdraw-cases,
  new_application,
}

-- The right of a request to give an application a status: that of the employer of its job, to any
-- status, and that of the applicant to withdraw it before an interview is set.
pub May : ApplicationStep → ℕ → Application → ApplicationStatus → ApplicationsDb → Type 0
May (ApplicationStep.updates j status employer) id a s db =
    (j ≡ id) × (s ≡ status) × (own_application id employer db ≡ some a)
May (ApplicationStep.withdraws j user) id a s db =
    (j ≡ id)
    × (s ≡ ApplicationStatus.withdrawn)
    × (a.user_id ≡ user)
    × (is_withdrawable a.status ≡ true)
May (ApplicationStep.submits _ _ _) id a s db = true ≡ false
May (ApplicationStep.stores _ _ _) id a s db = true ≡ false

pub Kept : ApplicationStep → ℕ → Application → ApplicationsDb → Type 0
Kept t id a db =
    (s : ApplicationStatus) × (lookup id (step t db).applications ≡ some (record a { status = s }))
    × ((s ≡ a.status) ⊎ May t id a s db)

lookup-store :
    (id j user : ℕ) (dto : CreateApplication) (a : Application) (db : ApplicationsDb)
    → lookup id db.applications ≡ some a
    → lookup id (store_application j user dto db).1.applications ≡ some a
lookup-store id j user dto a db h = elim (store_application-cases j user dto db) [
  | inl same ↦ rw same h
  | inr (fresh, free, written) ↦
      rw written
        (let at = lookup-insert j id (new_application user dto) db.applications in ground arith)
]

lookup-submit :
    (id j user : ℕ) (dto : CreateApplication) (a : Application) (db : ApplicationsDb)
    → lookup id db.applications ≡ some a
    → lookup id (submit j user dto db).1.applications ≡ some a
lookup-submit id j user dto a db h = elim (submit-cases j user dto db) [
  | inl same ↦ rw same h
  | inr stored ↦ rw stored (lookup-store id j user dto a db h)
]

-- A new status of an application, and what any application is then.
lookup-written :
    (id j : ℕ) (s : ApplicationStatus) (a b : Application) (db : ApplicationsDb)
    (d : Dict Application)
    → lookup id db.applications ≡ some a
    → lookup j db.applications ≡ some b
    → d ≡ insert j (record b { status = s }) db.applications
    → (lookup id d ≡ some a) ⊎ ((j ≡ id) × (b ≡ a) × (lookup id d ≡ some (record a { status = s })))
lookup-written id j s a b db d h found written =
    let at = lookup-insert j id (record b { status = s }) db.applications in
    let read = ap (lookup id) written in
    elim (Bool-cases (j == id)) [
      | inl same ↦
          let same_id : j ≡ id = ground arith in
          let same_row : b ≡ a = cc in
          let read_b : lookup id d ≡ some (record b { status = s }) = ground arith in
          inr (
            same_id,
            same_row,
            read_b ∙ ap (λ (c : Application). some (record c { status = s })) same_row,
          )
      | inr other ↦ inl (ground arith)
    ]

update_status-Kept :
    (id j : ℕ) (status : ApplicationStatus) (employer : ℕ) (a : Application) (db : ApplicationsDb)
    → lookup id db.applications ≡ some a
    → Kept (ApplicationStep.updates j status employer) id a db
unfolding Kept May step
update_status-Kept id j status employer a db h = elim (update_status-cases j status employer db) [
  | inl same ↦ (a.status, rw same h, inl refl)
  | inr (b, own, found, written) ↦ elim (lookup-written id j status a b db _ h found written) [
    | inl kept ↦ (a.status, kept, inl refl)
    | inr (same_id, same_row, changed) ↦
        (status, changed, inr (same_id, refl, rw (← same_id, ← same_row) own))
  ]
]

open_application-Own :
    (j user : ℕ) (b : Application) (db : ApplicationsDb)
    → open_application j user db ≡ some b
    → (b.user_id ≡ user) × (is_withdrawable b.status ≡ true)
unfolding open_application
open_application-Own j user b db h = ground arith

withdraw-Kept :
    (id j user : ℕ) (a : Application) (db : ApplicationsDb)
    → lookup id db.applications ≡ some a
    → Kept (ApplicationStep.withdraws j user) id a db
unfolding Kept May step
withdraw-Kept id j user a db h = elim (withdraw-cases j user db) [
  | inl same ↦ (a.status, rw same h, inl refl)
  | inr (b, own, found, written) ↦
      elim (lookup-written id j ApplicationStatus.withdrawn a b db _ h found written) [
        | inl kept ↦ (a.status, kept, inl refl)
        | inr (same_id, same_row, changed) ↦
            let (theirs, open_yet) = open_application-Own j user b db own in
            (
              ApplicationStatus.withdrawn,
              changed,
              inr (same_id, refl, rw (← same_row) theirs, rw (← same_row) open_yet),
            )
      ]
]

-- No request removes an application, or changes its user, its job or what it says; and none changes its
-- status but the employer of the job, to any status, or the applicant, to withdraw it while it is
-- submitted, in screening or shortlisted.
pub step-Kept :
    (t : ApplicationStep) (id : ℕ) (a : Application) (db : ApplicationsDb)
    → lookup id db.applications ≡ some a
    → Kept t id a db
unfolding Kept step
step-Kept (ApplicationStep.submits j user dto) id a db h =
    (a.status, lookup-submit id j user dto a db h, inl refl)
step-Kept (ApplicationStep.stores j user dto) id a db h =
    (a.status, lookup-store id j user dto a db h, inl refl)
step-Kept (ApplicationStep.updates j status employer) id a db h =
    update_status-Kept id j status employer a db h
step-Kept (ApplicationStep.withdraws j user) id a db h = withdraw-Kept id j user a db h
