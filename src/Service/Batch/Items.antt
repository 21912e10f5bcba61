-- ===== src/Service/Batch/Items.antt =====
-- What a batch of claims reports, and what it keeps.
use orientation_enrollment_p.Base.{
  ℕ, suc, true, false, ◌≡◌, refl, ◌⊎◌, ◌≤◌, ◌<◌, Option, none, some, Option-cases, inl, inr, List,
  [], ◌∷◌, arith, Bool-cases, length, ltb, ◌==◌, if◌then◌else◌,
}
use orientation_enrollment_p.Domain.Errors.{
  Error, Result, ok, err, error_code, field_error, wrapped, sentinel, Sentinel,
}
use orientation_enrollment_p.Domain.Identity.{Principal, can_act_on_student}
use orientation_enrollment_p.Storage.Db.{Db}
use orientation_enrollment_p.Storage.Consistency.{Consistent}
use orientation_enrollment_p.Service.Enrollment.Claim.{Round, Request, ClaimResult, claim}
use orientation_enrollment_p.Service.Enrollment.Retries.{claim-Consistent}
use orientation_enrollment_p.Service.Batch.{
  ItemOutcome, succeeded, refused, outcome, batch_loop, check_batch, batch_claim,
}

module _ (actor : Principal) (student_id : ℕ) (worlds : ℕ → ℕ → Round) (stopped : ℕ → Option Error)
    (max_retries : ℕ) where
  abbrev pub request : ℕ → Request
  request id = record { student_id = student_id; section_id = id }

  -- The answers to the sections as single claims give them, each on the tables that the one before
  -- has left.
  pub data Answers : ℕ → List ℕ → Db → List (ℕ × ItemOutcome) → Db → Type 0 where
    finished : {n : ℕ} {db : Db} → Answers n [] db [] db
    granted :
        {n id : ℕ} {ids : List ℕ} {db mid after : Db} {rest : List (ℕ × ItemOutcome)}
        (c : ClaimResult)
        → claim actor (request id) (worlds n) max_retries db ≡ (ok c, mid)
        → Answers (suc n) ids mid rest after
        → Answers n (id ∷ ids) db ((id, succeeded c.enrollment.status) ∷ rest) after
    rejected :
        {n id : ℕ} {ids : List ℕ} {db mid after : Db} {rest : List (ℕ × ItemOutcome)} (e : Error)
        → claim actor (request id) (worlds n) max_retries db ≡ (err e, mid)
        → Answers (suc n) ids mid rest after
        → Answers n (id ∷ ids) db ((id, refused (error_code e)) ∷ rest) after

  answered :
      (n id : ℕ) (ids : List ℕ) (db after : Db) (rest : List (ℕ × ItemOutcome))
      (r : Result ClaimResult × Db)
      → claim actor (request id) (worlds n) max_retries db ≡ r
      → Answers (suc n) ids r.1 rest after
      → Answers n (id ∷ ids) db ((id, outcome r.0) ∷ rest) after
  answered n id ids db after rest (ok c, mid) h answers = granted c h answers
  answered n id ids db after rest (err e, mid) h answers = rejected e h answers

  batch_loop-Answers :
      (n : ℕ) (section_ids : List ℕ) (db : Db)
      → ((k : ℕ) → stopped k ≡ none)
      → let run = batch_loop actor student_id worlds stopped max_retries n section_ids db in
        Answers n section_ids db run.0.0 run.1 × (run.0.1 ≡ none)
  unfolding batch_loop
  batch_loop-Answers n [] db running = (finished, refl)
  batch_loop-Answers n (id ∷ ids) db running =
      let r = claim actor (request id) (worlds n) max_retries db in
      let (answers, quiet) = batch_loop-Answers (suc n) ids r.1 running in
      let loop = batch_loop actor student_id worlds stopped max_retries (suc n) ids r.1 in
      rw (running n, batch_loop) (answered n id ids db loop.1 loop.0.0 r refl answers, quiet)

  -- A batch keeps the tables consistent, interrupted or not, as long as what other connections
  -- commit between its attempts does.
  pub batch_loop-Consistent :
      (n : ℕ) (section_ids : List ℕ) (db : Db)
      → ((k j : ℕ) (d : Db) → Consistent d → Consistent ((worlds k j).others d))
      → Consistent db
      → Consistent (batch_loop actor student_id worlds stopped max_retries n section_ids db).1
  unfolding batch_loop
  batch_loop-Consistent n [] db others fine = fine
  batch_loop-Consistent n (id ∷ ids) db others fine =
      let req : Request = record { student_id = student_id; section_id = id } in
      elim (Option-cases (stopped n)) [
        | inr (e, interrupted) ↦ rw (interrupted, batch_loop) fine
        | inl running ↦
            rw (running, batch_loop)
              (batch_loop-Consistent (suc n) ids (claim actor req (worlds n) max_retries db).1
                others (claim-Consistent actor (worlds n) req max_retries db (others n) fine))
      ]

-- The checks of a batch, in their order: some sections and at most 20, and a student for whom the
-- caller may act. Where one fails, no claim is made and the tables stay as they are. Otherwise, when
-- nothing interrupts the batch, it answers every section once and in order with what the single
-- claim of that section gives, the state that it reached or the code of its error, each on the
-- tables that the one before has left; and it reports no error of its own.
pub batch_claim_cases :
    (actor : Principal) (student_id : ℕ) (section_ids : List ℕ) (worlds : ℕ → ℕ → Round)
    (stopped : ℕ → Option Error) (max_retries : ℕ) (db : Db)
    → ((k : ℕ) → stopped k ≡ none)
    → let student = if student_id == 0 then actor.user_id else student_id in
      let run = batch_claim actor student_id section_ids worlds stopped max_retries db in
      ((1 ≤ length section_ids)
        × (length section_ids ≤ 20)
        × (can_act_on_student actor student ≡ true)
        × Answers actor student worlds stopped max_retries 0 section_ids db run.0.0 run.1
        × (run.0.1 ≡ none))
      ⊎ (((length section_ids ≡ 0)
            ⊎ (20 < length section_ids)
            ⊎ (can_act_on_student actor student ≡ false))
          × ((e : Error) × (run ≡ (([], some e), db))))
unfolding batch_claim check_batch
batch_claim_cases actor student_id section_ids worlds stopped max_retries db running =
    let student = if student_id == 0 then actor.user_id else student_id in
    elim (Bool-cases (length section_ids == 0)) [
      | inl e ↦ inr (
        inl (ground arith),
        (field_error "section_ids" "must contain at least one section", rw (e, batch_claim) refl),
      )
      | inr some_ids ↦ elim (Bool-cases (ltb 20 (length section_ids))) [
        | inl e ↦ inr (
          inr (inl (ground arith)),
          (
            field_error "section_ids" "must contain at most 20 sections",
            rw (some_ids, e, batch_claim) refl,
          ),
        )
        | inr few ↦ elim (Bool-cases (can_act_on_student actor student)) [
          | inr e ↦ inr (
            inr (inr e),
            (wrapped (sentinel Sentinel.forbidden), rw (some_ids, few, e, batch_claim) refl),
          )
          | inl may ↦
              let (answers, quiet) =
                batch_loop-Answers actor student worlds stopped max_retries 0 section_ids db
                  running in
              inl (
                ground arith,
                ground arith,
                may,
                rw (some_ids, few, may, batch_claim) answers,
                rw (some_ids, few, may, batch_claim) quiet,
              )
        ]
      ]
    ]
