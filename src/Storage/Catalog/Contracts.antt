-- ===== src/Storage/Catalog/Contracts.antt =====
-- What the statements on sections do when they succeed.
use orientation_enrollment_p.Base.{
  ℕ, false, ◌≡◌, ◌≢◌, inl, inr, Option-cases, some, arith, find, count, List, ◌==◌,
}
use orientation_enrollment_p.Base.Int.{ℤ, pos, eqb_ℤ}
use orientation_enrollment_p.Base.Time.{Time}
use orientation_enrollment_p.Domain.Errors.{ok}
use orientation_enrollment_p.Domain.Catalog.{Term, Course, Meeting, Section}
use orientation_enrollment_p.Storage.Db.{Db, Env, SectionRow}
use orientation_enrollment_p.Storage.Catalog.{
  find_term_by_id, course_prerequisites, find_row, assemble, find_section_by_id,
  explain_seat_failure, claim_seat, release_seat, adjust_waitlist_length, claimable, with_seat,
  releasable, without_seat, adjustable, with_length, update_sections,
}

-- The section is the row with its course and its blocks.
pub record Loaded (db : Db) (id : ℕ) (s : Section) : Type 0 where
  pub row : SectionRow
  pub course : Course
  pub meetings : List Meeting
  pub found : find_row id db.sections ≡ some row
  pub joined : s ≡ assemble row course meetings

pub find_term_by_id-ok :
    (id : ℕ) (env : Env) (db after : Db) {t : Term}
    → find_term_by_id id env db ≡ (ok t, after)
    → after ≡ db
unfolding find_term_by_id
find_term_by_id-ok id env db after h = ground arith

pub course_prerequisites-ok :
    (id : ℕ) (env : Env) (db after : Db) {codes : List (List ℕ)}
    → course_prerequisites id env db ≡ (ok codes, after)
    → after ≡ db
unfolding course_prerequisites
course_prerequisites-ok id env db after h = ground arith

pub find_section_by_id-ok :
    (id : ℕ) (env : Env) (db after : Db) {s : Section}
    → find_section_by_id id env db ≡ (ok s, after)
    → (after ≡ db) × Loaded db id s
unfolding find_section_by_id
find_section_by_id-ok id env db after {s} h = elim (Option-cases (find_row id db.sections)) [
  | inl absent ↦ absurd (ground arith)
  | inr (r, found) ↦ elim (Option-cases (find (λ c. c.id == r.course_id) db.courses)) [
    | inl absent ↦ absurd (ground arith)
    | inr (c, joined) ↦ (
      ground arith,
      record { row = r; course = c; meetings = s.meetings; found = found; joined = ground arith },
    )
  ]
]

-- No section is returned where the seat was refused.
explain_seat_failure-ok :
    (id version : ℕ) (env : Env) (db after : Db) {s : Section}
    → explain_seat_failure id version env db ≢ (ok s, after)
unfolding explain_seat_failure
explain_seat_failure-ok id version env db after h = ground arith

pub claim_seat-ok :
    (id version : ℕ) (at : Time) (env : Env) (db after : Db) {s : Section}
    → claim_seat id version at env db ≡ (ok s, after)
    → (after ≡ update_sections (claimable id version) (with_seat at) db) × Loaded after id s
unfolding claim_seat
claim_seat-ok id version at env db after {s} h =
    let db' = update_sections (claimable id version) (with_seat at) db in
    ground (
      arith,
      explain_seat_failure-ok id version env db' after {s = s},
      find_section_by_id-ok id env db' after {s = s},
    )

-- Some row passed the test.
pub claim_seat-counted :
    (id version : ℕ) (at : Time) (env : Env) (db after : Db) {s : Section}
    → claim_seat id version at env db ≡ (ok s, after)
    → count (claimable id version) db.sections ≢ 0
unfolding claim_seat
claim_seat-counted id version at env db after {s} h none_passed =
    let db' = update_sections (claimable id version) (with_seat at) db in
    ground (arith, explain_seat_failure-ok id version env db' after {s = s})

pub release_seat-ok :
    (id version : ℕ) (at : Time) (env : Env) (db after : Db) {s : Section}
    → release_seat id version at env db ≡ (ok s, after)
    → (after ≡ update_sections (releasable id version) (without_seat at) db) × Loaded after id s
unfolding release_seat
release_seat-ok id version at env db after {s} h =
    let db' = update_sections (releasable id version) (without_seat at) db in
    ground (arith, find_section_by_id-ok id env db' after {s = s})

pub adjust_waitlist_length-ok :
    (id : ℕ) (delta : ℤ) (at : Time) (env : Env) (db after : Db) {s : Section}
    → eqb_ℤ delta (pos 0) ≡ false
    → adjust_waitlist_length id delta at env db ≡ (ok s, after)
    → after ≡ update_sections (adjustable id delta) (with_length delta at) db
unfolding adjust_waitlist_length
adjust_waitlist_length-ok id delta at env db after {s} moves h =
    let db' = update_sections (adjustable id delta) (with_length delta at) db in
    ground (arith, find_section_by_id-ok id env db' after {s = s})

pub release_seat-counted :
    (id version : ℕ) (at : Time) (env : Env) (db after : Db) {s : Section}
    → release_seat id version at env db ≡ (ok s, after)
    → count (releasable id version) db.sections ≢ 0
unfolding release_seat
release_seat-counted id version at env db after {s} h none_passed = ground arith

pub adjust_waitlist_length-counted :
    (id : ℕ) (delta : ℤ) (at : Time) (env : Env) (db after : Db) {s : Section}
    → eqb_ℤ delta (pos 0) ≡ false
    → adjust_waitlist_length id delta at env db ≡ (ok s, after)
    → count (adjustable id delta) db.sections ≢ 0
unfolding adjust_waitlist_length
adjust_waitlist_length-counted id delta at env db after {s} moves h none_passed = ground arith
