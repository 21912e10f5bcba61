-- ===== src/Storage/Enrollments/Contracts.antt =====
-- What the statements on seat claims do when they succeed.
use orientation_enrollment_p.Base.{
  ℕ, false, ◌≡◌, ◌≢◌, inl, inr, Option-cases, some, arith, find, any, count, ◌==◌,
}
use orientation_enrollment_p.Domain.Errors.{ok}
use orientation_enrollment_p.Domain.Enrollment.{Enrollment}
use orientation_enrollment_p.Storage.Db.{Db, Env}
use orientation_enrollment_p.Storage.Enrollments.{
  create_enrollment, update_enrollment, find_enrollment_by_id, next_waitlist_rank,
  insert_enrollment, same_claim, at_version, with_lifecycle, update_enrollments,
}

-- The row that was inserted, which no live claim on the seat precedes.
pub create_enrollment-ok :
    (e : Enrollment) (env : Env) (db after : Db) {c : Enrollment}
    → create_enrollment e env db ≡ (ok c, after)
    → (c ≡ record e { id = db.next_enrollment_id; version = 1 })
      × (after ≡ insert_enrollment c db)
      × (any (same_claim e) db.enrollments ≡ false)
unfolding create_enrollment
create_enrollment-ok e env db after h = ground arith

pub update_enrollment-ok :
    (e : Enrollment) (version : ℕ) (env : Env) (db after : Db) {c : Enrollment}
    → update_enrollment e version env db ≡ (ok c, after)
    → (after ≡ update_enrollments (at_version e.id version) (with_lifecycle e) db)
      × (count (at_version e.id version) db.enrollments ≢ 0)
unfolding update_enrollment
update_enrollment-ok e version env db after h = ground arith

pub find_enrollment_by_id-ok :
    (id : ℕ) (env : Env) (db after : Db) {e : Enrollment}
    → find_enrollment_by_id id env db ≡ (ok e, after)
    → (after ≡ db) × (find (λ r. r.id == id) db.enrollments ≡ some e)
unfolding find_enrollment_by_id
find_enrollment_by_id-ok id env db after h =
    elim (Option-cases (find (λ r. r.id == id) db.enrollments)) [
      | inl absent ↦ absurd (ground arith)
      | inr (r, found) ↦ ground arith
    ]

pub next_waitlist_rank-ok :
    (id : ℕ) (env : Env) (db after : Db) {n : ℕ}
    → next_waitlist_rank id env db ≡ (ok n, after)
    → after ≡ db
unfolding next_waitlist_rank
next_waitlist_rank-ok id env db after h = ground arith
