-- ===== src/Storage/Consistency.antt =====
-- The counters of a section against the seat claims: what the tables of seats keep to.
pub mod Steps
use orientation_enrollment_p.Base.{ℕ, Bool, ◌&&◌, ◌≡◌, ◌<◌, ◌≤◌, ◌==◌, some, count, All, arith}
use orientation_enrollment_p.Domain.Enrollment.{Enrollment, holds_seat}
use orientation_enrollment_p.Storage.Db.{Db, SectionRow}
use orientation_enrollment_p.Storage.Catalog.{find_row}
use orientation_enrollment_p.Storage.Catalog.Counters.{WithinLimits}
use orientation_enrollment_p.Storage.Enrollments.{waits_in}

-- A claim that holds a seat of the section.
abbrev pub seated_in : ℕ → Enrollment → Bool
seated_in id e = e.section_id == id && holds_seat e.status

-- Keys are unique, no section is beyond its limits, and its counters count its claims.
pub record Consistent (db : Db) : Type 0 where
  pub one_section : (id : ℕ) → count (λ r. r.id == id) db.sections ≤ 1
  pub one_enrollment : (id : ℕ) → count (λ e. e.id == id) db.enrollments ≤ 1
  pub fresh : All (λ e. e.id < db.next_enrollment_id) db.enrollments
  pub limits : All WithinLimits db.sections
  pub seats :
      (id : ℕ) (r : SectionRow)
      → find_row id db.sections ≡ some r
      → r.seats_taken ≡ count (seated_in id) db.enrollments
  pub waitlist :
      (id : ℕ) (r : SectionRow)
      → find_row id db.sections ≡ some r
      → r.waitlist_length ≡ count (waits_in id) db.enrollments
