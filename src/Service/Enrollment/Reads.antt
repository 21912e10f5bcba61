-- ===== src/Service/Enrollment/Reads.antt =====
-- What a claim reads: nothing is written, and the section is the stored one.
use orientation_enrollment_p.Base.{ℕ, ◌≡◌, refl, ◌∙◌, ap, subst, arith, ◌==◌, ==_iff}
use orientation_enrollment_p.Domain.Errors.{Result, ok, err}
use orientation_enrollment_p.Domain.Catalog.{Section}
use orientation_enrollment_p.Domain.Enrollment.{EligibilityInput}
use orientation_enrollment_p.Storage.Db.{Db, Env, Tx}
use orientation_enrollment_p.Storage.Rules.{ReadOnly, >>=-read}
use orientation_enrollment_p.Storage.Rows.Keys.{find-passes}
use orientation_enrollment_p.Storage.Catalog.{
  section_meetings, find_section_by_id, find_term_by_id, course_prerequisites,
}
use orientation_enrollment_p.Storage.Enrollments.{
  find_enrollment_by_id, active_enrollments_for_student, active_meetings_for_student,
}
use orientation_enrollment_p.Storage.Registrations.{find_registration, student_academic_records}
use orientation_enrollment_p.Storage.Catalog.Contracts.{Loaded, find_section_by_id-ok}
use orientation_enrollment_p.Service.Rejections.{if_missing, or_default}
use orientation_enrollment_p.Service.Enrollment.Claim.{Request, blank_registration, claim_reads}

or_default-ReadOnly : {A : Type 0} (a : A) (r : Result A × Db) → (or_default a r).1 ≡ r.1
or_default-ReadOnly a (ok b, db) = refl
or_default-ReadOnly a (err e, db) = ground arith

pub if_missing-ReadOnly : {A : Type 0} (m : Tx A) (a : A) → ReadOnly m → ReadOnly (if_missing m a)
if_missing-ReadOnly m a reads env db = or_default-ReadOnly a (m env db) ∙ reads env db

find_registration-ReadOnly :
    (student_id term_id : ℕ) → ReadOnly (find_registration student_id term_id)
unfolding find_registration
find_registration-ReadOnly student_id term_id env db = ground arith

pub find_section_by_id-ReadOnly : (id : ℕ) → ReadOnly (find_section_by_id id)
unfolding find_section_by_id section_meetings
find_section_by_id-ReadOnly id env db = ground arith

pub find_enrollment_by_id-ReadOnly : (id : ℕ) → ReadOnly (find_enrollment_by_id id)
unfolding find_enrollment_by_id
find_enrollment_by_id-ReadOnly id env db = ground arith

pub find_term_by_id-ReadOnly : (id : ℕ) → ReadOnly (find_term_by_id id)
unfolding find_term_by_id
find_term_by_id-ReadOnly id env db = ground arith

course_prerequisites-ReadOnly : (id : ℕ) → ReadOnly (course_prerequisites id)
unfolding course_prerequisites
course_prerequisites-ReadOnly id env db = ground arith

records-ReadOnly : (id : ℕ) → ReadOnly (student_academic_records id)
unfolding student_academic_records
records-ReadOnly id env db = ground arith

held-ReadOnly :
    (student_id term_id : ℕ) → ReadOnly (active_enrollments_for_student student_id term_id)
unfolding active_enrollments_for_student
held-ReadOnly student_id term_id env db = ground arith

meetings-ReadOnly :
    (student_id term_id : ℕ) → ReadOnly (active_meetings_for_student student_id term_id)
unfolding active_meetings_for_student
meetings-ReadOnly student_id term_id env db = ground arith

-- A claim decides on stored rows, and writes nothing before it has decided.
pub claim_reads-ok :
    (req : Request) (env : Env) (db after : Db) {i : EligibilityInput}
    → claim_reads req env db ≡ (ok i, after)
    → (after ≡ db) × Loaded db req.section_id i.section
unfolding claim_reads
claim_reads-ok req env db after {i} h =
    >>=-read (find_section_by_id req.section_id) _ env db
      (find_section_by_id-ReadOnly req.section_id) h
      (λ s h1 k1.
        >>=-read (find_term_by_id s.term_id) _ env db (find_term_by_id-ReadOnly s.term_id) k1
          (λ t h2 k2.
            >>=-read
              (if_missing (find_registration req.student_id t.id)
                (blank_registration req.student_id t.id))
              _ env db (if_missing-ReadOnly _ _ (find_registration-ReadOnly req.student_id t.id)) k2
              (λ r h3 k3.
                >>=-read (course_prerequisites s.course_id) _ env db
                  (course_prerequisites-ReadOnly s.course_id) k3
                  (λ p h4 k4.
                    >>=-read (student_academic_records req.student_id) _ env db
                      (records-ReadOnly req.student_id) k4
                      (λ c h5 k5.
                        >>=-read (active_enrollments_for_student req.student_id t.id) _ env db
                          (held-ReadOnly req.student_id t.id) k5
                          (λ l h6 k6.
                            >>=-read (active_meetings_for_student req.student_id t.id) _ env db
                              (meetings-ReadOnly req.student_id t.id) k6
                              (λ m h7 k7.
                                let (same, loaded) =
                                  find_section_by_id-ok req.section_id env db db h1 in
                                let e : s ≡ i.section = ground arith in
                                (
                                  ground arith,
                                  subst (λ x. Loaded db req.section_id x) e loaded,
                                ))))))))

-- The key of a loaded section is the one asked for.
pub Loaded-id : (db : Db) (id : ℕ) (s : Section) → Loaded db id s → s.id ≡ id
Loaded-id db id s loaded =
    let key = find-passes (λ r. r.id == id) db.sections {x = loaded.row} loaded.found in
    ap (λ t. t.id) loaded.joined ∙ (==_iff loaded.row.id id).0 key
