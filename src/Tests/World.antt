-- ===== src/Tests/World.antt =====
-- A small university: one term, one course, one section with two seats, and who claims them.
use orientation_enrollment_p.Base.{ℕ, false, none, some, List, [], ◌∷◌}
use orientation_enrollment_p.Base.Text.{codes}
use orientation_enrollment_p.Domain.Errors.{Result, ok, err}
use orientation_enrollment_p.Domain.Identity.{Principal, Role}
use orientation_enrollment_p.Domain.Catalog.{Term, Course, Section, opened}
use orientation_enrollment_p.Domain.Registration.{Registration, verified}
use orientation_enrollment_p.Domain.Enrollment.{Enrollment, EnrollmentStatus, enrolled, waitlisted}
use orientation_enrollment_p.Domain.Job.{Job, JobState, promote_waitlist, section}
use orientation_enrollment_p.Storage.Db.{Db, Env, SectionRow}
use orientation_enrollment_p.Storage.Catalog.{assemble}
use orientation_enrollment_p.Service.Enrollment.Claim.{Request, ClaimResult}

abbrev pub autumn : Term
autumn = record {
  id = 1;
  code = codes "2025F";
  name = codes "Autumn";
  enrollment_opens_at = 100;
  enrollment_closes_at = 200;
  add_drop_closes_at = 300;
  credit_limit = 18;
  archived = false;
}

abbrev pub algebra : Course
algebra = record {
  id = 1;
  code = codes "MA101";
  title = codes "Algebra";
  credits = 4;
  department = codes "MA";
  prerequisites = [];
  retired = false;
}

abbrev pub row_with : ℕ → ℕ → SectionRow
row_with seats waiting = record {
  id = 1;
  term_id = 1;
  course_id = 1;
  code = codes "A";
  status = opened;
  capacity = 2;
  seats_taken = seats;
  waitlist_limit = 2;
  waitlist_length = waiting;
  instructor = [];
  version = 1;
  updated_at = 0;
}

abbrev pub paperwork : ℕ → Registration
paperwork student_id = record {
  id = student_id;
  student_id = student_id;
  term_id = 1;
  status = verified;
  program_code = codes "CS";
  advisor_email = codes "a@b";
  dorm_preference = codes "undecided";
  submitted_at = some 1;
  decided_at = some 2;
  decided_by_user_id = some 9;
  decision_note = [];
  version = 2;
  created_at = 1;
  updated_at = 2;
}

abbrev pub claim_of : ℕ → ℕ → EnrollmentStatus → ℕ → Enrollment
claim_of id student_id status rank = record {
  id = id;
  student_id = student_id;
  term_id = 1;
  section_id = 1;
  course_code = codes "MA101";
  credits = 4;
  status = status;
  waitlist_rank = rank;
  requested_at = 110;
  decided_at = some 110;
  released_at = none;
  release_reason = [];
  version = 1;
  created_at = 110;
  updated_at = 110;
}

abbrev pub job_of : ℕ → JobState → ℕ → Job
job_of id state attempts = record {
  id = id;
  kind = promote_waitlist;
  payload = section 1;
  state = state;
  attempts = attempts;
  max_attempts = 5;
  failed_before = false;
  run_after = 100;
  locked_at = some 100;
  locked_by = codes "w";
  created_at = 100;
  updated_at = 100;
}

abbrev pub tables : SectionRow → List Enrollment → List Job → Db
tables row claims jobs = record {
  users = [];
  sessions = [];
  terms = autumn ∷ [];
  courses = algebra ∷ [];
  sections = row ∷ [];
  meetings = [];
  registrations = paperwork 5 ∷ paperwork 6 ∷ [];
  academic_records = [];
  enrollments = claims;
  jobs = jobs;
  audit_events = [];
  idempotency_keys = [];
  next_user_id = 10;
  next_session_id = 1;
  next_registration_id = 7;
  next_enrollment_id = 10;
  next_job_id = 10;
  next_audit_id = 1;
}

abbrev pub noon : Env
noon = record { fault = λ s db. none; now = 150 }

abbrev pub ada : Principal
ada = record {
  user_id = 5;
  session_id = 1;
  email = codes "ada@b";
  display_name = [];
  role = Role.student;
}

abbrev pub request : Request
request = record { student_id = 5; section_id = 1 }

-- One seat taken, one student waiting.
abbrev pub busy : Db
busy = tables (row_with 1 1) (claim_of 2 7 waitlisted 1 ∷ claim_of 1 8 enrolled 0 ∷ []) []

abbrev pub value_or : {A : Type 0} → A → Result A → A
value_or d (ok a) = a
value_or d (err e) = d

abbrev pub seen : Section
seen = assemble (row_with 1 1) algebra []

abbrev pub no_result : ClaimResult
no_result = record { enrollment = claim_of 0 0 waitlisted 0; section = seen; waitlisted = false }
