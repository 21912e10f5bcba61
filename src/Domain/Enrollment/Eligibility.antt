-- ===== src/Domain/Enrollment/Eligibility.antt =====
-- The eligibility rules as one specification.
use orientation_enrollment_p.Base.{
  ℕ, true, false, ◌≡◌, refl, ◌∙◌, All-mem, ◌==◌, ◌↔◌, ◌⊎◌, inl, inr, ◌≤◌, ◌<◌, ◌+◌, arith, Option,
  some, none, List, [], ◌∷◌, All, Bool-cases,
}
use orientation_enrollment_p.Domain.Errors.{ok}
use orientation_enrollment_p.Domain.Catalog.{
  Section, Meeting, enrollment_open, accepts_enrollment, seats_available, overlaps,
  find_schedule_conflict,
}
use orientation_enrollment_p.Domain.Catalog.Schedule.{Fits, find_schedule_conflict_cases}
use orientation_enrollment_p.Domain.Registration.{is_verified, missing_prerequisites}
use orientation_enrollment_p.Domain.Registration.Prerequisites.{Met, missing_prerequisites-nil}
use orientation_enrollment_p.Domain.Enrollment.{
  EligibilityInput, EligibilityDecision, credit_load, check_duplicates,
  check_enrollment_eligibility, no_missing, no_conflict, decide_waitlist,
}
use orientation_enrollment_p.Domain.Enrollment.Credits.{Apart, check_duplicates_iff}

-- The credits of the term plan with the section added.
abbrev pub total_credits : EligibilityInput → ℕ
total_credits i = credit_load i.held_enrollments + i.section.course_credits

-- All that a claim must meet, whether it ends in a seat or on the waitlist.
pub record IsEligible (i : EligibilityInput) : Type 0 where
  pub window : enrollment_open i.term i.now ≡ true
  pub paperwork : is_verified i.registration ≡ true
  pub accepting : accepts_enrollment i.section ≡ true
  pub distinct : All (Apart i.section) i.held_enrollments
  pub prerequisites : All (Met i.completed_courses) i.course_prereqs
  pub credits : total_credits i ≤ i.term.credit_limit
  pub timetable : All (λ c. Fits c i.held_meetings) i.section.meetings

-- The decision fits the section: a seat while one is free, else a place on a waitlist with room.
pub record IsPlaced (s : Section) (d : EligibilityDecision) : Type 0 where
  pub seat : d.waitlist ≡ false → s.seats_taken < s.capacity
  pub place :
      d.waitlist ≡ true → (s.capacity ≤ s.seats_taken) × (s.waitlist_length < s.waitlist_limit)

no_missing_iff : (l : List (List ℕ)) → (no_missing l ≡ true) ↔ (l ≡ [])
no_missing_iff [] = (λ _. refl, λ _. refl)
no_missing_iff (c ∷ cs) = ground arith

no_conflict-ok : (o : Option (Meeting × Meeting)) → no_conflict o ≡ ok tt → o ≡ none
no_conflict-ok none h = refl
no_conflict-ok (some p) h = cc

conflict_free_iff :
    (candidate held : List Meeting)
    → (find_schedule_conflict candidate held ≡ none) ↔ All (λ c. Fits c held) candidate
conflict_free_iff candidate held = elim (find_schedule_conflict_cases candidate held) [
  | inl (clear, fits) ↦ (λ _. fits, λ _. clear)
  | inr (c, m, found, mem_c, mem_m, hit) ↦ (
    λ h. absurd (cc),
    λ fits.
        let free = All-mem (λ c. Fits c held) candidate fits mem_c in
        let clear = All-mem (λ h. overlaps c h ≡ false) held free mem_m in absurd (cc),
  )
]

-- The tests of the check, each with the answer that lets a claim through.
record Passes (i : EligibilityInput) : Type 0 where
  window : enrollment_open i.term i.now ≡ true
  paperwork : is_verified i.registration ≡ true
  accepting : accepts_enrollment i.section ≡ true
  distinct : check_duplicates i.section i.held_enrollments ≡ ok tt
  prerequisites : no_missing (missing_prerequisites i.course_prereqs i.completed_courses) ≡ true
  credits : total_credits i ≤ i.term.credit_limit
  timetable : find_schedule_conflict i.section.meetings i.held_meetings ≡ none

passes :
    (i : EligibilityInput) (d : EligibilityDecision)
    → check_enrollment_eligibility i ≡ ok d
    → Passes i × (decide_waitlist i.section (total_credits i) ≡ ok d)
unfolding check_enrollment_eligibility
passes i d h = ground arith

of_Passes :
    (i : EligibilityInput)
    → Passes i
    → check_enrollment_eligibility i ≡ decide_waitlist i.section (total_credits i)
unfolding check_enrollment_eligibility
of_Passes i p = ground arith

decide_waitlist-IsPlaced :
    (s : Section) (n : ℕ) (d : EligibilityDecision)
    → decide_waitlist s n ≡ ok d
    → IsPlaced s d × (d.credits_after ≡ n)
unfolding seats_available
decide_waitlist-IsPlaced s n d h = ground arith

-- A claim that the check lets through meets every rule: the window is open, the paperwork verified,
-- the section open, no duplicate is held, each prerequisite is passed, the credits stay within the
-- limit and no block collides; and it is placed as the section's counters allow.
pub eligibility_sound :
    (i : EligibilityInput) (d : EligibilityDecision)
    → check_enrollment_eligibility i ≡ ok d
    → IsEligible i × IsPlaced i.section d × (d.credits_after ≡ total_credits i)
eligibility_sound i d h =
    let (p, placed) = passes i d h in
    let (fits, after) = decide_waitlist-IsPlaced i.section _ d placed in
    (
      record {
        window = p.window;
        paperwork = p.paperwork;
        accepting = p.accepting;
        distinct = (check_duplicates_iff i.section i.held_enrollments).0 p.distinct;
        prerequisites =
            (missing_prerequisites-nil i.course_prereqs i.completed_courses).0
              ((no_missing_iff _).0 p.prerequisites);
        credits = p.credits;
        timetable = (conflict_free_iff i.section.meetings i.held_meetings).0 p.timetable;
      },
      fits,
      after,
    )

eligible-Passes : (i : EligibilityInput) → IsEligible i → Passes i
eligible-Passes i e = record {
  window = e.window;
  paperwork = e.paperwork;
  accepting = e.accepting;
  distinct = (check_duplicates_iff i.section i.held_enrollments).1 e.distinct;
  prerequisites =
      (no_missing_iff _).1
        ((missing_prerequisites-nil i.course_prereqs i.completed_courses).1 e.prerequisites);
  credits = e.credits;
  timetable = (conflict_free_iff i.section.meetings i.held_meetings).1 e.timetable;
}

placement :
    (s : Section) (n : ℕ)
    → (s.seats_taken < s.capacity) ⊎ (s.waitlist_length < s.waitlist_limit)
    → (d : EligibilityDecision) × (decide_waitlist s n ≡ ok d)
unfolding seats_available
placement s n room = elim (Bool-cases (seats_available s == 0)) [
  | inl full ↦ (record { waitlist = true; credits_after = n }, ground arith)
  | inr free ↦ (record { waitlist = false; credits_after = n }, ground arith)
]

-- Conversely, a claim that meets every rule is let through while the section has a free seat or room
-- on its waitlist.
pub eligibility_complete :
    (i : EligibilityInput)
    → IsEligible i
    → (i.section.seats_taken < i.section.capacity)
      ⊎ (i.section.waitlist_length < i.section.waitlist_limit)
    → (d : EligibilityDecision) × (check_enrollment_eligibility i ≡ ok d)
eligibility_complete i e room =
    let (d, placed) = placement i.section (total_credits i) room in
    (d, of_Passes i (eligible-Passes i e) ∙ placed)
