-- ===== src/Domain/Registration/Prerequisites.antt =====
-- The prerequisite check.
use mathlib.Core.List.{Memᴰ, cons≢nil}
use mathlib.Core.Bool.{false≢true}
use orientation_enrollment_p.Base.{
  Bool, true, ◌≡◌, refl, sym, ◌∙◌, ◌↔◌, ◌⊎◌, inl, inr, arith, List, [], ◌∷◌, any, All, Bool-cases,
  ◌||◌,
}
use orientation_enrollment_p.Base.Text.{Text, is_empty, text_eq, text_eq_sound, text_eq_refl}
use orientation_enrollment_p.Domain.Registration.{
  AcademicRecord, passing, normal_code, passed_codes, missing_from, missing_prerequisites,
}

-- Some passing record is for the course.
abbrev pub HasPassed : List AcademicRecord → Text → Type 0
HasPassed completed code =
    (a : AcademicRecord) × Memᴰ a completed
    × (passing a ≡ true)
    × (normal_code a.course_code ≡ normal_code code)

passed_codes_sound :
    (completed : List AcademicRecord) (code : Text)
    → any (text_eq (normal_code code)) (passed_codes completed) ≡ true
    → HasPassed completed code
unfolding passed_codes
passed_codes_sound [] code h = absurd (false≢true h)
passed_codes_sound (a ∷ completed) code h = elim (Bool-cases (passing a)) [
  | inl p ↦ elim (Bool-cases (text_eq (normal_code code) (normal_code a.course_code))) [
    | inl same ↦ (
      a,
      Memᴰ.head refl,
      p,
      sym (text_eq_sound (normal_code code) (normal_code a.course_code) same),
    )
    | inr other ↦
        let (b, mem, pb, eb) = passed_codes_sound completed code (ground arith) in
        (b, Memᴰ.tail mem, pb, eb)
  ]
  | inr f ↦
      let (b, mem, pb, eb) = passed_codes_sound completed code (ground arith) in
      (b, Memᴰ.tail mem, pb, eb)
]

passed_codes_complete :
    (completed : List AcademicRecord) (code : Text) (a : AcademicRecord)
    → Memᴰ a completed
    → passing a ≡ true
    → normal_code a.course_code ≡ normal_code code
    → any (text_eq (normal_code code)) (passed_codes completed) ≡ true
unfolding passed_codes
passed_codes_complete [] code a mem p same = elim mem [ ]
passed_codes_complete (b ∷ completed) code a (Memᴰ.head e) p same =
    ground (arith, text_eq_refl (normal_code code))
passed_codes_complete (b ∷ completed) code a (Memᴰ.tail mem) p same =
    ground (arith, passed_codes_complete completed code a mem p same)

-- The required code is blank or passed.
abbrev pub Met : List AcademicRecord → Text → Type 0
Met completed code = (is_empty (normal_code code) ≡ true) ⊎ HasPassed completed code

abbrev is_met : List AcademicRecord → Text → Bool
is_met completed code =
    is_empty (normal_code code) || any (text_eq (normal_code code)) (passed_codes completed)

is_met_iff :
    (completed : List AcademicRecord) (code : Text)
    → (is_met completed code ≡ true) ↔ Met completed code
is_met_iff completed code = (
  λ h. elim (Bool-cases (is_empty (normal_code code))) [
    | inl e ↦ inl e
    | inr e ↦ inr (passed_codes_sound completed code (ground arith))
  ],
  elim [
    | inl e ↦ rw e
    | inr (a, mem, p, same) ↦
        let seen = passed_codes_complete completed code a mem p same in ground arith
  ],
)

missing_from-nil :
    (completed : List AcademicRecord) (required : List Text)
    → (missing_from (passed_codes completed) required ≡ []) ↔ All (Met completed) required
unfolding missing_from
missing_from-nil completed [] = (λ _. tt, λ _. refl)
missing_from-nil completed (code ∷ required) = elim (Bool-cases (is_met completed code)) [
  | inl e ↦ (
    λ h. ((is_met_iff completed code).0 e, (missing_from-nil completed required).0 (ground arith)),
    λ h. rw e ((missing_from-nil completed required).1 h.1),
  )
  | inr e ↦ (
    λ h. absurd (cons≢nil (rw e at h)),
    λ h. absurd (false≢true (sym e ∙ (is_met_iff completed code).1 h.0)),
  )
]

-- Nothing is missing exactly when each required code is blank or passed.
pub missing_prerequisites-nil :
    (required : List Text) (completed : List AcademicRecord)
    → (missing_prerequisites required completed ≡ []) ↔ All (Met completed) required
unfolding missing_prerequisites
missing_prerequisites-nil required completed = missing_from-nil completed required
