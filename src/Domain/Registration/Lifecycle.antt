-- ===== src/Domain/Registration/Lifecycle.antt =====
-- The paperwork state machine: which moves `Submit` and `Decide` make, and what they write.
use orientation_enrollment_p.Base.{ℕ, true, false, ◌≡◌, refl, ◌≢◌, ◌↔◌, ◌⊎◌, arith, none, some, []}
use orientation_enrollment_p.Base.Text.{Text, is_empty}
use orientation_enrollment_p.Base.Time.{Time}
use orientation_enrollment_p.Domain.Errors.{ok}
use orientation_enrollment_p.Domain.Registration.{
  RegistrationStatus, Registration, draft, submitted, verified, rejected, can_transition_to,
  validate_submission, submit, decide,
}

-- A move of the state machine.
infix 40 ◌⟶◌
pub data ◌⟶◌ : RegistrationStatus → RegistrationStatus → Type 0 where
  hand_in : draft ⟶ submitted
  accept : submitted ⟶ verified
  refuse : submitted ⟶ rejected
  retry : rejected ⟶ submitted

ruleset moves = (hand_in, accept, refuse, retry)

-- The transition table allows exactly the four moves of the diagram.
pub can_transition_to_iff : (s t : RegistrationStatus) → (can_transition_to s t ≡ true) ↔ (s ⟶ t)
unfolding can_transition_to
can_transition_to_iff s t = (λ h. grind (arith, moves), to s t)
  where
    to : (s t : RegistrationStatus) → s ⟶ t → can_transition_to s t ≡ true
    to _ _ hand_in = refl
    to _ _ accept = refl
    to _ _ refuse = refl
    to _ _ retry = refl

-- A submission goes through only from draft or rejected paperwork with a valid payload; it then
-- holds the time of submission and no trace of an earlier decision.
pub submit-ok :
    (r q : Registration) (now : Time)
    → submit r now ≡ ok q
    → ((r.status ≡ draft) ⊎ (r.status ≡ rejected))
      × (validate_submission r ≡ ok tt)
      × (q.status ≡ submitted)
      × (q.submitted_at ≡ some now)
      × (q.decided_at ≡ none)
      × (q.decided_by_user_id ≡ none)
      × (q.decision_note ≡ [])
unfolding submit
submit-ok r q now h = ground arith

-- A decision goes through only on submitted paperwork; it verifies or rejects, names who decided
-- and when, and a rejection carries an explanation that is not blank.
pub decide-ok :
    (r q : Registration) (target : RegistrationStatus) (by : ℕ) (note : Text) (now : Time)
    → decide r target by note now ≡ ok q
    → (r.status ≡ submitted)
      × (q.status ≡ target)
      × ((target ≡ verified) ⊎ ((target ≡ rejected) × (is_empty q.decision_note ≡ false)))
      × (q.decided_by_user_id ≡ some by)
      × (q.decided_at ≡ some now)
      × (q.submitted_at ≡ r.submitted_at)
unfolding decide
decide-ok r q target by note now h = ground arith

-- Verified paperwork is final: it can be neither submitted again nor decided again, whatever the
-- payload, the target and the registrar.
pub verified_final :
    (r q : Registration) (target : RegistrationStatus) (by : ℕ) (note : Text) (now : Time)
    → r.status ≡ verified
    → (submit r now ≢ ok q) × (decide r target by note now ≢ ok q)
unfolding submit decide
verified_final r q target by note now h = ground arith
