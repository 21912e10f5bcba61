-- ===== src/Domain/Enrollment/Lifecycle.antt =====
-- The seat lifecycle: the moves of `Transition`, and what they mean for the seat counter.
use orientation_enrollment_p.Base.{
  true, false, ◌≡◌, refl, sym, ◌∙◌, Bool-cases, ◌↔◌, ◌⊎◌, inl, inr, arith,
}
use mathlib.Core.Bool.{false≢true}
use orientation_enrollment_p.Base.Int.{pos, negsuc}
use orientation_enrollment_p.Base.Text.{Text}
use orientation_enrollment_p.Base.Time.{Time}
use orientation_enrollment_p.Domain.Errors.{ok, err, Error, transition_error}
use orientation_enrollment_p.Domain.Enrollment.{
  EnrollmentStatus, Enrollment, pending, enrolled, waitlisted, dropped, withdrawn, completed,
  terminal, active, can_transition_to, transition, seat_delta, stamp_for, status_name,
}

-- A move of the lifecycle.
infix 40 ◌⟶◌ ◌⟶*◌
pub data ◌⟶◌ : EnrollmentStatus → EnrollmentStatus → Type 0 where
  seat : pending ⟶ enrolled
  queue : pending ⟶ waitlisted
  cancel : pending ⟶ withdrawn
  drop : enrolled ⟶ dropped
  finish : enrolled ⟶ completed
  promote : waitlisted ⟶ enrolled
  leave : waitlisted ⟶ withdrawn

ruleset moves = (seat, queue, cancel, drop, finish, promote, leave)

-- Any number of moves.
pub data ◌⟶*◌ (s : EnrollmentStatus) : EnrollmentStatus → Type 0 where
  here : s ⟶* s
  next : {t u : EnrollmentStatus} → s ⟶* t → t ⟶ u → s ⟶* u

-- The table of the source holds exactly these moves.
can_transition_to_iff : (s t : EnrollmentStatus) → (can_transition_to s t ≡ true) ↔ (s ⟶ t)
unfolding can_transition_to
can_transition_to_iff s t = (λ h. grind (arith, moves), to)
  where
    to : {s t : EnrollmentStatus} → s ⟶ t → can_transition_to s t ≡ true
    to seat = refl
    to queue = refl
    to cancel = refl
    to drop = refl
    to finish = refl
    to promote = refl
    to leave = refl

-- `Transition` succeeds exactly along the seven moves of the diagram: a result has the target
-- status, and an error is returned where the diagram has no such move.
pub transition_moves :
    (e : Enrollment) (target : EnrollmentStatus) (now : Time) (reason : Text)
    → ((q : Enrollment) × (transition e target now reason ≡ ok q)
        × (q.status ≡ target)
        × (e.status ⟶ target))
      ⊎ ((x : Error) × (transition e target now reason ≡ err x) × (¬ (e.status ⟶ target)))
unfolding transition
transition_moves e target now reason = elim (Bool-cases (can_transition_to e.status target)) [
  | inl yes_move ↦ inl (
    record (stamp_for target e now reason) { status = target; updated_at = now },
    rw yes_move,
    refl,
    (can_transition_to_iff e.status target).0 yes_move,
  )
  | inr no_move ↦ inr (
    transition_error "enrollment" (status_name e.status) (status_name target),
    rw no_move,
    λ move. false≢true (sym no_move ∙ (can_transition_to_iff e.status target).1 move),
  )
]

-- A record that has left the term plan stays out of it: no sequence of moves leads from a status
-- that is not active to one that is, and a terminal status allows no move.
pub inactive_final :
    (s t : EnrollmentStatus) → active s ≡ false → s ⟶* t → (t ≡ s) × (terminal s ≡ true)
unfolding active terminal
inactive_final s _ h here = (refl, ground arith)
inactive_final s u h (next {t = t} r move) =
    let (same, _) = inactive_final s t h r in absurd (no_move (rw same h) move)
  where
    no_move : {a b : EnrollmentStatus} → active a ≡ false → ¬ (a ⟶ b)
    no_move e seat = cc
    no_move e queue = cc
    no_move e cancel = cc
    no_move e drop = cc
    no_move e finish = cc
    no_move e promote = cc
    no_move e leave = cc

-- Along a move of the lifecycle a seat is taken exactly by entering `enrolled` from a status without
-- a seat and given back exactly by entering `dropped`.
pub seat_delta_moves :
    {s t : EnrollmentStatus}
    → s ⟶ t
    → ((seat_delta s t ≡ pos 1) ↔ (t ≡ enrolled)) × ((seat_delta s t ≡ negsuc 0) ↔ (t ≡ dropped))
unfolding seat_delta
seat_delta_moves seat = ground arith
seat_delta_moves queue = ground arith
seat_delta_moves cancel = ground arith
seat_delta_moves drop = ground arith
seat_delta_moves finish = ground arith
seat_delta_moves promote = ground arith
seat_delta_moves leave = ground arith
