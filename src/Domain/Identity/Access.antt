-- ===== src/Domain/Identity/Access.antt =====
-- Sessions and ownership: when a session authenticates, whom a principal may act on, and what a
-- normalised address looks like.
use orientation_enrollment_p.Base.{
  ℕ, true, false, ◌≡◌, ◌≢◌, ◌↔◌, ◌⊎◌, ◌<◌, none, arith, some, length, ◌+◌, inl, inr, [], ◌∷◌,
  Option-cases,
}
use orientation_enrollment_p.Base.Text.{Text, trim_space, to_lower, index_byte}
use orientation_enrollment_p.Base.Time.{Time}
use orientation_enrollment_p.Domain.Errors.{ok, err, sentinel, session_revoked}
use orientation_enrollment_p.Domain.Identity.{
  Session, Principal, validate_session, can_act_on_student, normalize_email, check_email, registrar,
  has_blank,
}

-- A session authenticates exactly when it has not been revoked and its lifetime has not elapsed;
-- a revoked session is reported as revoked, also when it has expired too.
pub validate_session_cases :
    (s : Session) (now : Time)
    → ((validate_session s now ≡ ok tt) ↔ ((s.revoked_at ≡ none) × (now < s.expires_at)))
      × ((validate_session s now ≡ err (sentinel session_revoked)) ↔ (s.revoked_at ≢ none))
unfolding validate_session
validate_session_cases s now = ground arith

-- A registrar may act on every student, a student on their own record and no other.
pub can_act_on_student_iff :
    (p : Principal) (id : ℕ)
    → (can_act_on_student p id ≡ true) ↔ ((p.role ≡ registrar) ⊎ (p.user_id ≡ id))
unfolding can_act_on_student
can_act_on_student_iff p id = ground arith

index_byte-lt : (b : ℕ) (s : Text) (i : ℕ) → index_byte b s ≡ some i → i < length s
unfolding index_byte
index_byte-lt b [] i h = ground arith
index_byte-lt b (c ∷ s) i h = elim (Option-cases (index_byte b s)) [
  | inl e ↦ ground arith
  | inr (j, e) ↦ ground (arith, index_byte-lt b s j e)
]

-- White space is absent, and an @ stands neither first nor last.
abbrev pub IsAddress : Text → Type 0
IsAddress e =
    (has_blank e ≡ false) × ((i : ℕ) × (index_byte 64 e ≡ some i) × (0 < i) × (i + 1 < length e))

check_email-ok : (email e : Text) → check_email email ≡ ok e → (e ≡ email) × IsAddress email
unfolding check_email
check_email-ok email e h = elim (Option-cases (index_byte 64 email)) [
  | inl absent ↦ ground arith
  | inr (i, at) ↦ (
    ground arith,
    (ground arith, (i, at, ground arith, ground (arith, index_byte-lt 64 email i at))),
  )
]

-- An accepted address is the trimmed input in lower case; it holds no white space, and its first @
-- is neither its first nor its last byte.
pub normalize_email-ok :
    (raw e : Text) → normalize_email raw ≡ ok e → (e ≡ to_lower (trim_space raw)) × IsAddress e
unfolding normalize_email
normalize_email-ok raw e h =
    let (same, address) = check_email-ok (to_lower (trim_space raw)) e h in (same, rw same address)
