-- ===== src/Domain/Identity.antt =====
-- internal/domain/identity.go: roles, users, sessions and the principal of a request. Identifiers
-- are naturals: an int64 that is not positive takes the branch of 0 wherever it is tested.
pub mod Access
use orientation_enrollment_p.Base.{
  ℕ, String, Bool, true, false, ◌&&◌, ◌||◌, Option, none, some, List, [], ◌∷◌, not, length, ◌+◌,
  any, if◌then◌else◌, ◌==◌,
}
use orientation_enrollment_p.Base.Text.{
  Text, codes, text_eq, is_empty, trim_space, to_lower, index_byte,
}
use orientation_enrollment_p.Base.Time.{Time, before}
use orientation_enrollment_p.Domain.Errors.{
  Error, sentinel, field_error, session_revoked, session_expired, Result, ok, err, ◌>>◌, fail_if,
}

pub data Role : Type 0 where
  student registrar : Role

abbrev pub role_eq : Role → Role → Bool
role_eq student student = true
role_eq registrar registrar = true
role_eq _ _ = false

-- `ParseRole`; `Role.Valid` is the test for the two names.
unfoldable pub parse_role : Text → Result Role
unfolding trim_space to_lower
parse_role raw =
    let role = to_lower (trim_space raw) in
    if text_eq role (codes "student")
    then ok student
    else if text_eq role (codes "registrar")
    then ok registrar
    else err (field_error "role" "must be student or registrar")

pub record User : Type 0 where
  pub id : ℕ
  pub email : Text
  pub display_name : Text
  pub role : Role
  pub password_hash : Text
  pub disabled : Bool
  pub created_at : Time
  pub updated_at : Time

-- strings.ContainsAny(email, " \t\r\n")
abbrev has_blank : Text → Bool
has_blank = any (λ c. (c == 32) || (c == 9) || (c == 13) || (c == 10))

-- at <= 0, where -1 is `none`
abbrev no_local_part : Option ℕ → Bool
no_local_part none = true
no_local_part (some i) = i == 0

abbrev ends_there : Option ℕ → ℕ → Bool
ends_there none n = false
ends_there (some i) n = (i + 1) == n

-- The tests of `NormalizeEmail` on the trimmed text in lower case.
unfoldable pub check_email : Text → Result Text
check_email email =
    let at = index_byte 64 email in
    if is_empty email
    then err (field_error "email" "must not be empty")
    else if no_local_part at || ends_there at (length email)
    then err (field_error "email" "must contain a local part and a domain")
    else if has_blank email
    then err (field_error "email" "must not contain whitespace")
    else ok email

unfoldable pub normalize_email : Text → Result Text
normalize_email raw = check_email (to_lower (trim_space raw))

pub record Session : Type 0 where
  pub id : ℕ
  pub user_id : ℕ
  pub token_digest : Text
  pub issued_at : Time
  pub expires_at : Time
  pub revoked_at : Option Time
  pub last_seen_at : Time
  pub user_agent : Text

abbrev pub is_some : {A : Type 0} → Option A → Bool
is_some none = false
is_some (some a) = true

unfoldable pub revoked : Session → Bool
revoked s = is_some s.revoked_at

unfoldable pub expired : Session → Time → Bool
expired s now = not (before now s.expires_at)

-- `Session.Validate`
unfoldable pub validate_session : Session → Time → Result (Unit {0})
unfolding revoked expired
validate_session s now =
    if revoked s
    then err (sentinel session_revoked)
    else if expired s now
    then err (sentinel session_expired)
    else ok tt

pub record Principal : Type 0 where
  pub user_id : ℕ
  pub session_id : ℕ
  pub email : Text
  pub display_name : Text
  pub role : Role

unfoldable pub is_registrar_role : Principal → Bool
is_registrar_role p = role_eq p.role registrar

unfoldable pub can_act_on_student : Principal → ℕ → Bool
can_act_on_student p student_id =
    if role_eq p.role registrar then true else role_eq p.role student && (p.user_id == student_id)
