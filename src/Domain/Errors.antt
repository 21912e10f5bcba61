-- ===== src/Domain/Errors.antt =====
-- internal/domain/errors.go: the error values and `Code`. The text of a wrapping message is left
-- out; what `errors.Is` and `Code` look at is kept. Beside the domain's sentinels stand those of
-- package context and `sql.ErrNoRows`, which callers test for.
pub mod Codes
use orientation_enrollment_p.Base.{ℕ, String, Bool, true, false, ◌||◌, if◌then◌else◌, ◌==◌}
use orientation_enrollment_p.Base.Text.{Text}

pub data Sentinel : Type 0 where
  validation not_found conflict unauthenticated session_expired session_revoked : Sentinel
  forbidden invalid_transition window_closed registration_incomplete : Sentinel
  prerequisite_missing credit_limit_exceeded schedule_conflict capacity_exhausted : Sentinel
  waitlist_full duplicate_enrollment version_conflict idempotency_mismatch : Sentinel
  job_permanently_failed migration_drift : Sentinel
  canceled deadline_exceeded no_rows : Sentinel

-- Sentinels are compared by identity.
unfoldable pub tag : Sentinel → ℕ
tag validation = 0
tag not_found = 1
tag conflict = 2
tag unauthenticated = 3
tag session_expired = 4
tag session_revoked = 5
tag forbidden = 6
tag invalid_transition = 7
tag window_closed = 8
tag registration_incomplete = 9
tag prerequisite_missing = 10
tag credit_limit_exceeded = 11
tag schedule_conflict = 12
tag capacity_exhausted = 13
tag waitlist_full = 14
tag duplicate_enrollment = 15
tag version_conflict = 16
tag idempotency_mismatch = 17
tag job_permanently_failed = 18
tag migration_drift = 19
tag canceled = 20
tag deadline_exceeded = 21
tag no_rows = 22

-- `wrapped` is `fmt.Errorf` with `%w`, `joined` is `errors.Join`, and `opaque` an error that
-- carries no sentinel, such as a driver's.
pub data Error : Type 0 where
  sentinel : Sentinel → Error
  field_error : String → String → Error
  transition_error : String → String → String → Error
  conflict_error : Error → Text → Text → Error
  wrapped : Error → Error
  joined : Error → Error → Error
  opaque : Error

-- errors.Is, through the `Unwrap` methods
unfoldable pub is : Error → Sentinel → Bool
unfolding tag
is (sentinel s) k = tag s == tag k
is (field_error field reason) k = tag validation == tag k
is (transition_error entity from to) k = tag invalid_transition == tag k
is (conflict_error kind subject colliding) k = is kind k
is (wrapped e) k = is e k
is (joined d e) k = is d k || is e k
is opaque k = false

-- The business codes, as the strings that `Code` returns name them.
pub data ErrorCode : Type 0 where
  session_expired session_revoked unauthenticated forbidden not_found : ErrorCode
  enrollment_window_closed registration_incomplete prerequisite_missing : ErrorCode
  credit_limit_exceeded schedule_conflict capacity_exhausted waitlist_full : ErrorCode
  duplicate_enrollment idempotency_mismatch version_conflict invalid_transition : ErrorCode
  migration_drift job_permanently_failed validation_failed conflict internal_error : ErrorCode

-- `Code` of an error that is not nil.
unfoldable pub error_code : Error → ErrorCode
unfolding is
error_code err =
    if is err Sentinel.session_expired
    then ErrorCode.session_expired
    else if is err Sentinel.session_revoked
    then ErrorCode.session_revoked
    else if is err Sentinel.unauthenticated
    then ErrorCode.unauthenticated
    else if is err Sentinel.forbidden
    then ErrorCode.forbidden
    else if is err Sentinel.not_found
    then ErrorCode.not_found
    else if is err window_closed
    then enrollment_window_closed
    else if is err Sentinel.registration_incomplete
    then ErrorCode.registration_incomplete
    else if is err Sentinel.prerequisite_missing
    then ErrorCode.prerequisite_missing
    else if is err Sentinel.credit_limit_exceeded
    then ErrorCode.credit_limit_exceeded
    else if is err Sentinel.schedule_conflict
    then ErrorCode.schedule_conflict
    else if is err Sentinel.capacity_exhausted
    then ErrorCode.capacity_exhausted
    else if is err Sentinel.waitlist_full
    then ErrorCode.waitlist_full
    else if is err Sentinel.duplicate_enrollment
    then ErrorCode.duplicate_enrollment
    else if is err Sentinel.idempotency_mismatch
    then ErrorCode.idempotency_mismatch
    else if is err Sentinel.version_conflict
    then ErrorCode.version_conflict
    else if is err Sentinel.invalid_transition
    then ErrorCode.invalid_transition
    else if is err Sentinel.migration_drift
    then ErrorCode.migration_drift
    else if is err Sentinel.job_permanently_failed
    then ErrorCode.job_permanently_failed
    else if is err validation
    then validation_failed
    else if is err Sentinel.conflict
    then ErrorCode.conflict
    else internal_error

-- The result pair `(value, error)`, of which one part counts.
pub data Result {ℓ} (A : Type ℓ) : Type ℓ where
  err : Error → Result A
  ok : A → Result A

-- `if test { return err }`
abbrev pub fail_if : Bool → Error → Result (Unit {0})
fail_if test e = if test then err e else ok tt

-- `if err != nil { return err }` between a call and the rest.
module _ {ℓ κ} {A : Type ℓ} {B : Type κ} where
  infixl 5 ◌>>=◌ ◌>>◌
  abbrev pub ◌>>=◌ : Result A → (A → Result B) → Result B
  err e >>= rest = err e
  ok a >>= rest = rest a

  abbrev pub ◌>>◌ : Result A → Result B → Result B
  check >> rest = check >>= λ _. rest
