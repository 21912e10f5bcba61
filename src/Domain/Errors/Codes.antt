-- ===== src/Domain/Errors/Codes.antt =====
-- What `Code` says of an error chain.
use orientation_enrollment_p.Base.{◌≡◌, ◌==◌}
use orientation_enrollment_p.Domain.Errors.{
  Sentinel, Error, ErrorCode, tag, is, error_code, validation, window_closed,
  enrollment_window_closed, validation_failed, internal_error, canceled, deadline_exceeded, no_rows,
}

-- The code of each sentinel; those of the standard library have none of their own.
abbrev pub code_of : Sentinel → ErrorCode
code_of Sentinel.session_expired = ErrorCode.session_expired
code_of Sentinel.session_revoked = ErrorCode.session_revoked
code_of Sentinel.unauthenticated = ErrorCode.unauthenticated
code_of Sentinel.forbidden = ErrorCode.forbidden
code_of Sentinel.not_found = ErrorCode.not_found
code_of window_closed = enrollment_window_closed
code_of Sentinel.registration_incomplete = ErrorCode.registration_incomplete
code_of Sentinel.prerequisite_missing = ErrorCode.prerequisite_missing
code_of Sentinel.credit_limit_exceeded = ErrorCode.credit_limit_exceeded
code_of Sentinel.schedule_conflict = ErrorCode.schedule_conflict
code_of Sentinel.capacity_exhausted = ErrorCode.capacity_exhausted
code_of Sentinel.waitlist_full = ErrorCode.waitlist_full
code_of Sentinel.duplicate_enrollment = ErrorCode.duplicate_enrollment
code_of Sentinel.idempotency_mismatch = ErrorCode.idempotency_mismatch
code_of Sentinel.version_conflict = ErrorCode.version_conflict
code_of Sentinel.invalid_transition = ErrorCode.invalid_transition
code_of Sentinel.migration_drift = ErrorCode.migration_drift
code_of Sentinel.job_permanently_failed = ErrorCode.job_permanently_failed
code_of validation = validation_failed
code_of Sentinel.conflict = ErrorCode.conflict
code_of canceled = internal_error
code_of deadline_exceeded = internal_error
code_of no_rows = internal_error

-- An error whose chain, wrapped and joined in any way, reaches one sentinel and no other is
-- reported under that sentinel's code.
pub error_code-chain :
    (err : Error) (s : Sentinel)
    → ((k : Sentinel) → is err k ≡ (tag s == tag k))
    → error_code err ≡ code_of s
unfolding error_code tag
error_code-chain err Sentinel.session_expired only = simp only
error_code-chain err _ only = simp only
