-- ===== src/Domain/Audit.antt =====
-- internal/domain/audit.go: the audit trail. The `Detail` text and the request identifier of an
-- event are left out.
use orientation_enrollment_p.Base.{ℕ, Option, String}
use orientation_enrollment_p.Base.Text.{Text, is_empty, trim_space}
use orientation_enrollment_p.Base.Time.{Time}
use orientation_enrollment_p.Domain.Errors.{Result, field_error, fail_if}
use orientation_enrollment_p.Domain.Identity.{Role}

pub data AuditAction : Type 0 where
  login logout session_swept registration_submit registration_decide : AuditAction
  enrollment_claim enrollment_waitlist enrollment_drop enrollment_promote job_failed : AuditAction

-- The three constants; the type admits no other result, so the last check of `Validate` holds.
pub data AuditResult : Type 0 where
  success rejected failure : AuditResult

-- A number printed in decimal, or a fixed word.
pub data ObjectId : Type 0 where
  number : ℕ → ObjectId
  word : Text → ObjectId

pub record AuditEvent : Type 0 where
  pub id : ℕ
  pub actor_user_id : Option ℕ
  pub actor_role : Option Role
  pub action : AuditAction
  pub object_type : Text
  pub object_id : ObjectId
  pub result : AuditResult
  pub occurred_at : Time

-- `AuditEvent.Validate`; the name of an action is never blank.
unfoldable pub validate_event : AuditEvent → Result (Unit {0})
validate_event e =
    fail_if (is_empty (trim_space e.object_type))
      (field_error "audit.object_type" "must not be empty")

-- The constants' texts.
abbrev pub action_name : AuditAction → String
action_name login = "auth.login"
action_name logout = "auth.logout"
action_name session_swept = "auth.session_swept"
action_name registration_submit = "registration.submit"
action_name registration_decide = "registration.decide"
action_name enrollment_claim = "enrollment.claim"
action_name enrollment_waitlist = "enrollment.waitlist"
action_name enrollment_drop = "enrollment.drop"
action_name enrollment_promote = "enrollment.promote"
action_name job_failed = "job.permanently_failed"

-- `AuditFilter` without its page.
pub record AuditFilter : Type 0 where
  pub actor_user_id : Option ℕ
  pub action : Text
  pub object_type : Text
  pub object_id : Text
  pub since : Option Time
