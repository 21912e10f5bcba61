-- ===== src/Storage/Audit.antt =====
-- The query of the trail in internal/storage/sqlite/audit.go.
use orientation_enrollment_p.Base.{
  ℕ, Bool, true, false, ◌&&◌, Option, none, some, [], ◌∷◌, leb, ◌==◌, if◌then◌else◌,
}
use orientation_enrollment_p.Base.Text.{Text, codes, text_eq, is_empty, trim_space}
use orientation_enrollment_p.Base.Time.{Time}
use orientation_enrollment_p.Domain.Audit.{
  AuditEvent, AuditFilter, ObjectId, number, word, action_name,
}
use orientation_enrollment_p.Domain.Query.{PageRequest, PageResult}
use orientation_enrollment_p.Storage.Timestamps.{stored_le, text_leb}
use orientation_enrollment_p.Storage.Db.{Tx}
use orientation_enrollment_p.Storage.Listing.{Query, ordered, listing}
use orientation_enrollment_p.Security.Decimal.{itoa}

-- The stored text of an object's identifier.
abbrev pub object_text : ObjectId → Text
object_text (number n) = itoa n
object_text (word t) = t

-- actor_user_id = ?, which NULL never passes
abbrev actor_matches : Option ℕ → Option ℕ → Bool
actor_matches none actor = true
actor_matches (some wanted) none = false
actor_matches (some wanted) (some actor) = actor == wanted

abbrev unless_blank : Text → Text → Bool
unless_blank wanted value = if is_empty wanted then true else text_eq value wanted

abbrev since_passes : Option Time → Time → Bool
since_passes none t = true
since_passes (some since) t = stored_le since t

abbrev pub event_passes : AuditFilter → AuditEvent → Bool
event_passes filter e =
    actor_matches filter.actor_user_id e.actor_user_id
    && (unless_blank (trim_space filter.action) (codes (action_name e.action))
        && (unless_blank (trim_space filter.object_type) e.object_type
            && (unless_blank (trim_space filter.object_id) (object_text e.object_id)
                && since_passes filter.since e.occurred_at)))

-- `auditSortColumns`
abbrev event_column_le : Text → AuditEvent → AuditEvent → Bool
event_column_le key d e =
    if text_eq key (codes "occurred_at")
    then stored_le d.occurred_at e.occurred_at
    else if text_eq key (codes "action")
    then text_leb (codes (action_name d.action)) (codes (action_name e.action))
    else leb d.id e.id

-- Ties are broken by the newest identifier.
abbrev pub events_query : AuditFilter → Query AuditEvent
events_query filter = record {
  rows = λ db. db.audit_events;
  where_clause = event_passes filter;
  order = λ direction key. ordered direction (event_column_le key) (λ d e. leb e.id d.id);
  sort_keys = codes "occurred_at" ∷ codes "action" ∷ codes "id" ∷ [];
  default_sort = codes "occurred_at";
}

-- `ListAuditEvents`
unfoldable pub list_audit_events : AuditFilter → PageRequest → Tx (PageResult AuditEvent)
list_audit_events filter request = listing (events_query filter) request
