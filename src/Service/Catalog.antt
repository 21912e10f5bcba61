-- ===== src/Service/Catalog.antt =====
-- internal/service/catalog.go: the read side of terms, sections and the trail.
pub mod Reads
use orientation_enrollment_p.Base.{
  ℕ, Bool, true, false, Option, none, some, List, [], ◌∷◌, ◌==◌, find,
}
use orientation_enrollment_p.Base.Time.{Time}
use orientation_enrollment_p.Domain.Errors.{
  Error, Result, sentinel, wrapped, field_error, not_found, ok, err,
}
use orientation_enrollment_p.Domain.Identity.{Principal, is_registrar_role, registrar}
use orientation_enrollment_p.Domain.Audit.{AuditEvent, AuditFilter}
use orientation_enrollment_p.Domain.Catalog.{Term, Section, enrollment_open}
use orientation_enrollment_p.Domain.Catalog.Display.{sort_meetings}
use orientation_enrollment_p.Domain.Enrollment.{Enrollment}
use orientation_enrollment_p.Domain.Query.{PageRequest, PageResult}
use orientation_enrollment_p.Storage.Db.{Tx, pure, raise, lift, clock, ◌>>=◌, ◌>>◌, raise_if}
use orientation_enrollment_p.Storage.Catalog.{find_section_by_id}
use orientation_enrollment_p.Storage.Catalog.Listing.{SectionFilter, list_terms, list_sections}
use orientation_enrollment_p.Storage.Enrollments.Listing.{section_roster}
use orientation_enrollment_p.Storage.Audit.{list_audit_events}
use orientation_enrollment_p.Service.Auth.{with_context}
use orientation_enrollment_p.Service.Rejections.{require_role}

-- `ListTerms`
unfoldable pub visible_terms : Principal → Tx (List Term)
visible_terms actor = list_terms (is_registrar_role actor)

-- The term whose window is open, else the first one.
abbrev pub or_first : Option Term → List Term → Tx Term
or_first (some t) terms = pure t
or_first none [] = raise (wrapped (sentinel not_found))
or_first none (t ∷ terms) = pure t

-- `CurrentTerm`
unfoldable pub current_term : Tx Term
current_term = do
  terms ← list_terms false
  now ← clock
  or_first (find (λ t. enrollment_open t now) terms) terms

-- `ListSections`
unfoldable pub browse_sections : SectionFilter → PageRequest → Tx (PageResult Section)
browse_sections filter request = list_sections filter request

-- `GetSection`
unfoldable pub get_section : ℕ → Tx Section
get_section section_id = do
  raise_if (section_id == 0) (field_error "section_id" "must be a positive identifier")
  section ← find_section_by_id section_id
  pure (record section { meetings = sort_meetings section.meetings })

-- `SectionRoster`
unfoldable pub roster : Principal → ℕ → PageRequest → Tx (PageResult Enrollment)
roster actor section_id page = do
  lift (with_context (require_role actor registrar))
  section ← find_section_by_id section_id
  section_roster section_id page

-- `ListAuditEvents`
unfoldable pub audit_trail : Principal → AuditFilter → PageRequest → Tx (PageResult AuditEvent)
audit_trail actor filter page = do
  lift (with_context (require_role actor registrar))
  list_audit_events filter page
