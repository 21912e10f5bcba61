-- ===== src/Tests/Records.antt =====
-- The theorems on listings, reads and paperwork at concrete inputs.
use orientation_enrollment_p.Base.{
  ℕ, true, false, ◌≡◌, ◌≢◌, refl, none, some, List, [], ◌∷◌, find, keep, count, All, arith, ◌==◌,
  ◌&&◌, not,
}
use orientation_enrollment_p.Base.Sort.{order_by}
use orientation_enrollment_p.Base.Text.{codes}
use orientation_enrollment_p.Domain.Errors.{err, wrapped, sentinel, forbidden}
use orientation_enrollment_p.Domain.Audit.{AuditFilter}
use orientation_enrollment_p.Domain.Catalog.{enrollment_open}
use orientation_enrollment_p.Domain.Enrollment.{Enrollment, enrolled, waitlisted, dropped}
use orientation_enrollment_p.Domain.Registration.{verified}
use orientation_enrollment_p.Domain.Query.{PageRequest, Page, PageResult, ascending}
use orientation_enrollment_p.Storage.Db.{Db}
use orientation_enrollment_p.Storage.Enrollments.Listing.{
  EnrollmentFilter, passes, enrollment_order, list_enrollments,
}
use orientation_enrollment_p.Storage.Listing.Walks.{walk}
use orientation_enrollment_p.Storage.Transactions.{in_tx}
use orientation_enrollment_p.Service.Enrollment.Lookup.{visible_enrollments}
use orientation_enrollment_p.Service.Enrollment.Visibility.{
  visible_enrollments-own, list_enrollments-walk,
}
use orientation_enrollment_p.Service.Registration.{
  DecideInput, decide_once, registration_queue, decide_registration,
}
use orientation_enrollment_p.Service.Registration.Finality.{
  Filed, KeepsVerified, no_papers, then_decide, Papers-final,
}
use orientation_enrollment_p.Service.Catalog.{roster, audit_trail, current_term}
use orientation_enrollment_p.Service.Catalog.Reads.{registrar_only, current_term_open}
use orientation_enrollment_p.Tests.World.{
  tables, row_with, claim_of, autumn, noon, ada, busy, value_or,
}

-- Two claims of Ada's and one of somebody else.
abbrev claimed : Db
claimed =
    tables (row_with 1 1)
      (claim_of 3 5 dropped 0 ∷ claim_of 2 5 waitlisted 1 ∷ claim_of 1 8 enrolled 0 ∷ []) []

abbrev any_claim : EnrollmentFilter
any_claim = record { student_id = 0; term_id = 0; section_id = 1; statuses = [] }

abbrev first_page : PageRequest
first_page = record { number = 1; size = 2; sort_by = codes "id"; order = [] }

abbrev no_items : PageResult Enrollment
no_items = record { items = []; total = 0; page = 0; page_size = 0; total_pages = 0 }

visible_enrollments-own_example :
    All
      (λ e. e.student_id ≡ 5)
      (value_or no_items (visible_enrollments ada any_claim first_page noon claimed).0).items
    × ((visible_enrollments ada any_claim first_page noon claimed).1 ≡ claimed)
unfolding orientation_enrollment_p.Service.Enrollment.Lookup.visible_enrollments
    orientation_enrollment_p.Storage.Enrollments.Listing.list_enrollments
    orientation_enrollment_p.Storage.Listing.listing orientation_enrollment_p.Domain.Query.normalize
    orientation_enrollment_p.Base.Text.trim_space orientation_enrollment_p.Base.Text.to_lower
visible_enrollments-own_example =
    visible_enrollments-own ada any_claim first_page noon claimed
      (visible_enrollments ada any_claim first_page noon claimed).1
      (value_or no_items (visible_enrollments ada any_claim first_page noon claimed).0)
      (λ e. ground arith) (omega arith) refl

list_enrollments-walk_example :
    walk (list_enrollments any_claim) first_page noon claimed 2
    ≡ order_by
        (enrollment_order ascending (codes "id"))
        (keep (passes any_claim) claimed.enrollments)
unfolding orientation_enrollment_p.Domain.Query.normalize
    orientation_enrollment_p.Base.Text.trim_space orientation_enrollment_p.Base.Text.to_lower
list_enrollments-walk_example =
    list_enrollments-walk any_claim first_page
      (record { number = 1; size = 2; sort_by = codes "id"; order = ascending }) noon claimed 2
      (λ statement d. refl) refl (omega arith) (omega arith)

busy-Filed : Filed busy
busy-Filed = record { unique = λ k. ground arith; fresh = (omega arith, (omega arith, tt)) }

abbrev refusal : DecideInput
refusal = record { registration_id = 5; status = verified; note = [] }

Papers-final_example :
    Filed (in_tx (decide_once ada refusal 150) noon busy).1
    × KeepsVerified busy (in_tx (decide_once ada refusal 150) noon busy).1
Papers-final_example = Papers-final (then_decide no_papers ada refusal 150 noon) busy-Filed

abbrev all_events : AuditFilter
all_events = record {
  actor_user_id = none;
  action = [];
  object_type = [];
  object_id = [];
  since = none;
}

registrar_only_example :
    (roster ada 1 first_page noon busy ≡ (err (wrapped (sentinel forbidden)), busy))
    × (audit_trail ada all_events first_page noon busy ≡ (err (wrapped (sentinel forbidden)), busy))
    × (registration_queue ada 1 none first_page noon busy
        ≡ (err (wrapped (sentinel forbidden)), busy))
    × (decide_registration ada refusal noon busy ≡ (err (wrapped (sentinel forbidden)), busy))
registrar_only_example =
    registrar_only ada (λ e. ground arith) 1 1 all_events none first_page refusal noon busy

current_term_open_example :
    (autumn.archived ≡ false)
    × (count (λ u. not u.archived && enrollment_open u 150) (autumn ∷ []) ≢ 0
        → enrollment_open autumn 150 ≡ true)
    × (busy ≡ busy)
unfolding orientation_enrollment_p.Base.Sort.order_by orientation_enrollment_p.Storage.Db.attempt
    orientation_enrollment_p.Service.Catalog.current_term
    orientation_enrollment_p.Storage.Catalog.Listing.list_terms
    orientation_enrollment_p.Domain.Catalog.enrollment_open
current_term_open_example = current_term_open noon busy busy autumn refl
