-- ===== src/Service/Enrollment/Visibility.antt =====
-- What a caller sees of the claims.
use orientation_enrollment_p.Base.{
  ℕ, true, ◌≡◌, ◌≢◌, ap, ◌∙◌, sym, ◌*◌, ◌<◌, ◌≤◌, arith, List, [], ◌∷◌, All, count, keep,
}
use orientation_enrollment_p.Base.Int.{int64_half}
use orientation_enrollment_p.Base.Sort.{order_by}
use orientation_enrollment_p.Base.Text.{codes}
use orientation_enrollment_p.Domain.Errors.{ok}
use orientation_enrollment_p.Domain.Identity.{Principal, registrar, is_registrar_role}
use orientation_enrollment_p.Domain.Enrollment.{Enrollment}
use orientation_enrollment_p.Domain.Query.{PageRequest, Page, PageResult, normalize}
use orientation_enrollment_p.Storage.Db.{Db, Env}
use orientation_enrollment_p.Storage.Transactions.Working.{Works}
use orientation_enrollment_p.Storage.Enrollments.Listing.{
  EnrollmentFilter, passes, enrollments_query, enrollment_order, enrollment_sort_keys,
  list_enrollments,
}
use orientation_enrollment_p.Storage.Listing.{all_rows, listing}
use orientation_enrollment_p.Storage.Listing.Walks.{listing_sound, walk, walk_all}
use orientation_enrollment_p.Service.Enrollment.Lookup.{own_filter, visible_enrollments}

own_passes :
    (filter : EnrollmentFilter) (id : ℕ) (es : List Enrollment)
    → id ≢ 0
    → All (λ e. passes (record filter { student_id = id }) e ≡ true) es
    → All (λ e. e.student_id ≡ id) es
own_passes filter id [] named pass = tt
own_passes filter id (e ∷ es) named pass = (ground arith, own_passes filter id es named pass.1)

-- A caller who is no registrar, and whose user id is not 0, is shown claims of their own only,
-- whatever the filter asks for; the call writes nothing.
pub visible_enrollments-own :
    (actor : Principal) (filter : EnrollmentFilter) (request : PageRequest) (env : Env)
    (db after : Db) (r : PageResult Enrollment)
    → actor.role ≢ registrar
    → actor.user_id ≢ 0
    → visible_enrollments actor filter request env db ≡ (ok r, after)
    → All (λ e. e.student_id ≡ actor.user_id) r.items × (after ≡ db)
unfolding visible_enrollments list_enrollments is_registrar_role
visible_enrollments-own actor filter request env db after r student named shown =
    let own : own_filter actor filter ≡ record filter { student_id = actor.user_id } =
      ground arith in
    let (pass, few, total, same) =
      listing_sound (enrollments_query (record filter { student_id = actor.user_id })) request env
        db after {r = r}
        (ap (λ f. listing (enrollments_query f) request env db) (sym own) ∙ shown) in
    (own_passes filter actor.user_id r.items named pass, same)

-- A client that asks for one page after the other, until the pages hold as many rows as match the
-- filter, has been given every claim that matches, once and in the order of the query, which takes
-- instants in the order of their stored texts. All pages are read from the same tables, the request is
-- valid, the driver works, and the pages hold fewer than 2^63 rows.
pub list_enrollments-walk :
    (filter : EnrollmentFilter) (request : PageRequest) (page : Page) (env : Env) (db : Db) (n : ℕ)
    → Works env
    → normalize request enrollment_sort_keys (codes "requested_at") ≡ ok page
    → n * page.size < int64_half
    → count (passes filter) db.enrollments ≤ n * page.size
    → walk (list_enrollments filter) request env db n
      ≡ order_by (enrollment_order page.order page.sort_by) (keep (passes filter) db.enrollments)
unfolding list_enrollments all_rows
list_enrollments-walk filter request page env db n works valid small enough =
    walk_all (enrollments_query filter) request page env db works valid n small enough
