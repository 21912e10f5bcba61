-- ===== src/Storage/Registrations/Listing.antt =====
-- The paginated query of internal/storage/sqlite/registrations.go.
use orientation_enrollment_p.Base.{
  ℕ, Bool, true, false, ◌&&◌, Option, none, some, [], ◌∷◌, leb, ◌==◌, if◌then◌else◌,
}
use orientation_enrollment_p.Base.Text.{Text, codes, text_eq}
use orientation_enrollment_p.Base.Time.{Time}
use orientation_enrollment_p.Domain.Registration.{
  Registration, RegistrationStatus, status_eq, status_name,
}
use orientation_enrollment_p.Domain.Query.{PageRequest, PageResult}
use orientation_enrollment_p.Storage.Timestamps.{stored_le, text_leb}
use orientation_enrollment_p.Storage.Db.{Tx}
use orientation_enrollment_p.Storage.Listing.{Query, ordered, listing}

-- A filter that is not set passes every row.
abbrev wanted_status : Option RegistrationStatus → RegistrationStatus → Bool
wanted_status none status = true
wanted_status (some wanted) status = status_eq status wanted

abbrev pub in_queue : ℕ → Option RegistrationStatus → Registration → Bool
in_queue term_id status r =
    (if term_id == 0 then true else r.term_id == term_id) && wanted_status status r.status

-- NULL comes before every text.
abbrev pub nullable_le : Option Time → Option Time → Bool
nullable_le none u = true
nullable_le (some t) none = false
nullable_le (some t) (some u) = stored_le t u

abbrev id_le : Registration → Registration → Bool
id_le q r = leb q.id r.id

-- `registrationSortColumns`
abbrev column_le : Text → Registration → Registration → Bool
column_le key q r =
    if text_eq key (codes "submitted_at")
    then nullable_le q.submitted_at r.submitted_at
    else if text_eq key (codes "updated_at")
    then stored_le q.updated_at r.updated_at
    else if text_eq key (codes "status")
    then text_leb (codes (status_name q.status)) (codes (status_name r.status))
    else id_le q r

abbrev pub registrations_query : ℕ → Option RegistrationStatus → Query Registration
registrations_query term_id status = record {
  rows = λ db. db.registrations;
  where_clause = in_queue term_id status;
  order = λ direction key. ordered direction (column_le key) id_le;
  sort_keys = codes "submitted_at" ∷ codes "updated_at" ∷ codes "status" ∷ codes "id" ∷ [];
  default_sort = codes "submitted_at";
}

-- `ListRegistrations`; a status that is not given is `none`.
unfoldable pub list_registrations :
    ℕ → Option RegistrationStatus → PageRequest → Tx (PageResult Registration)
list_registrations term_id status request = listing (registrations_query term_id status) request
