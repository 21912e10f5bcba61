-- ===== src/Storage/Catalog/Listing.antt =====
-- The lookups and queries of internal/storage/sqlite/catalog.go that serve the catalogue.
use orientation_enrollment_p.Base.{
  ℕ, Bool, true, false, ◌&&◌, ◌||◌, not, Option, none, some, List, [], ◌∷◌, leb, ltb, ◌==◌, map,
  find, keep, if◌then◌else◌, ◌++◌,
}
use orientation_enrollment_p.Base.Int.{sub_ℕ, leb_ℤ}
use orientation_enrollment_p.Base.Sort.{order_by}
use orientation_enrollment_p.Base.Text.{
  Text, codes, text_eq, is_empty, trim_space, to_lower, to_upper, lower_byte,
}
use orientation_enrollment_p.Domain.Catalog.{
  Term, Course, Meeting, Section, SectionStatus, is_open, section_status_name,
}
use orientation_enrollment_p.Domain.Query.{PageRequest, PageResult}
use orientation_enrollment_p.Storage.Timestamps.{stored_le, text_leb}
use orientation_enrollment_p.Storage.Db.{
  SectionRow, Tx, pure, gets, or_not_found, ◌>>=◌, ◌>>◌, attempt,
}
use orientation_enrollment_p.Storage.Catalog.{assemble, course_prerequisites, meeting_le}
use orientation_enrollment_p.Storage.Listing.{Query, ordered, listing}

-- `FindTermByCode`
unfoldable pub find_term_by_code : Text → Tx Term
find_term_by_code code = do
  let normalized = to_lower (trim_space code)
  attempt "select term by code"
  or_not_found (← gets (λ db. find (λ t. text_eq t.code normalized) db.terms))

-- ORDER BY enrollment_opens_at DESC, id DESC
abbrev pub newest_first : Term → Term → Bool
newest_first t u =
    if stored_le u.enrollment_opens_at t.enrollment_opens_at
    then (if stored_le t.enrollment_opens_at u.enrollment_opens_at then leb u.id t.id else true)
    else false

-- `ListTerms`
unfoldable pub list_terms : Bool → Tx (List Term)
list_terms include_archived = do
  attempt "select terms"
  gets (λ db. order_by newest_first (keep (λ t. include_archived || not t.archived) db.terms))

-- The rest of `FindCourseByID` and `FindCourseByCode`.
abbrev with_prerequisites : Course → Tx Course
with_prerequisites course = do
  prerequisites ← course_prerequisites course.id
  pure (record course { prerequisites = prerequisites })

-- `FindCourseByID`
unfoldable pub find_course_by_id : ℕ → Tx Course
find_course_by_id id = do
  attempt "select course"
  course ← or_not_found (← gets (λ db. find (λ c. c.id == id) db.courses))
  with_prerequisites course

-- `FindCourseByCode`
unfoldable pub find_course_by_code : Text → Tx Course
find_course_by_code code = do
  let normalized = to_upper (trim_space code)
  attempt "select course by code"
  course ← or_not_found (← gets (λ db. find (λ c. text_eq c.code normalized) db.courses))
  with_prerequisites course

-- `SectionFilter` without its page; the zero values stand for any.
pub record SectionFilter : Type 0 where
  pub term_id : ℕ
  pub course_code : Text
  pub department : Text
  pub status : Option SectionStatus
  pub only_open : Bool
  pub instructor : Text

-- Some rest of the text passes.
abbrev any_rest : (Text → Bool) → Text → Bool
any_rest test [] = test []
any_rest test (c ∷ s) = test (c ∷ s) || any_rest test s

abbrev first_matches : ℕ → (Text → Bool) → Text → Bool
first_matches b rest [] = false
first_matches b rest (c ∷ s) = ((b == 95) || (lower_byte b == lower_byte c)) && rest s

-- LIKE: a percent sign stands for any text, an underscore for any byte, and letters match in either
-- case.
unfoldable pub like : Text → Text → Bool
like [] s = is_empty s
like (b ∷ pattern) s =
    let rest = like pattern in if b == 37 then any_rest rest s else first_matches b rest s

-- A row of course_sections joined with its course.
abbrev pub Joined : Type 0
Joined = SectionRow × Course

abbrev join_row : SectionRow → Option Course → List Joined → List Joined
join_row r none rest = rest
join_row r (some c) rest = (r, c) ∷ rest

unfoldable pub joined_rows : List Course → List SectionRow → List Joined
joined_rows courses [] = []
joined_rows courses (r ∷ rows) =
    join_row r (find (λ c. c.id == r.course_id) courses) (joined_rows courses rows)

-- A text condition is left out for a blank value.
abbrev unless_blank : Text → (Text → Bool) → Bool
unless_blank wanted test = if is_empty wanted then true else test wanted

abbrev status_matches : Option SectionStatus → SectionStatus → Bool
status_matches none status = true
status_matches (some wanted) status =
    text_eq (codes (section_status_name status)) (codes (section_status_name wanted))

abbrev pub section_passes : SectionFilter → Joined → Bool
section_passes filter (r, c) =
    (if filter.term_id == 0 then true else r.term_id == filter.term_id)
    && (unless_blank (to_upper (trim_space filter.course_code)) (λ code. text_eq c.code code)
        && (unless_blank (trim_space filter.department) (λ dept. text_eq c.department dept)
            && (status_matches filter.status r.status
                && ((if filter.only_open
                      then is_open r.status && ltb r.seats_taken r.capacity
                      else true)
                    && unless_blank (trim_space filter.instructor)
                        (λ name. like ((37 ∷ name) ++ (37 ∷ [])) r.instructor)))))

abbrev section_id_le : Joined → Joined → Bool
section_id_le (q, b) (r, c) = leb q.id r.id

-- `sectionSortColumns`
abbrev section_column_le : Text → Joined → Joined → Bool
section_column_le key (q, b) (r, c) =
    if text_eq key (codes "code")
    then text_leb q.code r.code
    else if text_eq key (codes "course")
    then text_leb b.code c.code
    else if text_eq key (codes "capacity")
    then leb q.capacity r.capacity
    else if text_eq key (codes "seats_left")
    then leb_ℤ (sub_ℕ q.capacity q.seats_taken) (sub_ℕ r.capacity r.seats_taken)
    else stored_le q.updated_at r.updated_at

abbrev pub sections_query : SectionFilter → Query Joined
sections_query filter = record {
  rows = λ db. joined_rows db.courses db.sections;
  where_clause = section_passes filter;
  order = λ direction key. ordered direction (section_column_le key) section_id_le;
  sort_keys =
      codes "code"
      ∷ codes "course"
      ∷ codes "capacity"
      ∷ codes "seats_left"
      ∷ codes "updated_at"
      ∷ [];
  default_sort = codes "code";
}

-- `SectionMeetings` of a page of sections, which reads nothing for an empty one. The blocks of other
-- sections are left out when each section takes its own.
abbrev read_meetings : List Joined → Tx (List Meeting)
read_meetings [] = pure []
read_meetings (row ∷ rows) = do
  attempt "select meetings"
  gets (λ db. order_by meeting_le db.meetings)

abbrev pub with_blocks : List Meeting → Joined → Section
with_blocks meetings (r, c) = assemble r c (keep (λ m. m.section_id == r.id) meetings)

-- `ListSections`
unfoldable pub list_sections : SectionFilter → PageRequest → Tx (PageResult Section)
list_sections filter request = do
  found ← listing (sections_query filter) request
  meetings ← read_meetings found.items
  pure (record {
    items = map (with_blocks meetings) found.items;
    total = found.total;
    page = found.page;
    page_size = found.page_size;
    total_pages = found.total_pages;
  })
