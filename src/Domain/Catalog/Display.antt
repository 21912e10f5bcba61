-- ===== src/Domain/Catalog/Display.antt =====
-- The order and the names of weekly blocks in internal/domain/catalog.go.
use orientation_enrollment_p.Base.{Bool, not, List, if◌then◌else◌}
use orientation_enrollment_p.Base.Int.{ltb_ℤ, eqb_ℤ}
use orientation_enrollment_p.Base.Sort.{order_by}
use orientation_enrollment_p.Domain.Catalog.{Meeting}

-- The comparison of `SortMeetings`.
abbrev pub meeting_less : Meeting → Meeting → Bool
meeting_less m n =
    if not (eqb_ℤ m.weekday n.weekday)
    then ltb_ℤ m.weekday n.weekday
    else if not (eqb_ℤ m.start_minute n.start_minute)
    then ltb_ℤ m.start_minute n.start_minute
    else ltb_ℤ m.end_minute n.end_minute

-- `SortMeetings`, with the order of equal blocks kept; sort.Slice leaves that order open.
unfoldable pub sort_meetings : List Meeting → List Meeting
sort_meetings meetings = order_by (λ m n. not (meeting_less n m)) meetings
