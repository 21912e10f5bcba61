-- ===== src/Storage/Catalog/Counters.antt =====
-- The statements on the counters of a section, in any interleaving of clients: every statement is
-- atomic, and the versions that clients expect are whatever they read at any time before.
use orientation_enrollment_p.Base.{ℕ, true, ◌≡◌, ◌≤◌, arith, All, List}
use orientation_enrollment_p.Base.Int.{ℤ}
use orientation_enrollment_p.Base.Time.{Time}
use orientation_enrollment_p.Storage.Db.{SectionRow, update_where}
use orientation_enrollment_p.Storage.Rows.{All-update_where}
use orientation_enrollment_p.Storage.Catalog.{
  claimable, with_seat, releasable, without_seat, adjustable, with_length,
}

-- One UPDATE of some client, with any section, version, amount and time.
pub data Update : List SectionRow → List SectionRow → Type 0 where
  claim :
      (rows : List SectionRow) (id version : ℕ) (at : Time)
      → Update rows (update_where (claimable id version) (with_seat at) rows)
  release :
      (rows : List SectionRow) (id version : ℕ) (at : Time)
      → Update rows (update_where (releasable id version) (without_seat at) rows)
  adjust :
      (rows : List SectionRow) (id : ℕ) (delta : ℤ) (at : Time)
      → Update rows (update_where (adjustable id delta) (with_length delta at) rows)

-- Any number of them.
pub data Updates (start : List SectionRow) : List SectionRow → Type 0 where
  none_yet : Updates start start
  then_one :
      {before after : List SectionRow}
      → Updates start before
      → Update before after
      → Updates start after

-- No seat is sold twice, and the waitlist has not outgrown its limit.
pub record WithinLimits (r : SectionRow) : Type 0 where
  pub seats : r.seats_taken ≤ r.capacity
  pub waitlist : r.waitlist_length ≤ r.waitlist_limit

Update-WithinLimits :
    {before after : List SectionRow}
    → Update before after
    → All WithinLimits before
    → All WithinLimits after
Update-WithinLimits (claim rows id version at) h =
    All-update_where WithinLimits _ _ rows (λ r w e. ground arith) h
Update-WithinLimits (release rows id version at) h =
    All-update_where WithinLimits _ _ rows (λ r w e. ground arith) h
Update-WithinLimits (adjust rows id delta at) h =
    All-update_where WithinLimits _ _ rows (λ r w e. adjusted id delta at r w e) h
  where
    adjusted :
        (id : ℕ) (delta : ℤ) (at : Time) (r : SectionRow)
        → WithinLimits r
        → adjustable id delta r ≡ true
        → WithinLimits (with_length delta at r)
    adjusted id delta at r w e = ground arith

-- However the statements of concurrent clients interleave, and whatever versions they expect, no
-- section ever has more seats taken than its capacity or a waitlist longer than its limit.
pub Updates-WithinLimits :
    {start rows : List SectionRow}
    → Updates start rows
    → All WithinLimits start
    → All WithinLimits rows
Updates-WithinLimits none_yet h = h
Updates-WithinLimits (then_one us u) h = Update-WithinLimits u (Updates-WithinLimits us h)
