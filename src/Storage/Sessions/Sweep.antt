-- ===== src/Storage/Sessions/Sweep.antt =====
-- What `RevokeExpiredSessions` does to the sessions whose lifetime has elapsed.
use orientation_enrollment_p.Base.{
  ℕ, Bool, true, false, ◌&&◌, not, ◌≡◌, refl, ap, ◌∙◌, ◌+◌, ◌≤◌, arith, List, [], ◌∷◌, ltb, ◌==◌,
  if◌then◌else◌, keep, count, length, All, ==_refl,
}
use orientation_enrollment_p.Base.Sort.{order_by}
use orientation_enrollment_p.Base.Sort.Counts.{
  count-order_by, length-order_by, All-order_by, All-keep, All-take, count-keep, count-take,
  length-keep, length-take_lem, count-none, count-disjoint, count-split, count-either,
}
use orientation_enrollment_p.Base.Time.{Time}
use orientation_enrollment_p.Domain.Identity.{Session, revoked}
use orientation_enrollment_p.Storage.Db.{update_where}
use orientation_enrollment_p.Storage.Rows.Keys.{count-update_where_same}
use orientation_enrollment_p.Storage.Sessions.{
  lapsed, chosen, sweep_bound, is_among, expiry_le, revoked_by,
}

-- Keys that no two sessions share.
abbrev pub UniqueIds : List Session → Type 0
UniqueIds rows = (k : ℕ) → count (λ s. k == s.id) rows ≤ 1

-- No test passes more rows of the first list than of the second.
abbrev Within : List Session → List Session → Type 0
Within some_rows rows = (p : Session → Bool) → count p some_rows ≤ count p rows

chosen-Within : (at : Time) (limit : ℕ) (rows : List Session) → Within (chosen at limit rows) rows
chosen-Within at limit rows p = omega (
  arith,
  count-take p (sweep_bound limit) (order_by expiry_le (keep (lapsed at) rows)),
  count-order_by expiry_le p (keep (lapsed at) rows),
  count-keep p (lapsed at) rows,
)

chosen-lapsed :
    (at : Time) (limit : ℕ) (rows : List Session)
    → All (λ s. lapsed at s ≡ true) (chosen at limit rows)
chosen-lapsed at limit rows =
    All-take _ (sweep_bound limit) (order_by expiry_le (keep (lapsed at) rows))
      (All-order_by expiry_le _ (keep (lapsed at) rows) (All-keep (lapsed at) rows))

-- The smaller of the bound and what there is.
abbrev pub at_most : ℕ → ℕ → ℕ
at_most bound total = if ltb bound total then bound else total

length-chosen :
    (at : Time) (limit : ℕ) (rows : List Session)
    → length (chosen at limit rows) ≡ at_most (sweep_bound limit) (count (lapsed at) rows)
length-chosen at limit rows =
    length-take_lem (sweep_bound limit) (order_by expiry_le (keep (lapsed at) rows))
    ∙ ap (at_most (sweep_bound limit))
        (length-order_by expiry_le (keep (lapsed at) rows) ∙ length-keep (lapsed at) rows)

absent-is_among :
    (k : ℕ) (cs : List Session) (s : Session)
    → count (λ r. k == r.id) cs ≡ 0
    → (k == s.id) ≡ true
    → is_among cs s ≡ false
absent-is_among k [] s absent same = refl
absent-is_among k (c ∷ cs) s absent same = ground (arith, absent-is_among k cs s)

among-disjoint :
    (k : ℕ) (cs rows : List Session)
    → count (λ s. k == s.id) cs ≡ 0
    → count (λ s. (k == s.id) && is_among cs s) rows ≡ 0
among-disjoint k cs [] absent = refl
among-disjoint k cs (s ∷ rows) absent =
    ground (arith, absent-is_among k cs s absent, among-disjoint k cs rows absent)

module _ (rows : List Session) (unique : UniqueIds rows) where
  Within-tail : (c : Session) (cs : List Session) → Within (c ∷ cs) rows → Within cs rows
  Within-tail c cs inside p = omega (arith, inside p)

  -- As many rows are among some of them as there are of those.
  pub count-is_among : (cs : List Session) → Within cs rows → count (is_among cs) rows ≡ length cs
  count-is_among [] inside = count-none rows
  count-is_among (c ∷ cs) inside =
      let twice = inside (λ s. c.id == s.id) in
      let once = unique c.id in
      let here = ==_refl c.id in
      let absent : count (λ s. c.id == s.id) cs ≡ 0 = ground arith in
      let present : count (λ s. c.id == s.id) rows ≡ 1 = ground arith in
      omega (
        arith,
        count-disjoint (λ s. c.id == s.id) (is_among cs) rows (among-disjoint c.id cs rows absent),
        count-is_among cs (Within-tail c cs inside),
        present,
      )

  -- No row that fails the test is among rows that pass it.
  pub is_among-only :
      (test : Session → Bool) (cs : List Session)
      → Within cs rows
      → All (λ c. test c ≡ true) cs
      → count (λ s. is_among cs s && not (test s)) rows ≡ 0
  is_among-only test [] inside pass = count-none rows
  is_among-only test (c ∷ cs) inside pass =
      let rest = is_among-only test cs (Within-tail c cs inside) pass.1 in
      let seen = inside (λ s. (c.id == s.id) && test s) in
      let here = ==_refl c.id in
      let passes = pass.0 in
      let present : 1 ≤ count (λ s. (c.id == s.id) && test s) (c ∷ cs) = ground arith in
      omega (
        arith,
        count-either (λ s. c.id == s.id) (is_among cs) (λ s. not (test s)) rows,
        count-split (λ s. c.id == s.id) test rows,
        unique c.id,
        rest,
        seen,
        present,
      )

-- An update of rows that all pass a test, after which none of them passes it.
count-update_where_gone :
    (test p : Session → Bool) (change : Session → Session) (rows : List Session)
    → ((s : Session) → p (change s) ≡ false)
    → count (λ s. test s && not (p s)) rows ≡ 0
    → count p (update_where test change rows) + count test rows ≡ count p rows
unfolding update_where
count-update_where_gone test p change [] gone only = refl
count-update_where_gone test p change (s ∷ rows) gone only =
    ground (arith, gone s, count-update_where_gone test p change rows gone)

revoked-lapsed : (at : Time) (s : Session) → lapsed at (revoked_by at s) ≡ false
unfolding revoked
revoked-lapsed at s = refl

-- Rows that keep their keys.
pub revoked-UniqueIds :
    (test : Session → Bool) (at : Time) (rows : List Session)
    → UniqueIds rows
    → UniqueIds (update_where test (revoked_by at) rows)
revoked-UniqueIds test at rows unique k = omega (
  arith,
  unique k,
  count-update_where_same test (λ s. k == s.id) (revoked_by at) rows (λ s. refl),
)

-- The rows that a sweep chooses are as many as the bound allows, and no longer lapsed after it.
pub chosen-swept :
    (at : Time) (limit : ℕ) (rows : List Session)
    → UniqueIds rows
    → (count (is_among (chosen at limit rows)) rows
        ≡ at_most (sweep_bound limit) (count (lapsed at) rows))
      × (count (lapsed at) (update_where (is_among (chosen at limit rows)) (revoked_by at) rows)
            + count (is_among (chosen at limit rows)) rows
          ≡ count (lapsed at) rows)
chosen-swept at limit rows unique =
    let inside = chosen-Within at limit rows in
    (
      count-is_among rows unique (chosen at limit rows) inside ∙ length-chosen at limit rows,
      count-update_where_gone (is_among (chosen at limit rows)) (lapsed at) (revoked_by at) rows
          (revoked-lapsed at)
          (is_among-only rows unique (lapsed at) (chosen at limit rows) inside
            (chosen-lapsed at limit rows)),
    )
