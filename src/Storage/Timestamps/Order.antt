-- ===== src/Storage/Timestamps/Order.antt =====
-- How far the order of the stored texts is that of time.
use orientation_enrollment_p.Base.{
  ℕ, zero, suc, true, false, ◌≡◌, ◌+◌, ◌*◌, ◌/◌, ◌%◌, ◌<◌, ◌≤◌, arith,
}
use orientation_enrollment_p.Base.Time.{Time, second}
use orientation_enrollment_p.Storage.Timestamps.{fraction_text, text_leb, stored_le}

-- Instants in different seconds are compared as they follow one another.
pub stored_le_seconds :
    (t u : Time) → t / second < u / second → (stored_le t u ≡ true) × (stored_le u t ≡ false)
unfolding stored_le
stored_le_seconds t u h = ground arith

-- What the database takes as not later is of no later second.
pub stored_le-seconds : (t u : Time) → stored_le t u ≡ true → t / second ≤ u / second
stored_le-seconds t u h = ground (arith, stored_le_seconds u t)

-- What the database takes as later is of no earlier second.
pub stored_le-later : (t u : Time) → stored_le t u ≡ false → u / second ≤ t / second
stored_le-later t u h = ground (arith, stored_le_seconds t u)

point_first : (n : ℕ) → 0 < n → text_leb (fraction_text 0) (fraction_text n) ≡ false
unfolding fraction_text text_leb
point_first zero h = absurd (omega arith)
point_first (suc n) h = ground arith

-- Within one second the order fails: the text of a whole second is greater than that of every later
-- instant of the same second, since it ends in Z where the other goes on with a point.
pub stored_le_fraction :
    (s f : ℕ)
    → 0 < f
    → f < second
    → (stored_le (s * second) (s * second + f) ≡ false) × (s * second < s * second + f)
unfolding stored_le
stored_le_fraction s f low high =
    let whole : s * second / second ≡ s = omega arith in
    let whole' : (s * second + f) / second ≡ s = omega arith in
    let none_left : s * second % second ≡ 0 = omega arith in
    let left : (s * second + f) % second ≡ f = omega arith in
    (
      rw (whole, whole', none_left, left, stored_le) (ground (arith, point_first f low)),
      omega arith,
    )
