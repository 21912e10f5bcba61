-- ===== src/Storage/Timestamps.antt =====
-- formatTime of internal/storage/sqlite/db.go, and the comparison of stored instants. Columns hold
-- the text of time.RFC3339Nano, and SQL compares texts byte by byte. Up to the year 9999 the text
-- begins with the date and time of day in a fixed width, so that its order is that of the whole
-- seconds, which stand for it here; the fraction follows as its digits without trailing zeros, and
-- then Z.
pub mod Order
use mathlib.Core.List.{reverse}
use orientation_enrollment_p.Base.{
  ℕ, zero, suc, Bool, true, false, ◌&&◌, ◌||◌, ◌+◌, ◌/◌, ◌%◌, List, [], ◌∷◌, ◌++◌, ltb, ◌==◌,
  if◌then◌else◌,
}
use orientation_enrollment_p.Base.Text.{Text, codes, drop_while}
use orientation_enrollment_p.Base.Time.{Time, second}

-- The last `width` decimal digits of a number.
unfoldable pub digits : ℕ → ℕ → Text
digits zero n = []
digits (suc width) n = digits width (n / 10) ++ (48 + n % 10) ∷ []

-- Without the zeros at its end.
unfoldable pub trim_zeros : Text → Text
trim_zeros s = reverse (drop_while (λ c. c == 48) (reverse s))

-- What follows the seconds: a fraction of 0 has no point.
unfoldable pub fraction_text : ℕ → Text
unfolding trim_zeros digits
fraction_text nanos =
    if nanos == 0 then codes "Z" else 46 ∷ (trim_zeros (digits 9 nanos) ++ codes "Z")

pub record Stamp : Type 0 where
  pub whole : ℕ
  pub fraction : Text

unfoldable pub format_time : Time → Stamp
format_time t = record { whole = t / second; fraction = fraction_text (t % second) }

-- `<=` on texts.
unfoldable pub text_leb : Text → Text → Bool
text_leb [] t = true
text_leb (c ∷ s) [] = false
text_leb (c ∷ s) (d ∷ t) = ltb c d || ((c == d) && text_leb s t)

abbrev pub stamp_leb : Stamp → Stamp → Bool
stamp_leb a b = ltb a.whole b.whole || ((a.whole == b.whole) && text_leb a.fraction b.fraction)

-- `<=` on two instants that are stored or bound as texts.
unfoldable pub stored_le : Time → Time → Bool
unfolding format_time
stored_le t u = stamp_leb (format_time t) (format_time u)
