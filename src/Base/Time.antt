-- ===== src/Base/Time.antt =====
-- Instants are nanoseconds since the start of year 1, Go's zero time; durations are nanoseconds.
use Prim.Native.Nat.{ℕ}
use mathlib.Core.Bool.{Bool}
use orientation_enrollment_p.Base.Tests.{ltb}

abbrev pub Time : Type 0
Time = ℕ

abbrev pub Duration : Type 0
Duration = ℕ

-- `t.Before(u)`
abbrev pub before : Time → Time → Bool
before t u = ltb t u

abbrev pub second : Duration
second = 1_000_000_000

abbrev pub minute : Duration
minute = 60_000_000_000
