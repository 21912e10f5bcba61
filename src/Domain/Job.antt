-- ===== src/Domain/Job.antt =====
-- internal/domain/job.go: durable jobs and the retry schedule. The float64
-- of `Backoff` are written out: a duration from 2^53 nanoseconds on (104 days) is rounded to 53 bits,
-- while the factor, a power of two, is exact. A rounded maximum of 2^63, which does not convert back
-- to a duration, is left as it is.
pub mod Schedule
use orientation_enrollment_p.Base.{
  ℕ, zero, suc, Bool, true, false, not, ◌+◌, ◌-◌, ◌*◌, ◌/◌, ◌%◌, ◌^◌, ◌&&◌, Option, ltb, leb, ◌==◌,
  ◌||◌, if◌then◌else◌,
}
use orientation_enrollment_p.Base.Text.{Text}
use orientation_enrollment_p.Base.Time.{Time, Duration, before, second, minute}

pub data JobKind : Type 0 where
  promote_waitlist sweep_sessions : JobKind

abbrev pub kind_eq : JobKind → JobKind → Bool
kind_eq promote_waitlist promote_waitlist = true
kind_eq sweep_sessions sweep_sessions = true
kind_eq _ _ = false

pub data JobState : Type 0 where
  queued running succeeded permanently_failed : JobState

abbrev pub state_eq : JobState → JobState → Bool
state_eq queued queued = true
state_eq running running = true
state_eq succeeded succeeded = true
state_eq permanently_failed permanently_failed = true
state_eq _ _ = false

-- What package json reads out of the stored payload: an object with its section (0 where the
-- field is absent), or text that does not decode.
pub data Payload : Type 0 where
  section : ℕ → Payload
  malformed : Payload

abbrev pub max_job_attempts : ℕ
max_job_attempts = 5

pub record Job : Type 0 where
  pub id : ℕ
  pub kind : JobKind
  pub payload : Payload
  pub state : JobState
  pub attempts : ℕ
  pub max_attempts : ℕ
  pub failed_before : Bool  -- whether last_error holds a message
  pub run_after : Time
  pub locked_at : Option Time
  pub locked_by : Text
  pub created_at : Time
  pub updated_at : Time

unfoldable pub attemptable : Job → Time → Bool
attemptable j now = if not (state_eq j.state queued) then false else not (before now j.run_after)

unfoldable pub budget_exhausted : Job → Bool
budget_exhausted j =
    let limit = if j.max_attempts == 0 then max_job_attempts else j.max_attempts in
    leb limit j.attempts

-- The durations below this one have at most 53 bits.
abbrev pub exact_below : Duration
exact_below = 9_007_199_254_740_992

-- The multiple of the unit that is nearest to a number, the even one where two are.
abbrev nearest : ℕ → ℕ → ℕ
nearest unit n =
    let below = n / unit in
    let left = 2 * (n % unit) in
    if ltb left unit || ((left == unit) && (below % 2 == 0))
    then below * unit
    else (below + 1) * unit

-- The first unit, doubled at most so many times, of which 53 bits hold the number.
unfoldable pub rounded : ℕ → ℕ → ℕ → ℕ
rounded zero unit n = nearest unit n
rounded (suc doublings) unit n =
    let coarser = rounded doublings (2 * unit) n in
    if ltb n (exact_below * unit) then nearest unit n else coarser

-- `float64(d)`, for the 63 bits of a duration.
unfoldable pub float64 : Duration → ℕ
unfolding rounded
float64 d = if ltb d exact_below then d else rounded 9 2 d

-- The last lines of `Backoff`, from the clamped shift on.
abbrev pub capped_delay : ℕ → Duration → Duration → Duration
capped_delay doublings base max =
    let shift = if ltb 16 doublings then 16 else doublings in
    let scaled = float64 base * 2 ^ shift in if ltb (float64 max) scaled then max else scaled

-- `Backoff`; a duration that is not positive is 0 here.
unfoldable pub backoff : ℕ → Duration → Duration → Duration
backoff attempt base max =
    let attempt' = if attempt == 0 then 1 else attempt in
    let base' = if base == 0 then second else base in
    let max' = if (max == 0) || ltb max base' then base' else max in
    capped_delay (attempt' - 1) base' max'

-- `StaleLockCutoff`; an instant before year 1 is cut to the zero time.
unfoldable pub stale_lock_cutoff : Time → Duration → Time
stale_lock_cutoff now lease = now - (if lease == 0 then minute else lease)
