-- ===== src/Config.antt =====
-- internal/config/config.go: the settings that are read from the environment, and what
-- internal/app/app.go and `New` of internal/worker/worker.go make of those of the worker.
-- time.ParseDuration and strconv.ParseBool are arguments. The errors have no sentinel.
pub mod Limits
use orientation_enrollment_p.Base.{
  ℕ, zero, suc, Bool, true, ◌+◌, ◌*◌, Option, none, some, ltb, ◌==◌, if◌then◌else◌,
}
use orientation_enrollment_p.Base.Int.{ℤ, pos, negsuc}
use orientation_enrollment_p.Base.Text.{Text, codes, is_empty, trim_space}
use orientation_enrollment_p.Base.Time.{Duration, second, minute}
use orientation_enrollment_p.Domain.Errors.{Result, ok, err, opaque, fail_if, ◌>>=◌, ◌>>◌}
use orientation_enrollment_p.Security.Decimal.{atoi}
use orientation_enrollment_p.Worker

pub record Parsers : Type 0 where
  pub duration : Text → Option ℤ
  pub boolean : Text → Option Bool

abbrev pub Lookup : Type 0
Lookup = Text → Option Text

pub record Config : Type 0 where
  pub http_addr : Text
  pub database_dsn : Text
  pub log_level : Text
  pub session_ttl : Duration
  pub shutdown_grace : Duration
  pub request_timeout : Duration
  pub worker_poll_interval : Duration
  pub worker_lease : Duration
  pub worker_backoff_base : Duration
  pub worker_backoff_max : Duration
  pub worker_enabled : Bool
  pub seed_demo_data : Bool
  pub business_location : Text
  pub max_enrollment_retries : ℕ

-- A variable that is set, trimmed, and not blank.
abbrev pub given : Option Text → Option Text
given none = none
given (some raw) = let trimmed = trim_space raw in if is_empty trimmed then none else some trimmed

abbrev or_fallback : Option Text → Text → Text
or_fallback none fallback = fallback
or_fallback (some trimmed) fallback = trimmed

-- `stringVal`
unfoldable pub string_val : Lookup → Text → Text → Text
string_val lookup key fallback = or_fallback (given (lookup key)) fallback

abbrev pub positive : Option ℤ → Result Duration
positive none = err opaque
positive (some (pos zero)) = err opaque
positive (some (pos (suc n))) = ok (suc n)
positive (some (negsuc n)) = err opaque

abbrev pub duration_of : Parsers → Option Text → Duration → Result Duration
duration_of parsers none fallback = ok fallback
duration_of parsers (some trimmed) fallback = positive (parsers.duration trimmed)

-- `durationVal`
unfoldable pub duration_val : Parsers → Lookup → Text → Duration → Result Duration
duration_val parsers lookup key fallback = duration_of parsers (given (lookup key)) fallback

abbrev parsed : Option Bool → Result Bool
parsed none = err opaque
parsed (some b) = ok b

abbrev bool_of : Parsers → Option Text → Bool → Result Bool
bool_of parsers none fallback = ok fallback
bool_of parsers (some trimmed) fallback = parsed (parsers.boolean trimmed)

-- `boolVal`
unfoldable pub bool_val : Parsers → Lookup → Text → Bool → Result Bool
bool_val parsers lookup key fallback = bool_of parsers (given (lookup key)) fallback

abbrev pub within_32 : Option ℤ → Result ℕ
within_32 none = err opaque
within_32 (some (pos n)) = if ltb 32 n then err opaque else ok n
within_32 (some (negsuc n)) = err opaque

-- The retries; a variable that is set but blank is an error here.
unfoldable pub retries_val : Option Text → Result ℕ
retries_val none = ok 4
retries_val (some raw) = within_32 (atoi (trim_space raw))

-- `Validate`
unfoldable pub validate : Config → Result (Unit {0})
validate c = do
  fail_if (is_empty (trim_space c.http_addr)) opaque
  fail_if (is_empty (trim_space c.database_dsn)) opaque
  fail_if (ltb c.session_ttl minute) opaque
  fail_if (ltb c.worker_poll_interval 10_000_000) opaque
  fail_if (ltb c.worker_backoff_max c.worker_backoff_base) opaque

-- `Load`
unfoldable pub load : Parsers → Lookup → Result Config
load parsers lookup = do
  session_ttl ← duration_val parsers lookup (codes "APP_SESSION_TTL") (12 * (60 * minute))
  shutdown_grace ← duration_val parsers lookup (codes "APP_SHUTDOWN_GRACE") (15 * second)
  request_timeout ← duration_val parsers lookup (codes "APP_REQUEST_TIMEOUT") (20 * second)
  poll_interval ← duration_val parsers lookup (codes "APP_WORKER_POLL_INTERVAL") (2 * second)
  lease ← duration_val parsers lookup (codes "APP_WORKER_LEASE") minute
  backoff_base ← duration_val parsers lookup (codes "APP_WORKER_BACKOFF_BASE") (2 * second)
  backoff_max ← duration_val parsers lookup (codes "APP_WORKER_BACKOFF_MAX") (5 * minute)
  worker_enabled ← bool_val parsers lookup (codes "APP_WORKER_ENABLED") true
  seed_demo_data ← bool_val parsers lookup (codes "APP_SEED_DEMO_DATA") true
  retries ← retries_val (lookup (codes "APP_MAX_ENROLLMENT_RETRIES"))
  let cfg : Config = record {
    http_addr = string_val lookup (codes "APP_HTTP_ADDR") (codes ":8080");
    database_dsn =
        string_val lookup (codes "APP_DATABASE_DSN")
          (codes "file:data/orientation.db?_pragma=busy_timeout(5000)");
    log_level = string_val lookup (codes "APP_LOG_LEVEL") (codes "info");
    session_ttl = session_ttl;
    shutdown_grace = shutdown_grace;
    request_timeout = request_timeout;
    worker_poll_interval = poll_interval;
    worker_lease = lease;
    worker_backoff_base = backoff_base;
    worker_backoff_max = backoff_max;
    worker_enabled = worker_enabled;
    seed_demo_data = seed_demo_data;
    business_location = string_val lookup (codes "APP_BUSINESS_TZ") (codes "Asia/Shanghai");
    max_enrollment_retries = retries;
  }
  validate cfg
  ok cfg

-- The defaults of `New`, without those of the polling interval and of the logger.
unfoldable pub filled : Worker.Config → Worker.Config
filled cfg =
    let base = if cfg.backoff_base == 0 then second else cfg.backoff_base in
    record cfg {
      worker_id = if is_empty cfg.worker_id then codes "worker" else cfg.worker_id;
      lease = if cfg.lease == 0 then minute else cfg.lease;
      backoff_base = base;
      backoff_max = if ltb cfg.backoff_max base then base else cfg.backoff_max;
    }

-- The worker's settings, as the application passes them to `New`.
unfoldable pub worker_config : Config → Text → Worker.Config
worker_config cfg worker_id = filled record {
  worker_id = worker_id;
  lease = cfg.worker_lease;
  backoff_base = cfg.worker_backoff_base;
  backoff_max = cfg.worker_backoff_max;
}
