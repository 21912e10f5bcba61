-- ===== src/Tests/Setup.antt =====
-- The theorems on migrations and the configuration at concrete inputs.
use orientation_enrollment_p.Base.Int.{pos}
use orientation_enrollment_p.Base.Time.{second, minute}
use orientation_enrollment_p.Domain.Job.{backoff}
use orientation_enrollment_p.Config.{Config, Parsers, Lookup, worker_config}
use orientation_enrollment_p.Config.Limits.{Bounded, load-backoff}
use orientation_enrollment_p.Base.{
  arith, ◌*◌, ◌≤◌, some, if◌then◌else◌, ℕ, true, false, not, ◌≡◌, refl, Option, none, List, [], ◌∷◌,
  any,
}
use orientation_enrollment_p.Base.Text.{Text, codes, text_eq}
use orientation_enrollment_p.Domain.Errors.{Error, Result, ok}
use orientation_enrollment_p.Storage.Migrations.{
  File, Access, Migration, Database, Outcome, all_migrations, migrate, shipped,
}
use orientation_enrollment_p.Storage.Migrations.Reruns.{current, migrate-again}
use orientation_enrollment_p.Tests.World.{value_or}
use orientation_enrollment_p.Tests.Accounts.{toy}

abbrev file_of : Text → Text → File
file_of name content = record { name = name; is_dir = false; content = content }

-- Two migrations and a note, in the order of a directory listing.
abbrev shipped_files : List File
shipped_files =
    file_of (codes "1_a.sql") (codes "x")
    ∷ file_of (codes "2_b.sql") (codes "y")
    ∷ file_of (codes "notes") []
    ∷ []

-- A script is kept as the last one that ran.
abbrev run : Text → Text → Result Text
run script schema = ok script

abbrev commits : ℕ → Option Error
commits version = none

abbrev empty_database : Database Text
empty_database = record { applied = []; schema = [] }

abbrev working : Access
working = record { create = none; load = none }

abbrev first_run : Option (Result Outcome) × Database Text
first_run = migrate run commits working toy shipped_files empty_database

abbrev no_run : Outcome
no_run = record { applied = []; already_current = false; version = 0 }

abbrev answer_of : Option (Result Outcome) → Outcome
answer_of none = no_run
answer_of (some r) = value_or no_run r

migrate-again_example :
    migrate run commits working toy shipped_files first_run.1
    ≡ (some (ok (current run commits (answer_of first_run.0).version)), first_run.1)
unfolding orientation_enrollment_p.Storage.Migrations.migrate
    orientation_enrollment_p.Storage.Migrations.all_migrations
    orientation_enrollment_p.Storage.Migrations.read_files
    orientation_enrollment_p.Storage.Migrations.parse_name
    orientation_enrollment_p.Storage.Migrations.contiguous
    orientation_enrollment_p.Storage.Migrations.check_applied
    orientation_enrollment_p.Storage.Migrations.apply_missing
    orientation_enrollment_p.Storage.Migrations.apply_migration
    orientation_enrollment_p.Base.Sort.order_by orientation_enrollment_p.Base.Sort.insert_row
    orientation_enrollment_p.Security.Credentials.hex orientation_enrollment_p.Security.Decimal.atoi
    orientation_enrollment_p.Security.Decimal.scan orientation_enrollment_p.Base.Text.trim_space
    orientation_enrollment_p.Base.Text.drop_while orientation_enrollment_p.Base.Text.is_space
migrate-again_example =
    migrate-again run commits working working toy shipped_files empty_database first_run.1
      (answer_of first_run.0) refl refl refl

abbrev drifted_database : Database Text
drifted_database = record { applied = (1, codes "z") ∷ []; schema = codes "x" }

-- An environment that sets the lease of the worker only.
abbrev lookup : Lookup
lookup key = if text_eq key (codes "APP_WORKER_LEASE") then some (codes " 30s ") else none

abbrev parsers : Parsers
parsers = record {
  duration = λ t. if text_eq t (codes "30s") then some (pos (30 * second)) else none;
  boolean = λ t. none;
}

abbrev defaults : Config
defaults = record {
  http_addr = codes ":8080";
  database_dsn = codes "file:data/orientation.db?_pragma=busy_timeout(5000)";
  log_level = codes "info";
  session_ttl = 12 * (60 * minute);
  shutdown_grace = 15 * second;
  request_timeout = 20 * second;
  worker_poll_interval = 2 * second;
  worker_lease = 30 * second;
  worker_backoff_base = 2 * second;
  worker_backoff_max = 5 * minute;
  worker_enabled = true;
  seed_demo_data = true;
  business_location = codes "Asia/Shanghai";
  max_enrollment_retries = 4;
}

load-backoff_example :
    Bounded defaults
    × (let settings = worker_config defaults [] in
        let delay = backoff 3 settings.backoff_base settings.backoff_max in
        (2 * second ≤ delay) × (delay ≤ 5 * minute))
unfolding orientation_enrollment_p.Base.Text.is_space orientation_enrollment_p.Base.Text.drop_while
    orientation_enrollment_p.Base.Text.trim_space orientation_enrollment_p.Config.string_val
    orientation_enrollment_p.Config.duration_val orientation_enrollment_p.Config.bool_val
    orientation_enrollment_p.Config.retries_val orientation_enrollment_p.Config.validate
    orientation_enrollment_p.Config.load
load-backoff_example = load-backoff parsers lookup [] 3 {cfg = defaults} refl (omega arith)
