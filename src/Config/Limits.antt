-- ===== src/Config/Limits.antt =====
-- The bounds that every loaded configuration keeps.
use orientation_enrollment_p.Base.{
  ℕ, ◌<◌, zero, suc, true, ◌≡◌, refl, ◌≤◌, ◌*◌, arith, subst, Option, none, some,
}
use orientation_enrollment_p.Base.Int.{ℤ, pos, negsuc}
use orientation_enrollment_p.Base.Text.{Text, codes, trim_space}
use orientation_enrollment_p.Base.Time.{Duration, second, minute}
use orientation_enrollment_p.Domain.Errors.{Result, ok, err, ◌>>=◌, ◌>>◌}
use orientation_enrollment_p.Domain.Job.{backoff, exact_below}
use orientation_enrollment_p.Domain.Job.Schedule.{backoff_bounds}
use orientation_enrollment_p.Security.Decimal.{atoi}
use orientation_enrollment_p.Config.{
  Config, Parsers, Lookup, given, positive, duration_of, duration_val, bool_val, retries_val,
  within_32, validate, load, filled, worker_config,
}

-- What a configuration that is not refused keeps to.
pub record Bounded (c : Config) : Type 0 where
  pub ttl : minute ≤ c.session_ttl
  pub poll : 10_000_000 ≤ c.worker_poll_interval
  pub base : 1 ≤ c.worker_backoff_base
  pub max : c.worker_backoff_base ≤ c.worker_backoff_max
  pub lease : 1 ≤ c.worker_lease
  pub request : 1 ≤ c.request_timeout
  pub grace : 1 ≤ c.shutdown_grace
  pub retries : c.max_enrollment_retries ≤ 32

>>=-parts {κ} :
    {A B : Type 0} {P : Type κ} (r : Result A) (rest : A → Result B) {b : B}
    → (r >>= rest) ≡ ok b
    → ((a : A) → r ≡ ok a → rest a ≡ ok b → P)
    → P
>>=-parts (err e) rest h k = absurd (ground arith)
>>=-parts (ok a) rest h k = k a refl h

positive-ok : (o : Option ℤ) {d : Duration} → positive o ≡ ok d → 1 ≤ d
positive-ok none h = absurd (ground arith)
positive-ok (some (pos zero)) h = absurd (ground arith)
positive-ok (some (pos (suc n))) h = ground arith
positive-ok (some (negsuc n)) h = absurd (ground arith)

duration_of-ok :
    (parsers : Parsers) (o : Option Text) (fallback : Duration) {d : Duration}
    → 1 ≤ fallback
    → duration_of parsers o fallback ≡ ok d
    → 1 ≤ d
duration_of-ok parsers none fallback p h = ground arith
duration_of-ok parsers (some s) fallback p h = positive-ok (parsers.duration s) h

duration_val-ok :
    (parsers : Parsers) (lookup : Lookup) (key : Text) (fallback : Duration) {d : Duration}
    → 1 ≤ fallback
    → duration_val parsers lookup key fallback ≡ ok d
    → 1 ≤ d
unfolding duration_val
duration_val-ok parsers lookup key fallback p h =
    duration_of-ok parsers (given (lookup key)) fallback p h

within_32-ok : (o : Option ℤ) {n : ℕ} → within_32 o ≡ ok n → n ≤ 32
within_32-ok none h = absurd (ground arith)
within_32-ok (some (pos m)) h = ground arith
within_32-ok (some (negsuc m)) h = absurd (ground arith)

retries_val-ok : (o : Option Text) {n : ℕ} → retries_val o ≡ ok n → n ≤ 32
unfolding retries_val
retries_val-ok none h = ground arith
retries_val-ok (some raw) h = within_32-ok (atoi (trim_space raw)) h

validate-ok :
    (c : Config) {u : Unit {0}}
    → validate c ≡ ok u
    → (minute ≤ c.session_ttl)
      × (10_000_000 ≤ c.worker_poll_interval)
      × (c.worker_backoff_base ≤ c.worker_backoff_max)
unfolding validate
validate-ok c h = ground arith

-- The checked end of a load.
validated-Bounded :
    (c : Config) {cfg : Config}
    → 1 ≤ c.worker_backoff_base
    → 1 ≤ c.worker_lease
    → 1 ≤ c.request_timeout
    → 1 ≤ c.shutdown_grace
    → c.max_enrollment_retries ≤ 32
    → (validate c >> ok c) ≡ ok cfg
    → Bounded cfg
validated-Bounded c {cfg} base lease request grace retries h =
    >>=-parts (validate c) (λ _. ok c) h
      λ u valid done.
        let (ttl, poll, max) = validate-ok c valid in
        let same : c ≡ cfg = ground arith in
        let bounded : Bounded c = record {
          ttl = ttl;
          poll = poll;
          base = base;
          max = max;
          lease = lease;
          request = request;
          grace = grace;
          retries = retries;
        } in
        subst Bounded same bounded

load-Bounded :
    (parsers : Parsers) (lookup : Lookup) {cfg : Config}
    → load parsers lookup ≡ ok cfg
    → Bounded cfg
unfolding load
load-Bounded parsers lookup {cfg} h =
    >>=-parts (duration_val parsers lookup (codes "APP_SESSION_TTL") (12 * (60 * minute))) _ h
      λ ttl ttl_ok h.
        >>=-parts (duration_val parsers lookup (codes "APP_SHUTDOWN_GRACE") (15 * second)) _ h
          λ grace grace_ok h.
            >>=-parts (duration_val parsers lookup (codes "APP_REQUEST_TIMEOUT") (20 * second)) _ h
              λ request request_ok h.
                >>=-parts
                  (duration_val parsers lookup (codes "APP_WORKER_POLL_INTERVAL") (2 * second)) _ h
                  λ poll poll_ok h.
                    >>=-parts (duration_val parsers lookup (codes "APP_WORKER_LEASE") minute) _ h
                      λ lease lease_ok h.
                        >>=-parts
                          (duration_val parsers lookup (codes "APP_WORKER_BACKOFF_BASE")
                            (2 * second))
                          _ h
                          λ base base_ok h.
                            >>=-parts
                              (duration_val parsers lookup (codes "APP_WORKER_BACKOFF_MAX")
                                (5 * minute))
                              _ h
                              λ max max_ok h.
                                >>=-parts
                                  (bool_val parsers lookup (codes "APP_WORKER_ENABLED") true) _ h
                                  λ enabled enabled_ok h.
                                    >>=-parts
                                      (bool_val parsers lookup (codes "APP_SEED_DEMO_DATA") true) _
                                      h
                                      λ seed seed_ok h.
                                        >>=-parts
                                          (retries_val
                                            (lookup (codes "APP_MAX_ENROLLMENT_RETRIES")))
                                          _ h
                                          λ retries retries_ok h.
                                            validated-Bounded _
                                              (duration_val-ok parsers lookup
                                                (codes "APP_WORKER_BACKOFF_BASE") (2 * second)
                                                (omega arith) base_ok)
                                              (duration_val-ok parsers lookup
                                                (codes "APP_WORKER_LEASE") (minute) (omega arith)
                                                lease_ok)
                                              (duration_val-ok parsers lookup
                                                (codes "APP_REQUEST_TIMEOUT") (20 * second)
                                                (omega arith) request_ok)
                                              (duration_val-ok parsers lookup
                                                (codes "APP_SHUTDOWN_GRACE") (15 * second)
                                                (omega arith) grace_ok)
                                              (retries_val-ok
                                                (lookup (codes "APP_MAX_ENROLLMENT_RETRIES"))
                                                retries_ok)
                                              h

filled_lem :
    (cfg : Config) (worker_id : Text)
    → 1 ≤ cfg.worker_backoff_base
    → cfg.worker_backoff_base ≤ cfg.worker_backoff_max
    → ((worker_config cfg worker_id).backoff_base ≡ cfg.worker_backoff_base)
      × ((worker_config cfg worker_id).backoff_max ≡ cfg.worker_backoff_max)
unfolding worker_config filled
filled_lem cfg worker_id p q = (ground arith, ground arith)

-- A configuration that loads keeps to its limits, whatever the environment holds: a session of at
-- least a minute, a poll interval of at least 10 ms, a positive backoff that its maximum does not
-- undercut, positive lease, request timeout and grace, and at most 32 retries. And the worker that it
-- sets up always waits, before another attempt of a job, at least the configured base and at most the
-- configured maximum. That maximum is below 2^53 nanoseconds, 104 days.
pub load-backoff :
    (parsers : Parsers) (lookup : Lookup) (worker_id : Text) (attempt : ℕ) {cfg : Config}
    → load parsers lookup ≡ ok cfg
    → cfg.worker_backoff_max < exact_below
    → Bounded cfg
      × (let settings = worker_config cfg worker_id in
          let delay = backoff attempt settings.backoff_base settings.backoff_max in
          (cfg.worker_backoff_base ≤ delay) × (delay ≤ cfg.worker_backoff_max))
load-backoff parsers lookup worker_id attempt {cfg} h exact =
    let bounded = load-Bounded parsers lookup h in
    let (base, max) = filled_lem cfg worker_id bounded.base bounded.max in
    (
      bounded,
      rw (base, max)
          (backoff_bounds attempt cfg.worker_backoff_base cfg.worker_backoff_max bounded.base
            bounded.max exact),
    )
