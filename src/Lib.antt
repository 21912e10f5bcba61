-- ===== src/Lib.antt =====
-- Orientation enrollment platform: students submit their paperwork for a term, claim seats in the
-- sections of courses, wait for full sections, and drop what they hold; registrars decide on the
-- paperwork; a worker promotes the waitlist in the background. This library models the rules, the
-- statements on the database, the use cases and the worker.
--
-- Base: shared names, lists and integers over the native numbers, texts, instants, ordering.
-- Domain: internal/domain, one module for each file. Errors (errors.go), Identity (identity.go),
--   Query (query.go), Catalog (catalog.go), Registration (registration.go), Enrollment
--   (enrollment.go), Job (job.go) and Audit (audit.go).
-- Security: internal/security/credentials.go is Credentials, with Decimal (strconv) and Words
--   (strings) for what it calls; internal/platform/ids/ids.go is Tokens.
-- Storage: internal/storage/sqlite. Db holds the tables as lists of rows and the type of a repository
--   call; Timestamps (formatTime of db.go), Transactions (InTx of db.go, the append of audit.go and
--   internal/audit/recorder.go), Catalog (catalog.go), Enrollments (enrollments.go), Registrations
--   (registrations.go), Jobs (jobs.go), Users (users.go), Sessions (sessions.go), Idempotency
--   (idempotency.go) and Audit (the listing of audit.go) are the statements; a child Listing holds a
--   file's paginated queries, over the shared module Listing. Migrations is migrate.go with
--   internal/migrations/migrations.go. Rules and Rows are laws of calls and of updates; Consistency is
--   the invariant of the tables of seats. Jobs.Phases is the abstract queue of keys and states, and
--   Jobs.Histories any sequence of the queue's operations; Sessions.Revoked
--   is any sequence of the statements on sessions.
-- Service: internal/service. Rejections (service.go), Registration (registration.go), Enrollment and
--   Batch (enrollment.go): Claim is claim, claimOnce is claim_once, Drop is drop, PromoteWaitlist is
--   promote, List is visible_enrollments, BatchClaim is batch_claim. Auth (auth.go): Login is log_in,
--   Logout is log_out. Idempotency (idempotency.go): Execute is execute. Catalog (catalog.go):
--   SectionRoster is roster, ListAuditEvents is audit_trail.
-- Worker: internal/worker/worker.go and handlers.go: RunOnce is run_once. Budgets
--   counts the attempts that the waiting jobs have left, and Runs is a sequence of steps.
-- Config: internal/config/config.go, and the worker's settings of internal/app/app.go: Load is load.
-- Tests: the theorems at concrete inputs.
--
-- How they interact: a use case opens a transaction and calls statements in it, decides by the rules
-- of the domain, and records an audit event; a refused one is rolled back, and the refusal is recorded
-- in a transaction of its own. A dropped seat enqueues a job; the worker leases it and promotes.
--
-- A repository call takes the world of the call (an Env: which statements fail in which state of the
-- tables, and the clock) and the tables, and returns a result and the tables. What SQL does to the
-- rows is written out with each statement: the WHERE clause as a Boolean test, the SET clause as a
-- change of a row, ORDER BY as a stable sort. The failures of the driver and of the context are an
-- argument (Env.fault); the unique indexes (live claims, student and term, addresses, token digests,
-- stored answers) are modelled by what the statements do. A transaction runs alone, as _txlock=immediate demands, and a
-- failed one restores the tables; between the attempts of a claim other connections may commit
-- anything (Round.others), and so between the statements of an authentication and while a request with
-- an idempotency key runs. The clock stands still during one attempt.
--
-- Choices: identifiers and counters are natural numbers, since an int64 that is not positive takes the
-- branch of 0 wherever the code tests one. Minutes, weekdays, seat differences and the page offset are
-- integers; the offset wraps at 64 bits. Instants are nanoseconds since year 1. Texts are lists of
-- ASCII bytes, and trimming and case folding are those of ASCII. The float64 of a backoff are
-- written out: a duration from 2^53 nanoseconds on is rounded to 53 bits. Stored instants are compared as their
-- texts. The claim loop is structural recursion on the attempts that are left, max_retries + 1 in all.
-- An int is printed with a bound of 20 digits, which every value below 2^63 fits. SHA-256, HMAC and the
-- base encodings are a parameter (Credentials.Crypto) with what their packages document; the random
-- source, the effect of a migration's script, time.ParseDuration and strconv.ParseBool are arguments.
--
-- Not modelled: the texts of errors and log lines, the detail and request id of audit events, the
-- labels of a timetable conflict, the second wrapping of an error, which errors.Is and Code see
-- through, foreign keys, the scanning of rows, seed data, the HTTP interface, the rest of the wiring,
-- the polling loops around the worker's step, and panics, but for the index of a recorded migration. Opening a database, the HTTP layer and the
-- wiring only pass values on and print; seed data is a fixed script.
pub mod Base
pub mod Domain
pub mod Storage
pub mod Security
pub mod Service
pub mod Worker
pub mod Config
pub mod Tests
