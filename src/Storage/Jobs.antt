-- ===== src/Storage/Jobs.antt =====
-- internal/storage/sqlite/jobs.go: the statements on the durable queue. A stored last_error is
-- reduced to whether there is one.
pub mod Leases
pub mod Phases
pub mod Claims
pub mod Recovery
pub mod Histories
use orientation_enrollment_p.Base.{
  ℕ, first_of, String, Bool, true, false, ◌&&◌, ◌||◌, ◌+◌, Option, none, some, List, [], ◌∷◌, suc,
  leb, ◌==◌, keep, any, count, find, if◌then◌else◌,
}
use orientation_enrollment_p.Base.Sort.{order_by}
use orientation_enrollment_p.Base.Text.{Text}
use orientation_enrollment_p.Base.Time.{Time}
use orientation_enrollment_p.Domain.Errors.{sentinel, wrapped, field_error, conflict}
use orientation_enrollment_p.Domain.Job.{
  Job, JobKind, JobState, kind_eq, state_eq, max_job_attempts, queued, running, succeeded,
  permanently_failed,
}
use orientation_enrollment_p.Storage.Timestamps.{stored_le}
use orientation_enrollment_p.Storage.Db.{
  Db, Tx, pure, raise, gets, or_not_found, ◌>>=◌, ◌>>◌, modify, raise_if, attempt, update_where,
}

abbrev pub insert_job : Job → Db → Db
insert_job j db = record db { jobs = j ∷ db.jobs; next_job_id = suc db.next_job_id }

-- `EnqueueJob`; kinds and states are constants here, so neither is blank.
unfoldable pub enqueue_job : Job → Tx Job
unfolding attempt
enqueue_job j = do
  let budget = if j.max_attempts == 0 then max_job_attempts else j.max_attempts
  attempt "insert job"
  id ← gets (λ db. db.next_job_id)
  let created = record j { id = id; max_attempts = budget; locked_at = none; locked_by = [] }
  modify (insert_job created)
  pure created

abbrev pub update_jobs : (Job → Bool) → (Job → Job) → Db → Db
update_jobs test change db = record db { jobs = update_where test change db.jobs }

-- state = 'queued' AND run_after <= ? AND kind IN (...)
abbrev pub ready : List JobKind → Time → Job → Bool
ready kinds now j =
    state_eq j.state queued && (stored_le j.run_after now && any (kind_eq j.kind) kinds)

-- ORDER BY run_after, id
abbrev pub due_le : Job → Job → Bool
due_le j k =
    if stored_le j.run_after k.run_after
    then (if stored_le k.run_after j.run_after then leb j.id k.id else true)
    else false

abbrev pub leased : Text → Time → Job → Job
leased worker_id now j = record j {
  state = running;
  locked_at = some now;
  locked_by = worker_id;
  attempts = j.attempts + 1;
  updated_at = now;
}

abbrev no_kinds : List JobKind → Bool
no_kinds [] = true
no_kinds (k ∷ ks) = false

-- `ClaimNextJob`: the UPDATE of the row that the subquery picks, and the row that it returns.
unfoldable pub claim_next_job : List JobKind → Text → Time → Tx Job
unfolding attempt
claim_next_job kinds worker_id now = do
  raise_if (no_kinds kinds) (field_error "kinds" "at least one job kind is required")
  attempt "claim job"
  job ← or_not_found (← gets (λ db. first_of (order_by due_le (keep (ready kinds now) db.jobs))))
  modify (update_jobs (λ j. j.id == job.id) (leased worker_id now))
  pure (leased worker_id now job)

-- WHERE id = ? AND state = 'running'
abbrev pub held : ℕ → Job → Bool
held id j = j.id == id && state_eq j.state running

-- `finishJob`
unfoldable pub finish_job : ℕ → (Job → Job) → Tx (Unit {0})
unfolding attempt
finish_job id change = do
  attempt "update job"
  affected ← gets (λ db. count (held id) db.jobs)
  modify (update_jobs (held id) change)
  raise_if (affected == 0) (wrapped (sentinel conflict))

abbrev pub released : Bool → JobState → Time → Job → Job
released failed state at j = record j {
  state = state;
  locked_at = none;
  locked_by = [];
  failed_before = failed;
  updated_at = at;
}

unfoldable pub mark_job_succeeded : ℕ → Time → Tx (Unit {0})
mark_job_succeeded id at = finish_job id (released false succeeded at)

unfoldable pub mark_job_retry : ℕ → Time → Time → Tx (Unit {0})
mark_job_retry id run_after at =
    finish_job id (λ j. record (released true queued at j) { run_after = run_after })

unfoldable pub mark_job_permanently_failed : ℕ → Time → Tx (Unit {0})
mark_job_permanently_failed id at = finish_job id (released true permanently_failed at)

-- locked_at IS NULL OR locked_at <= ?
abbrev lock_expired : Option Time → Time → Bool
lock_expired none locked_before = true
lock_expired (some t) locked_before = stored_le t locked_before

abbrev pub stale : Time → Job → Bool
stale locked_before j = state_eq j.state running && lock_expired j.locked_at locked_before

abbrev pub requeued : Time → Job → Job
requeued at j = record j {
  state = queued;
  locked_at = none;
  locked_by = [];
  run_after = at;
  updated_at = at;
}

unfoldable pub requeue_stale_jobs : Time → Time → Tx ℕ
unfolding attempt
requeue_stale_jobs locked_before at = do
  attempt "requeue jobs"
  affected ← gets (λ db. count (stale locked_before) db.jobs)
  modify (update_jobs (stale locked_before) (requeued at))
  pure affected

unfoldable pub find_job_by_id : ℕ → Tx Job
unfolding attempt
find_job_by_id id = do
  attempt "select job"
  or_not_found (← gets (λ db. find (λ j. j.id == id) db.jobs))

unfoldable pub count_jobs_by_state : JobState → Tx ℕ
unfolding attempt
count_jobs_by_state state = do
  attempt "count jobs"
  gets (λ db. count (λ j. state_eq j.state state) db.jobs)
