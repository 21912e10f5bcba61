-- ===== src/Storage/Jobs/Claims.antt =====
-- What the lease of a job leaves in the queue, told apart from the statement's own tests.
use mathlib.Core.List.{Memᴰ}
use mathlib.Core.Option
use orientation_enrollment_p.Base.{
  ℕ, true, ◌≡◌, ◌≢◌, refl, sym, ◌∙◌, ap, inl, inr, ◌+◌, ◌/◌, ◌≤◌, ◌==◌, ==_refl, arith, some, List,
  [], ◌∷◌, any, find, count, if◌then◌else◌, Bool-cases,
}
use orientation_enrollment_p.Base.Sort.First.{find-Mem}
use orientation_enrollment_p.Base.Text.{Text}
use orientation_enrollment_p.Base.Time.{Time, second}
use orientation_enrollment_p.Domain.Errors.{ok}
use orientation_enrollment_p.Domain.Job.{
  Job, JobKind, kind_eq, promote_waitlist, sweep_sessions, queued, running,
}
use orientation_enrollment_p.Storage.Db.{Db, Env, update_where}
use orientation_enrollment_p.Storage.Jobs.{claim_next_job, leased}
use orientation_enrollment_p.Storage.Jobs.Leases.{claim_next_job-Leased}
use orientation_enrollment_p.Storage.Jobs.Phases.{state_eq-true}
use orientation_enrollment_p.Storage.Rows.{find-update_where}
use orientation_enrollment_p.Storage.Timestamps.Order.{stored_le-seconds}

kind_eq-true : (k l : JobKind) → kind_eq k l ≡ true → k ≡ l
kind_eq-true promote_waitlist promote_waitlist h = refl
kind_eq-true sweep_sessions sweep_sessions h = refl
kind_eq-true _ _ h = absurd (ground arith)

kind_among : (k : JobKind) (kinds : List JobKind) → any (kind_eq k) kinds ≡ true → Memᴰ k kinds
kind_among k [] h = absurd (ground arith)
kind_among k (l ∷ kinds) h = elim (Bool-cases (kind_eq k l)) [
  | inl e ↦ Memᴰ.head (kind_eq-true k l e)
  | inr e ↦ Memᴰ.tail (kind_among k kinds (ground arith))
]

-- A claim of the job: the row that it takes, the answer, and the other rows.
pub record Claimed (kinds : List JobKind) (worker_id : Text) (now : Time) (before after : List Job)
    (j : Job) : Type 0 where
  pub row : Job
  pub stored : Memᴰ row before
  pub waiting : row.state ≡ queued
  pub wanted : Memᴰ row.kind kinds
  pub due : row.run_after / second ≤ now / second
  pub key : j.id ≡ row.id
  pub work : (j.kind ≡ row.kind) × (j.payload ≡ row.payload)
  pub runs : j.state ≡ running
  pub counted : j.attempts ≡ row.attempts + 1
  pub locked : (j.locked_at ≡ some now) × (j.locked_by ≡ worker_id)
  pub written : find (λ k. k.id == row.id) after ≡ some j
  pub others : (id : ℕ) → id ≢ row.id → find (λ k. k.id == id) after ≡ find (λ k. k.id == id) before

others_same :
    (id other : ℕ) (change : Job → Job) (rows : List Job)
    → other ≢ id
    → ((j : Job) → (change j).id ≡ j.id)
    → find (λ k. k.id == other) (update_where (λ k. k.id == id) change rows)
      ≡ find (λ k. k.id == other) rows
unfolding update_where
others_same id other change [] apart same = refl
others_same id other change (r ∷ rows) apart same =
    ground (arith, same r, others_same id other change rows apart same)

-- A claimed job was waiting, of a requested kind, and due, to the second of the clock. It is answered
-- and stored as running, locked by the worker from now on, with one attempt more and the same work;
-- every other job is as it was. Job keys are unique.
pub claim_next_job-Claimed :
    (kinds : List JobKind) (worker_id : Text) (now : Time) (env : Env) (db after : Db) {j : Job}
    → ((id : ℕ) → count (λ k. k.id == id) db.jobs ≤ 1)
    → claim_next_job kinds worker_id now env db ≡ (ok j, after)
    → Claimed kinds worker_id now db.jobs after.jobs j
claim_next_job-Claimed kinds worker_id now env db after {j} unique h =
    let lease = claim_next_job-Leased kinds worker_id now env db after h in
    let row = lease.row in
    let test = λ (k : Job). k.id == row.id in
    let rows : after.jobs ≡ update_where test (leased worker_id now) db.jobs =
      ap (λ d. d.jobs) lease.jobs in
    let found = find-Mem test db.jobs lease.stored (==_refl row.id) (unique row.id) in
    record {
      row = row;
      stored = lease.stored;
      waiting = state_eq-true row.state queued (ground (arith, lease.due));
      wanted = kind_among row.kind kinds (ground (arith, lease.due));
      due = stored_le-seconds row.run_after now (ground (arith, lease.due));
      key = ap (λ k. k.id) lease.job;
      work = (ap (λ k. k.kind) lease.job, ap (λ k. k.payload) lease.job);
      runs = ap (λ k. k.state) lease.job;
      counted = ap (λ k. k.attempts) lease.job;
      locked = (ap (λ k. k.locked_at) lease.job, ap (λ k. k.locked_by) lease.job);
      written =
          ap (find test) rows
          ∙ find-update_where test test (leased worker_id now) db.jobs (λ k. refl)
          ∙ ap (Option.map (λ k. if test k then leased worker_id now k else k)) found
          ∙ rw (==_refl row.id) (ap some (sym lease.job));
      others = λ id apart.
          ap (find (λ k. k.id == id)) rows
          ∙ others_same row.id id (leased worker_id now) db.jobs apart (λ k. refl);
    }
