-- ===== src/Storage/Jobs/Phases.antt =====
-- What the queue promises about the state of a job, apart from how its statements bring it about.
use mathlib.Core.List.{Memᴰ}
use orientation_enrollment_p.Base.{
  ℕ, Bool, true, false, ◌≡◌, refl, sym, ◌∙◌, ap, inl, inr, arith, List, [], ◌∷◌, Bool-cases, ◌==◌,
  Option-cases, subst, ◌≤◌, ◌||◌, count, ==_refl,
}
use orientation_enrollment_p.Base.Text.{Text}
use orientation_enrollment_p.Base.Time.{Time}
use orientation_enrollment_p.Domain.Job.{
  Job, JobKind, JobState, state_eq, queued, running, succeeded, permanently_failed,
}
use orientation_enrollment_p.Base.Sort.First.{find-Mem}
use orientation_enrollment_p.Domain.Errors.{Result, ok, err}
use orientation_enrollment_p.Storage.Jobs.{
  enqueue_job, claim_next_job, mark_job_succeeded, mark_job_retry, mark_job_permanently_failed,
  requeue_stale_jobs, held, released, stale, requeued, leased, finish_job,
}
use orientation_enrollment_p.Storage.Jobs.Leases.{
  claim_next_job-Leased, claim_next_job-err, finish_job_cases,
}
use orientation_enrollment_p.Storage.Db.{Db, Env, update_where}

-- One move of a job.
pub data Move : JobState → JobState → Type 0 where
  waits : {s : JobState} → Move s s
  begins : Move queued running
  succeeds : Move running succeeded
  goes_back : Move running queued
  gives_up : Move running permanently_failed

-- The states that a job does not leave.
abbrev pub is_final : JobState → Bool
is_final s = state_eq s succeeded || state_eq s permanently_failed

-- The queue of the abstract machine: keys and states.
abbrev pub Phases : Type 0
Phases = List (ℕ × JobState)

abbrev pub phases : List Job → Phases
phases [] = []
phases (j ∷ jobs) = (j.id, j.state) ∷ phases jobs

-- One step of the abstract machine: jobs are added in front, and each of the others makes one move.
pub data Step : Phases → Phases → Type 0 where
  unchanged : Step [] []
  added :
      {new : ℕ × JobState} {before after : Phases} → Step before after → Step before (new ∷ after)
  moved :
      {id : ℕ} {s t : JobState} {before after : Phases}
      → Move s t
      → Step before after
      → Step ((id, s) ∷ before) ((id, t) ∷ after)

still : (ps : Phases) → Step ps ps
still [] = unchanged
still ((id, s) ∷ ps) = moved waits (still ps)

-- An UPDATE whose rows each make a move is a step.
update_where-Step :
    (test : Job → Bool) (change : Job → Job) (rows : List Job)
    → ((j : Job)
        → Memᴰ j rows
        → test j ≡ true
        → ((change j).id ≡ j.id) × Move j.state (change j).state)
    → Step (phases rows) (phases (update_where test change rows))
unfolding update_where
update_where-Step test change [] moves = unchanged
update_where-Step test change (j ∷ rows) moves = elim (Bool-cases (test j)) [
  | inl e ↦
      let (same, move) = moves j (Memᴰ.head refl) e in
      rw (e, same)
        (moved move (update_where-Step test change rows (λ k here. moves k (Memᴰ.tail here))))
  | inr e ↦
      rw e (moved waits (update_where-Step test change rows (λ k here. moves k (Memᴰ.tail here))))
]

pub state_eq-true : (s t : JobState) → state_eq s t ≡ true → s ≡ t
state_eq-true queued queued h = refl
state_eq-true running running h = refl
state_eq-true succeeded succeeded h = refl
state_eq-true permanently_failed permanently_failed h = refl
state_eq-true _ _ h = absurd (ground arith)

held-Step :
    (id : ℕ) (change : Job → Job) (rows : List Job)
    → ((j : Job) → (change j).id ≡ j.id)
    → ((j : Job) → Move running (change j).state)
    → Step (phases rows) (phases (update_where (held id) change rows))
held-Step id change rows same move = update_where-Step (held id) change rows (λ j here e.
    let was : state_eq j.state running ≡ true = ground arith in
    (
      same j,
      subst (λ s. Move s (change j).state) (sym (state_eq-true j.state running was)) (move j),
    ))

-- The operations of the queue, with what their callers choose.
pub data Operation : Type 0 where
  enqueue : Job → Operation
  claim : List JobKind → Text → Time → Operation
  succeed : ℕ → Time → Operation
  retry : ℕ → Time → Time → Operation
  fail_for_good : ℕ → Time → Operation
  recover : Time → Time → Operation

abbrev pub perform : Operation → Env → Db → Db
perform (enqueue j) env db = (enqueue_job j env db).1
perform (claim kinds worker_id now) env db = (claim_next_job kinds worker_id now env db).1
perform (succeed id at) env db = (mark_job_succeeded id at env db).1
perform (retry id run_after at) env db = (mark_job_retry id run_after at env db).1
perform (fail_for_good id at) env db = (mark_job_permanently_failed id at env db).1
perform (recover locked_before at) env db = (requeue_stale_jobs locked_before at env db).1

enqueue-Step :
    (j : Job) (env : Env) (db : Db) → Step (phases db.jobs) (phases (enqueue_job j env db).1.jobs)
unfolding enqueue_job
enqueue-Step j env db = elim (Option-cases (env.fault "insert job" db)) [
  | inl fine ↦ rw fine (added (still (phases db.jobs)))
  | inr (f, failed) ↦ rw failed (still (phases db.jobs))
]

finish-Step :
    (id : ℕ) (change : Job → Job) (env : Env) (db : Db)
    → ((j : Job) → (change j).id ≡ j.id)
    → ((j : Job) → Move running (change j).state)
    → Step (phases db.jobs) (phases (finish_job id change env db).1.jobs)
finish-Step id change env db same move = elim (finish_job_cases id change env db) [
  | inl e ↦ rw e (still (phases db.jobs))
  | inr e ↦ rw e (held-Step id change db.jobs same move)
]

recover-Step :
    (cutoff at : Time) (env : Env) (db : Db)
    → Step (phases db.jobs) (phases (requeue_stale_jobs cutoff at env db).1.jobs)
unfolding requeue_stale_jobs
recover-Step cutoff at env db = elim (Option-cases (env.fault "requeue jobs" db)) [
  | inl fine ↦ rw fine (
      update_where-Step (stale cutoff) (requeued at) db.jobs (λ j here e.
        let was : state_eq j.state running ≡ true = ground arith in
        (refl, subst (λ s. Move s queued) (sym (state_eq-true j.state running was)) goes_back)))
  | inr (f, failed) ↦ rw failed (still (phases db.jobs))
]

claimed-Step :
    (kinds : List JobKind) (worker_id : Text) (now : Time) (db : Db) (r : Result Job × Db)
    (env : Env)
    → ((id : ℕ) → count (λ j. j.id == id) db.jobs ≤ 1)
    → claim_next_job kinds worker_id now env db ≡ r
    → Step (phases db.jobs) (phases r.1.jobs)
claimed-Step kinds worker_id now db (err e, after) env keyed h =
    rw (claim_next_job-err kinds worker_id now env db after {e = e} h) (still (phases db.jobs))
claimed-Step kinds worker_id now db (ok job, after) env keyed h =
    let lease = claim_next_job-Leased kinds worker_id now env db after h in
    let row = lease.row in
    let key = λ (j : Job). j.id == row.id in
    let found = find-Mem key db.jobs lease.stored (==_refl row.id) (keyed row.id) in
    rw lease.jobs (
      update_where-Step key (leased worker_id now) db.jobs (λ j here e.
        let found' = find-Mem key db.jobs here e (keyed row.id) in
        let same : row ≡ j = ground arith in
        let was : state_eq row.state queued ≡ true = ground (arith, lease.due) in
        (
          refl,
          subst (λ s. Move s running)
              (sym (ap (λ k. k.state) (sym same) ∙ state_eq-true row.state queued was)) begins,
        )))

-- Every operation of the queue, whatever it answers, is one step of the abstract queue of keys and
-- states, job keys being unique: it adds jobs, and moves the others from waiting to running, and
-- from running to done, back to waiting or to failed.
pub perform-Step :
    (op : Operation) (env : Env) (db : Db)
    → ((id : ℕ) → count (λ j. j.id == id) db.jobs ≤ 1)
    → Step (phases db.jobs) (phases (perform op env db).jobs)
unfolding mark_job_succeeded mark_job_retry mark_job_permanently_failed
perform-Step (enqueue j) env db keyed = enqueue-Step j env db
perform-Step (claim kinds worker_id now) env db keyed =
    claimed-Step kinds worker_id now db (claim_next_job kinds worker_id now env db) env keyed refl
perform-Step (succeed id at) env db keyed =
    finish-Step id (released false succeeded at) env db (λ j. refl) (λ j. succeeds)
perform-Step (retry id run_after at) env db keyed =
    finish-Step id (λ j. record (released true queued at j) { run_after = run_after }) env db
      (λ j. refl) (λ j. goes_back)
perform-Step (fail_for_good id at) env db keyed =
    finish-Step id (released true permanently_failed at) env db (λ j. refl) (λ j. gives_up)
perform-Step (recover cutoff at) env db keyed = recover-Step cutoff at env db
