-- ===== src/Engine/Runner.antt =====
-- worker/app/engine/runner.py: executing a claimed job. `begin` loads the row and settles the
-- lease token that the worker holds; the handler then runs while other processes go on, with no row
-- locked; `finalize` records the attempt and settles the job, in one transaction.
pub mod Holding
pub mod Settling
pub mod Workflow
use job_schedular.Prelude.{
  ℕ, ◌+◌, String, Bool, false, ◌&&◌, not, List, Option, none, some, [], ◌∷◌, ◌++◌, if◌then◌else◌,
  ltb, ◌==◌, str_eq, opt_eq, opt_is, is_some, find_where, update_where, count_where, any_where,
}
use job_schedular.Model.{
  Uuid, Time, Json, Message, plain, parent_failed, exhausted_attempts, Job, JobStatus, JobExecution,
  ExecutionStatus, DlqEntry, RetryPolicy, Db, is_status,
}
use job_schedular.Engine.Retry.{Floats, calculate_delay}

-- The part of `ExecutionContext` that finalization reads, with the row loaded at the start.
pub record Context : Type 0 where
  pub job : Job
  pub lease_token : Option Uuid
  pub policy : Option RetryPolicy
  pub execution_id : Uuid
  pub worker_id : String
  pub started_at : Time

-- How the task handler ended: its result, or the exception's text and stack trace.
pub data Outcome : Type 0 where
  returned : Json → Outcome
  raised : String → String → Outcome

-- What the end of an execution is given: the clocks, the captured logs, the random draw of the
-- backoff, the diagnosis of the failure, the UUID of a new dead letter entry, and the jobs as the
-- SELECT of the children saw them, which other processes may have changed by the commit.
pub record Ending : Type 0 where
  pub at : Time
  pub duration_ms : ℕ
  pub logs : Option String
  pub draw : ℕ
  pub ai_summary : String
  pub dlq_id : Uuid
  pub seen : List Job

-- `none` where `scalar_one` finds no row.
unfoldable pub begin : Option Uuid → Uuid → Uuid → String → Time → Db → Option Context
begin held job_id execution_id worker_id now db = elim (find_where (λ j. j.id == job_id) db.jobs) [
  | none ↦ none
  | some j ↦ some (record {
    job = j;
    lease_token = if is_some held then held else j.lease_token;
    policy = find_where (λ r. r.queue_id == j.queue_id) db.policies;
    execution_id = execution_id;
    worker_id = worker_id;
    started_at = now;
  })
]

unfoldable pub execution_row :
    Context → ExecutionStatus → Option Message → Option String → Ending → JobExecution
execution_row c status error trace e = record {
  id = c.execution_id;
  job_id = c.job.id;
  worker_id = c.worker_id;
  attempt_number = c.job.attempt_count;
  status = status;
  started_at = c.started_at;
  finished_at = e.at;
  duration_ms = e.duration_ms;
  error_message = error;
  stack_trace = trace;
  logs = e.logs;
}

-- WHERE id = … AND lease_token = … AND status = 'running'
abbrev pub holds : Uuid → Option Uuid → Job → Bool
holds id token j = j.id == id && opt_eq j.lease_token token && is_status j.status JobStatus.running

-- What `execute_job` leaves: the recorded execution and the database, or the error that a
-- constraint raises, after which nothing is committed: the foreign key of the execution to its job,
-- or the unique constraint on dead_letter_queue.job_id.
pub data Finish : Type 0 where
  finished : JobExecution → Db → Finish
  integrity_error : Finish

unfoldable pub complete_row : Json → Time → Job → Job
complete_row result now j = record j {
  status = JobStatus.completed;
  result = some result;
  completed_at = some now;
  locked_by_worker_id = none;
  lock_expires_at = none;
  lease_token = none;
  error_message = none;
  updated_at = now;
}

unfoldable pub retry_row : Bool → Time → Option Message → Time → Job → Job
retry_row later run_at error now j = record j {
  status = if later then JobStatus.scheduled else JobStatus.queued;
  run_at = run_at;
  locked_by_worker_id = none;
  lock_expires_at = none;
  lease_token = none;
  error_message = error;
  updated_at = now;
}

unfoldable pub bury_row : Option Message → Time → Job → Job
bury_row error now j = record j {
  status = JobStatus.dead_letter;
  locked_by_worker_id = none;
  lock_expires_at = none;
  lease_token = none;
  error_message = error;
  updated_at = now;
}

-- the children that wait for this parent
abbrev pub waits_for : Uuid → Job → Bool
waits_for parent j = opt_is j.parent_job_id parent && is_status j.status JobStatus.scheduled

-- The rows that the commit writes as children: by id, those that were seen to wait. The job itself
-- is not one, having been settled before the SELECT in the same transaction.
abbrev pub is_freed : Uuid → List Job → Job → Bool
is_freed parent seen j =
    any_where (λ x. x.id == j.id && waits_for parent x) seen && not (j.id == parent)

unfoldable pub unlock_row : Time → Job → Job
unlock_row now j = record j { status = JobStatus.queued; run_at = now; updated_at = now }

unfoldable pub cancel_child_row : Uuid → Time → Job → Job
cancel_child_row parent now j = record j {
  status = JobStatus.cancelled;
  error_message = some (parent_failed parent);
  updated_at = now;
}

-- The worker lost its lease: only the execution is recorded, as killed; and if the job has been
-- deleted, not even that, for job_executions.job_id refers to it.
unfoldable pub fenced : Context → String → Option String → Ending → Db → Finish
unfolding execution_row
fenced c why trace e db =
    let ex = execution_row c ExecutionStatus.killed (some (plain why)) trace e in
    if any_where (λ j. j.id == c.job.id) db.jobs
    then finished ex (record db { executions = db.executions ++ ex ∷ [] })
    else integrity_error

unfoldable pub finalize_success : Context → Json → Ending → Db → Finish
unfolding execution_row fenced complete_row unlock_row
finalize_success c result e db =
    let mine = holds c.job.id c.lease_token in
    if count_where mine db.jobs == 0
    then fenced c "Fenced: Worker lease expired during execution; finalization aborted." none e db
    else let ex = execution_row c ExecutionStatus.success none none e in
      finished ex (record db {
        jobs =
            update_where (is_freed c.job.id e.seen) (unlock_row e.at)
              (update_where mine (complete_row result e.at) db.jobs);
        executions = db.executions ++ ex ∷ [];
      })

module _ (fl : Floats) where
  open fl use {of_int, lt, to_time}

  unfoldable pub finalize_retry : Context → String → String → Ending → Db → Finish
  unfolding execution_row fenced retry_row
  finalize_retry c error trace e db =
      let backoff_seconds = calculate_delay fl c.job.attempt_count c.policy false e.draw in
      let mine = holds c.job.id c.lease_token in
      if count_where mine db.jobs == 0
      then fenced c "Fenced: Worker lease expired during execution." (some trace) e db
      else let ex = execution_row c ExecutionStatus.failed (some (plain error)) (some trace) e in
        finished ex (record db {
          jobs =
              update_where mine
                (retry_row (lt (of_int 0) backoff_seconds) (e.at + to_time backoff_seconds)
                  (some (plain error)) e.at)
                db.jobs;
          executions = db.executions ++ ex ∷ [];
        })

unfoldable pub dlq_row : Context → String → String → Ending → DlqEntry
dlq_row c error trace e = record {
  id = e.dlq_id;
  job_id = c.job.id;
  queue_id = c.job.queue_id;
  failed_reason = exhausted_attempts c.job.max_retries (some error);
  total_attempts = c.job.attempt_count;
  last_error = some (plain (if str_eq trace "" then error else trace));
  ai_failure_summary = some e.ai_summary;
  moved_to_dlq_at = e.at;
  is_replayed = false;
  replayed_at = none;
}

unfoldable pub finalize_bury : Context → String → String → Ending → Db → Finish
unfolding execution_row fenced bury_row dlq_row cancel_child_row
finalize_bury c error trace e db =
    let mine = holds c.job.id c.lease_token in
    if count_where mine db.jobs == 0
    then fenced c "Fenced: Worker lease expired during execution." (some trace) e db
    else if any_where (λ d. d.job_id == c.job.id) db.dlq
    then integrity_error
    else let ex = execution_row c ExecutionStatus.failed (some (plain error)) (some trace) e in
      finished ex (record db {
        jobs =
            update_where (is_freed c.job.id e.seen) (cancel_child_row c.job.id e.at)
              (update_where mine (bury_row (some (plain error)) e.at) db.jobs);
        executions = db.executions ++ ex ∷ [];
        dlq = db.dlq ++ dlq_row c error trace e ∷ [];
      })

unfoldable pub finalize : Floats → Context → Outcome → Ending → Db → Finish
unfolding finalize_success finalize_retry finalize_bury
finalize fl c (returned result) e db = finalize_success c result e db
finalize fl c (raised error trace) e db =
    if ltb c.job.attempt_count c.job.max_retries
    then finalize_retry fl c error trace e db
    else finalize_bury c error trace e db
