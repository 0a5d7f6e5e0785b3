-- ===== src/System/Outcomes.antt =====
-- What the status of a row says of its other columns.
use job_schedular.Prelude.{Bool, true, none, ◌≡◌, ◌≤◌, arith, is_some, All}
use job_schedular.Model.{Uuid, Job, JobStatus, Db, is_status, new_job}
use job_schedular.Engine.Claimer.{claim_row, revert_row}
use job_schedular.Engine.Runner.{complete_row, retry_row, bury_row, unlock_row, cancel_child_row}
use job_schedular.Daemons.Heartbeat.{renew_row}
use job_schedular.Daemons.Reaper.{requeue_row, escalate_row}
use job_schedular.Daemons.Promoter.{promote_row}
use job_schedular.Services.Jobs.{cancel_row, requeue_by_hand}
use job_schedular.Services.Batches.{batch_cancel_row, batch_retry_row}
use job_schedular.Services.Dlq.{replay_row}
use job_schedular.Services.Queues.{orphan_row, unbatch_row}
use job_schedular.System.{Reach}
use job_schedular.System.Rows.{IsKept}
use job_schedular.System.Preserve.{Reach-All}

-- A running job has a lease token, was claimed and started, and has been charged an attempt.
abbrev pub IsRun : Job → Type 0
IsRun j =
    (is_some j.lease_token ≡ true)
    × (is_some j.claimed_at ≡ true)
    × (is_some j.started_at ≡ true)
    × (1 ≤ j.attempt_count)

-- A completed job was charged an attempt, has its result and its time, and no lease and no error.
abbrev pub IsDone : Job → Type 0
IsDone j =
    (1 ≤ j.attempt_count)
    × (is_some j.result ≡ true)
    × (is_some j.completed_at ≡ true)
    × (j.lease_token ≡ none)
    × (j.locked_by_worker_id ≡ none)
    × (j.lock_expires_at ≡ none)
    × (j.error_message ≡ none)

abbrev pub IsCoherent : Job → Type 0
IsCoherent j =
    (is_status j.status JobStatus.running ≡ true → IsRun j)
    × (is_status j.status JobStatus.completed ≡ true → IsDone j)

IsCoherent-kept : (Allowed : Uuid → Bool) → IsKept Allowed IsCoherent
unfolding new_job claim_row revert_row complete_row retry_row bury_row unlock_row cancel_child_row
    renew_row requeue_row escalate_row promote_row cancel_row requeue_by_hand replay_row orphan_row
    unbatch_row batch_cancel_row batch_retry_row
IsCoherent-kept Allowed = record {
  at_insert = λ i q k n later p pl m r pa b tg now. (λ run. ground arith, λ end. ground arith);
  at_claim = λ p q j drawn h. (λ run. ground arith, λ end. ground arith);
  at_revert = λ now j h. (λ run. ground arith, λ end. ground arith);
  at_complete = λ r now j held h. (λ run. ground arith, λ end. ground (arith, h.0 held));
  at_retry = λ later at m now j h. (λ run. ground arith, λ end. ground arith);
  at_bury = λ m now j h. (λ run. ground arith, λ end. ground arith);
  at_unlock = λ now j h. (λ run. ground arith, λ end. ground arith);
  at_cancel_child = λ p now j h. (λ run. ground arith, λ end. ground arith);
  at_renew = λ now j held h. (λ run. ground (arith, h.0 run), λ end. ground arith);
  at_requeue = λ now j h. (λ run. ground arith, λ end. ground arith);
  at_escalate = λ now j h. (λ run. ground arith, λ end. ground arith);
  at_promote = λ now j h. (λ run. ground arith, λ end. ground arith);
  at_cancel = λ read now j h. (λ run. ground arith, λ end. ground arith);
  at_requeue_by_hand = λ read now j h. (λ run. ground arith, λ end. ground arith);
  at_replay = λ now j h. (λ run. ground arith, λ end. ground arith);
  at_batch_cancel = λ now j h. (λ run. ground arith, λ end. ground arith);
  at_orphan = λ j h. (λ run. ground arith, λ end. ground arith);
  at_unbatch = λ j h. (λ run. ground arith, λ end. ground arith);
  at_batch_retry = λ now j h. (λ run. ground arith, λ end. ground arith);
}

-- From a database in which the rows are so, any steps of any processes lead to such a database:
-- every running job has a lease token, was claimed and started and has been charged an attempt,
-- and every completed job has been charged one, has its result and its time of completion, and
-- neither a lease nor an error.
pub rows-AreCoherent :
    (Allowed : Uuid → Bool) (d e : Db)
    → All IsCoherent d.jobs
    → Reach Allowed d e
    → All IsCoherent e.jobs
rows-AreCoherent Allowed d e h run = Reach-All (IsCoherent-kept Allowed) h run
