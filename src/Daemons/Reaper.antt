-- ===== src/Daemons/Reaper.antt =====
-- worker/app/reaper.py: one sweep of the lease reaper. The sweep reads the expired jobs with a
-- plain SELECT and writes each of them back by its id at the commit: `db` is what it reads, and
-- `mid` what the other processes have made of it when the writes land.
pub mod Recovery
use job_schedular.Prelude.{
  ℕ, ◌+◌, Bool, false, ◌&&◌, none, some, List, [], ◌∷◌, ◌++◌, if◌then◌else◌, ltb, leb, ◌==◌,
  opt_before, length, select_where, update_where, any_where,
}
use job_schedular.Model.{
  Uuid, Time, seconds, plain, expired_after_attempts, Job, JobStatus, DlqEntry, Worker,
  WorkerStatus, Db, is_status, is_worker_status,
}
use job_schedular.Daemons.Heartbeat.{job_lock_timeout_seconds}

-- alive, and silent for longer than the lock timeout
abbrev pub is_silent : Time → Worker → Bool
is_silent now w =
    is_worker_status w.status WorkerStatus.alive
    && ltb (w.last_heartbeat_at + seconds job_lock_timeout_seconds) now

unfoldable pub mark_dead : Worker → Worker
mark_dead w = record w { status = WorkerStatus.dead }

abbrev pub is_expired : Time → Job → Bool
is_expired now j = is_status j.status JobStatus.running && opt_before j.lock_expires_at now

unfoldable pub requeue_row : Time → Job → Job
requeue_row now j = record j {
  status = JobStatus.queued;
  run_at = now;
  locked_by_worker_id = none;
  lease_token = none;
  lock_expires_at = none;
  error_message = some (plain "Worker lease expired (Worker crashed or lost heartbeat)");
  updated_at = now;
}

unfoldable pub escalate_row : Time → Job → Job
escalate_row now j = record j {
  status = JobStatus.dead_letter;
  locked_by_worker_id = none;
  lease_token = none;
  lock_expires_at = none;
  error_message = some (plain "Worker lease expired and maximum retries exhausted");
  updated_at = now;
}

unfoldable pub refresh_entry : Job → Time → DlqEntry → DlqEntry
refresh_entry j now d = record d {
  failed_reason = expired_after_attempts j.attempt_count;
  total_attempts = j.attempt_count;
  last_error = some (plain "Worker failed to send heartbeat / lease expired");
  moved_to_dlq_at = now;
  is_replayed = false;
  replayed_at = none;
}

unfoldable pub expired_entry : Uuid → Job → Time → DlqEntry
expired_entry id j now = record {
  id = id;
  job_id = j.id;
  queue_id = j.queue_id;
  failed_reason = expired_after_attempts j.attempt_count;
  total_attempts = j.attempt_count;
  last_error = some (plain "Worker failed to send heartbeat / lease expired");
  ai_failure_summary = none;
  moved_to_dlq_at = now;
  is_replayed = false;
  replayed_at = none;
}

-- the entry of the job is brought up to date, or a new one is added
unfoldable pub upsert_entry : Uuid → Job → Time → List DlqEntry → List DlqEntry
unfolding refresh_entry expired_entry
upsert_entry id j now entries =
    if any_where (λ d. d.job_id == j.id) entries
    then update_where (λ d. d.job_id == j.id) (refresh_entry j now) entries
    else entries ++ expired_entry id j now ∷ []

-- the body of the loop over the expired jobs, `j` as it was read
unfoldable pub reap_job : Time → (Uuid → Uuid) → Job → Db → Db
unfolding requeue_row escalate_row upsert_entry
reap_job now new_id j db =
    if ltb j.attempt_count j.max_retries
    then record db { jobs = update_where (λ x. x.id == j.id) (requeue_row now) db.jobs }
    else record db {
      jobs = update_where (λ x. x.id == j.id) (escalate_row now) db.jobs;
      dlq = upsert_entry (new_id j.id) j now db.dlq;
    }

unfoldable pub reap_jobs : Time → (Uuid → Uuid) → List Job → Db → Db
unfolding reap_job
reap_jobs now new_id [] db = db
reap_jobs now new_id (j ∷ js) db = reap_jobs now new_id js (reap_job now new_id j db)

pub record Sweep : Type 0 where
  pub dead_workers_detected : ℕ
  pub jobs_requeued : ℕ
  pub jobs_moved_to_dlq : ℕ
  pub total_expired_jobs : ℕ

unfoldable pub expired_jobs : Time → Db → List Job
expired_jobs now db = select_where (is_expired now) db.jobs

unfoldable pub reap_expired_leases : Time → (Uuid → Uuid) → Db → Db → Sweep × Db
unfolding mark_dead expired_jobs reap_jobs
reap_expired_leases now new_id db mid =
    let expired = expired_jobs now db in
    (
      record {
        dead_workers_detected = length (select_where (is_silent now) mid.workers);
        jobs_requeued = length (select_where (λ j. ltb j.attempt_count j.max_retries) expired);
        jobs_moved_to_dlq = length (select_where (λ j. leb j.max_retries j.attempt_count) expired);
        total_expired_jobs = length expired;
      },
      reap_jobs now new_id expired
          (record mid { workers = update_where (is_silent now) mark_dead mid.workers }),
    )
