-- ===== src/Daemons/Heartbeat.antt =====
-- worker/app/heartbeat.py: a worker reports that it is alive and renews its leases.
use job_schedular.Prelude.{
  ℕ, ◌+◌, String, Bool, ◌&&◌, some, List, [], ◌∷◌, ◌++◌, str_eq, ◌==◌, opt_str_is, length,
  update_where, any_where,
}
use job_schedular.Model.{
  Uuid, Time, seconds, Job, JobStatus, Worker, WorkerHeartbeat, Db, is_status,
}

-- settings.JOB_LOCK_TIMEOUT_SECONDS
abbrev pub job_lock_timeout_seconds : ℕ
job_lock_timeout_seconds = 30

-- the jobs of this worker whose leases a heartbeat renews
abbrev pub is_renewed : String → List Uuid → Job → Bool
is_renewed worker_id active j =
    any_where (λ i. i == j.id) active
    && opt_str_is j.locked_by_worker_id worker_id
    && is_status j.status JobStatus.running

unfoldable pub renew_row : Time → Job → Job
renew_row now j = record j {
  lock_expires_at = some (now + seconds job_lock_timeout_seconds);
  updated_at = now;
}

unfoldable pub beat_row : Time → ℕ → Worker → Worker
beat_row now active w = record w { last_heartbeat_at = now; current_active_jobs = active }

-- _record_heartbeat; with no active job the renewing statement is not sent, and would match none.
unfoldable pub record_heartbeat : String → List Uuid → Time → ℕ → ℕ → Db → Db
unfolding renew_row beat_row
record_heartbeat worker_id active now cpu_percent memory_mb db = record db {
  workers =
      update_where (λ w. str_eq w.worker_id worker_id) (beat_row now (length active)) db.workers;
  heartbeats = db.heartbeats ++ point ∷ [];
  jobs = update_where (is_renewed worker_id active) (renew_row now) db.jobs;
}
  where
    point : WorkerHeartbeat
    point = record {
      worker_id = worker_id;
      cpu_percent = cpu_percent;
      memory_mb = memory_mb;
      active_jobs = length active;
      timestamp = now;
    }
