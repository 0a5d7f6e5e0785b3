-- ===== src/Api/Routes/Workers.antt =====
-- backend/app/api/v1/workers.py: the fleet, which is not divided by organisation.
use job_schedular.Prelude.{
  ℕ, ◌+◌, ◌-◌, String, Bool, true, false, not, ◌&&◌, Option, List, map, take, if◌then◌else◌, ◌==◌,
  leb, ltb, str_eq, select_where, find_where, update_where, count_where, sort_by,
}
use job_schedular.Model.{
  Time, Db, seconds, Worker, WorkerStatus, WorkerHeartbeat, JobExecution, ExecutionStatus,
  is_worker_status,
}
use job_schedular.Services.Figures.{Figures}
use job_schedular.Services.Access.{Result, ok, not_found, ◌>>=◌, or_error}
use job_schedular.Api.Routes.{Host}
use job_schedular.Api.Guards.{get_current_user, require_admin}

pub record WorkerResponse : Type 0 where
  pub worker : Worker
  pub is_alive : Bool
  pub heartbeat_age_seconds : ℕ
  pub jobs_processed : ℕ
  pub failure_count : ℕ
  pub is_busy : Bool
  pub is_idle : Bool

abbrev pub is_success : ExecutionStatus → Bool
is_success ExecutionStatus.success = true
is_success ExecutionStatus.failed = false
is_success ExecutionStatus.timeout = false
is_success ExecutionStatus.killed = false

unfoldable pub worker_response : Figures → Time → List JobExecution → Worker → WorkerResponse
worker_response figures now executions w = record {
  worker = w;
  is_alive =
      is_worker_status w.status WorkerStatus.alive && leb now (w.last_heartbeat_at + seconds 30);
  heartbeat_age_seconds =
      if leb now w.last_heartbeat_at
      then figures.age1 0
      else figures.age1 (now - w.last_heartbeat_at);
  jobs_processed = count_where (λ e. str_eq e.worker_id w.worker_id) executions;
  failure_count =
      count_where (λ e. str_eq e.worker_id w.worker_id && not (is_success e.status)) executions;
  is_busy = ltb 0 w.current_active_jobs;
  is_idle = w.current_active_jobs == 0;
}

unfoldable pub set_draining : String → Db → Db
set_draining id db = record db {
  workers =
      update_where (λ w. str_eq w.worker_id id) (λ w. record w { status = WorkerStatus.draining })
        db.workers;
}

-- with the heartbeats, whose foreign key cascades
unfoldable pub remove_worker : String → Db → Db
remove_worker id db = record db {
  workers = select_where (λ w. not (str_eq w.worker_id id)) db.workers;
  heartbeats = select_where (λ h. not (str_eq h.worker_id id)) db.heartbeats;
}

module _ {Token : Type 0} (host : Host Token) (credentials : Option Token) (now : Time) where
  unfoldable pub list_workers_route : Db → Result (List WorkerResponse)
  unfolding get_current_user worker_response
  list_workers_route db = do
    user ← get_current_user host.crypto host.settings credentials now db
    ok (
        map (worker_response host.figures now db.executions)
          (sort_by (λ a b. leb b.started_at a.started_at) db.workers))

  unfoldable pub worker_heartbeats_route : String → ℕ → Db → Result (List WorkerHeartbeat)
  unfolding get_current_user
  worker_heartbeats_route id limit db = do
    user ← get_current_user host.crypto host.settings credentials now db
    ok (
        take limit (
          sort_by (λ a b. leb b.timestamp a.timestamp)
            (select_where (λ h. str_eq h.worker_id id) db.heartbeats)))

  unfoldable pub drain_worker_route : String → Db → Result Db
  unfolding require_admin set_draining
  drain_worker_route id db = do
    user ← require_admin host.crypto host.settings credentials now db
    w ← or_error (find_where (λ w. str_eq w.worker_id id) db.workers) not_found
    ok (set_draining w.worker_id db)

  unfoldable pub delete_worker_route : String → Db → Result Db
  unfolding require_admin remove_worker
  delete_worker_route id db = do
    user ← require_admin host.crypto host.settings credentials now db
    w ← or_error (find_where (λ w. str_eq w.worker_id id) db.workers) not_found
    ok (remove_worker w.worker_id db)
