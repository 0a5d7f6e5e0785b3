-- ===== src/Services/Telemetry.antt =====
-- backend/app/services/telemetry_service.py: the figures of the dashboard. Those of the fleet are
-- about all workers, whoever asks.
pub mod Totals
use job_schedular.Prelude.{
  ℕ, ◌+◌, ◌*◌, String, Bool, ◌&&◌, min, max, Option, List, map, if◌then◌else◌, ◌==◌, leb, ltb,
  is_some, select_where, count_where, length, sort_by,
}
use job_schedular.Model.{
  Uuid, Time, seconds, User, Queue, Job, JobStatus, Worker, WorkerStatus, WorkerHeartbeat, Db,
  is_status, is_worker_status,
}
use job_schedular.Services.Access.{owns_queue, owns_project}
use job_schedular.Services.Figures.{Figures, sum_of, first_min}
use job_schedular.Services.Jobs.Reads.{queue_in_project, is_or_any}
use job_schedular.Services.Queues.Stats.{count_status, oldest_age, mean_wait, completed_recently}

-- schemas/telemetry.py
pub record SystemTelemetry : Type 0 where
  pub total_jobs : ℕ
  pub queued_jobs : ℕ
  pub running_jobs : ℕ
  pub completed_jobs : ℕ
  pub failed_jobs : ℕ
  pub dead_letter_jobs : ℕ
  pub cancelled_jobs : ℕ
  pub jobs_per_sec : ℕ
  pub success_rate_percent : ℕ
  pub failure_rate_percent : ℕ
  pub retry_rate_percent : ℕ
  pub dlq_rate_percent : ℕ

pub record WorkerFleetTelemetry : Type 0 where
  pub workers_online : ℕ
  pub workers_busy : ℕ
  pub workers_idle : ℕ
  pub total_active_jobs : ℕ
  pub average_cpu_percent : ℕ
  pub average_memory_mb : ℕ

pub record QueueTelemetry : Type 0 where
  pub queue_id : Uuid
  pub queue_name : String
  pub priority : ℕ
  pub concurrency_limit : ℕ
  pub is_paused : Bool
  pub queue_depth : ℕ
  pub running_jobs : ℕ
  pub completed_jobs : ℕ
  pub failed_jobs : ℕ
  pub dead_letter_jobs : ℕ
  pub concurrency_utilization_percent : ℕ
  pub oldest_job_age_seconds : Option ℕ
  pub average_wait_time_ms : Option ℕ
  pub throughput_jobs_per_sec : ℕ

pub record FullTelemetryResponse : Type 0 where
  pub system : SystemTelemetry
  pub fleet : WorkerFleetTelemetry
  pub queues : List QueueTelemetry
  pub timestamp : Time

-- the share of a whole, or what is said of an empty one
abbrev share : Figures → ℕ → ℕ → ℕ → ℕ
share figures part whole empty = if ltb 0 whole then figures.percent part (max 1 whole) else empty

unfoldable pub system_telemetry : Figures → Time → List Job → SystemTelemetry
system_telemetry figures now jobs =
    let completed = count_status JobStatus.completed jobs in
    let failed = count_status JobStatus.failed jobs in
    let dead_letter = count_status JobStatus.dead_letter jobs in
    let attempted = completed + failed + dead_letter in
    let total = length jobs in
    record {
      total_jobs = total;
      queued_jobs = count_status JobStatus.queued jobs;
      running_jobs = count_status JobStatus.running jobs;
      completed_jobs = completed;
      failed_jobs = failed;
      dead_letter_jobs = dead_letter;
      cancelled_jobs = count_status JobStatus.cancelled jobs;
      jobs_per_sec = figures.per_second (count_where (completed_recently now) jobs);
      success_rate_percent = share figures completed attempted 1000;
      failure_rate_percent = share figures (failed + dead_letter) attempted 0;
      retry_rate_percent = share figures (count_where (λ j. ltb 1 j.attempt_count) jobs) total 0;
      dlq_rate_percent = share figures dead_letter total 0;
    }

abbrev pub is_online : Time → Worker → Bool
is_online now w =
    is_worker_status w.status WorkerStatus.alive && leb now (w.last_heartbeat_at + seconds 30)

unfoldable pub fleet_telemetry :
    Figures → Time → List Worker → List WorkerHeartbeat → WorkerFleetTelemetry
unfolding sum_of
fleet_telemetry figures now workers heartbeats =
    let online = select_where (is_online now) workers in
    let recent = select_where (λ h. leb now (h.timestamp + seconds 60)) heartbeats in
    record {
      workers_online = length online;
      workers_busy = length (select_where (λ w. ltb 0 w.current_active_jobs) online);
      workers_idle = length (select_where (λ w. w.current_active_jobs == 0) online);
      total_active_jobs = sum_of (λ w. w.current_active_jobs) online;
      average_cpu_percent = figures.mean1 (map (λ h. h.cpu_percent) recent);
      average_memory_mb = figures.mean1 (map (λ h. h.memory_mb) recent);
    }

unfoldable pub queue_telemetry : Figures → Time → List Job → Queue → QueueTelemetry
unfolding first_min sum_of
queue_telemetry figures now all_jobs q =
    let jobs = select_where (λ j. j.queue_id == q.id) all_jobs in
    let running = count_status JobStatus.running jobs in
    record {
      queue_id = q.id;
      queue_name = q.name;
      priority = q.priority;
      concurrency_limit = q.concurrency_limit;
      is_paused = q.is_paused;
      queue_depth = count_status JobStatus.queued jobs;
      running_jobs = running;
      completed_jobs = count_status JobStatus.completed jobs;
      failed_jobs = count_status JobStatus.failed jobs;
      dead_letter_jobs = count_status JobStatus.dead_letter jobs;
      concurrency_utilization_percent =
          min 1000 (figures.percent running (max 1 q.concurrency_limit));
      oldest_job_age_seconds =
          oldest_age figures.age1 now
            (select_where (λ j. is_status j.status JobStatus.queued) jobs);
      average_wait_time_ms = mean_wait figures (select_where (λ j. is_some j.started_at) jobs);
      throughput_jobs_per_sec = figures.per_second (count_where (completed_recently now) jobs);
    }

unfoldable pub get_telemetry : Figures → User → Option Uuid → Time → Db → FullTelemetryResponse
unfolding system_telemetry fleet_telemetry queue_telemetry
get_telemetry figures user project_id now db = record {
  system = system_telemetry figures now (
      select_where (λ j. owns_queue db user j.queue_id && queue_in_project project_id db j.queue_id)
        db.jobs);
  fleet = fleet_telemetry figures now db.workers db.heartbeats;
  queues = map (queue_telemetry figures now db.jobs) (
      sort_by (λ a b. leb b.priority a.priority)
        (select_where (λ q. owns_project db user q.project_id && is_or_any project_id q.project_id)
          db.queues));
  timestamp = now;
}
