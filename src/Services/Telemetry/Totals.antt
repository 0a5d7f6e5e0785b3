-- ===== src/Services/Telemetry/Totals.antt =====
-- The figures of the dashboard add up.
use job_schedular.Prelude.{
  ℕ, ◌+◌, ◌≤◌, ◌≡◌, arith, Option, List, [], ◌∷◌, ◌==◌, ltb, length, if◌then◌else◌, select_where,
  count_where,
}
use job_schedular.Model.{Uuid, Time, User, Job, JobStatus, Worker, Db, is_status}
use job_schedular.Services.Figures.{Figures}
use job_schedular.Services.Queues.Stats.{count_status}
use job_schedular.Services.Telemetry.{system_telemetry, fleet_telemetry, get_telemetry}

busy_or_idle :
    (ws : List Worker)
    → length ws
      ≡ length (select_where (λ w. ltb 0 w.current_active_jobs) ws)
        + length (select_where (λ w. w.current_active_jobs == 0) ws)
unfolding select_where
busy_or_idle [] = omega arith
busy_or_idle (w ∷ ws) = ground (arith, busy_or_idle ws)

abbrev counted : JobStatus → JobStatus → ℕ
counted s t = if is_status s t then 1 else 0

one_status :
    (s : JobStatus)
    → counted s JobStatus.queued
        + counted s JobStatus.running
        + counted s JobStatus.completed
        + counted s JobStatus.failed
        + counted s JobStatus.dead_letter
        + counted s JobStatus.cancelled
      ≤ 1
one_status JobStatus.queued = omega arith
one_status JobStatus.scheduled = omega arith
one_status JobStatus.claimed = omega arith
one_status JobStatus.running = omega arith
one_status JobStatus.completed = omega arith
one_status JobStatus.failed = omega arith
one_status JobStatus.cancelled = omega arith
one_status JobStatus.dead_letter = omega arith

-- A job has one status, so the counts of some of them are at most the number of jobs.
counts-le-total :
    (jobs : List Job)
    → count_status JobStatus.queued jobs
        + count_status JobStatus.running jobs
        + count_status JobStatus.completed jobs
        + count_status JobStatus.failed jobs
        + count_status JobStatus.dead_letter jobs
        + count_status JobStatus.cancelled jobs
      ≤ length jobs
unfolding count_where
counts-le-total [] = omega arith
counts-le-total (j ∷ jobs) = omega (arith, one_status j.status, counts-le-total jobs)

-- The figures for any user and project: the workers that are online are those that are busy and
-- those that are idle, and the jobs counted by their status are at most the jobs.
pub telemetry-totals :
    (figures : Figures) (user : User) (project_id : Option Uuid) (now : Time) (db : Db)
    → let t = get_telemetry figures user project_id now db in
      (t.fleet.workers_online ≡ t.fleet.workers_busy + t.fleet.workers_idle)
      × (t.system.queued_jobs + t.system.running_jobs + t.system.completed_jobs
            + t.system.failed_jobs + t.system.dead_letter_jobs + t.system.cancelled_jobs
          ≤ t.system.total_jobs)
unfolding get_telemetry fleet_telemetry system_telemetry
telemetry-totals figures user project_id now db = (busy_or_idle _, counts-le-total _)
