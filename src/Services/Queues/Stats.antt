-- ===== src/Services/Queues/Stats.antt =====
-- The live figures of a queue, and the listing with them, of backend/app/services/queue_service.py.
use job_schedular.Prelude.{
  ℕ, ◌+◌, ◌-◌, Bool, ◌&&◌, ◌||◌, min, max, Option, none, some, List, [], ◌∷◌, map, if◌then◌else◌,
  ◌==◌, leb, ltb, is_some, or_else, select_where, count_where, length, sort_by,
}
use job_schedular.Model.{Uuid, Time, seconds, User, Queue, Job, JobStatus, Db, is_status}
use job_schedular.Services.Access.{Result, ok, ◌>>=◌}
use job_schedular.Services.Projects.{get_project}
use job_schedular.Services.Figures.{Figures, first_min, sum_of}

pub record QueueStats : Type 0 where
  pub queued : ℕ
  pub running : ℕ
  pub completed : ℕ
  pub failed : ℕ
  pub dead_letter : ℕ
  pub total : ℕ
  pub queue_depth : ℕ
  pub oldest_job_age_seconds : Option ℕ
  pub average_wait_time_ms : Option ℕ
  pub concurrency_utilization_percent : ℕ
  pub throughput_jobs_per_min : ℕ

abbrev pub count_status : JobStatus → List Job → ℕ
count_status s jobs = count_where (λ j. is_status j.status s) jobs

-- The age of the oldest of the jobs, rounded by `age`; 0 where its row is from the future.
abbrev pub oldest_age : (Time → ℕ) → Time → List Job → Option ℕ
oldest_age age now [] = none
oldest_age age now (j ∷ js) =
    let oldest = (first_min (λ x. x.created_at) j js).created_at in
    some (if leb now oldest then age 0 else age (now - oldest))

-- The mean of `started_at - created_at`, if it is not negative.
abbrev pub mean_wait : Figures → List Job → Option ℕ
mean_wait figures [] = none
mean_wait figures (j ∷ js) =
    let started = sum_of (λ x. or_else x.started_at 0) (j ∷ js) in
    let created = sum_of (λ x. x.created_at) (j ∷ js) in
    if leb created started
    then some (figures.mean_ms (started - created) (length (j ∷ js)))
    else none

-- completed_at >= now - 60 s
abbrev pub completed_recently : Time → Job → Bool
completed_recently now j =
    is_status j.status JobStatus.completed
    && is_some j.completed_at
    && leb now (or_else j.completed_at 0 + seconds 60)

unfoldable pub get_queue_stats : Figures → Uuid → ℕ → Time → Db → QueueStats
unfolding first_min sum_of
get_queue_stats figures q limit now db =
    let jobs = select_where (λ j. j.queue_id == q) db.jobs in
    let running = count_status JobStatus.running jobs in
    record {
      queued = count_status JobStatus.queued jobs;
      running = running;
      completed = count_status JobStatus.completed jobs;
      failed = count_status JobStatus.failed jobs;
      dead_letter = count_status JobStatus.dead_letter jobs;
      total = length jobs;
      queue_depth = count_status JobStatus.queued jobs;
      oldest_job_age_seconds =
          oldest_age figures.age2 now
            (select_where (λ j. is_status j.status JobStatus.queued) jobs);
      average_wait_time_ms = mean_wait figures (select_where (λ j. is_some j.started_at) jobs);
      concurrency_utilization_percent = min 1000 (figures.percent running (max 1 limit));
      throughput_jobs_per_min = count_where (completed_recently now) jobs;
    }

-- ORDER BY priority DESC, name ASC
abbrev pub queue_order : Figures → Queue → Queue → Bool
queue_order figures a b =
    ltb b.priority a.priority || a.priority == b.priority && figures.text_le a.name b.name

unfoldable pub list_queues : Figures → User → Uuid → Time → Db → Result (List (Queue × QueueStats))
unfolding get_project get_queue_stats
list_queues figures user project_id now db = do
  p ← get_project db user project_id
  ok (
      map (λ q. (q, get_queue_stats figures q.id q.concurrency_limit now db))
        (sort_by (queue_order figures) (select_where (λ q. q.project_id == p.id) db.queues)))
