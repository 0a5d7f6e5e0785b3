-- ===== src/Daemons/Promoter.antt =====
-- worker/app/promoter.py: scheduled jobs whose time has come are queued, in one UPDATE.
pub mod Due
use job_schedular.Prelude.{
  ℕ, Bool, true, not, ◌&&◌, Option, none, some, List, map, leb, ◌==◌, take, select_where,
  update_where, any_where, sort_by,
}
use job_schedular.Model.{Uuid, Time, Job, JobStatus, Db, is_status}
use job_schedular.Engine.Claimer.{job_before}

abbrev pub in_queue : Option Uuid → Job → Bool
in_queue none j = true
in_queue (some q) j = j.queue_id == q

-- parent_job_id IS NULL OR EXISTS (… pj.status = 'completed')
abbrev pub parent_completed : List Job → Option Uuid → Bool
parent_completed jobs none = true
parent_completed jobs (some p) =
    any_where (λ pj. pj.id == p && is_status pj.status JobStatus.completed) jobs

abbrev pub is_due : Option Uuid → Time → List Job → Job → Bool
is_due q now jobs j =
    is_status j.status JobStatus.scheduled
    && leb j.run_at now
    && in_queue q j
    && parent_completed jobs j.parent_job_id

unfoldable pub due_jobs : Option Uuid → Time → ℕ → (Uuid → Bool) → Db → List Uuid
due_jobs q now batch_size locked db =
    map (λ j. j.id)
      (take batch_size (
        sort_by job_before
          (select_where (λ j. is_due q now db.jobs j && not (locked j.id)) db.jobs)))

unfoldable pub promote_row : Time → Job → Job
promote_row now j = record j { status = JobStatus.queued; updated_at = now }

-- The ids that were promoted, whose number `promote_due_jobs` returns.
unfoldable pub promote_due_jobs : Option Uuid → Time → ℕ → (Uuid → Bool) → Db → List Uuid × Db
unfolding due_jobs promote_row
promote_due_jobs q now batch_size locked db =
    let due = due_jobs q now batch_size locked db in
    (
      due,
      record db {
        jobs = update_where (λ j. any_where (λ i. i == j.id) due) (promote_row now) db.jobs;
      },
    )
