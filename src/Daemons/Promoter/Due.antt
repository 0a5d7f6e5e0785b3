-- ===== src/Daemons/Promoter/Due.antt =====
-- Which jobs a promotion queues.
use job_schedular.Prelude.{
  some, false, if◌then◌else◌, ◌≤◌, Bool, true, ◌&&◌, Option, List, ◌≡◌, ◌==◌, any_where,
}
use job_schedular.Model.{Uuid, Time, Job, JobStatus, is_status}

-- What makes a job ready for its promotion.
abbrev pub IsReady : Option Uuid → Time → (Uuid → Bool) → List Job → Job → Type 0
IsReady q now locked jobs j =
    (is_status j.status JobStatus.scheduled ≡ true)
    × (j.run_at ≤ now)
    × (locked j.id ≡ false)
    × ((c : Uuid) → q ≡ some c → j.queue_id ≡ c)
    × ((p : Uuid)
        → j.parent_job_id ≡ some p
        → any_where (λ x. x.id == p && is_status x.status JobStatus.completed) jobs ≡ true)

-- The row that a promotion leaves of a row: queued now if its id is listed.
abbrev pub promoted : Time → List Uuid → Job → Job
promoted now ids j =
    if any_where (λ i. i == j.id) ids
    then record j { status = JobStatus.queued; updated_at = now }
    else j
