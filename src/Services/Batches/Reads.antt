-- ===== src/Services/Batches/Reads.antt =====
-- The listing of backend/app/services/batch_service.py, and the jobs of a batch, which
-- backend/app/api/v1/batches.py reads itself.
use job_schedular.Prelude.{
  ℕ, Bool, true, ◌&&◌, Option, none, some, List, leb, select_where, length, sort_by,
}
use job_schedular.Model.{
  Uuid, Time, User, Job, JobStatus, JobBatch, BatchStatus, Db, is_status, is_batch_status,
}
use job_schedular.Services.Access.{Result, ok, ◌>>=◌, owns_project, total_pages, page_of}
use job_schedular.Services.Jobs.Reads.{JobList, is_or_any}
use job_schedular.Services.Batches.{get_batch, in_batch}

abbrev batch_status_passes : Option BatchStatus → BatchStatus → Bool
batch_status_passes none s = true
batch_status_passes (some t) s = is_batch_status s t

abbrev pub newest_batch_first : JobBatch → JobBatch → Bool
newest_batch_first a b = leb b.created_at a.created_at

unfoldable pub list_batches :
    User → Option Uuid → Option Uuid → Option BatchStatus → ℕ → ℕ → Db → List JobBatch × ℕ × ℕ
unfolding total_pages page_of
list_batches user project_id queue_id status page page_size db =
    let found =
      select_where
        (λ b.
          owns_project db user b.project_id
          && is_or_any project_id b.project_id
          && is_or_any queue_id b.queue_id
          && batch_status_passes status b.status)
        db.batches in
    let total = length found in
    (page_of page page_size (sort_by newest_batch_first found), total, total_pages total page_size)

abbrev job_status_passes : Option JobStatus → JobStatus → Bool
job_status_passes none s = true
job_status_passes (some t) s = is_status s t

abbrev pub oldest_job_first : Job → Job → Bool
oldest_job_first a b = leb a.created_at b.created_at

unfoldable pub get_batch_jobs : User → Uuid → Option JobStatus → ℕ → ℕ → Time → Db → Result JobList
unfolding get_batch total_pages page_of
get_batch_jobs user id status page page_size now db = do
  b ← get_batch user id now db
  let found = select_where (λ j. in_batch id j && job_status_passes status j.status) db.jobs
  ok (record {
    items = page_of page page_size (sort_by oldest_job_first found);
    total = length found;
    page = page;
    page_size = page_size;
    total_pages = total_pages (length found) page_size;
  })
