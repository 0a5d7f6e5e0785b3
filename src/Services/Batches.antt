-- ===== src/Services/Batches.antt =====
-- backend/app/services/batch_service.py. `get_batch` computes the counters and the status into
-- the loaded row; the write reaches the table only with a later commit of the same session.
pub mod Progress
pub mod Reads
use job_schedular.Prelude.{
  ℕ, ◌+◌, String, Bool, false, not, ◌&&◌, ◌||◌, Option, none, some, List, [], ◌∷◌, ◌++◌,
  if◌then◌else◌, ltb, leb, ◌==◌, opt_is, is_some, or_else, length, find_where, update_where,
  count_where, any_where,
}
use job_schedular.Model.{
  Uuid, Time, User, Queue, Job, JobStatus, JobBatch, BatchStatus, Db, is_status, is_batch_status,
  new_job,
}
use job_schedular.Services.Access.{
  Result, ok, err, forbidden, not_found, server_error, ◌>>=◌, ◌>>◌, raise_unless, or_error,
  owns_project,
}
use job_schedular.Services.Jobs.{JobCreate}
use job_schedular.Daemons.Cron.{has_key}

-- schemas/batch.py
pub record BatchCreate : Type 0 where
  pub name : String
  pub description : Option String
  pub jobs : List JobCreate

abbrev pub in_batch : Uuid → Job → Bool
in_batch b j = opt_is j.batch_id b

abbrev pub is_completed : Job → Bool
is_completed j = is_status j.status JobStatus.completed

abbrev pub is_failed : Job → Bool
is_failed j = is_status j.status JobStatus.dead_letter || is_status j.status JobStatus.failed

abbrev pub is_cancelled : Job → Bool
is_cancelled j = is_status j.status JobStatus.cancelled

-- The status of a batch whose jobs have all ended.
unfoldable pub final_status : ℕ → ℕ → ℕ → ℕ → BatchStatus
final_status total completed failed cancelled =
    if failed == 0 && cancelled == 0
    then BatchStatus.completed
    else if ltb 0 completed
    then BatchStatus.partially_failed
    else if cancelled == total
    then BatchStatus.cancelled
    else BatchStatus.failed

-- What `get_batch` makes of the row, given the counts.
unfoldable pub settle : ℕ → ℕ → ℕ → Time → JobBatch → JobBatch
unfolding final_status
settle completed failed cancelled now b =
    let counted = record b {
      completed_jobs = completed;
      failed_jobs = failed;
      cancelled_jobs = cancelled;
    } in
    if not (is_batch_status b.status BatchStatus.cancelled)
      && leb b.total_jobs (completed + failed + cancelled)
      && ltb 0 b.total_jobs
    then record counted {
      status = final_status b.total_jobs completed failed cancelled;
      completed_at = if is_some b.completed_at then b.completed_at else some now;
    }
    else counted

unfoldable pub refresh_batch : Time → List Job → JobBatch → JobBatch
unfolding settle
refresh_batch now jobs b =
    settle (count_where (λ j. in_batch b.id j && is_completed j) jobs)
      (count_where (λ j. in_batch b.id j && is_failed j) jobs)
      (count_where (λ j. in_batch b.id j && is_cancelled j) jobs) now b

unfoldable pub get_batch : User → Uuid → Time → Db → Result JobBatch
unfolding refresh_batch
get_batch user id now db = do
  b ←
      or_error (find_where (λ b. b.id == id && owns_project db user b.project_id) db.batches)
        not_found
  ok (refresh_batch now db.jobs b)

unfoldable pub batch_job : Uuid → Uuid → Uuid → JobCreate → Time → Job
unfolding new_job
batch_job id q b item now =
    let run_at : Time = or_else item.run_at now in
    new_job id q item.idempotency_key item.name
      (if ltb now run_at then JobStatus.scheduled else JobStatus.queued) item.priority item.payload
      item.max_retries run_at item.parent_job_id (some b) item.tags now

-- Adding a job whose key is taken in the queue breaks the unique index at the commit.
abbrev pub key_taken : Uuid → Option String → List Job → Bool
key_taken q none jobs = false
key_taken q (some key) jobs = any_where (has_key q key) jobs

unfoldable pub add_jobs :
    Uuid → Uuid → List JobCreate → (ℕ → Uuid) → ℕ → Time → List Job → Result (List Job)
unfolding batch_job
add_jobs q b [] new_id i now jobs = ok jobs
add_jobs q b (item ∷ items) new_id i now jobs =
    let rest =
      add_jobs q b items new_id (i + 1) now (jobs ++ batch_job (new_id i) q b item now ∷ []) in
    if key_taken q item.idempotency_key jobs then err server_error else rest

unfoldable pub new_batch : Uuid → Queue → BatchCreate → Time → JobBatch
new_batch id q req now = record {
  id = id;
  project_id = q.project_id;
  queue_id = q.id;
  name = req.name;
  description = req.description;
  status = BatchStatus.processing;
  total_jobs = length req.jobs;
  completed_jobs = 0;
  failed_jobs = 0;
  cancelled_jobs = 0;
  created_at = now;
  updated_at = now;
  completed_at = none;
}

unfoldable pub with_batch : Uuid → Queue → BatchCreate → List Job → Time → Db → Db
unfolding new_batch
with_batch id q req jobs' now db = record db {
  jobs = jobs';
  batches = db.batches ++ new_batch id q req now ∷ [];
}

unfoldable pub create_batch :
    User → Uuid → BatchCreate → Uuid → (ℕ → Uuid) → Time → Db → Result (JobBatch × Db)
unfolding add_jobs with_batch get_batch
create_batch user queue_id req id new_id now db = do
  q ← or_error (find_where (λ q. q.id == queue_id) db.queues) not_found
  raise_unless (owns_project db user q.project_id) forbidden
  jobs' ← add_jobs q.id id req.jobs new_id 0 now db.jobs
  b ← get_batch user id now (with_batch id q req jobs' now db)
  ok (b, with_batch id q req jobs' now db)

-- The commit of a batch operation writes the loaded row back by its id.
unfoldable pub store_batch : JobBatch → List JobBatch → List JobBatch
store_batch b batches = update_where (λ r. r.id == b.id) (λ _. b) batches

abbrev pub is_pending : Uuid → Job → Bool
is_pending b j =
    in_batch b j && (is_status j.status JobStatus.queued || is_status j.status JobStatus.scheduled)

unfoldable pub batch_cancel_row : Time → Job → Job
batch_cancel_row now j = record j { status = JobStatus.cancelled; updated_at = now }

unfoldable pub cancelled : Uuid → JobBatch → Time → Db → Db
unfolding batch_cancel_row store_batch
cancelled id b now db = record db {
  jobs = update_where (is_pending id) (batch_cancel_row now) db.jobs;
  batches = store_batch (record b { status = BatchStatus.cancelled; updated_at = now }) db.batches;
}

unfoldable pub cancel_batch : User → Uuid → Time → Db → Result (JobBatch × Db)
unfolding get_batch cancelled
cancel_batch user id now db = do
  b ← get_batch user id now db
  b' ← get_batch user id now (cancelled id b now db)
  ok (b', cancelled id b now db)

abbrev pub is_retriable : Uuid → Job → Bool
is_retriable b j =
    in_batch b j
    && (is_status j.status JobStatus.dead_letter
        || is_status j.status JobStatus.failed
        || is_status j.status JobStatus.cancelled)

unfoldable pub batch_retry_row : Time → Job → Job
batch_retry_row now j = record j {
  status = JobStatus.queued;
  attempt_count = 0;
  error_message = none;
  run_at = now;
  updated_at = now;
}

unfoldable pub retried : Uuid → JobBatch → Time → Db → Db
unfolding batch_retry_row store_batch
retried id b now db = record db {
  jobs = update_where (is_retriable id) (batch_retry_row now) db.jobs;
  batches =
      store_batch
        (record b { status = BatchStatus.processing; completed_at = none; updated_at = now })
        db.batches;
}

unfoldable pub retry_batch : User → Uuid → Time → Db → Result (JobBatch × Db)
unfolding get_batch retried
retry_batch user id now db = do
  b ← get_batch user id now db
  b' ← get_batch user id now (retried id b now db)
  ok (b', retried id b now db)
