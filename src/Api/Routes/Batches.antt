-- ===== src/Api/Routes/Batches.antt =====
-- backend/app/api/v1/batches.py.
use job_schedular.Prelude.{ℕ, Option, List}
use job_schedular.Model.{Uuid, Time, Db, JobStatus, JobBatch, BatchStatus}
use job_schedular.Services.Jobs.Reads.{JobList}
use job_schedular.Services.Batches.{BatchCreate, create_batch, get_batch, cancel_batch, retry_batch}
use job_schedular.Services.Batches.Reads.{list_batches, get_batch_jobs}
use job_schedular.Services.Access.{Result, ok, unprocessable, ◌>>=◌, ◌>>◌, raise_unless}
use job_schedular.Api.Routes.{Host, is_page}
use job_schedular.Api.Guards.{get_current_user, require_developer_or_admin}

module _ {Token : Type 0} (host : Host Token) (credentials : Option Token) (now : Time) where
  unfoldable pub create_batch_route :
      Uuid → BatchCreate → Uuid → (ℕ → Uuid) → Db → Result (JobBatch × Db)
  unfolding require_developer_or_admin create_batch
  create_batch_route q req id new_id db = do
    user ← require_developer_or_admin host.crypto host.settings credentials now db
    create_batch user q req id new_id now db

  unfoldable pub list_batches_route :
      Option Uuid → Option Uuid → Option BatchStatus → ℕ → ℕ → Db → Result (List JobBatch × ℕ × ℕ)
  unfolding get_current_user list_batches
  list_batches_route p q status page page_size db = do
    user ← get_current_user host.crypto host.settings credentials now db
    raise_unless (is_page 100 page page_size) unprocessable
    ok (list_batches user p q status page page_size db)

  unfoldable pub get_batch_route : Uuid → Db → Result JobBatch
  unfolding get_current_user get_batch
  get_batch_route id db = do
    user ← get_current_user host.crypto host.settings credentials now db
    get_batch user id now db

  unfoldable pub get_batch_jobs_route : Uuid → Option JobStatus → ℕ → ℕ → Db → Result JobList
  unfolding get_current_user get_batch_jobs
  get_batch_jobs_route id status page page_size db = do
    user ← get_current_user host.crypto host.settings credentials now db
    raise_unless (is_page 200 page page_size) unprocessable
    get_batch_jobs user id status page page_size now db

  unfoldable pub cancel_batch_route : Uuid → Db → Result (JobBatch × Db)
  unfolding require_developer_or_admin cancel_batch
  cancel_batch_route id db = do
    user ← require_developer_or_admin host.crypto host.settings credentials now db
    cancel_batch user id now db

  unfoldable pub retry_batch_route : Uuid → Db → Result (JobBatch × Db)
  unfolding require_developer_or_admin retry_batch
  retry_batch_route id db = do
    user ← require_developer_or_admin host.crypto host.settings credentials now db
    retry_batch user id now db
