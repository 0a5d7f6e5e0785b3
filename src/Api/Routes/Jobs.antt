-- ===== src/Api/Routes/Jobs.antt =====
-- backend/app/api/v1/jobs.py.
use job_schedular.Prelude.{ℕ, String, Option, List}
use job_schedular.Model.{Uuid, Time, Db, Job, JobExecution}
use job_schedular.Services.Jobs.{JobCreate, create_job, create_jobs_batch, cancel_job, retry_job}
use job_schedular.Services.Jobs.Reads.{
  JobFilter, JobList, JobDetail, list_jobs, get_job, get_job_logs,
}
use job_schedular.Services.Access.{Result, ok, unprocessable, ◌>>=◌, ◌>>◌, raise_unless}
use job_schedular.Api.Routes.{Host, is_page}
use job_schedular.Api.Guards.{get_current_user, require_developer_or_admin}

module _ {Token : Type 0} (host : Host Token) (credentials : Option Token) (now : Time) where
  unfoldable pub create_job_route :
      Uuid → JobCreate → Option String → Uuid → Db → Db → Result (Job × Db)
  unfolding require_developer_or_admin create_job
  create_job_route q req header id db mid = do
    user ← require_developer_or_admin host.crypto host.settings credentials now db
    create_job user q req header id now db mid

  unfoldable pub create_jobs_batch_route :
      Uuid → List JobCreate → (ℕ → Uuid) → Db → Result (List Job × Db)
  unfolding require_developer_or_admin create_jobs_batch
  create_jobs_batch_route q items new_id db = do
    user ← require_developer_or_admin host.crypto host.settings credentials now db
    create_jobs_batch user q items new_id now db

  unfoldable pub list_jobs_route : (Uuid → ℕ) → JobFilter → ℕ → ℕ → Db → Result JobList
  unfolding get_current_user list_jobs
  list_jobs_route tie f page page_size db = do
    user ← get_current_user host.crypto host.settings credentials now db
    raise_unless (is_page 100 page page_size) unprocessable
    ok (list_jobs host.figures tie user f page page_size db)

  unfoldable pub get_job_route : Uuid → Db → Result JobDetail
  unfolding get_current_user get_job
  get_job_route id db = do
    user ← get_current_user host.crypto host.settings credentials now db
    get_job host.figures user id db

  unfoldable pub cancel_job_route : Uuid → Db → Db → Result Db
  unfolding require_developer_or_admin cancel_job
  cancel_job_route id db mid = do
    user ← require_developer_or_admin host.crypto host.settings credentials now db
    cancel_job user id now db mid

  unfoldable pub retry_job_route : Uuid → Db → Db → Result Db
  unfolding require_developer_or_admin retry_job
  retry_job_route id db mid = do
    user ← require_developer_or_admin host.crypto host.settings credentials now db
    retry_job user id now db mid

  unfoldable pub get_job_logs_route : Uuid → Db → Result (List JobExecution)
  unfolding get_current_user get_job_logs
  get_job_logs_route id db = do
    user ← get_current_user host.crypto host.settings credentials now db
    get_job_logs host.figures user id db
