-- ===== src/Api/Roles.antt =====
-- The writing endpoints of backend/app/api/v1 as one type of requests, and how each is answered.
pub mod Refusals
pub mod Unchanged
pub mod Steps
pub mod Isolation
use job_schedular.Prelude.{ℕ, String, Bool, true, false, Option, List}
use job_schedular.Model.{Uuid, Time, User, Db}
use job_schedular.Services.Access.{Result, ok, ◌>>=◌}
use job_schedular.Services.Jobs.{JobCreate}
use job_schedular.Services.Batches.{BatchCreate}
use job_schedular.Services.Schedules.{ScheduleCreate, ScheduleUpdate}
use job_schedular.Services.Projects.{ProjectCreate, ProjectUpdate, ProjectApiKeyCreate}
use job_schedular.Services.Queues.{QueueCreate, QueueUpdate}
use job_schedular.Api.Routes.{Host}
use job_schedular.Api.Routes.Jobs.{
  create_job_route, create_jobs_batch_route, cancel_job_route, retry_job_route,
}
use job_schedular.Api.Routes.Batches.{create_batch_route, cancel_batch_route, retry_batch_route}
use job_schedular.Api.Routes.Schedules.{
  create_schedule_route, update_schedule_route, pause_schedule_route, resume_schedule_route,
  delete_schedule_route,
}
use job_schedular.Api.Routes.Letters.{
  replay_dlq_entry_route, replay_all_dlq_entries_route, purge_dlq_entry_route,
}
use job_schedular.Api.Routes.Projects.{
  create_project_route, update_project_route, create_api_key_route, create_queue_route,
}
use job_schedular.Api.Routes.Queues.{
  update_queue_route, pause_queue_route, resume_queue_route, delete_queue_route,
}
use job_schedular.Api.Routes.Workers.{drain_worker_route, delete_worker_route}

-- The writing requests of a user who is logged in, with what the server draws at random for each.
pub data Write : Type 0 where
  create_job : Uuid → JobCreate → Option String → Uuid → Write
  create_jobs_batch : Uuid → List JobCreate → (ℕ → Uuid) → Write
  cancel_job : Uuid → Write
  retry_job : Uuid → Write
  create_batch : Uuid → BatchCreate → Uuid → (ℕ → Uuid) → Write
  cancel_batch : Uuid → Write
  retry_batch : Uuid → Write
  create_schedule : Uuid → ScheduleCreate → Uuid → Write
  update_schedule : Uuid → ScheduleUpdate → Write
  pause_schedule : Uuid → Write
  resume_schedule : Uuid → Write
  delete_schedule : Uuid → Write
  replay_dlq_entry : Uuid → Write
  replay_all_dlq_entries : Uuid → Write
  purge_dlq_entry : Uuid → Write
  create_project : ProjectCreate → Uuid → String → Write
  update_project : Uuid → ProjectUpdate → Write
  create_api_key : Uuid → ProjectApiKeyCreate → Uuid → String → Write
  create_queue : Uuid → QueueCreate → Uuid → Uuid → Write
  update_queue : Uuid → QueueUpdate → Uuid → Write
  pause_queue : Uuid → Write
  resume_queue : Uuid → Write
  delete_queue : Uuid → Write
  drain_worker : String → Write
  delete_worker : String → Write

-- what only administrators may do: projects, keys, queues and workers
unfoldable pub needs_admin : Write → Bool
needs_admin (create_job q req header id) = false
needs_admin (create_jobs_batch q items new_id) = false
needs_admin (cancel_job id) = false
needs_admin (retry_job id) = false
needs_admin (create_batch q req id new_id) = false
needs_admin (cancel_batch id) = false
needs_admin (retry_batch id) = false
needs_admin (create_schedule q req id) = false
needs_admin (update_schedule id req) = false
needs_admin (pause_schedule id) = false
needs_admin (resume_schedule id) = false
needs_admin (delete_schedule id) = false
needs_admin (replay_dlq_entry id) = false
needs_admin (replay_all_dlq_entries q) = false
needs_admin (purge_dlq_entry id) = false
needs_admin (create_project req id hex4) = true
needs_admin (update_project id req) = true
needs_admin (create_api_key p req id token) = true
needs_admin (create_queue p req id policy_id) = true
needs_admin (update_queue id req policy_id) = true
needs_admin (pause_queue id) = true
needs_admin (resume_queue id) = true
needs_admin (delete_queue id) = true
needs_admin (drain_worker id) = true
needs_admin (delete_worker id) = true

abbrev pub stored : {A : Type 0} → Result (A × Db) → Result Db
stored m = do (response, db) ← m; ok db

-- The database after the request. `db` is what the request reads, and `mid` what other processes
-- have made of it when its write lands, where the service tells the two apart.
module _ {Token : Type 0} (host : Host Token) (credentials : Option Token) (now : Time) where
  unfoldable pub serve : Write → Db → Db → Result Db
  unfolding create_job_route create_jobs_batch_route cancel_job_route retry_job_route
      create_batch_route cancel_batch_route retry_batch_route create_schedule_route
      update_schedule_route pause_schedule_route resume_schedule_route delete_schedule_route
      replay_dlq_entry_route replay_all_dlq_entries_route purge_dlq_entry_route create_project_route
      update_project_route create_api_key_route create_queue_route update_queue_route
      pause_queue_route resume_queue_route delete_queue_route drain_worker_route delete_worker_route
  serve (create_job q req header id) db mid =
      stored (create_job_route host credentials now q req header id db mid)
  serve (create_jobs_batch q items new_id) db mid =
      stored (create_jobs_batch_route host credentials now q items new_id db)
  serve (cancel_job id) db mid = cancel_job_route host credentials now id db mid
  serve (retry_job id) db mid = retry_job_route host credentials now id db mid
  serve (create_batch q req id new_id) db mid =
      stored (create_batch_route host credentials now q req id new_id db)
  serve (cancel_batch id) db mid = stored (cancel_batch_route host credentials now id db)
  serve (retry_batch id) db mid = stored (retry_batch_route host credentials now id db)
  serve (create_schedule q req id) db mid =
      stored (create_schedule_route host credentials now q req id db)
  serve (update_schedule id req) db mid = update_schedule_route host credentials now id req db
  serve (pause_schedule id) db mid = pause_schedule_route host credentials now id db
  serve (resume_schedule id) db mid = resume_schedule_route host credentials now id db
  serve (delete_schedule id) db mid = delete_schedule_route host credentials now id db
  serve (replay_dlq_entry id) db mid = stored (replay_dlq_entry_route host credentials now id db)
  serve (replay_all_dlq_entries q) db mid =
      stored (replay_all_dlq_entries_route host credentials now q db)
  serve (purge_dlq_entry id) db mid = purge_dlq_entry_route host credentials now id db
  serve (create_project req id hex4) db mid =
      stored (create_project_route host credentials now req id hex4 db)
  serve (update_project id req) db mid = update_project_route host credentials now id req db
  serve (create_api_key p req id token) db mid =
      stored (create_api_key_route host credentials now p req id token db)
  serve (create_queue p req id policy_id) db mid =
      stored (create_queue_route host credentials now p req id policy_id db)
  serve (update_queue id req policy_id) db mid =
      update_queue_route host credentials now id req policy_id db
  serve (pause_queue id) db mid = pause_queue_route host credentials now id db
  serve (resume_queue id) db mid = resume_queue_route host credentials now id db
  serve (delete_queue id) db mid = delete_queue_route host credentials now id db
  serve (drain_worker id) db mid = drain_worker_route host credentials now id db
  serve (delete_worker id) db mid = delete_worker_route host credentials now id db
