-- ===== src/Api/Roles/Steps.antt =====
-- Each writing request that succeeds is one step of the whole system, so that what holds in every
-- run of the system holds with the REST API in it.
use job_schedular.Prelude.{Bool, true, false, Option, ◌≡◌, refl, find_where, str_eq}
use job_schedular.Model.{Uuid, Time, Db}
use job_schedular.Services.Access.{Result, ok, err, ◌>>=◌, or_error, not_found}
use job_schedular.Services.Access.Returns.{Returns, Returns-bind, Returns-any, Returns-ok}
use job_schedular.Services.Jobs
use job_schedular.Services.Batches
use job_schedular.Services.Dlq
use job_schedular.Services.Queues
use job_schedular.Services.Schedules
use job_schedular.Services.Projects
use job_schedular.System.{
  Step, creates, creates_many, cancels, retries, creates_batch, cancels_batch, retries_batch,
  replays, replays_all, deletes_queue, others,
}
use job_schedular.Api.Guards.{require_admin, require_developer_or_admin}
use job_schedular.Api.Routes.{Host}
use job_schedular.Api.Roles.{
  Write, stored, serve, create_job, create_jobs_batch, cancel_job, retry_job, create_batch,
  cancel_batch, retry_batch, create_schedule, update_schedule, pause_schedule, resume_schedule,
  delete_schedule, replay_dlq_entry, replay_all_dlq_entries, purge_dlq_entry, create_project,
  update_project, create_api_key, create_queue, update_queue, pause_queue, resume_queue,
  delete_queue, drain_worker, delete_worker,
}
use job_schedular.Api.Roles.Unchanged.{
  SameJobs, SameJobsIn, create_schedule-jobs, update_schedule-jobs, set_active-jobs,
  delete_schedule-jobs, purge_dlq_entry-jobs, create_project-jobs, update_project-jobs,
  create_api_key-jobs, create_queue-jobs, update_queue-jobs, pause_queue-jobs,
}

-- What the write of a request lands on: the services that tell what they read from what they write
-- give the second of the two databases, and the others are one transaction.
abbrev pub lands_on : Write → Db → Db → Db
lands_on (create_job q req header id) db mid = mid
lands_on (cancel_job id) db mid = mid
lands_on (retry_job id) db mid = mid
lands_on _ db mid = db

module _ {B : Type 0} (Q : B → Type 1) where
  then_by :
      {A : Type 0} (g : Result A) (f : A → Result B)
      → ((a : A) → Returns Q (f a))
      → Returns Q (do a ← g; f a)
  then_by g f h = Returns-bind (λ _. Unit {0}) Q g f (Returns-any g) (λ a _. h a)

  with_self : (m : Result B) → ((b : B) → m ≡ ok b → Q b) → Returns Q m
  with_self (ok b) h = h b refl
  with_self (err e) h = tt

  with_same : (P : B → Type 0) (m : Result B) → Returns P m → ((b : B) → P b → Q b) → Returns Q m
  with_same P (ok b) p h = h b p
  with_same P (err e) p h = tt

stored_by :
    {A : Type 0} (Q : Db → Type 1) (m : Result (A × Db))
    → Returns (λ r. Q r.1) m
    → Returns Q (stored m)
stored_by Q (ok r) h = h
stored_by Q (err e) h = tt

module _ {Token : Type 0} (host : Host Token) (Allowed : Uuid → Bool) (credentials : Option Token)
    (now : Time) where
  abbrev StepFrom : Db → Db → Type 1
  StepFrom d after = Step Allowed d after

  serve-Step_lem :
      (w : Write) (db mid : Db)
      → Returns (StepFrom (lands_on w db mid)) (serve host credentials now w db mid)
  unfolding serve
  serve-Step_lem (create_job q req header id) db mid = stored_by (StepFrom mid) _ (
      then_by (λ r. StepFrom mid r.1)
        (require_developer_or_admin host.crypto host.settings credentials now db) _
        (λ user.
          with_self (λ r. StepFrom mid r.1) (Jobs.create_job user q req header id now db mid)
            (λ r e. creates user q req header id now db mid r.1 r.0 e)))
  serve-Step_lem (create_jobs_batch q items new_id) db mid = stored_by (StepFrom db) _ (
      then_by (λ r. StepFrom db r.1)
        (require_developer_or_admin host.crypto host.settings credentials now db) _
        (λ user.
          with_self (λ r. StepFrom db r.1) (Jobs.create_jobs_batch user q items new_id now db)
            (λ r e. creates_many user q items new_id now db r.1 r.0 e)))
  serve-Step_lem (cancel_job id) db mid =
      then_by (StepFrom mid)
        (require_developer_or_admin host.crypto host.settings credentials now db) _
        (λ user.
          with_self (StepFrom mid) (Jobs.cancel_job user id now db mid)
            (λ r e. cancels user id now db mid r e))
  serve-Step_lem (retry_job id) db mid =
      then_by (StepFrom mid)
        (require_developer_or_admin host.crypto host.settings credentials now db) _
        (λ user.
          with_self (StepFrom mid) (Jobs.retry_job user id now db mid)
            (λ r e. retries user id now db mid r e))
  serve-Step_lem (create_batch q req id new_id) db mid = stored_by (StepFrom db) _ (
      then_by (λ r. StepFrom db r.1)
        (require_developer_or_admin host.crypto host.settings credentials now db) _
        (λ user.
          with_self (λ r. StepFrom db r.1) (Batches.create_batch user q req id new_id now db)
            (λ r e. creates_batch user q req id new_id now db r.1 r.0 e)))
  serve-Step_lem (cancel_batch id) db mid = stored_by (StepFrom db) _ (
      then_by (λ r. StepFrom db r.1)
        (require_developer_or_admin host.crypto host.settings credentials now db) _
        (λ user.
          with_self (λ r. StepFrom db r.1) (Batches.cancel_batch user id now db)
            (λ r e. cancels_batch user id now db r.1 r.0 e)))
  serve-Step_lem (retry_batch id) db mid = stored_by (StepFrom db) _ (
      then_by (λ r. StepFrom db r.1)
        (require_developer_or_admin host.crypto host.settings credentials now db) _
        (λ user.
          with_self (λ r. StepFrom db r.1) (Batches.retry_batch user id now db)
            (λ r e. retries_batch user id now db r.1 r.0 e)))
  serve-Step_lem (create_schedule q req id) db mid = stored_by (StepFrom db) _ (
      then_by (λ r. StepFrom db r.1)
        (require_developer_or_admin host.crypto host.settings credentials now db) _
        (λ user.
          with_same (λ r. StepFrom db r.1) (SameJobsIn db)
            (Schedules.create_schedule host.next_fire user q req id now db)
            (create_schedule-jobs host.next_fire user q req id now db)
            (λ r same. others db r.1 same)))
  serve-Step_lem (update_schedule id req) db mid =
      then_by (StepFrom db)
        (require_developer_or_admin host.crypto host.settings credentials now db) _
        (λ user.
          with_same (StepFrom db) (SameJobs db)
            (Schedules.update_schedule host.next_fire user id req now db)
            (update_schedule-jobs host.next_fire user id req now db) (λ r same. others db r same))
  serve-Step_lem (pause_schedule id) db mid =
      then_by (StepFrom db)
        (require_developer_or_admin host.crypto host.settings credentials now db) _
        (λ user.
          with_same (StepFrom db) (SameJobs db)
            (Schedules.set_active host.next_fire user id false now db)
            (set_active-jobs host.next_fire user id false now db) (λ r same. others db r same))
  serve-Step_lem (resume_schedule id) db mid =
      then_by (StepFrom db)
        (require_developer_or_admin host.crypto host.settings credentials now db) _
        (λ user.
          with_same (StepFrom db) (SameJobs db)
            (Schedules.set_active host.next_fire user id true now db)
            (set_active-jobs host.next_fire user id true now db) (λ r same. others db r same))
  serve-Step_lem (delete_schedule id) db mid =
      then_by (StepFrom db)
        (require_developer_or_admin host.crypto host.settings credentials now db) _
        (λ user.
          with_same (StepFrom db) (SameJobs db) (Schedules.delete_schedule user id db)
            (delete_schedule-jobs user id db) (λ r same. others db r same))
  serve-Step_lem (replay_dlq_entry id) db mid = stored_by (StepFrom db) _ (
      then_by (λ r. StepFrom db r.1)
        (require_developer_or_admin host.crypto host.settings credentials now db) _
        (λ user.
          with_self (λ r. StepFrom db r.1) (Dlq.replay_dlq_entry user id now db)
            (λ r e. replays user id now db r.1 r.0 e)))
  serve-Step_lem (replay_all_dlq_entries q) db mid = stored_by (StepFrom db) _ (
      then_by (λ r. StepFrom db r.1)
        (require_developer_or_admin host.crypto host.settings credentials now db) _
        (λ user. replays_all user q now db))
  serve-Step_lem (purge_dlq_entry id) db mid =
      then_by (StepFrom db)
        (require_developer_or_admin host.crypto host.settings credentials now db) _
        (λ user.
          with_same (StepFrom db) (SameJobs db) (Dlq.purge_dlq_entry user id db)
            (purge_dlq_entry-jobs user id db) (λ r same. others db r same))
  serve-Step_lem (create_project req id hex4) db mid = stored_by (StepFrom db) _ (
      then_by (λ r. StepFrom db r.1) (require_admin host.crypto host.settings credentials now db) _
        (λ user.
          with_same (λ r. StepFrom db r.1) (SameJobsIn db)
            (Projects.create_project host.tables user req id hex4 now db)
            (create_project-jobs host.tables user req id hex4 now db)
            (λ r same. others db r.1 same)))
  serve-Step_lem (update_project id req) db mid =
      then_by (StepFrom db) (require_admin host.crypto host.settings credentials now db) _ (λ user.
        with_same (StepFrom db) (SameJobs db) (Projects.update_project user id req db)
          (update_project-jobs user id req db) (λ r same. others db r same))
  serve-Step_lem (create_api_key p req id token) db mid = stored_by (StepFrom db) _ (
      then_by (λ r. StepFrom db r.1) (require_admin host.crypto host.settings credentials now db) _
        (λ user.
          with_same (λ r. StepFrom db r.1) (SameJobsIn db)
            (Projects.create_api_key host.sha256 user p req id token now db)
            (create_api_key-jobs host.sha256 user p req id token now db)
            (λ r same. others db r.1 same)))
  serve-Step_lem (create_queue p req id policy_id) db mid = stored_by (StepFrom db) _ (
      then_by (λ r. StepFrom db r.1) (require_admin host.crypto host.settings credentials now db) _
        (λ user.
          with_same (λ r. StepFrom db r.1) (SameJobsIn db)
            (Queues.create_queue user p req id policy_id now db)
            (create_queue-jobs user p req id policy_id now db) (λ r same. others db r.1 same)))
  serve-Step_lem (update_queue id req policy_id) db mid =
      then_by (StepFrom db) (require_admin host.crypto host.settings credentials now db) _ (λ user.
        with_same (StepFrom db) (SameJobs db) (Queues.update_queue user id req policy_id db)
          (update_queue-jobs user id req policy_id db) (λ r same. others db r same))
  serve-Step_lem (pause_queue id) db mid =
      then_by (StepFrom db) (require_admin host.crypto host.settings credentials now db) _ (λ user.
        with_same (StepFrom db) (SameJobs db) (Queues.pause_queue user id true db)
          (pause_queue-jobs user id true db) (λ r same. others db r same))
  serve-Step_lem (resume_queue id) db mid =
      then_by (StepFrom db) (require_admin host.crypto host.settings credentials now db) _ (λ user.
        with_same (StepFrom db) (SameJobs db) (Queues.pause_queue user id false db)
          (pause_queue-jobs user id false db) (λ r same. others db r same))
  serve-Step_lem (delete_queue id) db mid =
      then_by (StepFrom db) (require_admin host.crypto host.settings credentials now db) _ (λ user.
        with_self (StepFrom db) (Queues.delete_queue user id db)
          (λ r e. deletes_queue user id db r e))
  serve-Step_lem (drain_worker id) db mid =
      then_by (StepFrom db) (require_admin host.crypto host.settings credentials now db) _ (λ user.
        then_by (StepFrom db)
          (or_error (find_where (λ w. str_eq w.worker_id id) db.workers) not_found) _
          (λ w. others db _ refl))
  serve-Step_lem (delete_worker id) db mid =
      then_by (StepFrom db) (require_admin host.crypto host.settings credentials now db) _ (λ user.
        then_by (StepFrom db)
          (or_error (find_where (λ w. str_eq w.worker_id id) db.workers) not_found) _
          (λ w. others db _ refl))

  -- A writing request that succeeds takes the database that its write lands on to the next one by a
  -- step of the system, whoever asks.
  pub serve-Step :
      (w : Write) (db mid after : Db)
      → serve host credentials now w db mid ≡ ok after
      → Step Allowed (lands_on w db mid) after
  serve-Step w db mid after e =
      Returns-ok (StepFrom (lands_on w db mid)) _ after e (serve-Step_lem w db mid)
