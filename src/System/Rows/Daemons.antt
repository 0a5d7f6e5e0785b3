-- ===== src/System/Rows/Daemons.antt =====
-- The background processes keep a property of rows.
use job_schedular.Prelude.{
  ℕ, Bool, false, String, Option, List, [], ◌∷◌, inl, inr, All, All-append, All-update_where,
  Bool-cases, any_where, ltb, select_where, ◌≡◌, true, arith,
}
use job_schedular.Model.{Uuid, Time, Job, JobStatus, ScheduledJob, Db, is_status}
use job_schedular.Daemons.Heartbeat.{is_renewed, record_heartbeat}
use job_schedular.Daemons.Reaper.{reap_job, reap_jobs}
use job_schedular.Daemons.Promoter.{promote_due_jobs}
use job_schedular.Daemons.Cron.{
  has_key, insert_on_conflict, spawned_job, dispatch_one, dispatch_all, dispatch_due_schedules,
  cron_tags, is_due,
}
use job_schedular.System.Rows.{IsKept}

renewed-running :
    (w : String) (active : List Uuid) (j : Job)
    → is_renewed w active j ≡ true
    → is_status j.status JobStatus.running ≡ true
renewed-running w active j hit = ground arith

module _ {Allowed : Uuid → Bool} {P : Job → Type 0} (kept : IsKept Allowed P) where
  pub record_heartbeat-rows :
      (w : String) (active : List Uuid) (now : Time) (cpu mem : ℕ) (db : Db)
      → All P db.jobs
      → All P (record_heartbeat w active now cpu mem db).jobs
  unfolding record_heartbeat
  record_heartbeat-rows w active now cpu mem db h =
      All-update_where P _ _ (λ x px hit. kept.at_renew now x (renewed-running w active x hit) px)
        db.jobs h

  reap_job-rows :
      (now : Time) (new_id : Uuid → Uuid) (j : Job) (db : Db)
      → All P db.jobs
      → All P (reap_job now new_id j db).jobs
  unfolding reap_job
  reap_job-rows now new_id j db h = elim (Bool-cases (ltb j.attempt_count j.max_retries)) [
    | inl again ↦ rw again (All-update_where P _ _ (λ x px _. kept.at_requeue now x px) db.jobs h)
    | inr done ↦ rw done (All-update_where P _ _ (λ x px _. kept.at_escalate now x px) db.jobs h)
  ]

  pub reap_jobs-rows :
      (now : Time) (new_id : Uuid → Uuid) (read : List Job) (db : Db)
      → All P db.jobs
      → All P (reap_jobs now new_id read db).jobs
  unfolding reap_jobs
  reap_jobs-rows now new_id [] db h = h
  reap_jobs-rows now new_id (j ∷ js) db h =
      reap_jobs-rows now new_id js (reap_job now new_id j db) (reap_job-rows now new_id j db h)

  pub promote_due_jobs-rows :
      (only : Option Uuid) (now : Time) (size : ℕ) (locked : Uuid → Bool) (db : Db)
      → All P db.jobs
      → All P (promote_due_jobs only now size locked db).1.jobs
  unfolding promote_due_jobs
  promote_due_jobs-rows only now size locked db h =
      All-update_where P _ _ (λ x px _. kept.at_promote now x px) db.jobs h

  -- an INSERT that may meet a conflict
  pub insert_on_conflict-rows :
      (q : Uuid) (key : String) (j : Job) (jobs : List Job)
      → P j
      → All P jobs
      → All P (insert_on_conflict q key j jobs).1
  unfolding insert_on_conflict
  insert_on_conflict-rows q key j jobs pj h = elim (Bool-cases (any_where (has_key q key) jobs)) [
    | inl taken ↦ rw taken h
    | inr free ↦ rw free (All-append P jobs (j ∷ []) h (pj, tt))
  ]

  module _ (next_fire : String → Time → Time) (key : Uuid → Time → String)
      (tag : Uuid → String) where
    dispatch_one-rows :
        (now : Time) (new_id : Uuid → Uuid) (s : ScheduledJob) (db : Db)
        → All P db.jobs
        → All P (dispatch_one next_fire key tag now new_id s db).1.jobs
    unfolding dispatch_one spawned_job
    dispatch_one-rows now new_id s db h =
        insert_on_conflict-rows s.queue_id _ _ db.jobs
          (kept.at_insert _ _ _ _ false _ _ _ _ _ _ (cron_tags (tag s.id)) now) h

    dispatch_all-rows :
        (now : Time) (new_id : Uuid → Uuid) (ss : List ScheduledJob) (db : Db)
        → All P db.jobs
        → All P (dispatch_all next_fire key tag now new_id ss db).1.jobs
    unfolding dispatch_all
    dispatch_all-rows now new_id [] db h = h
    dispatch_all-rows now new_id (s ∷ ss) db h =
        dispatch_all-rows now new_id ss (dispatch_one next_fire key tag now new_id s db).1
          (dispatch_one-rows now new_id s db h)

    pub dispatch_due_schedules-rows :
        (only : Option Uuid) (now : Time) (locked : Uuid → Bool) (new_id : Uuid → Uuid) (db : Db)
        → All P db.jobs
        → All P (dispatch_due_schedules next_fire key tag only now locked new_id db).1.jobs
    unfolding dispatch_due_schedules
    dispatch_due_schedules-rows only now locked new_id db h =
        dispatch_all-rows now new_id (select_where (is_due only now locked) db.schedules) db h
