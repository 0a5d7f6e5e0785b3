-- ===== src/Daemons/Cron/Occurrence.antt =====
-- An occurrence of a schedule, dispatched by more than one replica of the dispatcher.
use job_schedular.Prelude.{
  ℕ, String, true, false, List, ◌++◌, ◌≡◌, refl, inl, inr, ==-refl, Bool-cases, any_where,
  any_where-append, any_where-last,
}
use text.Mathlib.TextPositions.{eq_refl}
use job_schedular.Model.{Uuid, Time, Job, ScheduledJob, Db, new_job}
use job_schedular.Daemons.Cron.{has_key, insert_on_conflict, spawned_job, dispatch_one}

module _ (next_fire : String → Time → Time) (cron_key : Uuid → Time → String)
    (schedule_tag : Uuid → String) where
  spawned_job-has_key :
      (id now : ℕ) (s : ScheduledJob)
      → has_key s.queue_id
          (cron_key s.id s.next_run_at)
          (spawned_job next_fire cron_key schedule_tag id now s)
        ≡ true
  unfolding spawned_job new_job
  spawned_job-has_key id now s = rw (==-refl s.queue_id, eq_refl (cron_key s.id s.next_run_at))

  -- the key is there after a dispatch
  dispatched_key :
      (now : Time) (new_id : Uuid → Uuid) (s : ScheduledJob) (db : Db)
      → any_where
          (has_key s.queue_id (cron_key s.id s.next_run_at))
          (dispatch_one next_fire cron_key schedule_tag now new_id s db).1.jobs
        ≡ true
  unfolding dispatch_one insert_on_conflict
  dispatched_key now new_id s db =
      let taken = has_key s.queue_id (cron_key s.id s.next_run_at) in
      elim (Bool-cases (any_where taken db.jobs)) [
        | inl there ↦ rw there there
        | inr fresh ↦ rw fresh (
            any_where-last taken db.jobs
              (spawned_job next_fire cron_key schedule_tag (new_id s.id) now s)
              (spawned_job-has_key (new_id s.id) now s))
      ]

  -- When a second replica dispatches the same occurrence, with the schedule as it was read before
  -- the first one advanced it, and in between jobs have only been inserted: it spawns nothing and
  -- counts nothing, and the jobs stay as they are.
  pub occurrence_spawned_once :
      (now now' : Time) (new_id new_id' : Uuid → Uuid) (s : ScheduledJob) (db later : Db)
      (more : List Job)
      → later.jobs ≡ (dispatch_one next_fire cron_key schedule_tag now new_id s db).1.jobs ++ more
      → ((dispatch_one next_fire cron_key schedule_tag now' new_id' s later).0 ≡ false)
        × ((dispatch_one next_fire cron_key schedule_tag now' new_id' s later).1.jobs ≡ later.jobs)
  unfolding dispatch_one insert_on_conflict
  occurrence_spawned_once now now' new_id new_id' s db later more grown =
      let taken = has_key s.queue_id (cron_key s.id s.next_run_at) in
      let there : any_where taken later.jobs ≡ true =
        rw grown (any_where-append taken _ more (dispatched_key now new_id s db)) in
      rw there (refl, refl)
