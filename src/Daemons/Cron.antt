-- ===== src/Daemons/Cron.antt =====
-- worker/app/cron.py: recurring schedules spawn jobs. The cron library's `get_next` and the text
-- of a logical execution key are parameters: `next_fire expression base`, and `cron_key id t`
-- for `cron:<id>:<t in ISO format>`.
pub mod Occurrence
use job_schedular.Prelude.{
  ℕ, ◌+◌, String, Bool, true, false, not, ◌&&◌, Option, none, some, List, [], ◌∷◌, ◌++◌,
  if◌then◌else◌, leb, ◌==◌, opt_str_is, select_where, update_where, any_where,
}
use job_schedular.Model.{Uuid, Time, Job, JobStatus, ScheduledJob, Db, new_job}

-- A row of the queue has the key: ON CONFLICT (queue_id, idempotency_key) DO NOTHING.
abbrev pub has_key : Uuid → String → Job → Bool
has_key q key j = j.queue_id == q && opt_str_is j.idempotency_key key

unfoldable pub insert_on_conflict : Uuid → String → Job → List Job → Bool × List Job
insert_on_conflict q key j jobs =
    if any_where (has_key q key) jobs then (false, jobs) else (true, jobs ++ j ∷ [])

-- the tags of a spawned job, with the text of its schedule's id
abbrev pub cron_tags : String → List String
cron_tags schedule_tag = "cron" ∷ schedule_tag ∷ []

abbrev pub is_due : Option Uuid → Time → (Uuid → Bool) → ScheduledJob → Bool
is_due only now locked s =
    s.is_active && leb s.next_run_at now && not (locked s.id) && selected only
  where
    selected : Option Uuid → Bool
    selected none = true
    selected (some i) = s.id == i

module _ (next_fire : String → Time → Time) (cron_key : Uuid → Time → String)
    (schedule_tag : Uuid → String) where
  unfoldable pub spawned_job : Uuid → Time → ScheduledJob → Job
  unfolding new_job
  spawned_job id now s =
      new_job id s.queue_id (some (cron_key s.id s.next_run_at)) s.name JobStatus.queued s.priority
        s.payload 3 s.next_run_at none none (cron_tags (schedule_tag s.id)) now

  unfoldable pub advance_row : Bool → Time → ScheduledJob → ScheduledJob
  advance_row inserted now s = record s {
    last_run_at = some s.next_run_at;
    next_run_at = next_fire s.cron_expression s.next_run_at;
    total_runs_count = s.total_runs_count + (if inserted then 1 else 0);
    updated_at = now;
  }

  -- the body of the loop over the due schedules
  unfoldable pub dispatch_one : Time → (Uuid → Uuid) → ScheduledJob → Db → Bool × Db
  unfolding insert_on_conflict spawned_job advance_row
  dispatch_one now new_id s db =
      let (inserted, jobs') =
        insert_on_conflict s.queue_id (cron_key s.id s.next_run_at)
          (spawned_job (new_id s.id) now s) db.jobs in
      (
        inserted,
        record db {
          jobs = jobs';
          schedules = update_where (λ r. r.id == s.id) (advance_row inserted now) db.schedules;
        },
      )

  unfoldable pub dispatch_all : Time → (Uuid → Uuid) → List ScheduledJob → Db → ℕ × Db
  unfolding dispatch_one
  dispatch_all now new_id [] db = (0, db)
  dispatch_all now new_id (s ∷ ss) db =
      let (inserted, db') = dispatch_one now new_id s db in
      let (count, db'') = dispatch_all now new_id ss db' in
      ((if inserted then 1 else 0) + count, db'')

  -- FOR UPDATE SKIP LOCKED passes over the schedules that another dispatcher holds.
  unfoldable pub dispatch_due_schedules :
      Option Uuid → Time → (Uuid → Bool) → (Uuid → Uuid) → Db → ℕ × Db
  unfolding dispatch_all
  dispatch_due_schedules only now locked new_id db =
      dispatch_all now new_id (select_where (is_due only now locked) db.schedules) db
