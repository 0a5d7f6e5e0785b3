-- ===== src/Services/Schedules.antt =====
-- backend/app/services/schedule_service.py: recurring schedules. `next_fire` is the cron library.
use job_schedular.Services.Jobs.Reads.{queue_in_project, is_or_any}
use job_schedular.Prelude.{
  ℕ, String, Bool, true, not, ◌&&◌, Option, none, some, [], ◌∷◌, ◌++◌, if◌then◌else◌, ◌==◌, str_eq,
  or_else, select_where, find_where, update_where, List, leb, sort_by,
}
use job_schedular.Model.{Uuid, Time, Json, User, Queue, ScheduledJob, Db}
use job_schedular.Services.Access.{Result, ok, not_found, ◌>>=◌, or_error, owns_queue, get_queue}

-- schemas/schedule.py; in an update `none` is a field that was not sent.
pub record ScheduleCreate : Type 0 where
  pub name : String
  pub cron_expression : String
  pub payload : Json
  pub priority : ℕ
  pub timezone : String

pub record ScheduleUpdate : Type 0 where
  pub name : Option String
  pub cron_expression : Option String
  pub payload : Option Json
  pub priority : Option ℕ
  pub is_active : Option Bool

unfoldable pub get_schedule : Db → User → Uuid → Result ScheduledJob
get_schedule db user id =
    or_error (find_where (λ s. s.id == id && owns_queue db user s.queue_id) db.schedules) not_found

abbrev pub newest_schedule_first : ScheduledJob → ScheduledJob → Bool
newest_schedule_first a b = leb b.created_at a.created_at

unfoldable pub list_schedules : User → Option Uuid → Option Uuid → Db → List ScheduledJob
list_schedules user project_id queue_id db = sort_by newest_schedule_first (
    select_where
      (λ s.
        owns_queue db user s.queue_id
        && queue_in_project project_id db s.queue_id
        && is_or_any queue_id s.queue_id)
      db.schedules)

module _ (next_fire : String → Time → Time) where
  unfoldable pub new_schedule : Uuid → Queue → ScheduleCreate → Time → ScheduledJob
  new_schedule id q req now = record {
    id = id;
    project_id = q.project_id;
    queue_id = q.id;
    name = req.name;
    cron_expression = req.cron_expression;
    timezone = req.timezone;
    payload = req.payload;
    priority = req.priority;
    is_active = true;
    last_run_at = none;
    next_run_at = next_fire req.cron_expression now;
    total_runs_count = 0;
    created_at = now;
    updated_at = now;
  }

  unfoldable pub create_schedule :
      User → Uuid → ScheduleCreate → Uuid → Time → Db → Result (ScheduledJob × Db)
  unfolding get_queue new_schedule
  create_schedule user queue_id req id now db = do
    q ← get_queue db user queue_id
    let s = new_schedule id q req now
    ok (s, record db { schedules = db.schedules ++ s ∷ [] })

  -- A new expression, if it is not empty, moves the next run.
  abbrev pub rescheduled : Option String → Time → Time → Time
  rescheduled none now next = next
  rescheduled (some e) now next = if str_eq e "" then next else next_fire e now

  unfoldable pub update_schedule_row : ScheduleUpdate → Time → ScheduledJob → ScheduledJob
  update_schedule_row u now s = record s {
    next_run_at = rescheduled u.cron_expression now s.next_run_at;
    name = or_else u.name s.name;
    cron_expression = or_else u.cron_expression s.cron_expression;
    payload = or_else u.payload s.payload;
    priority = or_else u.priority s.priority;
    is_active = or_else u.is_active s.is_active;
    updated_at = now;
  }

  unfoldable pub update_schedule : User → Uuid → ScheduleUpdate → Time → Db → Result Db
  unfolding get_schedule update_schedule_row
  update_schedule user id u now db = do
    s ← get_schedule db user id
    ok (record db {
      schedules = update_where (λ r. r.id == s.id) (update_schedule_row u now) db.schedules;
    })

  -- pause_schedule and resume_schedule
  unfoldable pub set_active : User → Uuid → Bool → Time → Db → Result Db
  unfolding update_schedule
  set_active user id active now db =
      update_schedule user id
        (record {
          name = none;
          cron_expression = none;
          payload = none;
          priority = none;
          is_active = some active;
        })
        now db

unfoldable pub delete_schedule : User → Uuid → Db → Result Db
unfolding get_schedule
delete_schedule user id db = do
  s ← get_schedule db user id
  ok (record db { schedules = select_where (λ r. not (r.id == s.id)) db.schedules })
