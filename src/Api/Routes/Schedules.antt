-- ===== src/Api/Routes/Schedules.antt =====
-- backend/app/api/v1/schedules.py.
use job_schedular.Prelude.{true, false, Option, List}
use job_schedular.Model.{Uuid, Time, Db, ScheduledJob}
use job_schedular.Services.Schedules.{
  ScheduleCreate, ScheduleUpdate, list_schedules, get_schedule, create_schedule, update_schedule,
  set_active, delete_schedule,
}
use job_schedular.Services.Access.{Result, ok, ◌>>=◌}
use job_schedular.Api.Routes.{Host}
use job_schedular.Api.Guards.{get_current_user, require_developer_or_admin}

module _ {Token : Type 0} (host : Host Token) (credentials : Option Token) (now : Time) where
  unfoldable pub create_schedule_route :
      Uuid → ScheduleCreate → Uuid → Db → Result (ScheduledJob × Db)
  unfolding require_developer_or_admin create_schedule
  create_schedule_route q req id db = do
    user ← require_developer_or_admin host.crypto host.settings credentials now db
    create_schedule host.next_fire user q req id now db

  unfoldable pub list_schedules_route : Option Uuid → Option Uuid → Db → Result (List ScheduledJob)
  unfolding get_current_user list_schedules
  list_schedules_route p q db = do
    user ← get_current_user host.crypto host.settings credentials now db
    ok (list_schedules user p q db)

  unfoldable pub get_schedule_route : Uuid → Db → Result ScheduledJob
  unfolding get_current_user get_schedule
  get_schedule_route id db = do
    user ← get_current_user host.crypto host.settings credentials now db
    get_schedule db user id

  unfoldable pub update_schedule_route : Uuid → ScheduleUpdate → Db → Result Db
  unfolding require_developer_or_admin update_schedule
  update_schedule_route id req db = do
    user ← require_developer_or_admin host.crypto host.settings credentials now db
    update_schedule host.next_fire user id req now db

  unfoldable pub pause_schedule_route : Uuid → Db → Result Db
  unfolding require_developer_or_admin set_active
  pause_schedule_route id db = do
    user ← require_developer_or_admin host.crypto host.settings credentials now db
    set_active host.next_fire user id false now db

  unfoldable pub resume_schedule_route : Uuid → Db → Result Db
  unfolding require_developer_or_admin set_active
  resume_schedule_route id db = do
    user ← require_developer_or_admin host.crypto host.settings credentials now db
    set_active host.next_fire user id true now db

  unfoldable pub delete_schedule_route : Uuid → Db → Result Db
  unfolding require_developer_or_admin delete_schedule
  delete_schedule_route id db = do
    user ← require_developer_or_admin host.crypto host.settings credentials now db
    delete_schedule user id db
