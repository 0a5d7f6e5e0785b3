-- ===== src/Api/Roles/Unchanged.antt =====
-- Writes that are not about jobs leave the table of jobs alone.
use job_schedular.Prelude.{
  Bool-cases, inl, inr, String, Bool, none, some, ◌≡◌, refl, any_where, str_eq, ◌==◌, ◌&&◌,
}
use job_schedular.Model.{Uuid, Time, User, Project, Db}
use job_schedular.Services.Access.{Result, ◌>>=◌, get_queue}
use job_schedular.Services.Access.Returns.{Returns, Returns-bind, Returns-any}
use job_schedular.Services.Slugs.{CharTables}
use job_schedular.Services.Schedules.{
  ScheduleCreate, ScheduleUpdate, get_schedule, create_schedule, update_schedule, set_active,
  delete_schedule,
}
use job_schedular.Services.Dlq.{get_dlq_entry, purge_dlq_entry}
use job_schedular.Services.Projects.{
  ProjectCreate, ProjectUpdate, ProjectApiKeyCreate, raw_key, get_project, insert_project,
  create_project, update_project, create_api_key,
}
use job_schedular.Services.Queues.{
  QueueCreate, QueueUpdate, create_queue, update_queue, update_policies, pause_queue,
}

abbrev pub SameJobs : Db → Db → Type 0
SameJobs db after = after.jobs ≡ db.jobs

abbrev pub SameJobsIn : {A : Type 0} → Db → A × Db → Type 0
SameJobsIn db r = r.1.jobs ≡ db.jobs

-- What comes after a lookup.
pub found_then :
    {A B : Type 0} (Q : B → Type 0) (m : Result A) (f : A → Result B)
    → ((a : A) → Returns Q (f a))
    → Returns Q (do a ← m; f a)
found_then Q m f h = Returns-bind (λ _. Unit {0}) Q m f (Returns-any m) (λ a _. h a)

insert_project-jobs : (p : Project) (db : Db) → Returns (SameJobs db) (insert_project p db)
unfolding insert_project
insert_project-jobs p db =
    elim (Bool-cases (any_where (λ r. r.org_id == p.org_id && str_eq r.slug p.slug) db.projects)) [
      | inl taken ↦ rw taken tt
      | inr free ↦ rw free refl
    ]

pub create_schedule-jobs :
    (f : String → Time → Time) (user : User) (q : Uuid) (req : ScheduleCreate) (id : Uuid)
    (now : Time) (db : Db)
    → Returns (SameJobsIn db) (create_schedule f user q req id now db)
unfolding create_schedule
create_schedule-jobs f user q req id now db =
    found_then (SameJobsIn db) (get_queue db user q) _ (λ x. refl)

pub update_schedule-jobs :
    (f : String → Time → Time) (user : User) (id : Uuid) (u : ScheduleUpdate) (now : Time) (db : Db)
    → Returns (SameJobs db) (update_schedule f user id u now db)
unfolding update_schedule
update_schedule-jobs f user id u now db =
    found_then (SameJobs db) (get_schedule db user id) _ (λ x. refl)

pub set_active-jobs :
    (f : String → Time → Time) (user : User) (id : Uuid) (active : Bool) (now : Time) (db : Db)
    → Returns (SameJobs db) (set_active f user id active now db)
unfolding set_active
set_active-jobs f user id active now db =
    update_schedule-jobs f user id
      (record {
        name = none;
        cron_expression = none;
        payload = none;
        priority = none;
        is_active = some active;
      })
      now db

pub delete_schedule-jobs :
    (user : User) (id : Uuid) (db : Db) → Returns (SameJobs db) (delete_schedule user id db)
unfolding delete_schedule
delete_schedule-jobs user id db = found_then (SameJobs db) (get_schedule db user id) _ (λ x. refl)

pub purge_dlq_entry-jobs :
    (user : User) (id : Uuid) (db : Db) → Returns (SameJobs db) (purge_dlq_entry user id db)
unfolding purge_dlq_entry
purge_dlq_entry-jobs user id db = found_then (SameJobs db) (get_dlq_entry user id db) _ (λ x. refl)

pub create_project-jobs :
    (tables : CharTables) (user : User) (req : ProjectCreate) (id : Uuid) (hex4 : String)
    (now : Time) (db : Db)
    → Returns (SameJobsIn db) (create_project tables user req id hex4 now db)
unfolding create_project
create_project-jobs tables user req id hex4 now db =
    Returns-bind (SameJobs db) (SameJobsIn db) (insert_project _ db) _ (insert_project-jobs _ db)
      (λ d h. h)

pub update_project-jobs :
    (user : User) (id : Uuid) (req : ProjectUpdate) (db : Db)
    → Returns (SameJobs db) (update_project user id req db)
unfolding update_project
update_project-jobs user id req db = found_then (SameJobs db) (get_project db user id) _ (λ x. refl)

pub create_api_key-jobs :
    (sha256 : String → String) (user : User) (p : Uuid) (req : ProjectApiKeyCreate) (id : Uuid)
    (token : String) (now : Time) (db : Db)
    → Returns (SameJobsIn db) (create_api_key sha256 user p req id token now db)
unfolding create_api_key
create_api_key-jobs sha256 user p req id token now db =
    found_then (SameJobsIn db) (get_project db user p) _ (λ x.
      elim (Bool-cases
        (any_where (λ k. str_eq k.key_hash (sha256 (raw_key x token))) db.api_keys)) [
          | inl taken ↦ rw taken tt
          | inr free ↦ rw free refl
        ])

pub create_queue-jobs :
    (user : User) (p : Uuid) (req : QueueCreate) (id policy_id : Uuid) (now : Time) (db : Db)
    → Returns (SameJobsIn db) (create_queue user p req id policy_id now db)
unfolding create_queue
create_queue-jobs user p req id policy_id now db =
    found_then (SameJobsIn db) (get_project db user p) _ (λ x.
      elim (Bool-cases
        (any_where (λ r. r.project_id == x.id && str_eq r.name req.name) db.queues)) [
          | inl taken ↦ rw taken tt
          | inr free ↦ rw free refl
        ])

pub update_queue-jobs :
    (user : User) (q : Uuid) (req : QueueUpdate) (policy_id : Uuid) (db : Db)
    → Returns (SameJobs db) (update_queue user q req policy_id db)
unfolding update_queue
update_queue-jobs user q req policy_id db = found_then (SameJobs db) (get_queue db user q) _ (λ x.
    found_then (SameJobs db) (update_policies policy_id x.id req.retry_policy db.policies) _
      (λ _. refl))

pub pause_queue-jobs :
    (user : User) (q : Uuid) (paused : Bool) (db : Db)
    → Returns (SameJobs db) (pause_queue user q paused db)
unfolding pause_queue
pause_queue-jobs user q paused db = found_then (SameJobs db) (get_queue db user q) _ (λ x. refl)
