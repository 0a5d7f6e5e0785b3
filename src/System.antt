-- ===== src/System.antt =====
-- The whole scheduler: every process works on the one database, a committed transaction at a
-- time, in any order. `Allowed` says which UUIDs a claim may draw as a lease token. Where an
-- operation writes back what it read earlier, the value that it read is any value at all. `others`
-- are the transactions that write no job: those on accounts, queues, policies, schedules, dead
-- letter entries, workers, projects and their keys.
pub mod Rows
pub mod Preserve
pub mod Fencing
pub mod Outcomes
pub mod Scheduler
use job_schedular.Prelude.{ℕ, String, Bool, true, Option, List, ◌≡◌, ◌∷◌, any_where, ◌==◌, length}
use job_schedular.Model.{Uuid, Time, User, Job, Queue, JobBatch, JobExecution, Db}
use job_schedular.Engine.Retry.{Floats}
use job_schedular.Engine.RateLimiter.{Buckets}
use job_schedular.Engine.Claimer.{Poll, claim_next_job}
use job_schedular.Engine.Runner.{Context, Outcome, Ending, finished, finalize}
use job_schedular.Daemons.Heartbeat.{record_heartbeat}
use job_schedular.Daemons.Reaper.{reap_jobs}
use job_schedular.Daemons.Promoter.{promote_due_jobs}
use job_schedular.Daemons.Cron.{dispatch_due_schedules}
use job_schedular.Services.Access.{ok}
use job_schedular.Services.Jobs.{JobCreate, create_job, create_jobs_batch, cancel_job, retry_job}
use job_schedular.Services.Batches.{BatchCreate, create_batch, cancel_batch, retry_batch}
use job_schedular.Services.Dlq.{replay_dlq_entry, replay_all_dlq_entries}
use job_schedular.Services.Queues.{delete_queue}

pub data Step (Allowed : Uuid → Bool) : Db → Db → Type 1 where
  claims :
      (p : Poll) (only : Option Uuid) (db : Db) (bs : Buckets)
      → ((q : Uuid) → Allowed (p.new_token q) ≡ true)
      → Step Allowed db (claim_next_job p only db bs).1
  finishes :
      (fl : Floats) (c : Context) (o : Outcome) (e : Ending) (db db' : Db) (ex : JobExecution)
      → finalize fl c o e db ≡ finished ex db'
      → Step Allowed db db'
  beats :
      (w : String) (active : List Uuid) (now : Time) (cpu mem : ℕ) (db : Db)
      → Step Allowed db (record_heartbeat w active now cpu mem db)
  reaps :
      (now : Time) (new_id : Uuid → Uuid) (read : List Job) (db : Db)
      → Step Allowed db (reap_jobs now new_id read db)
  promotes :
      (only : Option Uuid) (now : Time) (size : ℕ) (locked : Uuid → Bool) (db : Db)
      → Step Allowed db (promote_due_jobs only now size locked db).1
  dispatches :
      (next_fire : String → Time → Time) (key : Uuid → Time → String) (tag : Uuid → String)
      (only : Option Uuid) (now : Time) (locked : Uuid → Bool) (new_id : Uuid → Uuid) (db : Db)
      → Step Allowed db (dispatch_due_schedules next_fire key tag only now locked new_id db).1
  creates :
      (user : User) (q : Uuid) (req : JobCreate) (header : Option String) (id : Uuid) (now : Time)
      (read db db' : Db) (j : Job)
      → create_job user q req header id now read db ≡ ok (j, db')
      → Step Allowed db db'
  creates_many :
      (user : User) (q : Uuid) (items : List JobCreate) (new_id : ℕ → Uuid) (now : Time)
      (db db' : Db) (js : List Job)
      → create_jobs_batch user q items new_id now db ≡ ok (js, db')
      → Step Allowed db db'
  cancels :
      (user : User) (id : Uuid) (now : Time) (read db db' : Db)
      → cancel_job user id now read db ≡ ok db'
      → Step Allowed db db'
  retries :
      (user : User) (id : Uuid) (now : Time) (read db db' : Db)
      → retry_job user id now read db ≡ ok db'
      → Step Allowed db db'
  creates_batch :
      (user : User) (q : Uuid) (req : BatchCreate) (id : Uuid) (new_id : ℕ → Uuid) (now : Time)
      (db db' : Db) (b : JobBatch)
      → create_batch user q req id new_id now db ≡ ok (b, db')
      → Step Allowed db db'
  cancels_batch :
      (user : User) (id : Uuid) (now : Time) (db db' : Db) (b : JobBatch)
      → cancel_batch user id now db ≡ ok (b, db')
      → Step Allowed db db'
  retries_batch :
      (user : User) (id : Uuid) (now : Time) (db db' : Db) (b : JobBatch)
      → retry_batch user id now db ≡ ok (b, db')
      → Step Allowed db db'
  replays :
      (user : User) (id : Uuid) (now : Time) (db db' : Db) (ids : List Uuid)
      → replay_dlq_entry user id now db ≡ ok (ids, db')
      → Step Allowed db db'
  replays_all :
      (user : User) (q : Uuid) (now : Time) (db : Db)
      → Step Allowed db (replay_all_dlq_entries user q now db).1
  deletes_queue :
      (user : User) (q : Uuid) (db db' : Db) → delete_queue user q db ≡ ok db' → Step Allowed db db'
  others : (db db' : Db) → db'.jobs ≡ db.jobs → Step Allowed db db'

pub data Reach (Allowed : Uuid → Bool) (db : Db) : Db → Type 1 where
  here : Reach Allowed db db
  next : {d e : Db} → Reach Allowed db d → Step Allowed d e → Reach Allowed db e
