-- ===== src/Model/Tables.antt =====
-- The rows of the tables (backend/app/models/*.py) and the whole database as one record.
-- A double column holds the 64 bits of the double. Left out are columns that the operations here
-- never read: the times of change of users, organisations, projects, queues and policies, and the
-- generated key and times of heartbeats and records.
use job_schedular.Prelude.{ℕ, String, Bool, Option, none, List, []}
use job_schedular.Model.Enums.{JobStatus, RetryStrategy, WorkerStatus, ExecutionStatus, BatchStatus}
use job_schedular.Model.Tenants.{User, Organization, Project, ProjectApiKey}
use job_schedular.Model.Values.{Uuid, Time, Json, Message}

pub record RetryPolicy : Type 0 where
  pub id : Uuid
  pub queue_id : Uuid
  pub strategy : RetryStrategy
  pub max_retries : ℕ
  pub initial_interval_sec : ℕ
  pub max_interval_sec : ℕ
  pub backoff_multiplier : ℕ
  pub jitter : Bool

pub record Queue : Type 0 where
  pub id : Uuid
  pub project_id : Uuid
  pub name : String
  pub priority : ℕ
  pub concurrency_limit : ℕ
  pub rate_limit_rps : Option ℕ
  pub is_paused : Bool
  pub created_at : Time

pub record Job : Type 0 where
  pub id : Uuid
  pub queue_id : Uuid
  pub idempotency_key : Option String
  pub name : String
  pub status : JobStatus
  pub priority : ℕ
  pub payload : Json
  pub result : Option Json
  pub error_message : Option Message
  pub attempt_count : ℕ
  pub max_retries : ℕ
  pub run_at : Time
  pub claimed_at : Option Time
  pub started_at : Option Time
  pub completed_at : Option Time
  pub locked_by_worker_id : Option String
  pub lease_token : Option Uuid
  pub lock_expires_at : Option Time
  pub parent_job_id : Option Uuid
  pub batch_id : Option Uuid
  pub tags : List String
  pub created_at : Time
  pub updated_at : Time

pub record JobExecution : Type 0 where
  pub id : Uuid
  pub job_id : Uuid
  pub worker_id : String
  pub attempt_number : ℕ
  pub status : ExecutionStatus
  pub started_at : Time
  pub finished_at : Time
  pub duration_ms : ℕ
  pub error_message : Option Message
  pub stack_trace : Option String
  pub logs : Option String

pub record DlqEntry : Type 0 where
  pub id : Uuid
  pub job_id : Uuid
  pub queue_id : Uuid
  pub failed_reason : Message
  pub total_attempts : ℕ
  pub last_error : Option Message
  pub ai_failure_summary : Option String
  pub moved_to_dlq_at : Time
  pub is_replayed : Bool
  pub replayed_at : Option Time

pub record Worker : Type 0 where
  pub worker_id : String
  pub hostname : String
  pub pid : ℕ
  pub concurrency_limit : ℕ
  pub current_active_jobs : ℕ
  pub status : WorkerStatus
  pub assigned_queues : List String
  pub started_at : Time
  pub last_heartbeat_at : Time

pub record WorkerHeartbeat : Type 0 where
  pub worker_id : String
  pub cpu_percent : ℕ
  pub memory_mb : ℕ
  pub active_jobs : ℕ
  pub timestamp : Time

pub record ScheduledJob : Type 0 where
  pub id : Uuid
  pub project_id : Uuid
  pub queue_id : Uuid
  pub name : String
  pub cron_expression : String
  pub timezone : String
  pub payload : Json
  pub priority : ℕ
  pub is_active : Bool
  pub last_run_at : Option Time
  pub next_run_at : Time
  pub total_runs_count : ℕ
  pub created_at : Time
  pub updated_at : Time

pub record JobBatch : Type 0 where
  pub id : Uuid
  pub project_id : Uuid
  pub queue_id : Uuid
  pub name : String
  pub description : Option String
  pub status : BatchStatus
  pub total_jobs : ℕ
  pub completed_jobs : ℕ
  pub failed_jobs : ℕ
  pub cancelled_jobs : ℕ
  pub created_at : Time
  pub updated_at : Time
  pub completed_at : Option Time

pub record IdempotencyRecord : Type 0 where
  pub id : Uuid
  pub job_id : Option Uuid
  pub key : String
  pub scope : String
  pub status : String
  pub response_payload : Option Json

pub record Db : Type 0 where
  pub organizations : List Organization
  pub users : List User
  pub api_keys : List ProjectApiKey
  pub projects : List Project
  pub queues : List Queue
  pub policies : List RetryPolicy
  pub jobs : List Job
  pub executions : List JobExecution
  pub dlq : List DlqEntry
  pub workers : List Worker
  pub heartbeats : List WorkerHeartbeat
  pub schedules : List ScheduledJob
  pub batches : List JobBatch
  pub records : List IdempotencyRecord

abbrev pub empty_db : Db
empty_db = record {
  organizations = [];
  users = [];
  api_keys = [];
  projects = [];
  queues = [];
  policies = [];
  jobs = [];
  executions = [];
  dlq = [];
  workers = [];
  heartbeats = [];
  schedules = [];
  batches = [];
  records = [];
}

-- Job(…): the columns that every INSERT gives, and the defaults of the others.
unfoldable pub new_job :
    Uuid
    → Uuid
    → Option String
    → String
    → JobStatus
    → ℕ
    → Json
    → ℕ
    → Time
    → Option Uuid
    → Option Uuid
    → List String
    → Time
    → Job
new_job id queue_id key name status priority payload max_retries run_at parent batch tags now =
    record {
      id = id;
      queue_id = queue_id;
      idempotency_key = key;
      name = name;
      status = status;
      priority = priority;
      payload = payload;
      result = none;
      error_message = none;
      attempt_count = 0;
      max_retries = max_retries;
      run_at = run_at;
      claimed_at = none;
      started_at = none;
      completed_at = none;
      locked_by_worker_id = none;
      lease_token = none;
      lock_expires_at = none;
      parent_job_id = parent;
      batch_id = batch;
      tags = tags;
      created_at = now;
      updated_at = now;
    }
