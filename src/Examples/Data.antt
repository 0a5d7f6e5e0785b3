-- ===== src/Examples/Data.antt =====
-- Concrete rows for the tests: one tenant with a queue, and jobs in the states that matter.
use job_schedular.Prelude.{ℕ, ◌+◌, true, false, none, some, List, [], ◌∷◌}
use job_schedular.Model.{
  Uuid, Time, User, UserRole, Project, Queue, Job, JobStatus, JobBatch, BatchStatus, RetryPolicy,
  RetryStrategy, DlqEntry, plain, Db, empty_db, new_job,
}
use job_schedular.Engine.Claimer.{Poll}
use job_schedular.Engine.Runner.{Context, Ending}
use job_schedular.Services.Jobs.{JobCreate}

abbrev pub alice : User
alice = record {
  id = 1;
  org_id = 10;
  email = "alice@acme.example";
  hashed_password = "hash of wonderland";
  full_name = "Alice";
  role = UserRole.admin;
  created_at = 0;
}

abbrev pub billing : Project
billing = record {
  id = 20;
  org_id = 10;
  name = "Billing";
  slug = "billing-a1b2";
  description = none;
  created_at = 0;
}

abbrev pub mail : Queue
mail = record {
  id = 30;
  project_id = 20;
  name = "mail";
  priority = 10;
  concurrency_limit = 2;
  rate_limit_rps = some 1;
  is_paused = false;
  created_at = 0;
}

abbrev pub policy : RetryPolicy
policy = record {
  id = 31;
  queue_id = 30;
  strategy = RetryStrategy.exponential;
  max_retries = 3;
  initial_interval_sec = 5;
  max_interval_sec = 60;
  backoff_multiplier = 2;
  jitter = true;
}

-- a queued job, by its id and its priority
abbrev pub queued : Uuid → ℕ → Job
unfolding new_job
queued id priority = new_job id 30 none "send" JobStatus.queued priority "{}" 3 5 none none [] 5

-- a job that a worker runs, by the number of attempts and the end of its lease
abbrev pub running : Uuid → ℕ → Uuid → Time → Job
unfolding new_job
running id attempts token expiry = record (queued id 10) {
  status = JobStatus.running;
  attempt_count = attempts;
  locked_by_worker_id = some "w1";
  lease_token = some token;
  lock_expires_at = some expiry;
}

-- a job that waits for its parent
abbrev pub child : Uuid → Uuid → Job
unfolding new_job
child id parent = record (queued id 10) {
  status = JobStatus.scheduled;
  parent_job_id = some parent;
}

abbrev pub with_jobs : List Job → Db
with_jobs jobs = record empty_db {
  projects = billing ∷ [];
  queues = mail ∷ [];
  policies = policy ∷ [];
  jobs = jobs;
}

abbrev pub poll : Poll
poll = record {
  now = 100;
  clock = 100;
  worker_id = "w1";
  assigned_queues = [];
  new_token = λ q. q + 501;
  locked = λ j. false;
  lock_timeout_seconds = 30;
}

-- the worker that holds the token `t` on a job
abbrev pub worker_on : Job → Uuid → Context
worker_on j t = record {
  job = j;
  lease_token = some t;
  policy = some policy;
  execution_id = 90;
  worker_id = "w1";
  started_at = 100;
}

abbrev pub ending : Ending
ending = record {
  at = 200;
  duration_ms = 1;
  logs = none;
  draw = 1;
  ai_summary = "";
  dlq_id = 91;
  seen = [];
}

abbrev pub entry : Uuid → Uuid → DlqEntry
entry id job = record {
  id = id;
  job_id = job;
  queue_id = 30;
  failed_reason = plain "boom";
  total_attempts = 3;
  last_error = none;
  ai_failure_summary = none;
  moved_to_dlq_at = 50;
  is_replayed = false;
  replayed_at = none;
}

abbrev pub batch : ℕ → JobBatch
batch total = record {
  id = 40;
  project_id = 20;
  queue_id = 30;
  name = "night";
  description = none;
  status = BatchStatus.processing;
  total_jobs = total;
  completed_jobs = 0;
  failed_jobs = 0;
  cancelled_jobs = 0;
  created_at = 0;
  updated_at = 0;
  completed_at = none;
}

abbrev pub item : JobCreate
item = record {
  name = "send";
  payload = "{}";
  priority = 10;
  max_retries = 3;
  run_at = none;
  delay_seconds = some 60;
  idempotency_key = none;
  parent_job_id = none;
  tags = [];
}
