-- ===== src/Services/Queues.antt =====
-- backend/app/services/queue_service.py: creating, changing, pausing and deleting queues.
pub mod Pausing
pub mod Stats
use job_schedular.Prelude.{
  ℕ, String, Bool, true, false, not, ◌&&◌, ◌||◌, Option, none, some, List, [], ◌∷◌, ◌++◌,
  if◌then◌else◌, ◌==◌, str_eq, opt_is, or_else, is_some, select_where, find_where, update_where,
  any_where,
}
use job_schedular.Model.{
  Uuid, Time, User, Project, Queue, RetryPolicy, RetryStrategy, Job, JobBatch, Db,
}
use job_schedular.Services.Projects.{get_project}
use job_schedular.Services.Access.{
  Result, ok, bad_request, not_found, server_error, ◌>>=◌, ◌>>◌, raise_unless, or_error, get_queue,
}

-- schemas/queue.py
pub record PolicyCreate : Type 0 where
  pub strategy : RetryStrategy
  pub max_retries : ℕ
  pub initial_interval_sec : ℕ
  pub max_interval_sec : ℕ
  pub backoff_multiplier : ℕ
  pub jitter : Bool

pub record QueueCreate : Type 0 where
  pub name : String
  pub priority : ℕ
  pub concurrency_limit : ℕ
  pub rate_limit_rps : Option ℕ
  pub retry_policy : Option PolicyCreate

pub record PolicyUpdate : Type 0 where
  pub strategy : Option RetryStrategy
  pub max_retries : Option ℕ
  pub initial_interval_sec : Option ℕ
  pub max_interval_sec : Option ℕ
  pub backoff_multiplier : Option ℕ
  pub jitter : Option Bool

pub record QueueUpdate : Type 0 where
  pub priority : Option ℕ
  pub concurrency_limit : Option ℕ
  pub rate_limit_rps : Option ℕ
  pub retry_policy : Option PolicyUpdate

-- the double 2.0
abbrev pub two_bits : ℕ
two_bits = 0x4000000000000000

unfoldable pub new_policy : Uuid → Uuid → Option PolicyCreate → RetryPolicy
new_policy id q (some p) = record {
  id = id;
  queue_id = q;
  strategy = p.strategy;
  max_retries = p.max_retries;
  initial_interval_sec = p.initial_interval_sec;
  max_interval_sec = p.max_interval_sec;
  backoff_multiplier = p.backoff_multiplier;
  jitter = p.jitter;
}
new_policy id q none = record {
  id = id;
  queue_id = q;
  strategy = RetryStrategy.exponential;
  max_retries = 3;
  initial_interval_sec = 5;
  max_interval_sec = 3600;
  backoff_multiplier = two_bits;
  jitter = true;
}

unfoldable pub new_queue : Uuid → Uuid → QueueCreate → Time → Queue
new_queue id p req now = record {
  id = id;
  project_id = p;
  name = req.name;
  priority = req.priority;
  concurrency_limit = req.concurrency_limit;
  rate_limit_rps = req.rate_limit_rps;
  is_paused = false;
  created_at = now;
}

unfoldable pub create_queue :
    User → Uuid → QueueCreate → Uuid → Uuid → Time → Db → Result (Queue × Db)
unfolding get_project new_queue new_policy
create_queue user project_id req id policy_id now db = do
  p ← get_project db user project_id
  raise_unless (not (any_where (λ q. q.project_id == p.id && str_eq q.name req.name) db.queues))
      bad_request
  let q = new_queue id p.id req now
  ok (
    q,
    record db {
      queues = db.queues ++ q ∷ [];
      policies = db.policies ++ new_policy policy_id id req.retry_policy ∷ [];
    },
  )

unfoldable pub update_row : QueueUpdate → Queue → Queue
update_row req q = record q {
  priority = or_else req.priority q.priority;
  concurrency_limit = or_else req.concurrency_limit q.concurrency_limit;
  rate_limit_rps = if is_some req.rate_limit_rps then req.rate_limit_rps else q.rate_limit_rps;
}

unfoldable pub update_policy_row : PolicyUpdate → RetryPolicy → RetryPolicy
update_policy_row u p = record p {
  strategy = or_else u.strategy p.strategy;
  max_retries = or_else u.max_retries p.max_retries;
  initial_interval_sec = or_else u.initial_interval_sec p.initial_interval_sec;
  max_interval_sec = or_else u.max_interval_sec p.max_interval_sec;
  backoff_multiplier = or_else u.backoff_multiplier p.backoff_multiplier;
  jitter = or_else u.jitter p.jitter;
}

-- `x or default` on an optional number
abbrev pub or_number : Option ℕ → ℕ → ℕ
or_number none d = d
or_number (some n) d = if n == 0 then d else n

-- A queue without a policy gets one. Without a strategy the source names `RetryStrategy`, which
-- the module does not import: the request ends in a NameError.
unfoldable pub added_policy : Uuid → Uuid → PolicyUpdate → Result RetryPolicy
added_policy id q u = do
  s ← or_error u.strategy server_error
  ok (record {
    id = id;
    queue_id = q;
    strategy = s;
    max_retries = or_number u.max_retries 3;
    initial_interval_sec = or_number u.initial_interval_sec 5;
    max_interval_sec = or_number u.max_interval_sec 3600;
    backoff_multiplier = or_number u.backoff_multiplier two_bits;
    jitter = or_else u.jitter true;
  })

unfoldable pub update_policies :
    Uuid → Uuid → Option PolicyUpdate → List RetryPolicy → Result (List RetryPolicy)
unfolding update_policy_row added_policy
update_policies id q none policies = ok policies
update_policies id q (some u) policies =
    if any_where (λ p. p.queue_id == q) policies
    then ok (update_where (λ p. p.queue_id == q) (update_policy_row u) policies)
    else do p ← added_policy id q u; ok (policies ++ p ∷ [])

unfoldable pub update_queue : User → Uuid → QueueUpdate → Uuid → Db → Result Db
unfolding get_queue update_row update_policies
update_queue user queue_id req policy_id db = do
  q ← get_queue db user queue_id
  policies' ← update_policies policy_id q.id req.retry_policy db.policies
  ok (record db {
    queues = update_where (λ r. r.id == q.id) (update_row req) db.queues;
    policies = policies';
  })

unfoldable pub set_paused : Bool → Queue → Queue
set_paused paused q = record q { is_paused = paused }

-- pause_queue and resume_queue
unfoldable pub pause_queue : User → Uuid → Bool → Db → Result Db
unfolding get_queue set_paused
pause_queue user queue_id paused db = do
  q ← get_queue db user queue_id
  ok (record db { queues = update_where (λ r. r.id == q.id) (set_paused paused) db.queues })

-- ON DELETE SET NULL
unfoldable pub orphan_row : Job → Job
orphan_row j = record j { parent_job_id = none }

unfoldable pub unbatch_row : Job → Job
unbatch_row j = record j { batch_id = none }

-- The job waits for one that is deleted with its queue.
abbrev pub loses_parent : Uuid → List Job → Job → Bool
loses_parent q jobs j = any_where (λ p. opt_is j.parent_job_id p.id && p.queue_id == q) jobs

-- The batch of the job is deleted with its queue.
abbrev pub loses_batch : Uuid → List JobBatch → Job → Bool
loses_batch q batches j = any_where (λ b. opt_is j.batch_id b.id && b.queue_id == q) batches

-- the foreign keys from queues.id and from what is deleted with it: those that cascade, and those
-- of the jobs in other queues to their parents and batches, which are cleared
unfoldable pub delete_cascade : Uuid → Db → Db
unfolding orphan_row unbatch_row
delete_cascade q db = record db {
  queues = select_where (λ r. not (r.id == q)) db.queues;
  policies = select_where (λ r. not (r.queue_id == q)) db.policies;
  jobs = update_where (loses_batch q db.batches) unbatch_row (
      update_where (loses_parent q db.jobs) orphan_row
        (select_where (λ j. not (j.queue_id == q)) db.jobs));
  executions =
      select_where (λ e. not (any_where (λ j. j.id == e.job_id && j.queue_id == q) db.jobs))
        db.executions;
  dlq =
      select_where
        (λ d. not (d.queue_id == q || any_where (λ j. j.id == d.job_id && j.queue_id == q) db.jobs))
        db.dlq;
  schedules = select_where (λ s. not (s.queue_id == q)) db.schedules;
  batches = select_where (λ b. not (b.queue_id == q)) db.batches;
  records =
      select_where (λ r. not (any_where (λ j. opt_is r.job_id j.id && j.queue_id == q) db.jobs))
        db.records;
}

unfoldable pub delete_queue : User → Uuid → Db → Result Db
unfolding get_queue delete_cascade
delete_queue user queue_id db = do q ← get_queue db user queue_id; ok (delete_cascade q.id db)
