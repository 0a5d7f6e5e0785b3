-- ===== src/Engine/Daemon.antt =====
-- worker/app/engine/daemon.py: a worker process. It registers, polls and executes, and on shutdown
-- drains and leaves. The concurrent tasks of `start` are runs of the claimer and the runner in any
-- order; `run_once` is the pass without concurrency.
pub mod Pass
pub mod Loop
use job_schedular.Prelude.{
  ℕ, String, Bool, Option, none, some, List, [], ◌∷◌, ◌++◌, str_eq, any_where, if◌then◌else◌,
  update_where,
}
use job_schedular.Model.{Uuid, Time, Job, Worker, WorkerStatus, Db}
use job_schedular.Engine.Retry.{Floats}
use job_schedular.Engine.RateLimiter.{Buckets}
use job_schedular.Engine.Claimer.{Poll, claim_next_job}
use job_schedular.Engine.Runner.{Context, Outcome, Ending, Finish, begin, finalize}

-- what a worker knows of itself
pub record Identity : Type 0 where
  pub worker_id : String
  pub hostname : String
  pub pid : ℕ
  pub concurrency : ℕ
  pub assigned_queues : List String

unfoldable pub new_worker : Identity → Time → Worker
new_worker w now = record {
  worker_id = w.worker_id;
  hostname = w.hostname;
  pid = w.pid;
  concurrency_limit = w.concurrency;
  current_active_jobs = 0;
  status = WorkerStatus.alive;
  assigned_queues = w.assigned_queues;
  started_at = now;
  last_heartbeat_at = now;
}

unfoldable pub revive : Identity → Time → Worker → Worker
revive w now r = record r {
  hostname = w.hostname;
  pid = w.pid;
  concurrency_limit = w.concurrency;
  status = WorkerStatus.alive;
  assigned_queues = w.assigned_queues;
  last_heartbeat_at = now;
}

abbrev pub is_self : String → Worker → Bool
is_self worker_id r = str_eq r.worker_id worker_id

unfoldable pub register : Identity → Time → Db → Db
unfolding new_worker revive
register w now db =
    if any_where (is_self w.worker_id) db.workers
    then record db { workers = update_where (is_self w.worker_id) (revive w now) db.workers }
    else record db { workers = db.workers ++ new_worker w now ∷ [] }

-- the first and the last write of `stop`; in between the tasks in flight come to their end
unfoldable pub drain : String → Db → Db
drain worker_id db = record db {
  workers =
      update_where (is_self worker_id) (λ r. record r { status = WorkerStatus.draining })
        db.workers;
}

unfoldable pub leave : String → Db → Db
leave worker_id db = record db {
  workers =
      update_where (is_self worker_id)
        (λ r. record r { status = WorkerStatus.dead; current_active_jobs = 0 }) db.workers;
}

-- What a pass does: it finds no job, executes one, or fails where the claimed row is not found.
pub data PassResult : Type 0 where
  idle : Db → PassResult
  executed : Context → Finish → PassResult
  row_missing : PassResult

module _ (fl : Floats) (execute : Context → Outcome × Ending) where
  unfoldable pub execute_job : Option Context → Db → PassResult
  execute_job none db = row_missing
  execute_job (some c) db =
      let (outcome, end) = execute c in executed c (finalize fl c outcome end db)

  unfoldable pub after_claim : Uuid → Poll → Option Job → Db → PassResult
  unfolding execute_job
  after_claim execution_id p none db = idle db
  after_claim execution_id p (some j) db =
      execute_job (begin j.lease_token j.id execution_id p.worker_id p.now db) db

  -- `execute` stands for the handler that the registry has for the job, and its clocks.
  unfoldable pub run_once : Uuid → Poll → Db → Buckets → PassResult
  unfolding after_claim
  run_once execution_id p db bs =
      let (job, db', bs') = claim_next_job p none db bs in after_claim execution_id p job db'
