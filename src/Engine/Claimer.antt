-- ===== src/Engine/Claimer.antt =====
-- worker/app/engine/claimer.py: polling the queues and claiming a job. A call is one transaction
-- up to its commit, with the row of the queue locked; `locked` names the job rows that other
-- transactions hold then, which FOR UPDATE SKIP LOCKED passes over.
pub mod Selection
pub mod Limits
use job_schedular.Prelude.{
  ℕ, ◌+◌, ◌-◌, String, Bool, true, false, not, ◌&&◌, ◌||◌, Option, none, some, List, [], ◌∷◌, map,
  if◌then◌else◌, ltb, leb, ◌==◌, str_eq, select_where, find_where, update_where, count_where,
  any_where, sort_by,
}
use job_schedular.Model.{Uuid, Time, seconds, Job, JobStatus, Queue, Db, is_status}
use job_schedular.Engine.RateLimiter.{Buckets, allow_claim}

-- What a poll is given: NOW(), the worker's monotonic clock, its identity and queues, the UUID
-- drawn for each queue that it tries, the rows locked elsewhere and the length of a lease.
pub record Poll : Type 0 where
  pub now : Time
  pub clock : Time
  pub worker_id : String
  pub assigned_queues : List String
  pub new_token : Uuid → Uuid
  pub locked : Uuid → Bool
  pub lock_timeout_seconds : ℕ

-- ORDER BY q.priority DESC, q.created_at ASC
abbrev pub queue_before : Queue → Queue → Bool
queue_before a b =
    ltb b.priority a.priority || a.priority == b.priority && leb a.created_at b.created_at

-- ORDER BY priority DESC, run_at ASC
abbrev pub job_before : Job → Job → Bool
job_before a b = ltb b.priority a.priority || a.priority == b.priority && leb a.run_at b.run_at

abbrev pub is_ready : Uuid → Time → Job → Bool
is_ready q now j = j.queue_id == q && is_status j.status JobStatus.queued && leb j.run_at now

-- a running job whose lease has not expired
abbrev pub is_live : Uuid → Time → Job → Bool
is_live q now j =
    j.queue_id == q && is_status j.status JobStatus.running && not (expired j.lock_expires_at)
  where
    expired : Option Time → Bool
    expired none = false
    expired (some t) = leb t now

-- q.name = ANY(:assigned_queues), where any are assigned
abbrev pub is_assigned : List String → Queue → Bool
is_assigned [] q = true
is_assigned (n ∷ ns) q = any_where (λ m. str_eq q.name m) (n ∷ ns)

unfoldable pub candidate_queues : Poll → Db → List Uuid
candidate_queues p db =
    map (λ q. q.id)
      (sort_by queue_before (
        select_where
          (λ q.
            not q.is_paused
            && is_assigned p.assigned_queues q
            && any_where (is_ready q.id p.now) db.jobs)
          db.queues))

-- the SET list of the claiming UPDATE
unfoldable pub claim_row : Poll → Uuid → Job → Job
claim_row p q j = record j {
  status = JobStatus.running;
  locked_by_worker_id = some p.worker_id;
  lease_token = some (p.new_token q);
  lock_expires_at = some (p.now + seconds p.lock_timeout_seconds);
  started_at = some p.now;
  claimed_at = some p.now;
  attempt_count = j.attempt_count + 1;
  updated_at = p.now;
}

-- the attributes that are put back when the rate limit refuses the claim
unfoldable pub revert_row : Time → Job → Job
revert_row now j = record j {
  status = JobStatus.queued;
  locked_by_worker_id = none;
  lease_token = none;
  lock_expires_at = none;
  attempt_count = j.attempt_count - 1;
  started_at = none;
  claimed_at = none;
  updated_at = now;
}

-- the first ready row of the queue that no other transaction holds
unfoldable pub first_row : List Job → Option Job
first_row [] = none
first_row (j ∷ js) = some j

unfoldable pub candidate : Poll → Uuid → Db → Option Job
unfolding first_row
candidate p q db =
    first_row
      (sort_by job_before (select_where (λ j. is_ready q p.now j && not (p.locked j.id)) db.jobs))

-- How the body of the loop over the candidate queues ends.
pub data Attempt : Type 0 where
  next_queue : Attempt
  won : Job → Db → Buckets → Attempt
  refused : Db → Buckets → Attempt

-- the rate limit, after the job was claimed
unfoldable pub rate_check : Poll → Queue → Job → Db → Buckets → Attempt
unfolding revert_row
rate_check p q j db bs =
    let (allowed, bs') = allow_claim q.id q.rate_limit_rps p.clock bs in
    if allowed
    then won j db bs'
    else refused (record db { jobs = update_where (λ x. x.id == j.id) (revert_row p.now) db.jobs })
        bs'

unfoldable pub claim_candidate : Poll → Queue → Option Job → Db → Buckets → Attempt
unfolding claim_row rate_check
claim_candidate p q none db bs = next_queue
claim_candidate p q (some j) db bs =
    rate_check p q (claim_row p q.id j)
      (record db { jobs = update_where (λ x. x.id == j.id) (claim_row p q.id) db.jobs }) bs

unfoldable pub claim_queue : Poll → Option Queue → Db → Buckets → Attempt
unfolding claim_candidate
claim_queue p none db bs = next_queue
claim_queue p (some q) db bs =
    if q.is_paused
    then next_queue
    else if leb q.concurrency_limit (count_where (is_live q.id p.now) db.jobs)
    then next_queue
    else claim_candidate p q (candidate p q.id db) db bs

unfoldable pub claim_loop : Poll → List Uuid → Db → Buckets → Option Job × Db × Buckets
claim_loop p [] db bs = (none, db, bs)
claim_loop p (q ∷ qs) db bs = elim (claim_queue p (find_where (λ r. r.id == q) db.queues) db bs) [
  | next_queue ↦ claim_loop p qs db bs
  | won j db' bs' ↦ (some j, db', bs')
  | refused db' bs' ↦ (none, db', bs')
]

-- With `queue_id` only that queue is tried.
unfoldable pub claim_next_job : Poll → Option Uuid → Db → Buckets → Option Job × Db × Buckets
unfolding candidate_queues
claim_next_job p none db bs = claim_loop p (candidate_queues p db) db bs
claim_next_job p (some q) db bs = claim_loop p (q ∷ []) db bs
