-- ===== src/System/Fencing.antt =====
-- Lease tokens as fences: a worker that lost its lease cannot settle the job, whatever the other
-- processes do in between. That `uuid4` does not repeat a token is the condition that no claim of
-- the run draws it again.
use job_schedular.Prelude.{
  ℕ, String, Bool, true, false, not, Option, none, some, List, [], ◌∷◌, ◌++◌, ◌≡◌, refl, inl, inr,
  ◌==◌, arith, All, All-update_where, All-update_where_of, count_where-zero, All-count_where_zero,
  count_where, update_where, Bool-cases, any_where, ltb, ==→≡,
}
use job_schedular.Model.{Uuid, Job, JobExecution, ExecutionStatus, Json, Db, new_job}
use job_schedular.Engine.Retry.{Floats}
use job_schedular.Engine.Claimer.{claim_row, revert_row}
use job_schedular.Engine.Runner.{
  Context, Outcome, returned, raised, Ending, Finish, finished, integrity_error, holds, fenced,
  execution_row, finalize, finalize_success, finalize_retry, finalize_bury, complete_row, retry_row,
  bury_row, unlock_row, cancel_child_row,
}
use job_schedular.Daemons.Heartbeat.{renew_row}
use job_schedular.Daemons.Reaper.{requeue_row, escalate_row, reap_job}
use job_schedular.Daemons.Promoter.{promote_row}
use job_schedular.Services.Jobs.{cancel_row, requeue_by_hand}
use job_schedular.Services.Batches.{batch_cancel_row, batch_retry_row}
use job_schedular.Services.Dlq.{replay_row}
use job_schedular.Services.Queues.{orphan_row, unbatch_row}
use job_schedular.System.{Reach}
use job_schedular.System.Rows.{IsKept}
use job_schedular.System.Preserve.{Reach-All}

-- The row is not the running job `id` under the token `t`.
abbrev pub IsLost : Uuid → Uuid → Job → Type 0
IsLost id t j = holds id (some t) j ≡ false

-- every UUID but one
abbrev pub other_than : Uuid → Uuid → Bool
other_than t u = not (u == t)

IsLost-kept : (id t : Uuid) → IsKept (other_than t) (IsLost id t)
unfolding new_job claim_row revert_row complete_row retry_row bury_row unlock_row cancel_child_row
    renew_row requeue_row escalate_row promote_row cancel_row requeue_by_hand replay_row orphan_row
    unbatch_row batch_cancel_row batch_retry_row
IsLost-kept id t = record {
  at_insert = λ i q k n later p pl m r pa b tg now. ground arith;
  at_claim = λ p q j drawn h. ground arith;
  at_revert = λ now j h. ground arith;
  at_complete = λ r now j run h. ground arith;
  at_retry = λ later at m now j h. ground arith;
  at_bury = λ m now j h. ground arith;
  at_unlock = λ now j h. ground arith;
  at_cancel_child = λ p now j h. ground arith;
  at_renew = λ now j run h. h;
  at_requeue = λ now j h. ground arith;
  at_escalate = λ now j h. ground arith;
  at_promote = λ now j h. ground arith;
  at_cancel = λ read now j h. ground arith;
  at_requeue_by_hand = λ read now j h. ground arith;
  at_replay = λ now j h. ground arith;
  at_batch_cancel = λ now j h. ground arith;
  at_orphan = λ j h. ground arith;
  at_unbatch = λ j h. ground arith;
  at_batch_retry = λ now j h. ground arith;
}

-- What `execute_job` reports for a worker that lost its lease on a job: while the job exists, the
-- execution is recorded as killed and nothing else changes; when it is gone, nothing is committed.
abbrev pub IsFenced : Uuid → Db → Finish → Type 0
IsFenced id db r =
    (any_where (λ j. j.id == id) db.jobs ≡ true
      → (ex : JobExecution) × (ex.status ≡ ExecutionStatus.killed)
        × (r ≡ finished ex (record db { executions = db.executions ++ ex ∷ [] })))
    × (any_where (λ j. j.id == id) db.jobs ≡ false → r ≡ integrity_error)

fenced-IsFenced :
    (c : Context) (why : String) (trace : Option String) (e : Ending) (db : Db)
    → IsFenced c.job.id db (fenced c why trace e db)
unfolding fenced execution_row
fenced-IsFenced c why trace e db = (λ there. rw there (_, refl, refl), λ gone. rw gone refl)

module _ (fl : Floats) (c : Context) (e : Ending) (db : Db)
    (none_held : count_where (holds c.job.id c.lease_token) db.jobs ≡ 0) where
  finalize_success-IsFenced : (r : Json) → IsFenced c.job.id db (finalize_success c r e db)
  unfolding finalize_success
  finalize_success-IsFenced r = rw none_held (fenced-IsFenced c _ none e db)

  finalize_retry-IsFenced :
      (m trace : String) → IsFenced c.job.id db (finalize_retry fl c m trace e db)
  unfolding finalize_retry
  finalize_retry-IsFenced m trace = rw none_held (fenced-IsFenced c _ (some trace) e db)

  finalize_bury-IsFenced : (m trace : String) → IsFenced c.job.id db (finalize_bury c m trace e db)
  unfolding finalize_bury
  finalize_bury-IsFenced m trace = rw none_held (fenced-IsFenced c _ (some trace) e db)

  finalize-IsFenced : (o : Outcome) → IsFenced c.job.id db (finalize fl c o e db)
  unfolding finalize
  finalize-IsFenced (returned r) = finalize_success-IsFenced r
  finalize-IsFenced (raised m trace) =
      elim (Bool-cases (ltb c.job.attempt_count c.job.max_retries)) [
        | inl again ↦ rw again (finalize_retry-IsFenced m trace)
        | inr done ↦ rw done (finalize_bury-IsFenced m trace)
      ]

-- If no row is the running job under the token that a worker holds, then after any steps of any
-- processes in which no claim draws that token again, the worker's attempt to settle the job, as
-- succeeded or as failed, is refused: while the job exists, it records a killed execution and
-- changes nothing else; when the job has been deleted, it is an error and nothing is committed.
pub stale_worker-IsFenced :
    (fl : Floats) (t : Uuid) (c : Context) (o : Outcome) (end : Ending) (d e : Db)
    → c.lease_token ≡ some t
    → All (IsLost c.job.id t) d.jobs
    → Reach (other_than t) d e
    → IsFenced c.job.id e (finalize fl c o end e)
stale_worker-IsFenced fl t c o end d e held lost run =
    finalize-IsFenced fl c end e
      (rw held (count_where-zero _ e.jobs (Reach-All (IsLost-kept c.job.id t) lost run))) o

-- The write of a reaper's sweep, from whatever the sweep read of the job, takes the lease away.
pub reap_job-IsLost :
    (t now : ℕ) (new_id : Uuid → Uuid) (read : Job) (db : Db)
    → All (IsLost read.id t) (reap_job now new_id read db).jobs
unfolding reap_job requeue_row escalate_row
reap_job-IsLost t now new_id read db = elim (Bool-cases (ltb read.attempt_count read.max_retries)) [
  | inl again ↦
      rw again (All-update_where_of _ _ _ (λ x h. ground arith) (λ x h. ground arith) db.jobs)
  | inr done ↦
      rw done (All-update_where_of _ _ _ (λ x h. ground arith) (λ x h. ground arith) db.jobs)
]

module _ (c : Context) (t : Uuid) (held : c.lease_token ≡ some t) where
  abbrev ReleasesLease : Finish → Type 0
  ReleasesLease (finished ex db) = All (IsLost c.job.id t) db.jobs
  ReleasesLease integrity_error = Unit

  -- The UPDATE that settles the job hits the rows that hold the lease, and ends it.
  settled_rows :
      (f : Job → Job) (jobs : List Job)
      → ((j : Job) → holds c.job.id (some t) j ≡ true → IsLost c.job.id t (f j))
      → All (IsLost c.job.id t) (update_where (holds c.job.id c.lease_token) f jobs)
  settled_rows f jobs ends = rw held (All-update_where_of _ _ _ ends (λ x miss. miss) jobs)

  unheld_rows :
      (jobs : List Job)
      → (count_where (holds c.job.id c.lease_token) jobs == 0) ≡ true
      → All (IsLost c.job.id t) jobs
  unheld_rows jobs lost = All-count_where_zero _ jobs (rw held at (==→≡ _ _ lost))

  fenced-ReleasesLease :
      (why : String) (trace : Option String) (e : Ending) (db : Db)
      → All (IsLost c.job.id t) db.jobs
      → ReleasesLease (fenced c why trace e db)
  unfolding fenced
  fenced-ReleasesLease why trace e db lost =
      elim (Bool-cases (any_where (λ j. j.id == c.job.id) db.jobs)) [
        | inl there ↦ rw there lost
        | inr gone ↦ rw gone tt
      ]

  finalize_success-ReleasesLease :
      (r : Json) (e : Ending) (db : Db) → ReleasesLease (finalize_success c r e db)
  unfolding finalize_success complete_row unlock_row
  finalize_success-ReleasesLease r e db =
      elim (Bool-cases (count_where (holds c.job.id c.lease_token) db.jobs == 0)) [
        | inl lost ↦ rw lost (fenced-ReleasesLease _ _ e db (unheld_rows db.jobs lost))
        | inr mine ↦ rw mine (
            All-update_where _ _ _ (λ x px _. ground arith) _
              (settled_rows _ db.jobs (λ j h. ground arith)))
      ]

  finalize_retry-ReleasesLease :
      (fl : Floats) (m trace : String) (e : Ending) (db : Db)
      → ReleasesLease (finalize_retry fl c m trace e db)
  unfolding finalize_retry retry_row
  finalize_retry-ReleasesLease fl m trace e db =
      elim (Bool-cases (count_where (holds c.job.id c.lease_token) db.jobs == 0)) [
        | inl lost ↦ rw lost (fenced-ReleasesLease _ _ e db (unheld_rows db.jobs lost))
        | inr mine ↦ rw mine (settled_rows _ db.jobs (λ j h. ground arith))
      ]

  finalize_bury-ReleasesLease :
      (m trace : String) (e : Ending) (db : Db) → ReleasesLease (finalize_bury c m trace e db)
  unfolding finalize_bury bury_row cancel_child_row
  finalize_bury-ReleasesLease m trace e db =
      elim (Bool-cases (count_where (holds c.job.id c.lease_token) db.jobs == 0)) [
        | inl lost ↦ rw lost (fenced-ReleasesLease _ _ e db (unheld_rows db.jobs lost))
        | inr mine ↦ rw mine (elim (Bool-cases (any_where (λ d. d.job_id == c.job.id) db.dlq)) [
          | inl there ↦ rw there tt
          | inr fresh ↦ rw fresh (
              All-update_where _ _ _ (λ x px _. ground arith) _
                (settled_rows _ db.jobs (λ j h. ground arith)))
        ])
      ]

  finalize-ReleasesLease :
      (fl : Floats) (o : Outcome) (e : Ending) (db : Db) → ReleasesLease (finalize fl c o e db)
  unfolding finalize
  finalize-ReleasesLease fl (returned r) e db = finalize_success-ReleasesLease r e db
  finalize-ReleasesLease fl (raised m trace) e db =
      elim (Bool-cases (ltb c.job.attempt_count c.job.max_retries)) [
        | inl again ↦ rw again (finalize_retry-ReleasesLease fl m trace e db)
        | inr done ↦ rw done (finalize_bury-ReleasesLease m trace e db)
      ]

-- A lease settles its job at most once: after `execute_job` has finished under a token, and any
-- steps in which no claim draws that token again, a second attempt to settle under the same
-- token, with any outcome, only records a killed execution, or commits nothing if the job has
-- been deleted meanwhile.
pub settles_once :
    (fl : Floats) (t : Uuid) (c c' : Context) (o o' : Outcome) (end end' : Ending) (d d' e : Db)
    (ex : JobExecution)
    → c.lease_token ≡ some t
    → c'.lease_token ≡ some t
    → c'.job.id ≡ c.job.id
    → finalize fl c o end d ≡ finished ex d'
    → Reach (other_than t) d' e
    → IsFenced c'.job.id e (finalize fl c' o' end' e)
settles_once fl t c c' o o' end end' d d' e ex held held' same done run =
    stale_worker-IsFenced fl t c' o' end' d' e held'
      (rw same (rw done at (finalize-ReleasesLease c t held fl o end d))) run
