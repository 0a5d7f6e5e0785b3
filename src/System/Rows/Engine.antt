-- ===== src/System/Rows/Engine.antt =====
-- Claiming and finalizing keep a property of rows.
use job_schedular.Prelude.{
  Bool, true, String, Option, none, some, List, [], ◌∷◌, ◌≡◌, inl, inr, ◌==◌, All, All-update_where,
  Bool-cases, find_where, count_where, any_where, ltb, leb, arith,
}
use job_schedular.Model.{Uuid, Job, JobStatus, JobExecution, Queue, Json, Db, is_status}
use job_schedular.Engine.Retry.{Floats}
use job_schedular.Engine.RateLimiter.{Buckets, allow_claim}
use job_schedular.Engine.Claimer.{
  Poll, Attempt, next_queue, won, refused, is_live, rate_check, claim_candidate, claim_queue,
  claim_loop, claim_next_job, candidate, candidate_queues,
}
use job_schedular.Engine.Runner.{
  Context, Outcome, returned, raised, Ending, Finish, finished, integrity_error, finalize,
  finalize_success, finalize_retry, finalize_bury, holds, fenced,
}
use job_schedular.System.Rows.{IsKept}

held-running :
    (id : Uuid) (token : Option Uuid) (j : Job)
    → holds id token j ≡ true
    → is_status j.status JobStatus.running ≡ true
held-running id token j held = ground arith

module _ {Allowed : Uuid → Bool} {P : Job → Type 0} (kept : IsKept Allowed P) where
  -- How an attempt to claim from one queue leaves the rows.
  abbrev AttemptKeeps : Attempt → Type 0
  AttemptKeeps next_queue = Unit
  AttemptKeeps (won j db bs) = All P db.jobs
  AttemptKeeps (refused db bs) = All P db.jobs

  rate_check-rows :
      (p : Poll) (q : Queue) (j : Job) (db : Db) (bs : Buckets)
      → All P db.jobs
      → AttemptKeeps (rate_check p q j db bs)
  unfolding rate_check
  rate_check-rows p q j db bs h =
      elim (Bool-cases (allow_claim q.id q.rate_limit_rps p.clock bs).0) [
        | inl e ↦ rw e h
        | inr e ↦ rw e (All-update_where P _ _ (λ x px _. kept.at_revert p.now x px) db.jobs h)
      ]

  module _ (p : Poll) (drawn : (q : Uuid) → Allowed (p.new_token q) ≡ true) where
    claim_candidate-rows :
        (q : Queue) (c : Option Job) (db : Db) (bs : Buckets)
        → All P db.jobs
        → AttemptKeeps (claim_candidate p q c db bs)
    unfolding claim_candidate
    claim_candidate-rows q none db bs h = tt
    claim_candidate-rows q (some j) db bs h =
        rate_check-rows p q _ _ bs
          (All-update_where P _ _ (λ x px _. kept.at_claim p q.id x (drawn q.id) px) db.jobs h)

    claim_queue-rows :
        (q : Option Queue) (db : Db) (bs : Buckets)
        → All P db.jobs
        → AttemptKeeps (claim_queue p q db bs)
    unfolding claim_queue
    claim_queue-rows none db bs h = tt
    claim_queue-rows (some q) db bs h = elim (Bool-cases q.is_paused) [
      | inl e ↦ rw e tt
      | inr e ↦
          rw e
            (elim (Bool-cases
              (leb q.concurrency_limit (count_where (is_live q.id p.now) db.jobs))) [
                | inl full ↦ rw full tt
                | inr room ↦ rw room (claim_candidate-rows q (candidate p q.id db) db bs h)
              ])
    ]

    claim_loop-rows :
        (qs : List Uuid) (db : Db) (bs : Buckets)
        → All P db.jobs
        → All P (claim_loop p qs db bs).1.jobs
    unfolding claim_loop
    claim_loop-rows [] db bs h = h
    claim_loop-rows (q ∷ qs) db bs h =
        settle (claim_queue p (find_where (λ r. r.id == q) db.queues) db bs)
          (claim_queue-rows _ db bs h) (claim_loop-rows qs db bs h)
      where
        settle :
            (a : Attempt)
            → AttemptKeeps a
            → All P (claim_loop p qs db bs).1.jobs
            → All P
                (elim a as (λ _. Option Job × Db × Buckets) [
                  | next_queue ↦ claim_loop p qs db bs
                  | won j db' bs' ↦ (some j, db', bs')
                  | refused db' bs' ↦ (none, db', bs')
                ]).1.jobs
        settle next_queue k rest = rest
        settle (won j db' bs') k rest = k
        settle (refused db' bs') k rest = k

    pub claim_next_job-rows :
        (only : Option Uuid) (db : Db) (bs : Buckets)
        → All P db.jobs
        → All P (claim_next_job p only db bs).1.jobs
    unfolding claim_next_job
    claim_next_job-rows none db bs h = claim_loop-rows (candidate_queues p db) db bs h
    claim_next_job-rows (some q) db bs h = claim_loop-rows (q ∷ []) db bs h

  abbrev FinishKeeps : Finish → Type 0
  FinishKeeps (finished ex db) = All P db.jobs
  FinishKeeps integrity_error = Unit

  fenced-rows :
      (c : Context) (why : String) (trace : Option String) (e : Ending) (db : Db)
      → All P db.jobs
      → FinishKeeps (fenced c why trace e db)
  unfolding fenced
  fenced-rows c why trace e db h = elim (Bool-cases (any_where (λ j. j.id == c.job.id) db.jobs)) [
    | inl there ↦ rw there h
    | inr gone ↦ rw gone tt
  ]

  finalize_success-rows :
      (c : Context) (r : Json) (e : Ending) (db : Db)
      → All P db.jobs
      → FinishKeeps (finalize_success c r e db)
  unfolding finalize_success
  finalize_success-rows c r e db h =
      elim (Bool-cases (count_where (holds c.job.id c.lease_token) db.jobs == 0)) [
        | inl lost ↦ rw lost (fenced-rows c _ _ e db h)
        | inr mine ↦ rw mine (
            All-update_where P _ _ (λ x px _. kept.at_unlock e.at x px) _
              (All-update_where P _ _
                (λ x px held.
                  kept.at_complete r e.at x (held-running c.job.id c.lease_token x held) px)
                db.jobs h))
      ]

  finalize_retry-rows :
      (fl : Floats) (c : Context) (error trace : String) (e : Ending) (db : Db)
      → All P db.jobs
      → FinishKeeps (finalize_retry fl c error trace e db)
  unfolding finalize_retry
  finalize_retry-rows fl c error trace e db h =
      elim (Bool-cases (count_where (holds c.job.id c.lease_token) db.jobs == 0)) [
        | inl lost ↦ rw lost (fenced-rows c _ _ e db h)
        | inr mine ↦
            rw mine (All-update_where P _ _ (λ x px _. kept.at_retry _ _ _ e.at x px) db.jobs h)
      ]

  finalize_bury-rows :
      (c : Context) (error trace : String) (e : Ending) (db : Db)
      → All P db.jobs
      → FinishKeeps (finalize_bury c error trace e db)
  unfolding finalize_bury
  finalize_bury-rows c error trace e db h =
      elim (Bool-cases (count_where (holds c.job.id c.lease_token) db.jobs == 0)) [
        | inl lost ↦ rw lost (fenced-rows c _ _ e db h)
        | inr mine ↦ rw mine (elim (Bool-cases (any_where (λ d. d.job_id == c.job.id) db.dlq)) [
          | inl there ↦ rw there tt
          | inr fresh ↦ rw fresh (
              All-update_where P _ _ (λ x px _. kept.at_cancel_child c.job.id e.at x px) _
                (All-update_where P _ _ (λ x px _. kept.at_bury _ e.at x px) db.jobs h))
        ])
      ]

  finalize-keeps :
      (fl : Floats) (c : Context) (o : Outcome) (e : Ending) (db : Db)
      → All P db.jobs
      → FinishKeeps (finalize fl c o e db)
  unfolding finalize
  finalize-keeps fl c (returned r) e db h = finalize_success-rows c r e db h
  finalize-keeps fl c (raised error trace) e db h =
      elim (Bool-cases (ltb c.job.attempt_count c.job.max_retries)) [
        | inl again ↦ rw again (finalize_retry-rows fl c error trace e db h)
        | inr done ↦ rw done (finalize_bury-rows c error trace e db h)
      ]

  pub finalize-rows :
      (fl : Floats) (c : Context) (o : Outcome) (e : Ending) (db db' : Db) (ex : JobExecution)
      → finalize fl c o e db ≡ finished ex db'
      → All P db.jobs
      → All P db'.jobs
  finalize-rows fl c o e db db' ex done h = rw done at (finalize-keeps fl c o e db h)
