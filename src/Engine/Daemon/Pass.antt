-- ===== src/Engine/Daemon/Pass.antt =====
-- A pass of a worker that no other process interrupts.
use job_schedular.Prelude.{
  ℕ, String, subst, true, Option, none, some, ◌≡◌, ◌≢◌, refl, ap, inl, inr, ◌==◌, ==→≡, All,
  Option-cases, count_where, find_where, find_where-passes, count_where-update_same,
}
use job_schedular.Model.{Uuid, Job, JobExecution, Db}
use job_schedular.Engine.Retry.{Floats}
use job_schedular.Engine.RateLimiter.{Buckets}
use job_schedular.Engine.Claimer.{Poll, claim_row, claim_next_job}
use job_schedular.Engine.Claimer.Selection.{claim_next_job-IsClaim}
use job_schedular.Engine.Claimer.Limits.{HasUniqueIds}
use job_schedular.Engine.Runner.{Context, Outcome, Ending, finished, finalize, holds, begin}
use job_schedular.Engine.Runner.Holding.{claimed_job_is_held}
use job_schedular.Engine.Runner.Settling.{IsSettled, settles_job}
use job_schedular.Engine.Daemon.{idle, executed, row_missing, execute_job, after_claim, run_once}

-- A claim keeps the ids of the rows.
claim-HasUniqueIds :
    (p : Poll) (only : Option Uuid) (db : Db) (bs : Buckets) (j : Job) (db' : Db) (bs' : Buckets)
    → HasUniqueIds db.jobs
    → claim_next_job p only db bs ≡ (some j, db', bs')
    → HasUniqueIds db'.jobs
unfolding claim_row
claim-HasUniqueIds p only db bs j db' bs' unique e i =
    let (k, q, found, w) = claim_next_job-IsClaim p only db bs j db' bs' e in
    rw
      (
        w.write,
        count_where-update_same (λ x. x.id == i) (λ x. x.id == w.row.id) (claim_row p q.id)
            (λ x. refl) db.jobs,
      )
      (unique i)

-- The context, if there is one, is of the job `id`, under the token.
abbrev IsFor : Uuid → Uuid → Option Context → Type 0
IsFor id token none = Unit
IsFor id token (some c) = (c.job.id ≡ id) × (c.lease_token ≡ some token)

begin-IsFor :
    (token id execution_id : Uuid) (worker : String) (now : ℕ) (db : Db)
    → IsFor id token (begin (some token) id execution_id worker now db)
unfolding begin
begin-IsFor token id execution_id worker now db =
    elim (Option-cases (find_where (λ j. j.id == id) db.jobs)) [
      | inl missing ↦ rw (missing, begin) tt
      | inr (j, found) ↦
          rw (found, begin)
            (==→≡ j.id id (find_where-passes (λ x. x.id == id) db.jobs j found), refl)
    ]

claimed_token :
    (p : Poll) (only : Option Uuid) (db : Db) (bs : Buckets) (j : Job) (db' : Db) (bs' : Buckets)
    → claim_next_job p only db bs ≡ (some j, db', bs')
    → (t : Uuid) × (j.lease_token ≡ some t)
unfolding claim_row
claimed_token p only db bs j db' bs' e =
    let (i, q, found, w) = claim_next_job-IsClaim p only db bs j db' bs' e in
    (p.new_token q.id, ap (λ x. x.lease_token) w.result)

-- The job that the pass executes is held, in a table with unique ids.
abbrev IsHeld : Context → Db → Type 0
IsHeld c db = HasUniqueIds db.jobs × (count_where (holds c.job.id c.lease_token) db.jobs ≢ 0)

claimed-IsHeld :
    (p : Poll) (only : Option Uuid) (db : Db) (bs : Buckets) (j : Job) (db' : Db) (bs' : Buckets)
    (execution_id : Uuid) (c : Context)
    → HasUniqueIds db.jobs
    → claim_next_job p only db bs ≡ (some j, db', bs')
    → begin j.lease_token j.id execution_id p.worker_id p.now db' ≡ some c
    → IsHeld c db'
claimed-IsHeld p only db bs j db' bs' execution_id c unique e begun =
    let (t, token) = claimed_token p only db bs j db' bs' e in
    let begun' : begin (some t) j.id execution_id p.worker_id p.now db' ≡ some c =
      rw token at begun in
    let context : IsFor j.id t (some c) =
      rw begun' at (begin-IsFor t j.id execution_id p.worker_id p.now db') in
    (
      claim-HasUniqueIds p only db bs j db' bs' unique e,
      rw (context.0, context.1, ← token) (claimed_job_is_held p only db bs j db' bs' e),
    )

module _ (fl : Floats) (execute : Context → Outcome × Ending) (execution_id : Uuid) (p : Poll)
    (db : Db) (bs : Buckets) (c : Context) (ex : JobExecution) (done : Db) where
  executed_settles :
      (begun : Option Context) (db' : Db)
      → ((c' : Context) → begun ≡ some c' → IsHeld c' db')
      → execute_job fl execute begun db' ≡ executed c (finished ex done)
      → All (λ j. (j.id == c.job.id) ≡ true → IsSettled c (execute c).0 (execute c).1 j) done.jobs
  unfolding execute_job
  executed_settles none db' held e = absurd (missing≢executed e)
    where
      missing≢executed : row_missing ≡ executed c (finished ex done) → ⊥
      missing≢executed h = cc
  executed_settles (some c') db' held e =
      let same : c' ≡ c = cc e in
      let settled : finalize fl c' (execute c').0 (execute c').1 db' ≡ finished ex done = cc e in
      let (unique, mine) = held c' refl in
      subst
        (λ c''.
          All (λ j. (j.id == c''.job.id) ≡ true → IsSettled c'' (execute c'').0 (execute c'').1 j)
            done.jobs)
        same (settles_job fl c' (execute c').0 (execute c').1 db' done ex unique mine settled)

  after_claim_settles :
      (job : Option Job) (db' : Db) (bs' : Buckets)
      → HasUniqueIds db.jobs
      → claim_next_job p none db bs ≡ (job, db', bs')
      → after_claim fl execute execution_id p job db' ≡ executed c (finished ex done)
      → All (λ j. (j.id == c.job.id) ≡ true → IsSettled c (execute c).0 (execute c).1 j) done.jobs
  unfolding after_claim
  after_claim_settles none db' bs' unique claimed e = absurd (idle≢executed e)
    where
      idle≢executed : idle db' ≡ executed c (finished ex done) → ⊥
      idle≢executed h = cc
  after_claim_settles (some j) db' bs' unique claimed e =
      executed_settles (begin j.lease_token j.id execution_id p.worker_id p.now db') db'
        (λ c' begun. claimed-IsHeld p none db bs j db' bs' execution_id c' unique claimed begun) e

  -- If job ids are unique, a pass executes a job with no other process in between, and its end is
  -- committed: the row of the job is completed with the handler's result; or, after an exception,
  -- it is scheduled at least one second later while attempts are left, and dead when none is. In
  -- each case its lease is gone.
  pub run_once_settles :
      HasUniqueIds db.jobs
      → run_once fl execute execution_id p db bs ≡ executed c (finished ex done)
      → All (λ j. (j.id == c.job.id) ≡ true → IsSettled c (execute c).0 (execute c).1 j) done.jobs
  unfolding run_once
  run_once_settles unique e =
      after_claim_settles (claim_next_job p none db bs).0 (claim_next_job p none db bs).1
        (claim_next_job p none db bs).2 unique refl e
