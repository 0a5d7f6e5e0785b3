-- ===== src/Engine/Runner/Holding.antt =====
-- From the claim to the execution: the worker that has claimed a job holds it.
use job_schedular.Prelude.{
  true, Option, some, ◌≡◌, ◌≢◌, arith, ◌==◌, ==-refl, count_where, count_where-Stored,
  Stored-update_where,
}
use job_schedular.Model.{Uuid, Job, Db}
use job_schedular.Engine.RateLimiter.{Buckets}
use job_schedular.Engine.Claimer.{Poll, claim_row, claim_next_job}
use job_schedular.Engine.Claimer.Selection.{claim_next_job-IsClaim}
use job_schedular.Engine.Runner.{holds}

claim_row-holds :
    (p : Poll) (q : Uuid) (j : Job)
    → holds (claim_row p q j).id (claim_row p q j).lease_token (claim_row p q j) ≡ true
unfolding claim_row
claim_row-holds p q j = ground arith

-- When a poll has claimed a job, the table has a row that is this job running under the token of
-- the claim, as the settling of the job asks for.
pub claimed_job_is_held :
    (p : Poll) (only : Option Uuid) (db : Db) (bs : Buckets) (j : Job) (db' : Db) (bs' : Buckets)
    → claim_next_job p only db bs ≡ (some j, db', bs')
    → count_where (holds j.id j.lease_token) db'.jobs ≢ 0
claimed_job_is_held p only db bs j db' bs' e =
    let (i, q, found, w) = claim_next_job-IsClaim p only db bs j db' bs' e in
    let row = claim_row p q.id w.row in
    rw (w.result, w.write)
      (count_where-Stored (holds row.id row.lease_token) row _
        (Stored-update_where (λ x. x.id == w.row.id) (claim_row p q.id) w.row db.jobs w.best.stored
          (==-refl w.row.id))
        (claim_row-holds p q.id w.row))
