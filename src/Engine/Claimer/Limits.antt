-- ===== src/Engine/Claimer/Limits.antt =====
-- The concurrency limit of a queue, and what a refused claim leaves.
use job_schedular.Prelude.{
  ℕ, ◌≤◌, Option, none, some, List, [], ◌∷◌, ◌≡◌, refl, ap, map, ◌==◌, arith, inl, inr, Bool-cases,
  find_where, count_where, count_where-update_where, map-update_where, update_where-update_where,
  leb,
}
use job_schedular.Model.{Uuid, Job, Queue, Db}
use job_schedular.Engine.RateLimiter.{Buckets, allow_claim}
use job_schedular.Engine.Claimer.{
  Poll, Attempt, next_queue, won, refused, is_live, candidate, claim_row, revert_row, rate_check,
  claim_candidate, claim_queue, claim_loop, claim_next_job, candidate_queues,
}
use job_schedular.Engine.Claimer.Selection.{claim_next_job-IsClaim}

-- `id` is the primary key.
abbrev pub HasUniqueIds : List Job → Type 0
HasUniqueIds jobs = (i : Uuid) → count_where (λ x. x.id == i) jobs ≤ 1

-- If job ids are unique: after a poll that claims a job, the running jobs of its queue whose leases
-- have not expired are within the queue's concurrency limit.
pub claim_within_limit :
    (p : Poll) (only : Option Uuid) (db : Db) (bs : Buckets) (j : Job) (db' : Db) (bs' : Buckets)
    → HasUniqueIds db.jobs
    → claim_next_job p only db bs ≡ (some j, db', bs')
    → (i : Uuid) × (q : Queue) × (find_where (λ r. r.id == i) db.queues ≡ some q)
      × (j.queue_id ≡ q.id)
      × (count_where (is_live q.id p.now) db'.jobs ≤ q.concurrency_limit)
unfolding claim_row
claim_within_limit p only db bs j db' bs' unique e =
    let (i, q, found, w) = claim_next_job-IsClaim p only db bs j db' bs' e in
    let grows =
      count_where-update_where (is_live q.id p.now) (λ x. x.id == w.row.id) (claim_row p q.id)
        db.jobs in
    (
      i,
      q,
      found,
      ground (arith, w.result, w.best.claimable),
      rw w.write (omega (arith, grows, unique w.row.id, w.has_room)),
    )

-- What a poll that wins no job must leave as it was.
abbrev pub counts : List Job → List (Uuid × ℕ)
counts = map (λ j. (j.id, j.attempt_count))

abbrev Refunds : Db → Attempt → Type 0
Refunds db next_queue = Unit
Refunds db (won j db' bs) = Unit
Refunds db (refused db' bs) = counts db'.jobs ≡ counts db.jobs

revert-claim :
    (p : Poll) (q : Uuid) (j : Job)
    → (revert_row p.now (claim_row p q j)).attempt_count ≡ j.attempt_count
unfolding revert_row claim_row
revert-claim p q j = omega arith

claim_candidate-Refunds :
    (p : Poll) (q : Queue) (c : Option Job) (db : Db) (bs : Buckets)
    → Refunds db (claim_candidate p q c db bs)
unfolding claim_candidate rate_check
claim_candidate-Refunds p q none db bs = tt
claim_candidate-Refunds p q (some x) db bs =
    elim (Bool-cases (allow_claim q.id q.rate_limit_rps p.clock bs).0) [
      | inl a ↦ rw a tt
      | inr a ↦
          rw
            (
              a,
              update_where-update_where _ (claim_row p q.id) (revert_row p.now) (λ y. refl) db.jobs,
            )
            (map-update_where _ _ _ (λ y. ap (λ n. (y.id, n)) (revert-claim p q.id y)) db.jobs)
    ]

claim_queue-Refunds :
    (p : Poll) (q : Option Queue) (db : Db) (bs : Buckets) → Refunds db (claim_queue p q db bs)
unfolding claim_queue
claim_queue-Refunds p none db bs = tt
claim_queue-Refunds p (some q) db bs = elim (Bool-cases q.is_paused) [
  | inl paused ↦ rw paused tt
  | inr running ↦
      elim (Bool-cases (leb q.concurrency_limit (count_where (is_live q.id p.now) db.jobs))) [
        | inl full ↦ rw (running, full) tt
        | inr room ↦ rw (running, room) (claim_candidate-Refunds p q (candidate p q.id db) db bs)
      ]
]

claim_loop-counts :
    (p : Poll) (qs : List Uuid) (db : Db) (bs : Buckets)
    → (claim_loop p qs db bs).0 ≡ none
    → counts (claim_loop p qs db bs).1.jobs ≡ counts db.jobs
unfolding claim_loop
claim_loop-counts p [] db bs e = refl
claim_loop-counts p (i ∷ qs) db bs e =
    settle (claim_queue p (find_where (λ r. r.id == i) db.queues) db bs)
      (claim_queue-Refunds p (find_where (λ r. r.id == i) db.queues) db bs)
      (claim_loop-counts p qs db bs) e
  where
    after : Attempt → Option Job × Db × Buckets
    after a = elim a as (λ _. Option Job × Db × Buckets) [
      | next_queue ↦ claim_loop p qs db bs
      | won j' d b ↦ (some j', d, b)
      | refused d b ↦ (none, d, b)
    ]

    settle :
        (a : Attempt)
        → Refunds db a
        → ((claim_loop p qs db bs).0 ≡ none
            → counts (claim_loop p qs db bs).1.jobs ≡ counts db.jobs)
        → (after a).0 ≡ none
        → counts (after a).1.jobs ≡ counts db.jobs
    settle next_queue r rest out = rest out
    settle (won j' d b) r rest out = cc
    settle (refused d b) r rest out = r

-- A poll that returns no job, because nothing is ready or because the rate limit refuses the
-- claim, charges no attempt to any job and leaves their ids.
pub empty_poll_refunds :
    (p : Poll) (only : Option Uuid) (db : Db) (bs : Buckets)
    → (claim_next_job p only db bs).0 ≡ none
    → counts (claim_next_job p only db bs).1.jobs ≡ counts db.jobs
unfolding claim_next_job
empty_poll_refunds p none db bs e = claim_loop-counts p (candidate_queues p db) db bs e
empty_poll_refunds p (some q) db bs e = claim_loop-counts p (q ∷ []) db bs e
