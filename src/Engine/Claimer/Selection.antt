-- ===== src/Engine/Claimer/Selection.antt =====
-- Which job a poll claims, and what it makes of the tables.
use job_schedular.Prelude.{
  Stored, All-Stored, All-select_where, ◌<◌, Bool, true, false, not, ◌&&◌, Option, none, some, List,
  [], ◌∷◌, ◌≡◌, refl, ap, sym, ◌∙◌, subst, inl, inr, ◌==◌, arith, All, All-of_select_where,
  select_where-passes, Bool-cases, leb, select_where, find_where, update_where, count_where,
  sort_by,
}
use job_schedular.Prelude.Sort.{All-sort_by, All-of_sort_by, IsOrdered, sort_by-IsOrdered}
use job_schedular.Model.{Uuid, Job, Queue, Db}
use job_schedular.Engine.RateLimiter.{Buckets, allow_claim}
use job_schedular.Engine.Claimer.{
  Poll, Attempt, next_queue, won, refused, is_ready, is_live, job_before, candidate, claim_row,
  rate_check, claim_candidate, claim_queue, claim_loop, claim_next_job, candidate_queues, first_row,
}

-- a row that a poll may claim from the queue `q`
abbrev pub is_claimable : Poll → Uuid → Job → Bool
is_claimable p q j = is_ready q p.now j && not (p.locked j.id)

job_before_total : (x y : Job) → job_before x y ≡ false → job_before y x ≡ true
job_before_total x y h = ground arith

job_before_trans :
    (x y z : Job) → job_before x y ≡ true → job_before y z ≡ true → job_before x z ≡ true
job_before_trans x y z h k = ground arith

job_before_refl : (x : Job) → job_before x x ≡ true
job_before_refl x = ground arith

-- `x` is a row of the table that may be claimed, and none that may be claimed goes before it.
pub record IsBest (p : Poll) (q : Uuid) (jobs : List Job) (x : Job) : Type 0 where
  pub stored : Stored x jobs
  pub claimable : is_claimable p q x ≡ true
  pub first : All (λ y. is_claimable p q y ≡ true → job_before x y ≡ true) jobs

first_row-IsBest :
    (p : Poll) (q : Uuid) (jobs sorted : List Job) (x : Job)
    → All (λ y. Stored y jobs) sorted
    → All (λ y. is_claimable p q y ≡ true) sorted
    → IsOrdered job_before sorted
    → (All (λ y. job_before x y ≡ true) sorted
        → All (λ y. is_claimable p q y ≡ true → job_before x y ≡ true) jobs)
    → first_row sorted ≡ some x
    → IsBest p q jobs x
unfolding first_row
first_row-IsBest p q jobs [] x stored ready ordered back e = cc
first_row-IsBest p q jobs (y ∷ ys) x stored ready ordered back e =
    let same : y ≡ x = cc in
    record {
      stored = rw (sym same) stored.0;
      claimable = rw (sym same) ready.0;
      first = back (
          subst (λ z. All (λ w. job_before z w ≡ true) (y ∷ ys)) same
            (job_before_refl y, ordered.0));
    }

candidate-IsBest :
    (p : Poll) (q : Uuid) (db : Db) (x : Job) → candidate p q db ≡ some x → IsBest p q db.jobs x
unfolding candidate
candidate-IsBest p q db x e =
    let rows = select_where (is_claimable p q) db.jobs in
    first_row-IsBest p q db.jobs (sort_by job_before rows) x
      (All-sort_by _ job_before rows
        (All-select_where (λ y. Stored y db.jobs) (is_claimable p q) db.jobs (All-Stored db.jobs)))
      (All-sort_by _ job_before rows (select_where-passes (is_claimable p q) db.jobs))
      (sort_by-IsOrdered job_before job_before_total job_before_trans rows)
      (λ h. All-of_select_where _ (is_claimable p q) db.jobs (All-of_sort_by _ job_before rows h)) e

-- What an attempt that wins has found and done.
pub record IsWon (p : Poll) (db : Db) (q : Queue) (j : Job) (db' : Db) : Type 0 where
  pub open_queue : q.is_paused ≡ false
  pub has_room : count_where (is_live q.id p.now) db.jobs < q.concurrency_limit
  pub row : Job
  pub best : IsBest p q.id db.jobs row
  pub result : j ≡ claim_row p q.id row
  pub write :
      db' ≡ record db { jobs = update_where (λ x. x.id == row.id) (claim_row p q.id) db.jobs }

module _ {j : Job} {db : Db} {bs : Buckets} where
  refused≢won : (d : Db) (b : Buckets) → refused d b ≡ won j db bs → ⊥
  refused≢won d b h = cc

  next≢won : next_queue ≡ won j db bs → ⊥
  next≢won h = cc

won-eq :
    {j j' : Job} {d d' : Db} {b b' : Buckets}
    → some j ≡ some j'
    → d ≡ d'
    → b ≡ b'
    → won j d b ≡ won j' d' b'
won-eq h k l = cc

rate_check-won :
    (p : Poll) (q : Queue) (j : Job) (db : Db) (bs : Buckets) (j' : Job) (db' : Db) (bs' : Buckets)
    → rate_check p q j db bs ≡ won j' db' bs'
    → (j' ≡ j) × (db' ≡ db)
unfolding rate_check
rate_check-won p q j db bs j' db' bs' e =
    elim (Bool-cases (allow_claim q.id q.rate_limit_rps p.clock bs).0) [
      | inl a ↦ let e' : won j db _ ≡ won j' db' bs' = rw a at e in (cc e', cc e')
      | inr a ↦ absurd (refused≢won _ _ (rw a at e))
    ]

module _ (p : Poll) (q : Queue) (db : Db) (bs : Buckets) (j : Job) (db' : Db) (bs' : Buckets)
    (open_queue : q.is_paused ≡ false)
    (has_room : count_where (is_live q.id p.now) db.jobs < q.concurrency_limit) where
  claim_candidate-IsWon :
      (c : Option Job)
      → candidate p q.id db ≡ c
      → claim_candidate p q c db bs ≡ won j db' bs'
      → IsWon p db q j db'
  unfolding claim_candidate
  claim_candidate-IsWon none found e = absurd (next≢won e)
  claim_candidate-IsWon (some x) found e =
      let (same, write) = rate_check-won p q _ _ bs j db' bs' e in
      record {
        open_queue = open_queue;
        has_room = has_room;
        row = x;
        best = candidate-IsBest p q.id db x found;
        result = same;
        write = write;
      }

claim_queue-IsWon :
    (p : Poll) (q : Queue) (db : Db) (bs : Buckets) (j : Job) (db' : Db) (bs' : Buckets)
    → claim_queue p (some q) db bs ≡ won j db' bs'
    → IsWon p db q j db'
unfolding claim_queue
claim_queue-IsWon p q db bs j db' bs' e = elim (Bool-cases q.is_paused) [
  | inl paused ↦ absurd (next≢won (rw paused at e))
  | inr running ↦
      let live = count_where (is_live q.id p.now) db.jobs in
      elim (Bool-cases (leb q.concurrency_limit live)) [
        | inl full ↦ absurd (next≢won (rw (running, full) at e))
        | inr room ↦
            claim_candidate-IsWon p q db bs j db' bs' running (ground arith) _ refl
              (rw (running, room) at e)
      ]
]

-- `j` was claimed from one of the queues, and `db'` is what that left.
abbrev pub IsClaim : Poll → Db → Job → Db → Type 0
IsClaim p db j db' =
    (i : Uuid) × (q : Queue) × (find_where (λ r. r.id == i) db.queues ≡ some q) × IsWon p db q j db'

claim_queue_of-IsClaim :
    (p : Poll) (i : Uuid) (r : Option Queue) (db : Db) (bs : Buckets) (j : Job) (db' : Db)
    (bs' : Buckets)
    → find_where (λ r. r.id == i) db.queues ≡ r
    → claim_queue p r db bs ≡ won j db' bs'
    → IsClaim p db j db'
unfolding claim_queue
claim_queue_of-IsClaim p i none db bs j db' bs' found e = absurd (next≢won e)
claim_queue_of-IsClaim p i (some q) db bs j db' bs' found e =
    (i, q, found, claim_queue-IsWon p q db bs j db' bs' e)

claim_loop-IsClaim :
    (p : Poll) (qs : List Uuid) (db : Db) (bs : Buckets) (j : Job) (db' : Db) (bs' : Buckets)
    → claim_loop p qs db bs ≡ (some j, db', bs')
    → IsClaim p db j db'
unfolding claim_loop
claim_loop-IsClaim p [] db bs j db' bs' e = absurd (none≢some (ap (λ r. r.0) e))
  where
    none≢some : none ≡ some j → ⊥
    none≢some h = cc
claim_loop-IsClaim p (i ∷ qs) db bs j db' bs' e =
    settle (claim_queue p (find_where (λ r. r.id == i) db.queues) db bs) refl
      (claim_loop-IsClaim p qs db bs j db' bs') e
  where
    none≢some : none ≡ some j → ⊥
    none≢some h = cc

    settle :
        (a : Attempt)
        → claim_queue p (find_where (λ r. r.id == i) db.queues) db bs ≡ a
        → (claim_loop p qs db bs ≡ (some j, db', bs') → IsClaim p db j db')
        → (elim a as (λ _. Option Job × Db × Buckets) [
          | next_queue ↦ claim_loop p qs db bs
          | won j' d b ↦ (some j', d, b)
          | refused d b ↦ (none, d, b)
        ])
          ≡ (some j, db', bs')
        → IsClaim p db j db'
    settle next_queue found rest out = rest out
    settle (won j' d b) found rest out =
        claim_queue_of-IsClaim p i _ db bs j db' bs' refl
          (found ∙ won-eq (ap (λ r. r.0) out) (ap (λ r. r.1) out) (ap (λ r. r.2) out))
    settle (refused d b) found rest out = absurd (none≢some (ap (λ r. r.0) out))

-- A poll that returns a job has claimed it from a queue that is not paused and has a free slot, as
-- the first of the claimable jobs there by priority and then by time; the rows under its id, and
-- nothing else, are changed: to running, under the worker and the token drawn for the queue, with
-- one attempt more.
pub claim_next_job-IsClaim :
    (p : Poll) (only : Option Uuid) (db : Db) (bs : Buckets) (j : Job) (db' : Db) (bs' : Buckets)
    → claim_next_job p only db bs ≡ (some j, db', bs')
    → IsClaim p db j db'
unfolding claim_next_job
claim_next_job-IsClaim p none db bs j db' bs' e =
    claim_loop-IsClaim p (candidate_queues p db) db bs j db' bs' e
claim_next_job-IsClaim p (some q) db bs j db' bs' e =
    claim_loop-IsClaim p (q ∷ []) db bs j db' bs' e
