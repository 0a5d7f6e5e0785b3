-- ===== src/Services/Batches/Progress.antt =====
-- How the status of a batch follows from its jobs.
use job_schedular.Prelude.{
  ℕ, ◌+◌, ◌<◌, ◌≤◌, false, none, List, [], ◌∷◌, ◌≡◌, ◌↔◌, refl, arith, All, All-update_where_of,
  map, length, suc, ap,
}
use job_schedular.Model.{Uuid, Time, User, Queue, Job, JobBatch, BatchStatus, Db}
use job_schedular.Services.Access.{Result, ok, forbidden, raise_unless, owns_project, ◌>>=◌}
use job_schedular.Services.Jobs.{JobCreate}
use job_schedular.Services.Access.Returns.{bind-cong, Returns-ok, Returns-bind, Returns-any}
use job_schedular.Services.Batches.{
  settle, get_batch, cancel_batch, cancelled, retry_batch, retried, is_pending, is_retriable,
  batch_cancel_row, batch_retry_row, batch_job, add_jobs, create_batch, with_batch, new_batch,
  BatchCreate,
}

-- For a batch that is being processed, has jobs, and whose counts do not exceed them: it stays in
-- processing exactly while jobs are open; it is completed exactly when all jobs are; cancelled
-- exactly when all are; partially failed exactly when all have ended and some, but not all, are
-- completed; and failed exactly when all have ended, none is completed and some have failed.
pub batch_status_exact :
    (c f x : ℕ) (now : Time) (b : JobBatch)
    → b.status ≡ BatchStatus.processing
    → 0 < b.total_jobs
    → c + f + x ≤ b.total_jobs
    → (((settle c f x now b).status ≡ BatchStatus.processing) ↔ (c + f + x < b.total_jobs))
      × (((settle c f x now b).status ≡ BatchStatus.completed) ↔ (c ≡ b.total_jobs))
      × (((settle c f x now b).status ≡ BatchStatus.cancelled) ↔ (x ≡ b.total_jobs))
      × (((settle c f x now b).status ≡ BatchStatus.partially_failed)
          ↔ ((c + f + x ≡ b.total_jobs) × (0 < c) × (c < b.total_jobs)))
      × (((settle c f x now b).status ≡ BatchStatus.failed)
          ↔ ((c + f + x ≡ b.total_jobs) × (c ≡ 0) × (0 < f)))
unfolding settle
batch_status_exact c f x now b p h k = (
  ((λ e. ground arith), (λ e. ground arith)),
  ((λ e. ground arith), (λ e. ground arith)),
  ((λ e. ground arith), (λ e. ground arith)),
  ((λ e. ground arith), (λ e. ground arith)),
  ((λ e. ground arith), (λ e. ground arith)),
)

-- A batch that has been cancelled has no job left that is queued or scheduled.
pub cancel_leaves_none_pending :
    (user : User) (id : Uuid) (now : Time) (db db' : Db) (b : JobBatch)
    → cancel_batch user id now db ≡ ok (b, db')
    → All (λ j. is_pending id j ≡ false) db'.jobs
unfolding cancel_batch cancelled batch_cancel_row
cancel_leaves_none_pending user id now db db' b e =
    Returns-ok (λ (r : JobBatch × Db). All (λ j. is_pending id j ≡ false) r.1.jobs) _ (b, db') e
      (Returns-bind (λ _. Unit {0})
        (λ (r : JobBatch × Db). All (λ j. is_pending id j ≡ false) r.1.jobs)
        (get_batch user id now db) _ (Returns-any _)
        λ b' _.
          Returns-bind (λ _. Unit {0})
            (λ (r : JobBatch × Db). All (λ j. is_pending id j ≡ false) r.1.jobs)
            (get_batch user id now (cancelled id b' now db)) _ (Returns-any _)
            λ _ _. All-update_where_of _ _ _ (λ x h. ground arith) (λ x h. h) db.jobs)

-- A batch that has been retried has no job left that is dead, failed or cancelled.
pub retry_leaves_none_ended_badly :
    (user : User) (id : Uuid) (now : Time) (db db' : Db) (b : JobBatch)
    → retry_batch user id now db ≡ ok (b, db')
    → All (λ j. is_retriable id j ≡ false) db'.jobs
unfolding retry_batch retried batch_retry_row
retry_leaves_none_ended_badly user id now db db' b e =
    Returns-ok (λ (r : JobBatch × Db). All (λ j. is_retriable id j ≡ false) r.1.jobs) _ (b, db') e
      (Returns-bind (λ _. Unit {0})
        (λ (r : JobBatch × Db). All (λ j. is_retriable id j ≡ false) r.1.jobs)
        (get_batch user id now db) _ (Returns-any _)
        λ b' _.
          Returns-bind (λ _. Unit {0})
            (λ (r : JobBatch × Db). All (λ j. is_retriable id j ≡ false) r.1.jobs)
            (get_batch user id now (retried id b' now db)) _ (Returns-any _)
            λ _ _. All-update_where_of _ _ _ (λ x h. ground arith) (λ x h. h) db.jobs)

-- a request without the delays that its jobs ask for
abbrev pub no_delay : JobCreate → JobCreate
no_delay item = record item { delay_seconds = none }

abbrev pub no_delays : BatchCreate → BatchCreate
no_delays req = record req { jobs = map no_delay req.jobs }

add_jobs-no_delay :
    (q b : Uuid) (items : List JobCreate) (new_id : ℕ → Uuid) (i now : ℕ) (jobs : List Job)
    → add_jobs q b (map no_delay items) new_id i now jobs ≡ add_jobs q b items new_id i now jobs
unfolding add_jobs batch_job
add_jobs-no_delay q b [] new_id i now jobs = refl
add_jobs-no_delay q b (item ∷ items) new_id i now jobs =
    rw (add_jobs-no_delay q b items new_id _ now _)

length-no_delay : (items : List JobCreate) → length (map no_delay items) ≡ length items
length-no_delay [] = refl
length-no_delay (item ∷ items) = ap suc (length-no_delay items)

-- the part of `create_batch` that comes after its checks
abbrev store_all :
    User → Queue → BatchCreate → Uuid → (ℕ → Uuid) → Time → Db → Result (JobBatch × Db)
store_all user queue req id new_id now db = do
  jobs' ← add_jobs queue.id id req.jobs new_id 0 now db.jobs
  b ← get_batch user id now (with_batch id queue req jobs' now db)
  ok (b, with_batch id queue req jobs' now db)

store_all-no_delays :
    (user : User) (queue : Queue) (req : BatchCreate) (id : Uuid) (new_id : ℕ → Uuid) (now : Time)
    (db : Db)
    → store_all user queue (no_delays req) id new_id now db
      ≡ store_all user queue req id new_id now db
unfolding with_batch new_batch
store_all-no_delays user queue req id new_id now db =
    rw (add_jobs-no_delay queue.id id req.jobs new_id 0 now db.jobs, length-no_delay req.jobs)

-- The delays that the jobs of a batch ask for have no effect: whatever the database, the call
-- without them ends in the same error or gives the same batch and the same rows.
pub batch_ignores_delay :
    (user : User) (q : Uuid) (req : BatchCreate) (id : Uuid) (new_id : ℕ → Uuid) (now : Time)
    (db : Db)
    → create_batch user q (no_delays req) id new_id now db
      ≡ create_batch user q req id new_id now db
unfolding create_batch
batch_ignores_delay user q req id new_id now db = bind-cong _ _ _ (λ (queue : Queue).
    bind-cong (raise_unless (owns_project db user queue.project_id) forbidden)
      (λ _. store_all user queue (no_delays req) id new_id now db)
      (λ _. store_all user queue req id new_id now db)
      (λ _. store_all-no_delays user queue req id new_id now db))
