-- ===== src/System/Rows/Services.antt =====
-- The services on jobs keep a property of rows.
use job_schedular.Prelude.{
  ℕ, suc, Bool, true, false, not, String, Option, none, some, List, [], ◌∷◌, ◌≡◌, inl, inr, ◌==◌,
  ◌||◌, All, All-append, All-update_where, Bool-cases, Option-cases, find_where, any_where,
  update_where, ltb, if◌then◌else◌, refl,
}
use job_schedular.Model.{Uuid, Time, User, Job, JobStatus, Db, is_status}
use job_schedular.Daemons.Cron.{has_key, insert_on_conflict}
use job_schedular.Services.Access.{
  bad_request, server_error, ok, or_error, get_queue, get_owned_job,
}
use job_schedular.Services.Jobs.{
  JobCreate, or_key, requested_job, plan_job, plan_child, insert_keyed, create_unkeyed,
  create_keyed, create_job, bulk_plan, bulk_insert, bulk_loop, create_jobs_batch, cancel_job,
  retry_job, write_back, cancel_row, requeue_by_hand,
}
use job_schedular.Services.Access.Returns.{
  Returns, Returns-bind, Returns-any, Returns-raise_unless, Returns-ok,
}
use job_schedular.System.Rows.{IsKept}
use job_schedular.System.Rows.Daemons.{insert_on_conflict-rows}

module _ {Allowed : Uuid → Bool} {P : Job → Type 0} (kept : IsKept Allowed P) where
  abbrev RowsOf : {A : Type 0} → A × Db → Type 0
  RowsOf r = All P r.1.jobs

  abbrev DbRows : Db → Type 0
  DbRows d = All P d.jobs

  -- The two statuses that a planned job may have.
  abbrev IsFresh : JobStatus × Time → Type 0
  IsFresh plan =
      (later : Bool) × (plan.0 ≡ (if later then JobStatus.scheduled else JobStatus.queued))

  requested_job-kept :
      (id q : Uuid) (key : Option String) (req : JobCreate) (plan : JobStatus × Time) (now : Time)
      → IsFresh plan
      → P (requested_job id q key req plan now)
  unfolding requested_job
  requested_job-kept id q key req (status, run_at) now (later, e) =
      rw e (kept.at_insert id q key _ later _ _ _ run_at _ none _ now)

  plan_child-IsFresh : (parent : Option Job) (now : Time) → Returns IsFresh (plan_child parent now)
  plan_child-IsFresh none now = tt
  plan_child-IsFresh (some p) now =
      elim (Bool-cases
        (is_status p.status JobStatus.dead_letter || is_status p.status JobStatus.cancelled)) [
          | inl dead ↦ rw dead tt
          | inr live ↦ rw live (elim (Bool-cases (is_status p.status JobStatus.completed)) [
            | inl done ↦ rw done (false, refl)
            | inr waits ↦ rw waits (true, refl)
          ])
        ]

  plan_job-IsFresh :
      (req : JobCreate) (parent : Option Uuid) (now : Time) (db : Db)
      → Returns IsFresh (plan_job req parent now db)
  unfolding plan_job
  plan_job-IsFresh req none now db = (ltb now _, refl)
  plan_job-IsFresh req (some p) now db =
      plan_child-IsFresh (find_where (λ j. j.id == p) db.jobs) now

  insert_keyed-rows :
      (q : Uuid) (key : String) (j : Job) (mid : Db)
      → P j
      → All P mid.jobs
      → Returns RowsOf (insert_keyed q key j mid)
  unfolding insert_keyed
  insert_keyed-rows q key j mid pj h = elim (Bool-cases (insert_on_conflict q key j mid.jobs).0) [
    | inl new ↦ rw new (insert_on_conflict-rows kept q key j mid.jobs pj h)
    | inr old ↦ rw old (
        Returns-bind (λ _. Unit {0}) RowsOf (or_error (find_where (has_key q key) mid.jobs) _) _
          (Returns-any _) (λ _ _. h))
  ]

  create_unkeyed-rows :
      (q : Uuid) (req : JobCreate) (id : Uuid) (now : Time) (read mid : Db)
      → All P mid.jobs
      → Returns RowsOf (create_unkeyed q req id now read mid)
  unfolding create_unkeyed
  create_unkeyed-rows q req id now read mid h =
      Returns-bind IsFresh RowsOf (plan_job req req.parent_job_id now read) _
        (plan_job-IsFresh req req.parent_job_id now read)
        λ plan fresh.
          All-append P mid.jobs (_ ∷ []) h (requested_job-kept id q none req plan now fresh, tt)

  create_keyed-rows :
      (q : Uuid) (key : String) (req : JobCreate) (id : Uuid) (now : Time) (read mid : Db)
      → All P mid.jobs
      → Returns RowsOf (create_keyed q key req id now read mid)
  unfolding create_keyed
  create_keyed-rows q key req id now read mid h =
      elim (Option-cases (find_where (has_key q key) read.jobs)) [
        | inl e ↦
            rw (e, create_keyed)
              (Returns-bind IsFresh RowsOf (plan_job req req.parent_job_id now read) _
                (plan_job-IsFresh req req.parent_job_id now read)
                λ plan fresh.
                  insert_keyed-rows q key _ mid
                    (requested_job-kept id q (some key) req plan now fresh) h)
        | inr (j, e) ↦ rw (e, create_keyed) h
      ]

  create_job-keeps :
      (user : User) (q : Uuid) (req : JobCreate) (header : Option String) (id : Uuid) (now : Time)
      (read mid : Db)
      → All P mid.jobs
      → Returns RowsOf (create_job user q req header id now read mid)
  unfolding create_job
  create_job-keeps user q req header id now read mid h =
      Returns-bind (λ _. Unit {0}) RowsOf (get_queue read user q) _ (Returns-any _)
        λ queue _. elim (Option-cases (or_key req.idempotency_key header)) [
          | inl e ↦ rw e (create_unkeyed-rows queue.id req id now read mid h)
          | inr (key, e) ↦ rw e (create_keyed-rows queue.id key req id now read mid h)
        ]

  pub create_job-rows :
      (user : User) (q : Uuid) (req : JobCreate) (header : Option String) (id : Uuid) (now : Time)
      (read db db' : Db) (j : Job)
      → create_job user q req header id now read db ≡ ok (j, db')
      → All P db.jobs
      → All P db'.jobs
  create_job-rows user q req header id now read db db' j e h =
      Returns-ok RowsOf _ (j, db') e (create_job-keeps user q req header id now read db h)

  bulk_insert-rows :
      (q : Uuid) (item : JobCreate) (id : Uuid) (now : Time) (db : Db)
      → All P db.jobs
      → Returns RowsOf (bulk_insert q item id now db)
  unfolding bulk_insert
  bulk_insert-rows q item id now db h = elim (Option-cases (or_key item.idempotency_key none)) [
    | inl e ↦
        rw (e, bulk_insert)
          (All-append P db.jobs (_ ∷ []) h
            (requested_job-kept id q none item (bulk_plan item now) now (ltb _ _, refl), tt))
    | inr (key, e) ↦
        rw (e, bulk_insert)
          (Returns-bind RowsOf RowsOf (insert_keyed q key _ db) _
            (insert_keyed-rows q key _ db
              (requested_job-kept id q (some key) item (bulk_plan item now) now (ltb _ _, refl)) h)
            (λ r rows. rows))
  ]

  bulk_loop-rows :
      (q : Uuid) (items : List JobCreate) (new_id : ℕ → Uuid) (i : ℕ) (now : Time) (db : Db)
      → All P db.jobs
      → Returns RowsOf (bulk_loop q items new_id i now db)
  unfolding bulk_loop
  bulk_loop-rows q [] new_id i now db h = h
  bulk_loop-rows q (item ∷ items) new_id i now db h =
      Returns-bind RowsOf RowsOf (bulk_insert q item (new_id i) now db) _
        (bulk_insert-rows q item (new_id i) now db h)
        λ r rows.
          Returns-bind RowsOf RowsOf (bulk_loop q items new_id (suc i) now r.1) _
            (bulk_loop-rows q items new_id (suc i) now r.1 rows) (λ r' rows'. rows')

  pub create_jobs_batch-rows :
      (user : User) (q : Uuid) (items : List JobCreate) (new_id : ℕ → Uuid) (now : Time)
      (db db' : Db) (js : List Job)
      → create_jobs_batch user q items new_id now db ≡ ok (js, db')
      → All P db.jobs
      → All P db'.jobs
  unfolding create_jobs_batch
  create_jobs_batch-rows user q items new_id now db db' js e h =
      Returns-ok RowsOf _ (js, db') e
        (Returns-bind (λ _. Unit {0}) RowsOf (get_queue db user q) _ (Returns-any _)
          λ queue _.
            Returns-bind RowsOf RowsOf (bulk_loop queue.id items new_id 0 now db) _
              (bulk_loop-rows queue.id items new_id 0 now db h) (λ r rows. rows))

  write_back-rows :
      (id : Uuid) (f : Job → Job) (db : Db)
      → ((x : Job) → P x → P (f x))
      → All P db.jobs
      → Returns DbRows (write_back id f db)
  unfolding write_back
  write_back-rows id f db keeps h =
      Returns-raise_unless DbRows (any_where (λ x. x.id == id) db.jobs) server_error
        (ok (record db { jobs = update_where (λ x. x.id == id) f db.jobs }))
        (All-update_where P _ _ (λ x px _. keeps x px) db.jobs h)

  pub cancel_job-rows :
      (user : User) (id : Uuid) (now : Time) (read db db' : Db)
      → cancel_job user id now read db ≡ ok db'
      → All P db.jobs
      → All P db'.jobs
  unfolding cancel_job
  cancel_job-rows user id now read db db' e h = Returns-ok DbRows _ db' e (
      Returns-bind (λ _. Unit {0}) DbRows (get_owned_job read user id) _ (Returns-any _)
        λ j _.
          Returns-raise_unless DbRows
            (not (is_status j.status JobStatus.completed || is_status j.status JobStatus.cancelled))
            bad_request (write_back j.id (cancel_row j now) db)
            (write_back-rows j.id (cancel_row j now) db (λ x px. kept.at_cancel j now x px) h))

  pub retry_job-rows :
      (user : User) (id : Uuid) (now : Time) (read db db' : Db)
      → retry_job user id now read db ≡ ok db'
      → All P db.jobs
      → All P db'.jobs
  unfolding retry_job
  retry_job-rows user id now read db db' e h = Returns-ok DbRows _ db' e (
      Returns-bind (λ _. Unit {0}) DbRows (get_owned_job read user id) _ (Returns-any _)
        λ j _.
          write_back-rows j.id (requeue_by_hand j now) db
            (λ x px. kept.at_requeue_by_hand j now x px) h)
