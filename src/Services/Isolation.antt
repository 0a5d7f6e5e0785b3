-- ===== src/Services/Isolation.antt =====
-- What the services on jobs do to the jobs of other tenants: nothing, but for what the
-- deletion of a queue clears. `owned` says of a queue id
-- whether it belongs to the user's organisation, and `home` in which queue a job of that id is.
pub mod Writes
pub mod Users
pub mod Batches
use job_schedular.Prelude.{
  ℕ, String, ◌+◌, Bool, true, false, not, ◌&&◌, ◌||◌, Option, none, some, List, [], ◌∷◌, ◌++◌, ◌≡◌,
  refl, sym, ap, ◌∙◌, inl, inr, ◌==◌, ==→≡, ==-refl, All, All-map, All-update_where,
  All-select_where, Bool-cases, Option-cases, true≢false, find_where, find_where-passes, any_where,
  any_where_found, any_where_mono, select_where, select_where-append, select_where-select_where,
  select_where-update_where, update_where, select_where-passes, arith, suc, is_some, or_else, ltb,
}
use job_schedular.Prelude.Table.{All-find_where}
use job_schedular.Model.{
  Uuid, Time, User, Queue, Job, JobStatus, DlqEntry, JobBatch, Db, is_status, new_job,
}
use job_schedular.Daemons.Cron.{has_key, insert_on_conflict}
use job_schedular.Services.Access.{
  Result, ok, bad_request, forbidden, not_found, or_error, owns_project, owns_queue, get_queue,
  get_owned_job,
}
use job_schedular.Services.Access.Returns.{
  Returns, Returns-map, Returns-bind, Returns-any, Returns-raise_unless, Returns-or_error,
}
use job_schedular.Services.Jobs.{
  JobCreate, or_key, requested_job, plan_job, insert_keyed, create_unkeyed, create_keyed,
  create_job, bulk_plan, bulk_insert, bulk_loop, create_jobs_batch, cancel_row, requeue_by_hand,
  cancel_job, retry_job,
}
use job_schedular.Services.Batches.{
  BatchCreate, in_batch, is_pending, is_retriable, batch_job, batch_cancel_row, batch_retry_row,
  key_taken, add_jobs, create_batch, get_batch, cancel_batch, retry_batch, with_batch, cancelled,
  retried,
}
use job_schedular.Services.Dlq.{
  replay_row, replay_one, get_dlq_entry, replay_dlq_entry, replay_entries, is_replayable,
  replay_all_dlq_entries,
}
use job_schedular.Services.Queues.{delete_cascade, delete_queue}

-- The jobs of other tenants.
abbrev pub foreign : (Uuid → Bool) → Job → Bool
foreign owned j = not (owned j.queue_id)

-- The second table has the same foreign rows as the first, in the same order.
abbrev pub Spares : (Uuid → Bool) → List Job → List Job → Type 0
Spares owned jobs after = select_where (foreign owned) after ≡ select_where (foreign owned) jobs

module _ (owned : Uuid → Bool) where
  insert-Spares :
      (jobs : List Job) (j : Job) → owned j.queue_id ≡ true → Spares owned jobs (jobs ++ j ∷ [])
  insert-Spares jobs j mine = select_where-append (foreign owned) jobs j (ap not mine)

  insert_on_conflict-Spares :
      (q : Uuid) (key : String) (j : Job) (jobs : List Job)
      → owned j.queue_id ≡ true
      → Spares owned jobs (insert_on_conflict q key j jobs).1
  unfolding insert_on_conflict
  insert_on_conflict-Spares q key j jobs mine = elim (Bool-cases (any_where (has_key q key) jobs)) [
    | inl taken ↦ rw taken refl
    | inr free ↦ rw free (insert-Spares jobs j mine)
  ]

  requested_job-queue :
      (id q : Uuid) (key : Option String) (req : JobCreate) (plan : JobStatus × Time) (now : Time)
      → (requested_job id q key req plan now).queue_id ≡ q
  unfolding requested_job new_job
  requested_job-queue id q key req (status, run_at) now = refl

  abbrev pub SparesIn : {A : Type 0} → List Job → A × Db → Type 0
  SparesIn jobs r = Spares owned jobs r.1.jobs

  insert_keyed-Spares :
      (q : Uuid) (key : String) (j : Job) (mid : Db)
      → owned j.queue_id ≡ true
      → Returns (SparesIn mid.jobs) (insert_keyed q key j mid)
  unfolding insert_keyed
  insert_keyed-Spares q key j mid mine = elim (Bool-cases (insert_on_conflict q key j mid.jobs).0) [
    | inl new ↦ rw new (insert_on_conflict-Spares q key j mid.jobs mine)
    | inr old ↦ rw old (
        Returns-bind (λ _. Unit {0}) (SparesIn mid.jobs)
          (or_error (find_where (has_key q key) mid.jobs) _) _ (Returns-any _) (λ _ _. refl))
  ]

  module _ (q : Uuid) (mine : owned q ≡ true) where
    requested-owned :
        (id : Uuid) (key : Option String) (req : JobCreate) (plan : JobStatus × Time) (now : Time)
        → owned (requested_job id q key req plan now).queue_id ≡ true
    requested-owned id key req plan now = rw (requested_job-queue id q key req plan now) mine

    pub create_unkeyed-Spares :
        (req : JobCreate) (id : Uuid) (now : Time) (read mid : Db)
        → Returns (SparesIn mid.jobs) (create_unkeyed q req id now read mid)
    unfolding create_unkeyed
    create_unkeyed-Spares req id now read mid =
        Returns-bind (λ _. Unit {0}) (SparesIn mid.jobs) (plan_job req req.parent_job_id now read) _
          (Returns-any _)
          (λ plan _. insert-Spares mid.jobs _ (requested-owned id none req plan now))

    pub create_keyed-Spares :
        (key : String) (req : JobCreate) (id : Uuid) (now : Time) (read mid : Db)
        → Returns (SparesIn mid.jobs) (create_keyed q key req id now read mid)
    unfolding create_keyed
    create_keyed-Spares key req id now read mid =
        elim (Option-cases (find_where (has_key q key) read.jobs)) [
          | inl e ↦
              rw (e, create_keyed)
                (Returns-bind (λ _. Unit {0}) (SparesIn mid.jobs)
                  (plan_job req req.parent_job_id now read) _ (Returns-any _)
                  (λ plan _.
                    insert_keyed-Spares q key _ mid (requested-owned id (some key) req plan now)))
          | inr (j, e) ↦ rw (e, create_keyed) refl
        ]

    bulk_insert-Spares :
        (item : JobCreate) (id : Uuid) (now : Time) (db : Db)
        → Returns (SparesIn db.jobs) (bulk_insert q item id now db)
    unfolding bulk_insert
    bulk_insert-Spares item id now db = elim (Option-cases (or_key item.idempotency_key none)) [
      | inl e ↦
          rw (e, bulk_insert)
            (insert-Spares db.jobs _ (requested-owned id none item (bulk_plan item now) now))
      | inr (key, e) ↦
          rw (e, bulk_insert)
            (Returns-bind (SparesIn db.jobs) (SparesIn db.jobs) (insert_keyed q key _ db) _
              (insert_keyed-Spares q key _ db
                (requested-owned id (some key) item (bulk_plan item now) now))
              (λ r spared. spared))
    ]

    pub bulk_loop-Spares :
        (items : List JobCreate) (new_id : ℕ → Uuid) (i : ℕ) (now : Time) (db : Db)
        → Returns (SparesIn db.jobs) (bulk_loop q items new_id i now db)
    unfolding bulk_loop
    bulk_loop-Spares [] new_id i now db = refl
    bulk_loop-Spares (item ∷ items) new_id i now db =
        Returns-bind (SparesIn db.jobs) (SparesIn db.jobs) (bulk_insert q item (new_id i) now db) _
          (bulk_insert-Spares item (new_id i) now db)
          λ r first.
            Returns-bind (SparesIn r.1.jobs) (SparesIn db.jobs)
              (bulk_loop q items new_id (suc i) now r.1) _
              (bulk_loop-Spares items new_id (suc i) now r.1) (λ r' rest. rest ∙ first)

    pub add_jobs-Spares :
        (b : Uuid) (items : List JobCreate) (new_id : ℕ → Uuid) (i : ℕ) (now : Time)
        (jobs : List Job)
        → Returns (Spares owned jobs) (add_jobs q b items new_id i now jobs)
    unfolding add_jobs batch_job new_job
    add_jobs-Spares b [] new_id i now jobs = refl
    add_jobs-Spares b (item ∷ items) new_id i now jobs =
        elim (Bool-cases (key_taken q item.idempotency_key jobs)) [
          | inl taken ↦ rw taken tt
          | inr free ↦ rw free (
              Returns-map (Spares owned _) (Spares owned jobs)
                (add_jobs q b items new_id (i + 1) now _)
                (add_jobs-Spares b items new_id (i + 1) now _)
                (λ after rest. rest ∙ insert-Spares jobs _ mine))
        ]
