-- ===== src/System/Rows/Batches.antt =====
-- The services on batches, dead letters and queues keep a property of rows.
use job_schedular.Prelude.{
  ℕ, ◌+◌, select_where, Bool, List, [], ◌∷◌, ◌≡◌, inl, inr, ◌==◌, All, All-append, All-update_where,
  All-select_where, Bool-cases, find_where, ltb, or_else,
}
use job_schedular.Model.{Uuid, Time, User, Job, DlqEntry, JobBatch, Db}
use job_schedular.Services.Access.{not_found, forbidden, ok, or_error, owns_project, get_queue}
use job_schedular.Services.Jobs.{JobCreate}
use job_schedular.Services.Batches.{
  BatchCreate, batch_job, key_taken, add_jobs, create_batch, get_batch, cancel_batch, retry_batch,
  with_batch, cancelled, retried,
}
use job_schedular.Services.Dlq.{
  replay_one, replay_dlq_entry, replay_entries, replay_all_dlq_entries, get_dlq_entry,
  is_replayable,
}
use job_schedular.Services.Queues.{delete_cascade, delete_queue}
use job_schedular.Services.Access.Returns.{
  Returns, Returns-bind, Returns-any, Returns-raise_unless, Returns-ok,
}
use job_schedular.System.Rows.{IsKept}

module _ {Allowed : Uuid → Bool} {P : Job → Type 0} (kept : IsKept Allowed P) where
  abbrev RowsOf : {A : Type 0} → A × Db → Type 0
  RowsOf r = All P r.1.jobs

  abbrev DbRows : Db → Type 0
  DbRows d = All P d.jobs

  add_jobs-rows :
      (q b : Uuid) (items : List JobCreate) (new_id : ℕ → Uuid) (i : ℕ) (now : Time)
      (jobs : List Job)
      → All P jobs
      → Returns (All P) (add_jobs q b items new_id i now jobs)
  unfolding add_jobs batch_job
  add_jobs-rows q b [] new_id i now jobs h = h
  add_jobs-rows q b (item ∷ items) new_id i now jobs h =
      elim (Bool-cases (key_taken q item.idempotency_key jobs)) [
        | inl taken ↦ rw taken tt
        | inr free ↦ rw free (
            add_jobs-rows q b items new_id (i + 1) now _ (
              All-append P jobs (_ ∷ []) h
                (kept.at_insert _ _ _ _ (ltb now (or_else item.run_at now)) _ _ _ _ _ _ _ _, tt)))
      ]

  pub create_batch-rows :
      (user : User) (q : Uuid) (req : BatchCreate) (id : Uuid) (new_id : ℕ → Uuid) (now : Time)
      (db db' : Db) (b : JobBatch)
      → create_batch user q req id new_id now db ≡ ok (b, db')
      → All P db.jobs
      → All P db'.jobs
  unfolding create_batch
  create_batch-rows user q req id new_id now db db' b e h =
      Returns-ok (RowsOf {A = JobBatch}) _ (b, db') e
        (Returns-bind (λ _. Unit {0}) RowsOf
          (or_error (find_where (λ r. r.id == q) db.queues) not_found) _ (Returns-any _)
          λ queue _.
            Returns-raise_unless (RowsOf {A = JobBatch}) (owns_project db user queue.project_id)
              forbidden _
              (Returns-bind (All P) (RowsOf {A = JobBatch})
                (add_jobs queue.id id req.jobs new_id 0 now db.jobs) _
                (add_jobs-rows queue.id id req.jobs new_id 0 now db.jobs h)
                λ jobs' rows.
                  Returns-bind (λ _. Unit {0}) (RowsOf {A = JobBatch})
                    (get_batch user id now (with_batch id queue req jobs' now db)) _ (Returns-any _)
                    (λ _ _. rows)))

  pub cancel_batch-rows :
      (user : User) (id : Uuid) (now : Time) (db db' : Db) (b : JobBatch)
      → cancel_batch user id now db ≡ ok (b, db')
      → All P db.jobs
      → All P db'.jobs
  unfolding cancel_batch
  cancel_batch-rows user id now db db' b e h =
      Returns-ok RowsOf _ (b, db') e
        (Returns-bind (λ _. Unit {0}) RowsOf (get_batch user id now db) _ (Returns-any _)
          λ b' _.
            Returns-bind (λ _. Unit {0}) RowsOf (get_batch user id now (cancelled id b' now db)) _
              (Returns-any _)
              λ _ _. All-update_where P _ _ (λ x px _. kept.at_batch_cancel now x px) db.jobs h)

  pub retry_batch-rows :
      (user : User) (id : Uuid) (now : Time) (db db' : Db) (b : JobBatch)
      → retry_batch user id now db ≡ ok (b, db')
      → All P db.jobs
      → All P db'.jobs
  unfolding retry_batch
  retry_batch-rows user id now db db' b e h =
      Returns-ok RowsOf _ (b, db') e
        (Returns-bind (λ _. Unit {0}) RowsOf (get_batch user id now db) _ (Returns-any _)
          λ b' _.
            Returns-bind (λ _. Unit {0}) RowsOf (get_batch user id now (retried id b' now db)) _
              (Returns-any _)
              λ _ _. All-update_where P _ _ (λ x px _. kept.at_batch_retry now x px) db.jobs h)

  replay_one-rows : (now : Time) (d : DlqEntry) (db : Db) → DbRows db → DbRows (replay_one now d db)
  unfolding replay_one
  replay_one-rows now d db h = All-update_where P _ _ (λ x px _. kept.at_replay now x px) db.jobs h

  pub replay_dlq_entry-rows :
      (user : User) (id : Uuid) (now : Time) (db db' : Db) (ids : List Uuid)
      → replay_dlq_entry user id now db ≡ ok (ids, db')
      → All P db.jobs
      → All P db'.jobs
  unfolding replay_dlq_entry
  replay_dlq_entry-rows user id now db db' ids e h =
      Returns-ok RowsOf _ (ids, db') e
        (Returns-bind (λ _. Unit {0}) RowsOf (get_dlq_entry user id db) _ (Returns-any _)
          λ d _. replay_one-rows now d db h)

  replay_entries-rows :
      (now : Time) (ds : List DlqEntry) (db : Db) → DbRows db → DbRows (replay_entries now ds db)
  unfolding replay_entries
  replay_entries-rows now [] db h = h
  replay_entries-rows now (d ∷ ds) db h =
      replay_entries-rows now ds (replay_one now d db) (replay_one-rows now d db h)

  pub replay_all_dlq_entries-rows :
      (user : User) (q : Uuid) (now : Time) (db : Db)
      → All P db.jobs
      → All P (replay_all_dlq_entries user q now db).1.jobs
  unfolding replay_all_dlq_entries
  replay_all_dlq_entries-rows user q now db h =
      replay_entries-rows now (select_where (is_replayable db user q) db.dlq) db h

  pub delete_queue-rows :
      (user : User) (q : Uuid) (db db' : Db)
      → delete_queue user q db ≡ ok db'
      → All P db.jobs
      → All P db'.jobs
  unfolding delete_queue delete_cascade
  delete_queue-rows user q db db' e h = Returns-ok DbRows _ db' e (
      Returns-bind (λ _. Unit {0}) DbRows (get_queue db user q) _ (Returns-any _)
        λ r _.
          All-update_where P _ _ (λ x px _. kept.at_unbatch x px) _
            (All-update_where P _ _ (λ x px _. kept.at_orphan x px) _
              (All-select_where P _ db.jobs h)))
