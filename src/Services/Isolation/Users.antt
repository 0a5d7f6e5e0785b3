-- ===== src/Services/Isolation/Users.antt =====
-- Each service on jobs spares the jobs of other organisations than the user's.
use job_schedular.Prelude.{
  select_where, select_where-update_where_within, ◌∙◌, Bool, ℕ, String, true, Option, List, ◌≡◌,
  refl, inl, inr, ◌==◌, ==-refl, All-selected, Bool-cases, Option-cases, some, find_where,
  find_where-passes, any_where, update_where, any_where_found, ==→≡, ap, arith,
}
use job_schedular.Prelude.Table.{All-find_where}
use job_schedular.Model.{Uuid, Time, User, Job, Db}
use job_schedular.Services.Access.{
  ok, bad_request, not_found, server_error, or_error, owns_project, owns_queue, get_queue,
  get_owned_job,
}
use job_schedular.Services.Access.Returns.{
  Returns, Returns-bind, Returns-any, Returns-raise_unless, Returns-or_error,
}
use job_schedular.Services.Jobs.{
  JobCreate, or_key, create_job, create_jobs_batch, bulk_loop, cancel_row, requeue_by_hand,
  write_back, cancel_job, retry_job,
}
use job_schedular.Services.Batches.{BatchCreate, add_jobs, create_batch, get_batch, with_batch}
use job_schedular.Services.Dlq.{
  get_dlq_entry, replay_dlq_entry, is_replayable, replay_all_dlq_entries,
}
use job_schedular.Services.Queues.{
  delete_cascade, delete_queue, orphan_row, loses_parent, unbatch_row, loses_batch,
}
use job_schedular.Services.Isolation.{
  foreign, Spares, SparesIn, create_unkeyed-Spares, create_keyed-Spares, bulk_loop-Spares,
  add_jobs-Spares,
}
use job_schedular.Services.Isolation.Writes.{
  AtHome, IsSound, by_id-Spares, delete-Spares, replay_one-Spares, replay_entries-Spares,
}

-- The jobs of other queues after the deletion of a queue: without the parents and the batches that
-- went with it.
abbrev pub cut_off : Uuid → Db → List Job → List Job
cut_off q db others =
    update_where (loses_batch q db.batches) unbatch_row
      (update_where (loses_parent q db.jobs) orphan_row others)

module _ (home : Uuid → Uuid) (user : User) (db : Db) (sound : IsSound home db) where
  get_queue-owned : (q : Uuid) → Returns (λ r. owns_queue db user r.id ≡ true) (get_queue db user q)
  unfolding get_queue
  get_queue-owned q =
      Returns-or_error (λ r. owns_queue db user r.id ≡ true) _ not_found
        (λ r e.
          let passes = find_where-passes _ db.queues r e in
          any_where_found _ _ db.queues r e
            (let same : (r.id == r.id) ≡ true = ==-refl r.id in ground arith))

  pub create_job-Spares :
      (q : Uuid) (req : JobCreate) (header : Option String) (id : Uuid) (now : Time) (mid : Db)
      → Returns
          (SparesIn (owns_queue db user) mid.jobs)
          (create_job user q req header id now db mid)
  unfolding create_job
  create_job-Spares q req header id now mid =
      Returns-bind (λ r. owns_queue db user r.id ≡ true) (SparesIn (owns_queue db user) mid.jobs)
        (get_queue db user q) _ (get_queue-owned q)
        λ queue mine. elim (Option-cases (or_key req.idempotency_key header)) [
          | inl e ↦
              rw e (create_unkeyed-Spares (owns_queue db user) queue.id mine req id now db mid)
          | inr (key, e) ↦
              rw e (create_keyed-Spares (owns_queue db user) queue.id mine key req id now db mid)
        ]

  pub create_jobs_batch-Spares :
      (q : Uuid) (items : List JobCreate) (new_id : ℕ → Uuid) (now : Time)
      → Returns
          (SparesIn (owns_queue db user) db.jobs)
          (create_jobs_batch user q items new_id now db)
  unfolding create_jobs_batch
  create_jobs_batch-Spares q items new_id now =
      Returns-bind (λ r. owns_queue db user r.id ≡ true) (SparesIn (owns_queue db user) db.jobs)
        (get_queue db user q) _ (get_queue-owned q)
        λ queue mine.
          Returns-bind (SparesIn (owns_queue db user) db.jobs)
            (SparesIn (owns_queue db user) db.jobs) (bulk_loop queue.id items new_id 0 now db) _
            (bulk_loop-Spares (owns_queue db user) queue.id mine items new_id 0 now db)
            (λ r spared. spared)

  get_owned_job-home :
      (id : Uuid) → Returns (λ j. owns_queue db user (home j.id) ≡ true) (get_owned_job db user id)
  unfolding get_owned_job
  get_owned_job-home id =
      Returns-or_error (λ j. owns_queue db user (home j.id) ≡ true) _ not_found
        (λ j e.
          let passes = find_where-passes _ db.jobs j e in
          let at_home =
            All-find_where (λ x. x.queue_id ≡ home x.id) _ db.jobs j sound.jobs_at_home e in
          let mine : owns_queue db user j.queue_id ≡ true = ground arith in rw at_home at mine)

  module _ (mid : Db) (at_home : AtHome home mid.jobs) where
    write_back-Spares :
        (k : Uuid) (f : Job → Job)
        → ((x : Job) → (f x).queue_id ≡ x.queue_id)
        → owns_queue db user (home k) ≡ true
        → Returns (λ d. Spares (owns_queue db user) mid.jobs d.jobs) (write_back k f mid)
    unfolding write_back
    write_back-Spares k f same mine =
        Returns-raise_unless (λ d. Spares (owns_queue db user) mid.jobs d.jobs)
          (any_where (λ x. x.id == k) mid.jobs) server_error
          (ok (record mid { jobs = update_where (λ x. x.id == k) f mid.jobs }))
          (by_id-Spares (owns_queue db user) home k f same mid.jobs at_home mine)

    pub cancel_job-Spares :
        (id : Uuid) (now : Time)
        → Returns (λ d. Spares (owns_queue db user) mid.jobs d.jobs) (cancel_job user id now db mid)
    unfolding cancel_job cancel_row
    cancel_job-Spares id now =
        Returns-bind (λ j. owns_queue db user (home j.id) ≡ true)
          (λ d. Spares (owns_queue db user) mid.jobs d.jobs) (get_owned_job db user id) _
          (get_owned_job-home id)
          λ j mine.
            Returns-raise_unless (λ d. Spares (owns_queue db user) mid.jobs d.jobs) _ bad_request
              (write_back j.id (cancel_row j now) mid)
              (write_back-Spares j.id (cancel_row j now) (λ x. refl) mine)

    pub retry_job-Spares :
        (id : Uuid) (now : Time)
        → Returns (λ d. Spares (owns_queue db user) mid.jobs d.jobs) (retry_job user id now db mid)
    unfolding retry_job requeue_by_hand
    retry_job-Spares id now =
        Returns-bind (λ j. owns_queue db user (home j.id) ≡ true)
          (λ d. Spares (owns_queue db user) mid.jobs d.jobs) (get_owned_job db user id) _
          (get_owned_job-home id)
          λ j mine. write_back-Spares j.id (requeue_by_hand j now) (λ x. refl) mine

  pub create_batch-Spares :
      (q : Uuid) (req : BatchCreate) (id : Uuid) (new_id : ℕ → Uuid) (now : Time)
      → Returns (SparesIn (owns_queue db user) db.jobs) (create_batch user q req id new_id now db)
  unfolding create_batch with_batch
  create_batch-Spares q req id new_id now =
      Returns-bind (λ r. find_where (λ x. x.id == q) db.queues ≡ some r)
        (SparesIn (owns_queue db user) db.jobs)
        (or_error (find_where (λ x. x.id == q) db.queues) not_found) _
        (Returns-or_error _ _ not_found (λ r e. e))
        λ queue e. elim (Bool-cases (owns_project db user queue.project_id)) [
          | inr theirs ↦ rw theirs tt
          | inl mine ↦ rw mine (
              Returns-bind (Spares (owns_queue db user) db.jobs)
                (SparesIn (owns_queue db user) db.jobs)
                (add_jobs queue.id id req.jobs new_id 0 now db.jobs) _
                (add_jobs-Spares (owns_queue db user) queue.id
                  (any_where_found _ _ db.queues queue e
                    (let same : (queue.id == queue.id) ≡ true = ==-refl queue.id in ground arith))
                  id req.jobs new_id 0 now db.jobs)
                λ jobs' spared.
                  Returns-bind (λ _. Unit {0}) (SparesIn (owns_queue db user) db.jobs)
                    (get_batch user id now (with_batch id queue req jobs' now db)) _ (Returns-any _)
                    (λ _ _. spared))
        ]

  pub replay_dlq_entry-Spares :
      (id : Uuid) (now : Time)
      → Returns (SparesIn (owns_queue db user) db.jobs) (replay_dlq_entry user id now db)
  unfolding replay_dlq_entry get_dlq_entry
  replay_dlq_entry-Spares id now =
      Returns-bind (λ d. owns_queue db user (home d.job_id) ≡ true)
        (SparesIn (owns_queue db user) db.jobs) (get_dlq_entry user id db) _
        (Returns-or_error (λ d. owns_queue db user (home d.job_id) ≡ true) _ not_found
          (λ d e.
            let passes = find_where-passes _ db.dlq d e in
            let mine : owns_queue db user d.queue_id ≡ true = ground arith in
            rw (All-find_where (λ x. x.queue_id ≡ home x.job_id) _ db.dlq d sound.letters_at_home e)
              at mine))
        λ d mine. replay_one-Spares (owns_queue db user) home now d db sound.jobs_at_home mine

  pub replay_all_dlq_entries-Spares :
      (q : Uuid) (now : Time)
      → SparesIn (owns_queue db user) db.jobs (replay_all_dlq_entries user q now db)
  unfolding replay_all_dlq_entries
  replay_all_dlq_entries-Spares q now =
      replay_entries-Spares (owns_queue db user) home now _ db sound.jobs_at_home (
        All-selected {P = λ d. d.queue_id ≡ home d.job_id} (is_replayable db user q)
          (λ d at_home passes.
            let mine : owns_queue db user d.queue_id ≡ true = ground arith in rw at_home at mine)
          db.dlq sound.letters_at_home)

  get_queue-owned_id :
      (q : Uuid)
      → Returns (λ r. (owns_queue db user r.id ≡ true) × (r.id ≡ q)) (get_queue db user q)
  unfolding get_queue
  get_queue-owned_id q =
      Returns-or_error (λ r. (owns_queue db user r.id ≡ true) × (r.id ≡ q)) _ not_found
        (λ r e.
          let passes = find_where-passes _ db.queues r e in
          (
            any_where_found _ _ db.queues r e
                (let same : (r.id == r.id) ≡ true = ==-refl r.id in ground arith),
            ==→≡ r.id q (ground arith),
          ))

  -- The deletion of a queue clears what named a parent or a batch that it deletes, and does nothing
  -- else to the jobs of others.
  pub delete_queue-Severs :
      (q : Uuid)
      → Returns
          (λ d.
            select_where (foreign (owns_queue db user)) d.jobs
            ≡ cut_off q db (select_where (foreign (owns_queue db user)) db.jobs))
          (delete_queue user q db)
  unfolding delete_queue delete_cascade orphan_row unbatch_row
  delete_queue-Severs q =
      let others : Job → Bool = foreign (owns_queue db user) in
      Returns-bind (λ r. (owns_queue db user r.id ≡ true) × (r.id ≡ q))
        (λ d. select_where others d.jobs ≡ cut_off q db (select_where others db.jobs))
        (get_queue db user q) _ (get_queue-owned_id q)
        λ queue mine. rw mine.1 (
          select_where-update_where_within others (loses_batch q db.batches) unbatch_row (λ x. refl)
            _
          ∙ ap (update_where (loses_batch q db.batches) unbatch_row) (
              select_where-update_where_within others (loses_parent q db.jobs) orphan_row
                (λ x. refl) _)
          ∙ ap (cut_off q db)
              (delete-Spares (owns_queue db user) home q db.jobs (rw mine.1 at mine.0)))
