-- ===== src/Services/Isolation/Batches.antt =====
-- The services on batches spare the jobs of other organisations than the user's.
use job_schedular.Prelude.{
  true, ◌&&◌, ◌≡◌, refl, ◌==◌, ==-refl, All, All-map, some, find_where, find_where-passes,
  any_where_found, any_where_mono, arith,
}
use job_schedular.Prelude.Table.{All-find_where}
use job_schedular.Model.{Uuid, Time, User, Db}
use job_schedular.Services.Access.{not_found, or_error, owns_project, owns_queue, get_queue}
use job_schedular.Services.Access.Returns.{Returns, Returns-bind, Returns-any, Returns-or_error}
use job_schedular.Services.Batches.{
  in_batch, is_pending, is_retriable, batch_cancel_row, batch_retry_row, get_batch, cancel_batch,
  retry_batch, cancelled, retried,
}
use job_schedular.Services.Isolation.{SparesIn}
use job_schedular.Services.Isolation.Writes.{InProject, IsSound, of_owned-Spares}

module _ (home : Uuid → Uuid) (user : User) (db : Db) (sound : IsSound home db) where
  get_queue-owned : (q : Uuid) → Returns (λ r. owns_queue db user r.id ≡ true) (get_queue db user q)
  unfolding get_queue
  get_queue-owned q =
      Returns-or_error (λ r. owns_queue db user r.id ≡ true) _ not_found
        (λ r e.
          let passes = find_where-passes _ db.queues r e in
          any_where_found _ _ db.queues r e
            (let same : (r.id == r.id) ≡ true = ==-refl r.id in ground arith))

  -- The jobs of a batch that the user can see are the user's.
  get_batch-owned :
      (id : Uuid) (now : Time)
      → Returns
          (λ _. All (λ j. in_batch id j ≡ true → owns_queue db user j.queue_id ≡ true) db.jobs)
          (get_batch user id now db)
  unfolding get_batch
  get_batch-owned id now =
      Returns-bind
        (λ b. find_where (λ x. x.id == id && owns_project db user x.project_id) db.batches ≡ some b)
        (λ _. All (λ j. in_batch id j ≡ true → owns_queue db user j.queue_id ≡ true) db.jobs)
        (or_error (find_where (λ x. x.id == id && owns_project db user x.project_id) db.batches)
          not_found)
        _ (Returns-or_error _ _ not_found (λ b e. e))
        λ b e.
          let passes = find_where-passes _ db.batches b e in
          let same : b.id ≡ id = ground arith in
          let mine : owns_project db user b.project_id ≡ true = ground arith in
          All-map (InProject db.queues b) _
            (λ j h inside.
              any_where_mono (λ r. r.id == j.queue_id && r.project_id == b.project_id) _
                (λ r hit.
                  let p : r.project_id ≡ b.project_id = ground arith in
                  let ours : owns_project db user r.project_id ≡ true = rw p mine in ground arith)
                db.queues (h (rw same inside)))
            db.jobs
            (All-find_where (λ x. All (InProject db.queues x) db.jobs) _ db.batches b
              sound.batches_in_project e)

  pub cancel_batch-Spares :
      (id : Uuid) (now : Time)
      → Returns (SparesIn (owns_queue db user) db.jobs) (cancel_batch user id now db)
  unfolding cancel_batch cancelled batch_cancel_row
  cancel_batch-Spares id now =
      Returns-bind _ (SparesIn (owns_queue db user) db.jobs) (get_batch user id now db) _
        (get_batch-owned id now)
        λ b mine.
          Returns-bind (λ _. Unit {0}) (SparesIn (owns_queue db user) db.jobs)
            (get_batch user id now (cancelled id b now db)) _ (Returns-any _)
            λ _ _.
              of_owned-Spares (owns_queue db user) home (is_pending id) (batch_cancel_row now)
                (λ x. refl) db.jobs (All-map _ _ (λ x h hit. h (ground arith)) db.jobs mine)

  pub retry_batch-Spares :
      (id : Uuid) (now : Time)
      → Returns (SparesIn (owns_queue db user) db.jobs) (retry_batch user id now db)
  unfolding retry_batch retried batch_retry_row
  retry_batch-Spares id now =
      Returns-bind _ (SparesIn (owns_queue db user) db.jobs) (get_batch user id now db) _
        (get_batch-owned id now)
        λ b mine.
          Returns-bind (λ _. Unit {0}) (SparesIn (owns_queue db user) db.jobs)
            (get_batch user id now (retried id b now db)) _ (Returns-any _)
            λ _ _.
              of_owned-Spares (owns_queue db user) home (is_retriable id) (batch_retry_row now)
                (λ x. refl) db.jobs (All-map _ _ (λ x h hit. h (ground arith)) db.jobs mine)
