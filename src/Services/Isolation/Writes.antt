-- ===== src/Services/Isolation/Writes.antt =====
-- The services that write jobs by id, by batch or by queue, and each service for its user.
use job_schedular.Prelude.{
  Bool, true, not, ◌&&◌, List, [], ◌∷◌, ◌≡◌, refl, sym, ap, ◌∙◌, inl, inr, ◌==◌, ==→≡, All, All-map,
  All-update_where, Bool-cases, true≢false, any_where, select_where, select_where-select_where,
  select_where-update_where, update_where,
}
use job_schedular.Model.{Uuid, Time, Queue, Job, DlqEntry, JobBatch, Db}
use job_schedular.Services.Batches.{in_batch}
use job_schedular.Services.Dlq.{replay_row, replay_one, replay_entries}
use job_schedular.Services.Isolation.{foreign, Spares}

-- In which queue the jobs of the tables are: the one that their ids determine.
abbrev pub AtHome : (Uuid → Uuid) → List Job → Type 0
AtHome home jobs = All (λ j. j.queue_id ≡ home j.id) jobs

-- The queue of the job, if it is of the batch, is in the project of the batch.
abbrev pub InProject : List Queue → JobBatch → Job → Type 0
InProject queues b j =
    in_batch b.id j ≡ true
    → any_where (λ q. q.id == j.queue_id && q.project_id == b.project_id) queues ≡ true

-- What the foreign keys say: an id of a job stands for a job of one queue, also where a dead letter
-- entry names it, and the jobs of a batch are in queues of its project.
pub record IsSound (home : Uuid → Uuid) (db : Db) : Type 0 where
  pub jobs_at_home : AtHome home db.jobs
  pub letters_at_home : All (λ d. d.queue_id ≡ home d.job_id) db.dlq
  pub batches_in_project : All (λ b. All (InProject db.queues b) db.jobs) db.batches

module _ (owned : Uuid → Bool) (home : Uuid → Uuid) where
  pub by_id-Spares :
      (k : Uuid) (f : Job → Job)
      → ((x : Job) → (f x).queue_id ≡ x.queue_id)
      → (jobs : List Job) → AtHome home jobs
      → owned (home k) ≡ true
      → Spares owned jobs (update_where (λ x. x.id == k) f jobs)
  by_id-Spares k f same jobs at_home mine =
      select_where-update_where (foreign owned) (λ x. x.id == k) f
        (λ x out hit. ap (λ q. not (owned q)) (same x) ∙ out) jobs
        (All-map _ _
          (λ x h other. elim (Bool-cases (x.id == k)) [
            | inl hit ↦ absurd (
                true≢false (
                  sym other
                  ∙ ap (λ q. not (owned q)) (h ∙ ap home (==→≡ x.id k hit))
                  ∙ ap not mine))
            | inr miss ↦ miss
          ])
          jobs at_home)

  by_id-AtHome :
      (p : Job → Bool) (f : Job → Job)
      → ((x : Job) → ((f x).queue_id ≡ x.queue_id) × ((f x).id ≡ x.id))
      → (jobs : List Job) → AtHome home jobs
      → AtHome home (update_where p f jobs)
  by_id-AtHome p f same jobs at_home =
      All-update_where (λ j. j.queue_id ≡ home j.id) p f
        (λ x h _. (same x).0 ∙ h ∙ ap home (sym (same x).1)) jobs at_home

  pub replay_one-Spares :
      (now : Time) (d : DlqEntry) (db : Db)
      → AtHome home db.jobs
      → owned (home d.job_id) ≡ true
      → Spares owned db.jobs (replay_one now d db).jobs
  unfolding replay_one replay_row
  replay_one-Spares now d db at_home mine =
      by_id-Spares d.job_id (replay_row now) (λ x. refl) db.jobs at_home mine

  pub replay_entries-Spares :
      (now : Time) (ds : List DlqEntry) (db : Db)
      → AtHome home db.jobs
      → All (λ d. owned (home d.job_id) ≡ true) ds
      → Spares owned db.jobs (replay_entries now ds db).jobs
  unfolding replay_entries replay_one replay_row
  replay_entries-Spares now [] db at_home mine = refl
  replay_entries-Spares now (d ∷ ds) db at_home mine =
      replay_entries-Spares now ds (replay_one now d db)
        (by_id-AtHome (λ j. j.id == d.job_id) (replay_row now) (λ x. (refl, refl)) db.jobs at_home)
        mine.1
      ∙ replay_one-Spares now d db at_home mine.0

  -- An update of jobs that are all the user's.
  pub of_owned-Spares :
      (p : Job → Bool) (f : Job → Job)
      → ((x : Job) → (f x).queue_id ≡ x.queue_id)
      → (jobs : List Job) → All (λ x. p x ≡ true → owned x.queue_id ≡ true) jobs
      → Spares owned jobs (update_where p f jobs)
  of_owned-Spares p f same jobs mine =
      select_where-update_where (foreign owned) p f
        (λ x out hit. ap (λ q. not (owned q)) (same x) ∙ out) jobs
        (All-map _ _
          (λ x h other. elim (Bool-cases (p x)) [
            | inl hit ↦ absurd (true≢false (sym other ∙ ap not (h hit)))
            | inr miss ↦ miss
          ])
          jobs mine)

  pub delete-Spares :
      (q : Uuid) (jobs : List Job)
      → owned q ≡ true
      → Spares owned jobs (select_where (λ j. not (j.queue_id == q)) jobs)
  delete-Spares q jobs mine =
      select_where-select_where (foreign owned) (λ j. not (j.queue_id == q)) jobs (every jobs)
    where
      every : (xs : List Job) → All (λ x. foreign owned x ≡ true → not (x.queue_id == q) ≡ true) xs
      every [] = tt
      every (x ∷ xs) = (
        λ other. elim (Bool-cases (x.queue_id == q)) [
          | inl hit ↦ absurd (
              true≢false
                (sym other ∙ ap (λ k. not (owned k)) (==→≡ x.queue_id q hit) ∙ ap not mine))
          | inr miss ↦ ap not miss
        ],
        every xs,
      )
