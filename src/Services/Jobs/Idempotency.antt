-- ===== src/Services/Jobs/Idempotency.antt =====
-- Idempotency keys: a request that is sent again finds the job of the first one.
use job_schedular.Prelude.{
  ℕ, String, true, Option, some, List, ◌≡◌, refl, ap, ◌⊎◌, ◌∙◌, inl, inr, ==-refl, Option-cases,
  find_where, any_where-find_where, find_where-insert,
}
use text.Mathlib.TextPositions.{eq_refl}
use job_schedular.Model.{Uuid, Time, User, Job, JobStatus, Db, new_job}
use job_schedular.Services.Access.{Error, Result, ok, err, get_queue}
use job_schedular.Services.Access.Returns.{Returns, Returns-bind, Returns-any, Returns-ok}
use job_schedular.Services.Jobs.{
  JobCreate, or_key, plan_job, requested_job, insert_keyed, create_keyed, create_job,
}
use job_schedular.Daemons.Cron.{has_key, insert_on_conflict}

requested_job-has_key :
    (id q : Uuid) (key : String) (req : JobCreate) (plan : JobStatus × Time) (now : Time)
    → has_key q key (requested_job id q (some key) req plan now) ≡ true
unfolding requested_job new_job
requested_job-has_key id q key req plan now = rw (==-refl q, eq_refl key)

-- The job is the one that the key leads to, and only the jobs have changed.
abbrev IsKeyed : Uuid → String → Db → Job × Db → Type 0
IsKeyed q key db (j, db') =
    (find_where (has_key q key) db'.jobs ≡ some j) × (db' ≡ record db { jobs = db'.jobs })

insert_keyed-IsKeyed :
    (q : Uuid) (key : String) (j : Job) (db : Db)
    → has_key q key j ≡ true
    → Returns (IsKeyed q key db) (insert_keyed q key j db)
unfolding insert_keyed insert_on_conflict
insert_keyed-IsKeyed q key j db has = elim (Option-cases (find_where (has_key q key) db.jobs)) [
  | inl fresh ↦
      rw (any_where-find_where (has_key q key) db.jobs, fresh)
        (find_where-insert (has_key q key) db.jobs j fresh has, refl)
  | inr (k, found) ↦ rw (any_where-find_where (has_key q key) db.jobs, found) (found, refl)
]

create_keyed-IsKeyed :
    (q : Uuid) (key : String) (req : JobCreate) (id now : ℕ) (db : Db)
    → Returns (IsKeyed q key db) (create_keyed q key req id now db db)
unfolding create_keyed
create_keyed-IsKeyed q key req id now db =
    elim (Option-cases (find_where (has_key q key) db.jobs)) [
      | inl fresh ↦
          rw (fresh, create_keyed)
            (Returns-bind (λ _. Unit {0}) (IsKeyed q key db) (plan_job req req.parent_job_id now db)
              _ (Returns-any _)
              (λ plan _.
                insert_keyed-IsKeyed q key _ db (requested_job-has_key id q key req plan now)))
      | inr (k, found) ↦ rw (found, create_keyed) (found, refl)
    ]

-- The lookup of a queue reads the queues and the projects only.
get_queue_kept :
    (user : User) (q : Uuid) (jobs : List Job) (db : Db)
    → get_queue (record db { jobs = jobs }) user q ≡ get_queue db user q
unfolding get_queue
get_queue_kept user q jobs db = refl

create_keyed_again :
    (q : Uuid) (key : String) (req : JobCreate) (id now : ℕ) (db : Db) (j : Job)
    → find_where (has_key q key) db.jobs ≡ some j
    → create_keyed q key req id now db db ≡ ok (j, db)
unfolding create_keyed
create_keyed_again q key req id now db j found = rw (found, create_keyed) refl

-- `get_queue` fails, or leads to a queue.
Result-cases : {A : Type 0} (m : Result A) → ((e : Error) × (m ≡ err e)) ⊎ ((a : A) × (m ≡ ok a))
Result-cases (ok a) = inr (a, refl)
Result-cases (err e) = inl (e, refl)

err≢ok : (e : Error) (r : Job × Db) → err e ≡ ok r → ⊥
err≢ok e r h = cc

-- A request with an idempotency key that was answered with a job, and another one of the same user
-- to the same queue with the same key, on the database that the first one left, with no other
-- process at work: the second is answered with the same job, whatever task, time and parent it asks
-- for, and nothing is inserted for it.
pub create_job_again :
    (user : User) (q : Uuid) (req req' : JobCreate) (header header' : Option String)
    (id id' now now' : ℕ) (key : String) (db db' : Db) (j : Job)
    → or_key req.idempotency_key header ≡ some key
    → or_key req'.idempotency_key header' ≡ some key
    → create_job user q req header id now db db ≡ ok (j, db')
    → create_job user q req' header' id' now' db' db' ≡ ok (j, db')
unfolding create_job
create_job_again user q req req' header header' id id' now now' key db db' j k k' first =
    elim (Result-cases (get_queue db user q)) [
      | inl (e, denied) ↦ absurd (err≢ok e (j, db') (rw denied at first))
      | inr (queue, owned) ↦
          let base : create_keyed queue.id key req id now db db ≡ ok (j, db') =
            rw (owned, k) at first in
          let keyed =
            Returns-ok (IsKeyed queue.id key db) _ (j, db') base
              (create_keyed-IsKeyed queue.id key req id now db) in
          let still : get_queue db' user q ≡ ok queue =
            ap (λ d. get_queue d user q) keyed.1 ∙ get_queue_kept user q db'.jobs db ∙ owned in
          rw (still, k') (create_keyed_again queue.id key req' id' now' db' j keyed.0)
    ]
