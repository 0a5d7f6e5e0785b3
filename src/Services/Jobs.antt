-- ===== src/Services/Jobs.antt =====
-- backend/app/services/job_service.py. Where an operation reads first and writes by the id of
-- what it read, `db` is what it reads and `mid` what the other processes have made of it when
-- its write lands; with no process in between the two are one.
pub mod Idempotency
pub mod Reads
use job_schedular.Prelude.{
  ℕ, zero, suc, ◌+◌, String, ◌||◌, not, Option, none, some, List, [], ◌∷◌, ◌++◌, if◌then◌else◌, ltb,
  ◌==◌, str_eq, find_where, update_where, any_where, Bool,
}
use job_schedular.Model.{Uuid, Time, Json, seconds, User, Job, JobStatus, Db, is_status, new_job}
use job_schedular.Services.Access.{
  Result, ok, err, bad_request, not_found, server_error, ◌>>=◌, ◌>>◌, raise_unless, or_error,
  get_queue, get_owned_job,
}
use job_schedular.Daemons.Cron.{has_key, insert_on_conflict}

-- schemas/job.py
pub record JobCreate : Type 0 where
  pub name : String
  pub payload : Json
  pub priority : ℕ
  pub max_retries : ℕ
  pub run_at : Option Time
  pub delay_seconds : Option ℕ
  pub idempotency_key : Option String
  pub parent_job_id : Option Uuid
  pub tags : List String

-- `a or b` on optional texts, as far as its truth matters: an empty text is no key.
abbrev pub or_key : Option String → Option String → Option String
or_key none none = none
or_key none (some b) = if str_eq b "" then none else some b
or_key (some a) none = if str_eq a "" then none else some a
or_key (some a) (some b) = if str_eq a "" then (if str_eq b "" then none else some b) else some a

abbrev pub requested_run_at : Option ℕ → Option Time → Time → Time
requested_run_at (some (suc n)) t now = now + seconds (suc n)
requested_run_at (some zero) (some t) now = t
requested_run_at (some zero) none now = now
requested_run_at none (some t) now = t
requested_run_at none none now = now

-- datetime(9999, 12, 31, 23, 59, 59)
abbrev pub end_of_time : Time
end_of_time = 253402300799000000

-- The status and the time of a new job whose parent row is `parent`.
abbrev pub plan_child : Option Job → Time → Result (JobStatus × Time)
plan_child none now = err not_found
plan_child (some p) now =
    if is_status p.status JobStatus.dead_letter || is_status p.status JobStatus.cancelled
    then err bad_request
    else if is_status p.status JobStatus.completed
    then ok (JobStatus.queued, now)
    else ok (JobStatus.scheduled, end_of_time)

unfoldable pub plan_job : JobCreate → Option Uuid → Time → Db → Result (JobStatus × Time)
plan_job req none now db =
    let run_at = requested_run_at req.delay_seconds req.run_at now in
    ok (if ltb now run_at then JobStatus.scheduled else JobStatus.queued, run_at)
plan_job req (some p) now db = plan_child (find_where (λ j. j.id == p) db.jobs) now

unfoldable pub requested_job :
    Uuid → Uuid → Option String → JobCreate → JobStatus × Time → Time → Job
unfolding new_job
requested_job id q key req (status, run_at) now =
    new_job id q key req.name status req.priority req.payload req.max_retries run_at
      req.parent_job_id none req.tags now

-- INSERT … ON CONFLICT DO NOTHING, and the row that has the key then
unfoldable pub insert_keyed : Uuid → String → Job → Db → Result (Job × Db)
unfolding insert_on_conflict
insert_keyed q key j mid =
    let (inserted, jobs') = insert_on_conflict q key j mid.jobs in
    if inserted then ok (j, record mid { jobs = jobs' }) else do
      existing ← or_error (find_where (has_key q key) mid.jobs) server_error
      ok (existing, mid)

unfoldable pub create_unkeyed : Uuid → JobCreate → Uuid → Time → Db → Db → Result (Job × Db)
unfolding plan_job requested_job
create_unkeyed q req id now db mid = do
  plan ← plan_job req req.parent_job_id now db
  let j = requested_job id q none req plan now
  ok (j, record mid { jobs = mid.jobs ++ j ∷ [] })

-- with the fast path for a key that is there already
unfoldable pub create_keyed : Uuid → String → JobCreate → Uuid → Time → Db → Db → Result (Job × Db)
unfolding plan_job requested_job insert_keyed
create_keyed q key req id now db mid = elim (find_where (has_key q key) db.jobs) [
  | some existing ↦ ok (existing, mid)
  | none ↦ do
    plan ← plan_job req req.parent_job_id now db
    insert_keyed q key (requested_job id q (some key) req plan now) mid
]

unfoldable pub create_job :
    User → Uuid → JobCreate → Option String → Uuid → Time → Db → Db → Result (Job × Db)
unfolding get_queue create_unkeyed create_keyed
create_job user queue_id req header_key id now db mid = do
  queue ← get_queue db user queue_id
  elim (or_key req.idempotency_key header_key) [
    | none ↦ create_unkeyed queue.id req id now db mid
    | some key ↦ create_keyed queue.id key req id now db mid
  ]

-- An item of a bulk submission: no parent check, and two seconds of tolerance.
abbrev pub bulk_plan : JobCreate → Time → JobStatus × Time
bulk_plan item now =
    let run_at = requested_run_at item.delay_seconds item.run_at now in
    (if ltb (now + seconds 2) run_at then JobStatus.scheduled else JobStatus.queued, run_at)

unfoldable pub bulk_insert : Uuid → JobCreate → Uuid → Time → Db → Result (Uuid × Db)
unfolding requested_job insert_keyed
bulk_insert q item id now db = elim (or_key item.idempotency_key none) [
  | none ↦
      let j = requested_job id q none item (bulk_plan item now) now in
      ok (id, record db { jobs = db.jobs ++ j ∷ [] })
  | some key ↦ do
    (j, db') ← insert_keyed q key (requested_job id q (some key) item (bulk_plan item now) now) db
    ok (j.id, db')
]

unfoldable pub bulk_loop :
    Uuid → List JobCreate → (ℕ → Uuid) → ℕ → Time → Db → Result (List Uuid × Db)
unfolding bulk_insert
bulk_loop q [] new_id i now db = ok ([], db)
bulk_loop q (item ∷ items) new_id i now db = do
  (id, db') ← bulk_insert q item (new_id i) now db
  (ids, db'') ← bulk_loop q items new_id (suc i) now db'
  ok (id ∷ ids, db'')

-- [jobs_map[jid] for jid in ids if jid in jobs_map]
unfoldable pub resolve : List Uuid → List Job → List Job
resolve [] jobs = []
resolve (id ∷ ids) jobs =
    let rest = resolve ids jobs in
    elim (find_where (λ j. j.id == id) jobs) [ none ↦ rest | some j ↦ j ∷ rest ]

unfoldable pub create_jobs_batch :
    User → Uuid → List JobCreate → (ℕ → Uuid) → Time → Db → Result (List Job × Db)
unfolding get_queue bulk_loop resolve
create_jobs_batch user queue_id items new_id now db = do
  queue ← get_queue db user queue_id
  (ids, db') ← bulk_loop queue.id items new_id 0 now db
  ok (resolve ids db'.jobs, db')

-- A column that is set to NULL is written where it was read with another value.
abbrev pub cleared {ℓ} : {A : Type ℓ} → Option A → Option A → Option A
cleared none stored = stored
cleared (some a) stored = none

-- What the commit makes of a stored row that was read as the first one, and cancelled or retried by
-- hand: SQLAlchemy writes the columns whose values differ from those it read, and no others.
unfoldable pub cancel_row : Job → Time → Job → Job
cancel_row read now j = record j {
  status = if is_status read.status JobStatus.cancelled then j.status else JobStatus.cancelled;
  locked_by_worker_id = cleared read.locked_by_worker_id j.locked_by_worker_id;
  lock_expires_at = cleared read.lock_expires_at j.lock_expires_at;
  updated_at = now;
}

unfoldable pub requeue_by_hand : Job → Time → Job → Job
requeue_by_hand read now j = record j {
  status = if is_status read.status JobStatus.queued then j.status else JobStatus.queued;
  run_at = if read.run_at == now then j.run_at else now;
  locked_by_worker_id = cleared read.locked_by_worker_id j.locked_by_worker_id;
  lock_expires_at = cleared read.lock_expires_at j.lock_expires_at;
  error_message = cleared read.error_message j.error_message;
  updated_at = now;
}

-- The UPDATE … WHERE id = … of the commit, which is an error where it hits no row.
unfoldable pub write_back : Uuid → (Job → Job) → Db → Result Db
write_back id f mid = do
  raise_unless (any_where (λ x. x.id == id) mid.jobs) server_error
  ok (record mid { jobs = update_where (λ x. x.id == id) f mid.jobs })

unfoldable pub cancel_job : User → Uuid → Time → Db → Db → Result Db
unfolding get_owned_job write_back cancel_row
cancel_job user id now db mid = do
  j ← get_owned_job db user id
  raise_unless
      (not (is_status j.status JobStatus.completed || is_status j.status JobStatus.cancelled))
      bad_request
  write_back j.id (cancel_row j now) mid

unfoldable pub retry_job : User → Uuid → Time → Db → Db → Result Db
unfolding get_owned_job write_back requeue_by_hand
retry_job user id now db mid = do
  j ← get_owned_job db user id
  write_back j.id (requeue_by_hand j now) mid
