-- ===== src/Services/Access.antt =====
-- Results of the services, and the joins with queues and projects that keep tenants apart.
pub mod Tenants
pub mod Returns
pub mod Pages
use job_schedular.Prelude.{
  ℕ, ◌+◌, ◌-◌, ◌*◌, ◌/◌, Bool, true, false, ◌&&◌, Option, none, some, List, if◌then◌else◌, ltb,
  ◌==◌, find_where, any_where, drop, take,
}
use job_schedular.Model.{Uuid, User, Queue, Job, Db}

pub data Error : Type 0 where
  bad_request unauthorized forbidden not_found unprocessable server_error : Error

-- A service raises an HTTP error or returns.
pub data Result {ℓ} (A : Type ℓ) : Type ℓ where
  err : Error → Result A
  ok : A → Result A

module _ {ℓ κ} {A : Type ℓ} {B : Type κ} where
  infixl 5 ◌>>=◌
  abbrev pub ◌>>=◌ : Result A → (A → Result B) → Result B
  err error >>= rest = err error
  ok value >>= rest = rest value

infixl 5 ◌>>◌
abbrev pub ◌>>◌ {ℓ} : {A : Type ℓ} → Result (Unit {0}) → Result A → Result A
checked >> rest = checked >>= λ passed. rest

-- if not …: raise HTTPException(…)
abbrev pub raise_unless : Bool → Error → Result (Unit {0})
raise_unless false error = err error
raise_unless true error = ok tt

-- `scalar_one_or_none`, and the error where there is none
abbrev pub or_error {ℓ} : {A : Type ℓ} → Option A → Error → Result A
or_error none e = err e
or_error (some a) e = ok a

-- JOIN projects … WHERE projects.org_id = user.org_id
abbrev pub owns_project : Db → User → Uuid → Bool
owns_project db user p = any_where (λ r. r.id == p && r.org_id == user.org_id) db.projects

abbrev pub owns_queue : Db → User → Uuid → Bool
owns_queue db user q = any_where (λ r. r.id == q && owns_project db user r.project_id) db.queues

-- QueueService.get_queue
unfoldable pub get_queue : Db → User → Uuid → Result Queue
get_queue db user q =
    or_error (find_where (λ r. r.id == q && owns_project db user r.project_id) db.queues) not_found

-- select(Job).join(Queue).join(Project).where(Job.id == …, Project.org_id == …)
unfoldable pub get_owned_job : Db → User → Uuid → Result Job
get_owned_job db user id =
    or_error (find_where (λ j. j.id == id && owns_queue db user j.queue_id) db.jobs) not_found

-- math.ceil(total / page_size) if total > 0 else 1
unfoldable pub total_pages : ℕ → ℕ → ℕ
total_pages total page_size = if ltb 0 total then (total + page_size - 1) / page_size else 1

-- .offset((page - 1) * page_size).limit(page_size)
unfoldable pub page_of {ℓ} : {A : Type ℓ} → ℕ → ℕ → List A → List A
page_of page page_size rows = take page_size (drop ((page - 1) * page_size) rows)
