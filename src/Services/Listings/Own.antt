-- ===== src/Services/Listings/Own.antt =====
-- Listings keep tenants apart: what a user is shown belongs to the user's organisation.
use job_schedular.Prelude.{
  ℕ, zero, suc, ◌≡◌, true, Bool, Option, none, some, List, [], ◌∷◌, All, All-map, All-take,
  Bool-cases, inl, inr, arith, ◌==◌, drop, map, select_where, sort_by,
}
use job_schedular.Prelude.Sort.{All-sort_by}
use job_schedular.Model.{Uuid, User, BatchStatus, DlqEntry, Db}
use job_schedular.Services.Access.{page_of, owns_queue, owns_project}
use job_schedular.Services.Figures.{Figures}
use job_schedular.Services.Jobs.Reads.{JobFilter, is_listed, list_jobs}
use job_schedular.Services.Batches.Reads.{list_batches}
use job_schedular.Services.Dlq.{in_dlq_of, list_dlq_entries}
use job_schedular.Services.Schedules.{list_schedules}
use job_schedular.Services.Projects.{list_projects}

All-where : {A : Type 0} (p : A → Bool) (xs : List A) → All (λ x. p x ≡ true) (select_where p xs)
unfolding select_where
All-where p [] = tt
All-where p (x ∷ xs) = elim (Bool-cases (p x)) [
  | inl hit ↦ rw hit (hit, All-where p xs)
  | inr miss ↦ rw miss (All-where p xs)
]

All-drop : {A : Type 0} (P : A → Type 0) (n : ℕ) (xs : List A) → All P xs → All P (drop n xs)
All-drop P zero xs h = h
All-drop P (suc n) [] h = tt
All-drop P (suc n) (x ∷ xs) h = All-drop P n xs h.1

All-mapped :
    {A B : Type 0} (P : B → Type 0) (f : A → B) (xs : List A)
    → All (λ x. P (f x)) xs
    → All P (map f xs)
All-mapped P f [] h = tt
All-mapped P f (x ∷ xs) h = (h.0, All-mapped P f xs h.1)

module _ {A : Type 0} (own p : A → Bool) (only : (x : A) → p x ≡ true → own x ≡ true)
    (before : A → A → Bool) (rows : List A) where
  sorted_own : All (λ x. own x ≡ true) (sort_by before (select_where p rows))
  sorted_own =
      All-sort_by (λ x. own x ≡ true) before (select_where p rows)
        (All-map (λ x. p x ≡ true) (λ x. own x ≡ true) only _ (All-where p rows))

  page_own :
      (page page_size : ℕ)
      → All (λ x. own x ≡ true) (page_of page page_size (sort_by before (select_where p rows)))
  unfolding page_of
  page_own page page_size = All-take _ page_size _ (All-drop _ _ _ sorted_own)

in_dlq_of-own :
    (db : Db) (user : User) (q : Option Uuid) (d : DlqEntry)
    → in_dlq_of db user q d ≡ true
    → owns_queue db user d.queue_id ≡ true
in_dlq_of-own db user none d h = h
in_dlq_of-own db user (some q) d h = ground arith

-- Every job, batch, dead letter entry, schedule and project that a listing shows to a user is in a
-- queue or a project of the user's organisation, whatever page and filter are asked for.
pub listings-own :
    (figures : Figures) (tie : Uuid → ℕ) (user : User) (f : JobFilter) (p q : Option Uuid)
    (s : Option BatchStatus) (page page_size : ℕ) (db : Db)
    → All
        (λ j. owns_queue db user j.queue_id ≡ true)
        (list_jobs figures tie user f page page_size db).items
      × All
          (λ b. owns_project db user b.project_id ≡ true)
          (list_batches user p q s page page_size db).0
      × All
          (λ d. owns_queue db user d.queue_id ≡ true)
          (list_dlq_entries tie user q page page_size db).0
      × All (λ r. owns_queue db user r.queue_id ≡ true) (list_schedules user p q db)
      × All (λ r. (r.0.org_id == user.org_id) ≡ true) (list_projects db user)
unfolding list_jobs is_listed list_batches list_dlq_entries list_schedules list_projects
listings-own figures tie user f p q s page page_size db = (
  page_own (λ j. owns_queue db user j.queue_id) _ (λ j h. ground arith) _ db.jobs page page_size,
  page_own (λ b. owns_project db user b.project_id) _ (λ b h. ground arith) _ db.batches page
      page_size,
  page_own (λ d. owns_queue db user d.queue_id) _ (in_dlq_of-own db user q) _ db.dlq page page_size,
  sorted_own (λ r. owns_queue db user r.queue_id) _ (λ r h. ground arith) _ db.schedules,
  All-mapped _ _ _ (sorted_own (λ r. r.org_id == user.org_id) _ (λ r h. h) _ db.projects),
)
