-- ===== src/Examples/Listings.antt =====
-- The theorems on listings, at concrete inputs.
use job_schedular.Prelude.{
  ℕ, refl, any_where, ◌*◌, ◌≡◌, ◌==◌, arith, true, none, [], ◌∷◌, All, length, sort_by,
  select_where,
}
use job_schedular.Services.Access.{owns_queue, owns_project}
use job_schedular.Services.Access.Pages.{collect}
use job_schedular.Services.Figures.{Figures}
use job_schedular.Services.Listings.{Apart, newest_by, listings-pages}
use job_schedular.Services.Listings.Own.{listings-own}
use job_schedular.Services.Jobs.Reads.{JobFilter, list_jobs, is_listed}
use job_schedular.Services.Batches.Reads.{list_batches}
use job_schedular.Services.Schedules.{list_schedules}
use job_schedular.Services.Projects.{list_projects}
use job_schedular.Services.Dlq.{list_dlq_entries, in_dlq_of}
use job_schedular.Model.{Uuid, Db, new_job}
use job_schedular.Examples.Data.{alice, queued, with_jobs}

abbrev pub figures : Figures
figures = record {
  millis = λ t. t;
  age2 = λ t. t;
  age1 = λ t. t;
  mean_ms = λ sum n. sum;
  percent = λ a b. a * 1000;
  per_second = λ n. n;
  mean1 = λ xs. length xs;
  ilike = λ a b. true;
  text_le = λ a b. true;
}

abbrev any_job : JobFilter
any_job = record { project_id = none; queue_id = none; status = none; tag = none; pattern = none }

-- three jobs on pages of two, of which each query would order ties otherwise
abbrev three : Db
three = with_jobs (
    record (queued 1 10) { created_at = 3 }
    ∷ record (queued 2 10) { created_at = 5 }
    ∷ record (queued 3 10) { created_at = 4 }
    ∷ [])

abbrev ties : ℕ → Uuid → ℕ
ties k id = k * id

three_differ :
    Apart (λ j. j.created_at) (select_where (is_listed figures alice any_job three) three.jobs)
unfolding is_listed select_where any_where new_job
three_differ = ((refl, (refl, tt)), ((refl, tt), (tt, tt)))

no_entries : Apart (λ d. d.moved_to_dlq_at) (select_where (in_dlq_of three alice none) three.dlq)
unfolding select_where
no_entries = tt

listings-pages_example :
    (collect
        (λ k. (list_jobs figures (ties k) alice any_job k 2 three).items)
        0
        (list_jobs figures (ties 1) alice any_job 1 2 three).total_pages
      ≡ sort_by
          (newest_by (λ j. j.created_at))
          (select_where (is_listed figures alice any_job three) three.jobs))
    × (collect
          (λ k. (list_dlq_entries (ties k) alice none k 2 three).0)
          0
          (list_dlq_entries (ties 1) alice none 1 2 three).2
        ≡ sort_by
            (newest_by (λ d. d.moved_to_dlq_at))
            (select_where (in_dlq_of three alice none) three.dlq))
listings-pages_example =
    listings-pages figures ties alice any_job none 2 three (omega arith) three_differ no_entries

listings-own_example :
    All
      (λ j. owns_queue three alice j.queue_id ≡ true)
      (list_jobs figures (ties 1) alice any_job 1 2 three).items
    × All
        (λ b. owns_project three alice b.project_id ≡ true)
        (list_batches alice none none none 1 2 three).0
    × All
        (λ d. owns_queue three alice d.queue_id ≡ true)
        (list_dlq_entries (ties 1) alice none 1 2 three).0
    × All (λ r. owns_queue three alice r.queue_id ≡ true) (list_schedules alice none none three)
    × All (λ r. (r.0.org_id == 10) ≡ true) (list_projects three alice)
listings-own_example = listings-own figures (ties 1) alice any_job none none none 1 2 three
