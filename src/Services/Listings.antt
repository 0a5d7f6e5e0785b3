-- ===== src/Services/Listings.antt =====
-- The paginated listings of the services, page after page.
pub mod Own
use job_schedular.Prelude.{
  ℕ, ◌<◌, ◌≡◌, Bool, false, subst, Option, List, length, select_where, sort_by, length-sort_by, All,
  All-map, leb, ◌==◌, [], ◌∷◌, ap, sym, arith, ◌∙◌,
}
use job_schedular.Prelude.Sort.{Agree, sort_by-cong}
use mathlib.Core.Path.{fun_ext}
use job_schedular.Model.{Uuid, User, Job, DlqEntry, Db}
use job_schedular.Services.Access.{total_pages, page_of}
use job_schedular.Services.Access.Pages.{collect, pages-listing}
use job_schedular.Services.Figures.{Figures}
use job_schedular.Services.Jobs.Reads.{JobFilter, is_listed, job_before_in, list_jobs}
use job_schedular.Services.Dlq.{in_dlq_of, entry_before_in, list_dlq_entries}

-- The rows have different keys.
abbrev pub Apart : {A : Type 0} → (A → ℕ) → List A → Type 0
Apart key [] = Unit
Apart key (x ∷ xs) = All (λ y. (key y == key x) ≡ false) xs × Apart key xs

-- by time alone, the newest first
abbrev pub newest_by : {A : Type 0} → (A → ℕ) → A → A → Bool
newest_by key a b = leb (key b) (key a)

module _ {A : Type 0} (key : A → ℕ) (before : ℕ → A → A → Bool)
    (agrees : (k : ℕ) (a b : A) → (key b == key a) ≡ false → before k a b ≡ newest_by key a b) where
  -- Without ties every query has the one order.
  one_order :
      (k : ℕ) (rows : List A)
      → Apart key rows
      → sort_by (before k) rows ≡ sort_by (newest_by key) rows
  one_order k [] apart = sort_by-cong (before k) (newest_by key) [] tt
  one_order k (x ∷ xs) apart =
      sort_by-cong (before k) (newest_by key) (x ∷ xs) (agree_on (x ∷ xs) apart)
    where
      agree_on : (ys : List A) → Apart key ys → Agree (before k) (newest_by key) ys
      agree_on [] h = tt
      agree_on (y ∷ ys) h = (All-map _ _ (λ z e. agrees k y z e) ys h.0, agree_on ys h.1)

  ordered_pages :
      (page_size : ℕ) (rows : List A)
      → 0 < page_size
      → Apart key rows
      → collect
          (λ k. page_of k page_size (sort_by (before k) rows))
          0
          (total_pages (length rows) page_size)
        ≡ sort_by (newest_by key) rows
  ordered_pages page_size rows h apart =
      let same : (λ k. page_of k page_size (sort_by (before k) rows))
          ≡ (λ k. page_of k page_size (sort_by (newest_by key) rows)) =
        fun_ext (λ k. ap (page_of k page_size) (one_order k rows apart)) in
      ap (λ f. collect f 0 (total_pages (length rows) page_size)) same
      ∙ subst
          (λ n.
            collect (λ k. page_of k page_size (sort_by (newest_by key) rows)) 0
              (total_pages n page_size)
            ≡ sort_by (newest_by key) rows)
          (length-sort_by (newest_by key) rows)
          (pages-listing page_size (sort_by (newest_by key) rows) h)

job_agrees :
    (tie : ℕ → Uuid → ℕ) (k : ℕ) (a b : Job)
    → (b.created_at == a.created_at) ≡ false
    → job_before_in (tie k) a b ≡ leb b.created_at a.created_at
job_agrees tie k a b apart = ground arith

entry_agrees :
    (tie : ℕ → Uuid → ℕ) (k : ℕ) (a b : DlqEntry)
    → (b.moved_to_dlq_at == a.moved_to_dlq_at) ≡ false
    → entry_before_in (tie k) a b ≡ leb b.moved_to_dlq_at a.moved_to_dlq_at
entry_agrees tie k a b apart = ground arith

-- With a page size above 0 and no process writing between the pages, and whatever order each query
-- gives to rows with the same time: if the jobs that pass the filter were created at different
-- times, the pages 1 to `total_pages`, one behind the other, are all these jobs, the newest first,
-- and none is left out or repeated. So it is with the listing of dead letter entries, if they were
-- moved there at different times.
pub listings-pages :
    (figures : Figures) (tie : ℕ → Uuid → ℕ) (user : User) (f : JobFilter) (queue_id : Option Uuid)
    (page_size : ℕ) (db : Db)
    → 0 < page_size
    → Apart (λ j. j.created_at) (select_where (is_listed figures user f db) db.jobs)
    → Apart (λ d. d.moved_to_dlq_at) (select_where (in_dlq_of db user queue_id) db.dlq)
    → (collect
          (λ k. (list_jobs figures (tie k) user f k page_size db).items)
          0
          (list_jobs figures (tie 1) user f 1 page_size db).total_pages
        ≡ sort_by
            (newest_by (λ j. j.created_at))
            (select_where (is_listed figures user f db) db.jobs))
      × (collect
            (λ k. (list_dlq_entries (tie k) user queue_id k page_size db).0)
            0
            (list_dlq_entries (tie 1) user queue_id 1 page_size db).2
          ≡ sort_by
              (newest_by (λ d. d.moved_to_dlq_at))
              (select_where (in_dlq_of db user queue_id) db.dlq))
unfolding list_jobs list_dlq_entries
listings-pages figures tie user f queue_id page_size db h jobs_apart entries_apart = (
  ordered_pages (λ j. j.created_at) (λ k. job_before_in (tie k)) (job_agrees tie) page_size _ h
      jobs_apart,
  ordered_pages (λ d. d.moved_to_dlq_at) (λ k. entry_before_in (tie k)) (entry_agrees tie) page_size
      _ h entries_apart,
)
