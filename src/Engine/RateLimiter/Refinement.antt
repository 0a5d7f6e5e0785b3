-- ===== src/Engine/RateLimiter/Refinement.antt =====
-- The limiter promises one bucket to each queue; it keeps them in one table that all share.
use job_schedular.Prelude.{
  ℕ, zero, suc, Bool, true, Option, none, some, List, [], ◌∷◌, if◌then◌else◌, ◌==◌, ◌≡◌, refl,
  subst, Bool-cases, inl, inr, ==→≡,
}
use job_schedular.Model.{Uuid, Time}
use job_schedular.Engine.RateLimiter.{
  TokenBucket, Buckets, token, consume, find_bucket, bucket_or_new, allow_claim,
}
use job_schedular.Engine.RateLimiter.Bounds.{Call, allow_all, find-put_bucket}

-- What is promised: a queue's own bucket, which is not there before the first call with a limit.
unfoldable pub own_bucket : Option ℕ → Time → Option TokenBucket → Bool × Option TokenBucket
unfolding consume bucket_or_new
own_bucket none now o = (true, o)
own_bucket (some zero) now o = (true, o)
own_bucket (some (suc r)) now o =
    let (allowed, b) = consume token (bucket_or_new o (suc r) now) now in (allowed, some b)

-- the calls for `q`, without the queue
abbrev pub calls_for : Uuid → List Call → List (Option ℕ × Time)
calls_for q [] = []
calls_for q ((k, r, now) ∷ calls) =
    let rest = calls_for q calls in if k == q then (r, now) ∷ rest else rest

-- the answers of a bucket of its own, and of the limiter to the calls for `q`
abbrev pub own_answers : List (Option ℕ × Time) → Option TokenBucket → List Bool
own_answers [] o = []
own_answers ((r, now) ∷ calls) o = (own_bucket r now o).0 ∷ own_answers calls (own_bucket r now o).1

abbrev pub own_end : List (Option ℕ × Time) → Option TokenBucket → Option TokenBucket
own_end [] o = o
own_end ((r, now) ∷ calls) o = own_end calls (own_bucket r now o).1

abbrev pub answers_for : Uuid → List Call → Buckets → List Bool
answers_for q [] bs = []
answers_for q ((k, r, now) ∷ calls) bs =
    let rest = answers_for q calls (allow_claim k r now bs).1 in
    if k == q then (allow_claim k r now bs).0 ∷ rest else rest

unchanged :
    (k q : Uuid) (bs : Buckets)
    → find_bucket q bs ≡ (if k == q then find_bucket k bs else find_bucket q bs)
unchanged k q bs = elim (Bool-cases (k == q)) [
  | inl same ↦ rw (same, ==→≡ k q same) refl
  | inr other ↦ rw other refl
]

-- One call: its own queue's bucket answers it, and the others stay as they are.
allow_claim-own_bucket :
    (k q : Uuid) (r : Option ℕ) (now : Time) (bs : Buckets)
    → ((allow_claim k r now bs).0 ≡ (own_bucket r now (find_bucket k bs)).0)
      × (find_bucket q (allow_claim k r now bs).1
          ≡ (if k == q then (own_bucket r now (find_bucket k bs)).1 else find_bucket q bs))
unfolding allow_claim own_bucket
allow_claim-own_bucket k q none now bs = (refl, unchanged k q bs)
allow_claim-own_bucket k q (some zero) now bs = (refl, unchanged k q bs)
allow_claim-own_bucket k q (some (suc r)) now bs = (refl, find-put_bucket q k _ bs)

-- For every order of calls: the answers that a queue gets from the shared table, and the bucket it
-- is left with, are those of a bucket of its own that sees this queue's calls alone.
pub limiter-own_answers :
    (q : Uuid) (calls : List Call) (bs : Buckets)
    → (answers_for q calls bs ≡ own_answers (calls_for q calls) (find_bucket q bs))
      × (find_bucket q (allow_all calls bs) ≡ own_end (calls_for q calls) (find_bucket q bs))
limiter-own_answers q [] bs = (refl, refl)
limiter-own_answers q ((k, r, now) ∷ calls) bs =
    let one = allow_claim-own_bucket k q r now bs in
    let rest = limiter-own_answers q calls (allow_claim k r now bs).1 in
    elim (Bool-cases (k == q)) [
      | inl here ↦
          let same = ==→≡ k q here in
          let answer : (allow_claim k r now bs).0 ≡ (own_bucket r now (find_bucket q bs)).0 =
            subst (λ z. (allow_claim k r now bs).0 ≡ (own_bucket r now (find_bucket z bs)).0) same
              one.0 in
          let kept : find_bucket q (allow_claim k r now bs).1
              ≡ (own_bucket r now (find_bucket q bs)).1 =
            subst
              (λ z.
                find_bucket q (allow_claim k r now bs).1 ≡ (own_bucket r now (find_bucket z bs)).1)
              same (rw here at (one.1)) in
          rw here (rw (answer, rest.0, kept) refl, rw (rest.1, kept) refl)
      | inr other ↦
          let kept : find_bucket q (allow_claim k r now bs).1 ≡ find_bucket q bs =
            rw other at (one.1) in
          rw other (rw (rest.0, kept) refl, rw (rest.1, kept) refl)
    ]
