-- ===== src/Engine/RateLimiter/Bounds.antt =====
-- How many claims a queue's token bucket lets through.
use job_schedular.Prelude.{
  ℕ, zero, suc, ◌+◌, ◌-◌, ◌*◌, ◌≤◌, false, Option, none, some, List, [], ◌∷◌, if◌then◌else◌, ◌==◌,
  ◌≡◌, refl, arith, Bool-cases, inl, inr, ==-refl, ==→≡, ◌∙◌,
}
use job_schedular.Model.{Uuid, Time}
use job_schedular.Engine.RateLimiter.{
  TokenBucket, Buckets, token, consume, find_bucket, put_bucket, bucket_or_new, allow_claim,
}

-- The calls of `allow_claim` in their order: queue, `rate_limit_rps` and the clock.
abbrev pub Call : Type 0
Call = Uuid × Option ℕ × Time

abbrev pub allow_all : List Call → Buckets → Buckets
allow_all [] bs = bs
allow_all ((q, r, now) ∷ calls) bs = allow_all calls (allow_claim q r now bs).1

-- A call for `q` that has a limit and is let through.
abbrev pub charged : Uuid → Call → Buckets → ℕ
charged q (k, none, now) bs = 0
charged q (k, some zero, now) bs = 0
charged q (k, some (suc n), now) bs =
    if k == q then (if (allow_claim k (some (suc n)) now bs).0 then 1 else 0) else 0

-- how many calls of a list are such calls
abbrev pub allowed_for : Uuid → List Call → Buckets → ℕ
allowed_for q [] bs = 0
allowed_for q ((k, r, now) ∷ calls) bs =
    charged q (k, r, now) bs + allowed_for q calls (allow_claim k r now bs).1

-- The clock does not run backwards, from `from` to `to`.
abbrev pub Timed : Time → Time → List Call → Type 0
Timed from to [] = from ≤ to
Timed from to ((k, r, now) ∷ calls) = (from ≤ now) × Timed now to calls

pub find-put_bucket :
    (q k : Uuid) (b : TokenBucket) (bs : Buckets)
    → find_bucket q (put_bucket k b bs) ≡ (if k == q then some b else find_bucket q bs)
unfolding find_bucket put_bucket
find-put_bucket q k b [] = refl
find-put_bucket q k b ((i, c) ∷ bs) = ground (arith, find-put_bucket q k b bs)

-- A call for another queue leaves the bucket alone.
allow_claim_other :
    (q k : Uuid) (r : Option ℕ) (now : Time) (bs : Buckets)
    → (k == q) ≡ false
    → find_bucket q (allow_claim k r now bs).1 ≡ find_bucket q bs
unfolding allow_claim
allow_claim_other q k none now bs h = refl
allow_claim_other q k (some zero) now bs h = refl
allow_claim_other q k (some (suc r)) now bs h = rw (find-put_bucket q k _ bs, h)

allow_claim_self :
    (q : Uuid) (n : ℕ) (now : Time) (bs : Buckets) (b : TokenBucket)
    → find_bucket q bs ≡ some b
    → ((allow_claim q (some (suc n)) now bs).0 ≡ (consume token b now).0)
      × (find_bucket q (allow_claim q (some (suc n)) now bs).1 ≡ some (consume token b now).1)
unfolding allow_claim bucket_or_new
allow_claim_self q n now bs b h =
    rw (h, bucket_or_new) (refl, rw (find-put_bucket q q _ bs, ==-refl q))

allow_claim_hit :
    (q k : Uuid) (n : ℕ) (now : Time) (bs : Buckets) (b : TokenBucket)
    → k ≡ q
    → find_bucket q bs ≡ some b
    → ((allow_claim k (some (suc n)) now bs).0 ≡ (consume token b now).0)
      × (find_bucket q (allow_claim k (some (suc n)) now bs).1 ≡ some (consume token b now).1)
allow_claim_hit q k n now bs b same found = rw same (allow_claim_self q n now bs b found)

consume_clock : (b : TokenBucket) (now : Time) → (consume token b now).1.last_refill ≤ now
unfolding consume
consume_clock b now = ground arith

-- Once a queue has its bucket, the rate that a call passes has no effect: a change of
-- `rate_limit_rps` to another positive value does not reach the limiter.
pub allow_claim_ignores_rate :
    (q : Uuid) (m n : ℕ) (now : Time) (bs : Buckets) (b : TokenBucket)
    → find_bucket q bs ≡ some b
    → allow_claim q (some (suc m)) now bs ≡ allow_claim q (some (suc n)) now bs
unfolding allow_claim bucket_or_new
allow_claim_ignores_rate q m n now bs b h = rw (h, bucket_or_new)

Timed-le : (from to : Time) (calls : List Call) → Timed from to calls → from ≤ to
Timed-le from to [] h = h
Timed-le from to ((k, r, now) ∷ calls) h = omega (arith, Timed-le now to calls h.1)

refill_split :
    (start now to rate : ℕ)
    → start ≤ now
    → now ≤ to
    → (to - start) * rate ≡ (now - start) * rate + (to - now) * rate
refill_split start now to rate h k =
    let e : to - start ≡ (now - start) + (to - now) = omega arith in rw e (omega arith)

-- A call for the queue itself, then the rest.
allowed_budget_self :
    (rest to now : ℕ) (b : TokenBucket)
    → b.last_refill ≤ now
    → now ≤ to
    → rest * token
      ≤ (consume token b now).1.tokens
        + (to - (consume token b now).1.last_refill) * (consume token b now).1.rate_limit_rps
    → ((if (consume token b now).0 then 1 else 0) + rest) * token
      ≤ b.tokens + (to - b.last_refill) * b.rate_limit_rps
unfolding consume
allowed_budget_self rest to now b h k budget =
    ground (arith, refill_split b.last_refill now to b.rate_limit_rps h k)

-- A call with a limit, for the queue itself or another one, then the rest.
allowed_budget_limited :
    (q k : Uuid) (n : ℕ) (now : Time) (calls : List Call) (to : Time) (bs : Buckets)
    (b : TokenBucket)
    → find_bucket q bs ≡ some b
    → b.last_refill ≤ now
    → Timed now to calls
    → ((b' : TokenBucket)
        → find_bucket q (allow_claim k (some (suc n)) now bs).1 ≡ some b'
        → b'.last_refill ≤ now
        → Timed now to calls
        → allowed_for q calls (allow_claim k (some (suc n)) now bs).1 * token
          ≤ b'.tokens + (to - b'.last_refill) * b'.rate_limit_rps)
    → allowed_for q ((k, some (suc n), now) ∷ calls) bs * token
      ≤ b.tokens + (to - b.last_refill) * b.rate_limit_rps
allowed_budget_limited q k n now calls to bs b found h timed rest = elim (Bool-cases (k == q)) [
  | inl same ↦
      let b' = (consume token b now).1 in
      let (ok, next) = allow_claim_hit q k n now bs b (==→≡ k q same) found in
      rw (same, ok)
        (allowed_budget_self _ to now b h (Timed-le now to calls timed)
          (rest b' next (consume_clock b now) timed))
  | inr other ↦
      let paid = rest b (allow_claim_other q k (some (suc n)) now bs other ∙ found) h timed in
      rw other (omega arith)
]

-- In any sequence of calls over all queues, on a clock that does not run backwards and in exact
-- arithmetic: the calls with a limit above 0 that are let through for a queue that has its bucket
-- are paid for, a token each, out of those that the bucket held at the start and those that its
-- rate brought in until the end. Calls without a limit may stand among them; they are free.
pub allowed_budget :
    (q : Uuid) (calls : List Call) (from to : Time) (bs : Buckets) (b : TokenBucket)
    → find_bucket q bs ≡ some b
    → b.last_refill ≤ from
    → Timed from to calls
    → allowed_for q calls bs * token ≤ b.tokens + (to - b.last_refill) * b.rate_limit_rps
unfolding allow_claim
allowed_budget q [] from to bs b found h timed = omega arith
allowed_budget q ((k, none, now) ∷ calls) from to bs b found h timed =
    let rest = allowed_budget q calls now to bs b found (omega arith) timed.1 in omega (arith, rest)
allowed_budget q ((k, some zero, now) ∷ calls) from to bs b found h timed =
    let rest = allowed_budget q calls now to bs b found (omega arith) timed.1 in omega (arith, rest)
allowed_budget q ((k, some (suc n), now) ∷ calls) from to bs b found h timed =
    allowed_budget_limited q k n now calls to bs b found (omega arith) timed.1
      (allowed_budget q calls now to (allow_claim k (some (suc n)) now bs).1)
