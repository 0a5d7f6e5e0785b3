-- ===== src/Engine/RateLimiter.antt =====
-- worker/app/engine/rate_limiter.py: token buckets, one per queue, in the worker's memory. The
-- clock is in microseconds and tokens are counted in millionths, so that the refill
-- `elapsed * rate_limit_rps` is exact. The two locks serialise the calls.
pub mod Bounds
pub mod Refinement
use job_schedular.Prelude.{
  ℕ, zero, suc, ◌+◌, ◌-◌, ◌*◌, max, min, Bool, true, false, Option, none, some, List, [], ◌∷◌,
  if◌then◌else◌, leb, ◌==◌,
}
use job_schedular.Model.{Uuid, Time}

abbrev pub token : ℕ
token = 1000000

pub record TokenBucket : Type 0 where
  pub rate_limit_rps : ℕ
  pub capacity : ℕ
  pub tokens : ℕ
  pub last_refill : Time

-- TokenBucket(rate_limit_rps=…): with no capacity given it is the rate.
unfoldable pub new_bucket : ℕ → Time → TokenBucket
new_bucket rps now =
    let rate = max 1 rps in
    record {
      rate_limit_rps = rate;
      capacity = rate * token;
      tokens = rate * token;
      last_refill = now;
    }

unfoldable pub refill : TokenBucket → Time → TokenBucket
refill b now = record b {
  tokens = min b.capacity (b.tokens + (now - b.last_refill) * b.rate_limit_rps);
  last_refill = now;
}

-- consume(n): refill, then take `n` if they are there.
unfoldable pub consume : ℕ → TokenBucket → Time → Bool × TokenBucket
unfolding refill
consume n b now =
    let b' = refill b now in
    if leb n b'.tokens then (true, record b' { tokens = b'.tokens - n }) else (false, b')

-- QueueRateLimiter._buckets
abbrev pub Buckets : Type 0
Buckets = List (Uuid × TokenBucket)

unfoldable pub find_bucket : Uuid → Buckets → Option TokenBucket
find_bucket q [] = none
find_bucket q ((k, b) ∷ rest) = if k == q then some b else find_bucket q rest

unfoldable pub put_bucket : Uuid → TokenBucket → Buckets → Buckets
put_bucket q b [] = (q, b) ∷ []
put_bucket q b ((k, c) ∷ rest) = if k == q then (k, b) ∷ rest else (k, c) ∷ put_bucket q b rest

unfoldable pub bucket_or_new : Option TokenBucket → ℕ → Time → TokenBucket
unfolding new_bucket
bucket_or_new none rps now = new_bucket rps now
bucket_or_new (some b) rps now = b

-- allow_claim(queue_id, rate_limit_rps)
unfoldable pub allow_claim : Uuid → Option ℕ → Time → Buckets → Bool × Buckets
unfolding find_bucket put_bucket bucket_or_new consume
allow_claim q none now bs = (true, bs)
allow_claim q (some zero) now bs = (true, bs)
allow_claim q (some (suc r)) now bs =
    let (allowed, b) = consume token (bucket_or_new (find_bucket q bs) (suc r) now) now in
    (allowed, put_bucket q b bs)
