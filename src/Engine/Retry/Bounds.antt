-- ===== src/Engine/Retry/Bounds.antt =====
-- The range of the delay that `calculate_delay` returns.
use job_schedular.Prelude.{ℕ, ◌≤◌, Bool, true, false, Option, ◌≡◌, max, if◌then◌else◌, arith}
use job_schedular.Model.{RetryPolicy, RetryStrategy, seconds}
use job_schedular.Engine.Retry.{
  Floats, min_float, max_float, terms, multiplier, raw_delay, capped_delay, calculate_delay,
}

module _ (fl : Floats) where
  open fl use {
    Float, of_int, of_bits, lt, mul, pow, half, uniform, round2, to_time, lt_irrefl, lt_asymm,
    le_trans, of_int_mono, zero-lt-one, mul_nonneg, pow_nonneg, half-le, uniform-le, round2_mono,
    to_time_mono, to_time-one,
  }

  pub max_float-ge : (a b : Float) → lt (max_float fl a b) a ≡ false
  unfolding max_float
  max_float-ge a b = ground (arith, lt_irrefl a, lt_asymm a b)

  pub max_float_mono :
      (a b c : Float) → lt c b ≡ false → lt (max_float fl a c) (max_float fl a b) ≡ false
  unfolding max_float
  max_float_mono a b c h = ground (arith, lt_irrefl a, lt_asymm a b, lt_asymm a c, le_trans b c a)

  pub min_float-le : (a b : Float) → lt a (min_float fl a b) ≡ false
  unfolding min_float
  min_float-le a b = ground (arith, lt_irrefl a, lt_asymm b a)

  -- Whatever the policy, the attempt and the random draw, the delay is at least one second.
  pub delay_at_least_one :
      (attempt : ℕ) (policy : Option RetryPolicy) (deterministic : Bool) (draw : ℕ)
      → lt (calculate_delay fl attempt policy deterministic draw) (of_int 1) ≡ false
  unfolding calculate_delay
  delay_at_least_one attempt policy deterministic draw = max_float-ge _ _

  multiplier_nonneg :
      (policy : Option RetryPolicy)
      → lt (multiplier fl policy) (of_int 0) ≡ false
      → (s : RetryStrategy) (initial attempt : ℕ)
      → lt (raw_delay fl s initial (multiplier fl policy) attempt) (of_int 0) ≡ false
  unfolding raw_delay
  multiplier_nonneg policy h RetryStrategy.fixed i n = of_int_mono 0 i (omega arith)
  multiplier_nonneg policy h RetryStrategy.linear i n = of_int_mono 0 _ (omega arith)
  multiplier_nonneg policy h RetryStrategy.exponential i n =
      mul_nonneg _ _ (of_int_mono 0 i (omega arith)) (pow_nonneg _ _ h)

  min_float_nonneg :
      (a b : Float)
      → lt a (of_int 0) ≡ false
      → lt b (of_int 0) ≡ false
      → lt (min_float fl a b) (of_int 0) ≡ false
  unfolding min_float
  min_float_nonneg a b h k = ground arith

  jittered-le :
      (jitter : Bool) (draw : ℕ) (c : Float)
      → lt c (of_int 0) ≡ false
      → lt c (if jitter then uniform draw (half c) c else c) ≡ false
  jittered-le true draw c h = uniform-le draw (half c) c (half-le c h)
  jittered-le false draw c h = lt_irrefl c

  -- the upper bound
  delay_at_most_max :
      (attempt : ℕ) (policy : Option RetryPolicy) (deterministic : Bool) (draw : ℕ)
      → lt (multiplier fl policy) (of_int 0) ≡ false
      → lt
          (max_float fl (of_int 1) (round2 (of_int (terms fl policy deterministic).max_int)))
          (calculate_delay fl attempt policy deterministic draw)
        ≡ false
  unfolding calculate_delay capped_delay
  delay_at_most_max attempt policy deterministic draw h =
      let t = terms fl policy deterministic in
      let raw = raw_delay fl t.strategy t.initial (multiplier fl policy) (max 1 attempt) in
      let capped = min_float fl (of_int t.max_int) raw in
      let nonneg : lt capped (of_int 0) ≡ false =
        min_float_nonneg _ raw (of_int_mono 0 _ (omega arith)) (multiplier_nonneg policy h _ _ _) in
      max_float_mono (of_int 1) _ _ (
        round2_mono _ _
          (le_trans _ capped _ (jittered-le t.use_jitter draw capped nonneg) (min_float-le _ raw)))

  -- the lower bound
  pub delay_in_future :
      (attempt : ℕ) (policy : Option RetryPolicy) (deterministic : Bool) (draw : ℕ)
      → (lt (of_int 0) (calculate_delay fl attempt policy deterministic draw) ≡ true)
        × (seconds 1 ≤ to_time (calculate_delay fl attempt policy deterministic draw))
  delay_in_future attempt policy deterministic draw =
      let d = calculate_delay fl attempt policy deterministic draw in
      let least = delay_at_least_one attempt policy deterministic draw in
      (
        ground (arith, zero-lt-one, le_trans (of_int 1) d (of_int 0)),
        rw (← to_time-one) (to_time_mono (of_int 1) d least),
      )

  -- Unless the multiplier of the policy is negative, on every attempt, under every strategy, with and
  -- without jitter: the delay is at most the policy's `max_interval_sec`, rounded, or one second if
  -- that is less, and the retry is put at least one second into the future, never at once.
  pub delay_within :
      (attempt : ℕ) (policy : Option RetryPolicy) (deterministic : Bool) (draw : ℕ)
      → lt (multiplier fl policy) (of_int 0) ≡ false
      → (lt
            (max_float fl (of_int 1) (round2 (of_int (terms fl policy deterministic).max_int)))
            (calculate_delay fl attempt policy deterministic draw)
          ≡ false)
        × (lt (of_int 0) (calculate_delay fl attempt policy deterministic draw) ≡ true)
        × (seconds 1 ≤ to_time (calculate_delay fl attempt policy deterministic draw))
  delay_within attempt policy deterministic draw h =
      let future = delay_in_future attempt policy deterministic draw in
      (delay_at_most_max attempt policy deterministic draw h, future.0, future.1)
