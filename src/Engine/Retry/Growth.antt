-- ===== src/Engine/Retry/Growth.antt =====
-- How the delay grows with the number of attempts.
use job_schedular.Prelude.{ℕ, ◌*◌, ◌≤◌, max, true, false, some, ◌≡◌, arith}
use job_schedular.Model.{RetryPolicy, RetryStrategy}
use job_schedular.Engine.Retry.{
  Floats, min_float, terms, multiplier, raw_delay, capped_delay, calculate_delay,
}
use job_schedular.Engine.Retry.Bounds.{max_float_mono}

module _ (fl : Floats) where
  open fl use {
    Float, of_int, lt, mul, pow, half, uniform, round2, lt_irrefl, lt_asymm, le_trans, of_int_mono,
    mul_mono, pow_mono, round2_mono,
  }

  linear_mono : (i m n : ℕ) → m ≤ n → i * max 1 m ≤ i * max 1 n
  linear_mono i m n h = grind arith

  raw_delay_mono :
      (s : RetryStrategy) (i : ℕ) (mult : Float) (m n : ℕ)
      → lt mult (of_int 1) ≡ false
      → m ≤ n
      → lt (raw_delay fl s i mult (max 1 n)) (raw_delay fl s i mult (max 1 m)) ≡ false
  unfolding raw_delay
  raw_delay_mono RetryStrategy.fixed i mult m n h le = lt_irrefl _
  raw_delay_mono RetryStrategy.linear i mult m n h le = of_int_mono _ _ (linear_mono i m n le)
  raw_delay_mono RetryStrategy.exponential i mult m n h le =
      mul_mono _ _ _ (of_int_mono 0 i (omega arith)) (pow_mono mult _ _ h (omega arith))

  min_float_mono :
      (a b c : Float) → lt c b ≡ false → lt (min_float fl a c) (min_float fl a b) ≡ false
  unfolding min_float
  min_float_mono a b c h = ground (
    arith,
    lt_irrefl a,
    lt_irrefl b,
    lt_irrefl c,
    lt_asymm c a,
    lt_asymm b a,
    le_trans a b c,
    le_trans b c a,
  )

  -- With a policy and `deterministic=True` the delay never falls from one attempt to a later
  -- one, if the multiplier is at least one.
  pub delay_grows :
      (m n : ℕ) (policy : RetryPolicy) (draw draw' : ℕ)
      → lt (multiplier fl (some policy)) (of_int 1) ≡ false
      → m ≤ n
      → lt
          (calculate_delay fl n (some policy) true draw)
          (calculate_delay fl m (some policy) true draw')
        ≡ false
  unfolding calculate_delay capped_delay terms
  delay_grows m n policy draw draw' h le =
      max_float_mono fl _ _ _
        (round2_mono _ _ (min_float_mono _ _ _ (raw_delay_mono policy.strategy _ _ m n h le)))
