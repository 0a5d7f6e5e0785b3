-- ===== src/Engine/Retry.antt =====
-- worker/app/engine/retry.py: the delay before the next attempt of a failed job. Doubles are
-- the host's: `Floats` names the operations that the calculation uses and what it relies on.
pub mod Bounds
pub mod Growth
use job_schedular.Prelude.{
  ℕ, ◌-◌, ◌*◌, ◌≤◌, max, Bool, true, false, Option, none, some, ◌≡◌, if◌then◌else◌,
}
use job_schedular.Model.{RetryPolicy, RetryStrategy, seconds}

-- The arithmetic of finite doubles, `round(x, 2)`, `random.uniform` with its random draw, and
-- `timedelta(seconds=x)` in microseconds.
pub record Floats : Type 1 where
  pub Float : Type 0
  pub of_int : ℕ → Float
  pub of_bits : ℕ → Float
  pub lt : Float → Float → Bool
  pub mul : Float → Float → Float
  pub pow : Float → ℕ → Float
  pub half : Float → Float
  pub uniform : ℕ → Float → Float → Float
  pub round2 : Float → Float
  pub to_time : Float → ℕ
  pub lt_irrefl : (a : Float) → lt a a ≡ false
  pub lt_asymm : (a b : Float) → lt a b ≡ true → lt b a ≡ false
  pub le_trans : (a b c : Float) → lt b a ≡ false → lt c b ≡ false → lt c a ≡ false
  pub of_int_mono : (m n : ℕ) → m ≤ n → lt (of_int n) (of_int m) ≡ false
  pub zero-lt-one : lt (of_int 0) (of_int 1) ≡ true
  pub mul_nonneg :
      (a b : Float)
      → lt a (of_int 0) ≡ false
      → lt b (of_int 0) ≡ false
      → lt (mul a b) (of_int 0) ≡ false
  pub mul_mono :
      (a b c : Float) → lt a (of_int 0) ≡ false → lt c b ≡ false → lt (mul a c) (mul a b) ≡ false
  pub pow_nonneg : (a : Float) (n : ℕ) → lt a (of_int 0) ≡ false → lt (pow a n) (of_int 0) ≡ false
  pub pow_mono :
      (a : Float) (m n : ℕ) → lt a (of_int 1) ≡ false → m ≤ n → lt (pow a n) (pow a m) ≡ false
  pub half-le : (a : Float) → lt a (of_int 0) ≡ false → lt a (half a) ≡ false
  pub uniform-le : (d : ℕ) (a b : Float) → lt b a ≡ false → lt b (uniform d a b) ≡ false
  pub round2_mono : (a b : Float) → lt b a ≡ false → lt (round2 b) (round2 a) ≡ false
  pub to_time_mono : (a b : Float) → lt b a ≡ false → to_time a ≤ to_time b
  pub to_time-one : to_time (of_int 1) ≡ seconds 1

-- The parameters of a policy as the calculation reads them.
pub record Terms : Type 0 where
  pub strategy : RetryStrategy
  pub initial : ℕ
  pub max_int : ℕ
  pub use_jitter : Bool

module _ (fl : Floats) where
  open fl use {Float, of_int, of_bits, lt, mul, pow, half, uniform, round2}

  -- min(a, b) and max(a, b): the second argument only where it is strictly beyond the first
  unfoldable pub min_float : Float → Float → Float
  min_float a b = if lt b a then b else a

  unfoldable pub max_float : Float → Float → Float
  max_float a b = if lt a b then b else a

  unfoldable pub terms : Option RetryPolicy → Bool → Terms
  terms none deterministic = record {
    strategy = RetryStrategy.exponential;
    initial = 5;
    max_int = 3600;
    use_jitter = true;
  }
  terms (some policy) deterministic = record {
    strategy = policy.strategy;
    initial = policy.initial_interval_sec;
    max_int = policy.max_interval_sec;
    use_jitter = if deterministic then false else policy.jitter;
  }

  unfoldable pub multiplier : Option RetryPolicy → Float
  multiplier none = of_int 2
  multiplier (some policy) = of_bits policy.backoff_multiplier

  unfoldable pub raw_delay : RetryStrategy → ℕ → Float → ℕ → Float
  raw_delay RetryStrategy.fixed initial mult attempt_idx = of_int initial
  raw_delay RetryStrategy.linear initial mult attempt_idx = of_int (initial * attempt_idx)
  raw_delay RetryStrategy.exponential initial mult attempt_idx =
      mul (of_int initial) (pow mult (attempt_idx - 1))

  unfoldable pub capped_delay : Option RetryPolicy → Bool → ℕ → Float
  unfolding terms multiplier raw_delay min_float
  capped_delay policy deterministic attempt_number =
      let t = terms policy deterministic in
      min_float (of_int t.max_int)
        (raw_delay t.strategy t.initial (multiplier policy) (max 1 attempt_number))

  -- `draw` is the random number behind `random.uniform`.
  unfoldable pub calculate_delay : ℕ → Option RetryPolicy → Bool → ℕ → Float
  unfolding capped_delay max_float
  calculate_delay attempt_number policy deterministic draw =
      let capped = capped_delay policy deterministic attempt_number in
      let t = terms policy deterministic in
      max_float (of_int 1)
        (round2 (if t.use_jitter then uniform draw (half capped) capped else capped))
