-- ===== src/Examples/Numbers.antt =====
-- Whole numbers in place of doubles: they satisfy what the retry delays ask of a `Floats`.
use job_schedular.Prelude.{ℕ, ◌+◌, ◌*◌, ◌/◌, ◌≤◌, ◌<◌, min, true, false, ◌≡◌, refl, ltb, arith}
use Prim.Native.Nat.{◌^◌}
use native.Mathlib.Nat.{pow-le-pow_right, mul-le-mul_left}
use job_schedular.Model.{seconds}
use job_schedular.Engine.Retry.{Floats}

pub lt_irrefl : (a : ℕ) → ltb a a ≡ false
lt_irrefl a = ground arith

pub lt_asymm : (a b : ℕ) → ltb a b ≡ true → ltb b a ≡ false
lt_asymm a b h = ground arith

pub le_trans : (a b c : ℕ) → ltb b a ≡ false → ltb c b ≡ false → ltb c a ≡ false
le_trans a b c h k = ground arith

pub of_int_mono : (m n : ℕ) → m ≤ n → ltb n m ≡ false
of_int_mono m n h = ground arith

pub nonneg : (a : ℕ) → ltb a 0 ≡ false
nonneg a = ground arith

pub mul_mono : (a b c : ℕ) → ltb c b ≡ false → ltb (a * c) (a * b) ≡ false
mul_mono a b c h = let le : b ≤ c = ground arith in of_int_mono _ _ (mul-le-mul_left a le)

pub pow_mono : (a m n : ℕ) → ltb a 1 ≡ false → m ≤ n → ltb (a ^ n) (a ^ m) ≡ false
pow_mono a m n h le =
    let positive : 0 < a = ground arith in of_int_mono _ _ (pow-le-pow_right positive le)

pub half-le : (a : ℕ) → ltb a (a / 2) ≡ false
half-le a = of_int_mono _ _ (omega arith)

pub uniform-le : (d a b : ℕ) → ltb b (min (a + d) b) ≡ false
uniform-le d a b = ground arith

pub to_time_mono : (a b : ℕ) → ltb b a ≡ false → seconds a ≤ seconds b
to_time_mono a b h = ground arith

abbrev pub whole_numbers : Floats
whole_numbers = record {
  Float = ℕ;
  of_int = λ n. n;
  of_bits = λ n. n;
  lt = ltb;
  mul = λ a b. a * b;
  pow = λ a n. a ^ n;
  half = λ a. a / 2;
  uniform = λ d a b. min (a + d) b;
  round2 = λ a. a;
  to_time = seconds;
  lt_irrefl = lt_irrefl;
  lt_asymm = lt_asymm;
  le_trans = le_trans;
  of_int_mono = of_int_mono;
  zero-lt-one = refl;
  mul_nonneg = λ a b h k. nonneg (a * b);
  mul_mono = λ a b c h k. mul_mono a b c k;
  pow_nonneg = λ a n h. nonneg (a ^ n);
  pow_mono = pow_mono;
  half-le = λ a h. half-le a;
  uniform-le = λ d a b h. uniform-le d a b;
  round2_mono = λ a b h. h;
  to_time_mono = to_time_mono;
  to_time-one = refl;
}
