-- ===== src/Services/Figures.antt =====
-- The figures that responses round: the arithmetic of doubles is the host's. An age and a mean are
-- the bits of a double, a percentage with one decimal counts tenths.
use job_schedular.Prelude.{ℕ, ◌+◌, ◌-◌, String, Bool, List, [], ◌∷◌, if◌then◌else◌, leb, ltb}
use job_schedular.Model.{Time}

pub record Figures : Type 0 where
  -- int(d.total_seconds() * 1000)
  pub millis : Time → ℕ
  -- round(d.total_seconds(), 2), and with one decimal
  pub age2 : Time → ℕ
  pub age1 : Time → ℕ
  -- round(AVG(…) * 1000.0, 1) of so many durations with this sum
  pub mean_ms : Time → ℕ → ℕ
  -- round(a / b * 100.0, 1)
  pub percent : ℕ → ℕ → ℕ
  -- round(n / 60.0, 2), and round(float(AVG(…) or 0.0), 1)
  pub per_second : ℕ → ℕ
  pub mean1 : List ℕ → ℕ
  -- PostgreSQL's ILIKE, and its order of texts
  pub ilike : String → String → Bool
  pub text_le : String → String → Bool

-- max(0, int((b - a).total_seconds() * 1000))
abbrev pub elapsed_ms : Figures → Time → Time → ℕ
elapsed_ms figures a b = if leb b a then 0 else figures.millis (b - a)

-- min(xs, key=…) and max(xs, key=…) of a list that starts with `x`: the first of the best
module _ {A : Type 0} (key : A → ℕ) where
  unfoldable pub first_min : A → List A → A
  first_min x [] = x
  first_min x (y ∷ ys) = first_min (if ltb (key y) (key x) then y else x) ys

  unfoldable pub first_max : A → List A → A
  first_max x [] = x
  first_max x (y ∷ ys) = first_max (if ltb (key x) (key y) then y else x) ys

  -- SELECT SUM(key)
  unfoldable pub sum_of : List A → ℕ
  sum_of [] = 0
  sum_of (x ∷ xs) = key x + sum_of xs
