-- ===== src/Model/Values.antt =====
-- The values that rows hold: a UUID and an instant are numbers, an instant in microseconds, and
-- JSON is its text.
use job_schedular.Prelude.{ℕ, ◌*◌, String, Option}

abbrev pub Uuid : Type 0
Uuid = ℕ

abbrev pub Time : Type 0
Time = ℕ

abbrev pub Json : Type 0
Json = String

-- timedelta(seconds=n)
abbrev pub seconds : ℕ → Time
seconds n = n * 1000000

-- The texts that the program composes, each with the values put into it.
pub data Message : Type 0 where
  plain : String → Message
  parent_failed : Uuid → Message
  exhausted_attempts : ℕ → Option String → Message
  expired_after_attempts : ℕ → Message
