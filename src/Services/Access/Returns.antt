-- ===== src/Services/Access/Returns.antt =====
-- Properties of what a service returns, step by step through its `do` block.
use job_schedular.Prelude.{refl, Option, none, some, Bool, true, false, ◌≡◌}
use job_schedular.Services.Access.{Error, Result, ok, err, ◌>>=◌, ◌>>◌, raise_unless, or_error}

-- `Q` holds of the value that is returned, if one is.
abbrev pub Returns {κ} : {A : Type 0} → (A → Type κ) → Result A → Type κ
Returns Q (ok a) = Q a
Returns Q (err e) = Unit

module _ {κ} {A : Type 0} where
  pub Returns-bind {μ} :
      {B : Type 0} (Q : A → Type κ) (R : B → Type μ) (m : Result A) (f : A → Result B)
      → Returns Q m
      → ((a : A) → Q a → Returns R (f a))
      → Returns R (m >>= f)
  Returns-bind Q R (ok a) f h k = k a h
  Returns-bind Q R (err e) f h k = tt

pub Returns-map :
    {A : Type 0} (Q R : A → Type 0) (m : Result A)
    → Returns Q m
    → ((a : A) → Q a → Returns R (ok a))
    → Returns R m
Returns-map Q R (ok a) h k = k a h
Returns-map Q R (err e) h k = tt

pub Returns-any : {A : Type 0} (m : Result A) → Returns (λ _. Unit {0}) m
Returns-any (ok a) = tt
Returns-any (err e) = tt

pub Returns-raise_unless {κ} :
    {B : Type 0} (R : B → Type κ) (b : Bool) (e : Error) (k : Result B)
    → Returns R k
    → Returns R (raise_unless b e >> k)
Returns-raise_unless R true e k h = h
Returns-raise_unless R false e k h = tt

-- What is returned is what is returned.
pub Returns-self : {A : Type 0} (m : Result A) → Returns (λ a. m ≡ ok a) m
Returns-self (ok a) = refl
Returns-self (err e) = tt

pub Returns-ok {κ} :
    {A : Type 0} (Q : A → Type κ) (m : Result A) (a : A) → m ≡ ok a → Returns Q m → Q a
Returns-ok Q m a e h = rw e at h

-- Computations that go on alike from every result are alike.
pub bind-cong {ℓ κ} :
    {A : Type ℓ} {B : Type κ} (m : Result A) (f g : A → Result B)
    → ((a : A) → f a ≡ g a)
    → (m >>= f) ≡ (m >>= g)
bind-cong (ok a) f g h = h a
bind-cong (err e) f g h = refl

pub Returns-or_error :
    {A : Type 0} (Q : A → Type 0) (o : Option A) (e : Error)
    → ((a : A) → o ≡ some a → Q a)
    → Returns Q (or_error o e)
Returns-or_error Q none e h = tt
Returns-or_error Q (some a) e h = h a refl
