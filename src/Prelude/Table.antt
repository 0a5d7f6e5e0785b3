-- ===== src/Prelude/Table.antt =====
-- Tables as lists of rows: the SELECT, UPDATE and COUNT forms that the program's statements use,
-- and how a property of every row passes through them.
use Prim.Native.Nat.{ℕ, zero, suc, ◌+◌}
use mathlib.Core.Path.{◌≡◌, refl, subst}
use mathlib.Core.Logic.{inl, inr}
use mathlib.Core.Bool.{Bool, true, false, ◌||◌}
use mathlib.Core.Option.{Option, none, some}
use mathlib.Core.List.{List, [], ◌∷◌, ◌++◌}
use job_schedular.Prelude.Tests.{if◌then◌else◌, Bool-cases}

module _ {ℓ} {A : Type ℓ} where
  abbrev pub length : List A → ℕ
  length [] = 0
  length (x ∷ xs) = suc (length xs)

  abbrev pub take : ℕ → List A → List A
  take zero xs = []
  take (suc n) [] = []
  take (suc n) (x ∷ xs) = x ∷ take n xs

  abbrev pub drop : ℕ → List A → List A
  drop zero xs = xs
  drop (suc n) [] = []
  drop (suc n) (x ∷ xs) = drop n xs

  -- SELECT … WHERE p
  unfoldable pub select_where : (A → Bool) → List A → List A
  select_where p [] = []
  select_where p (x ∷ xs) = let rest = select_where p xs in if p x then x ∷ rest else rest

  -- the first row of SELECT … WHERE p
  unfoldable pub find_where : (A → Bool) → List A → Option A
  find_where p [] = none
  find_where p (x ∷ xs) = if p x then some x else find_where p xs

  -- UPDATE … SET f WHERE p
  unfoldable pub update_where : (A → Bool) → (A → A) → List A → List A
  update_where p f [] = []
  update_where p f (x ∷ xs) = (if p x then f x else x) ∷ update_where p f xs

  -- SELECT COUNT(*) … WHERE p
  unfoldable pub count_where : (A → Bool) → List A → ℕ
  count_where p [] = 0
  count_where p (x ∷ xs) = (if p x then 1 else 0) + count_where p xs

  -- EXISTS (SELECT … WHERE p)
  unfoldable pub any_where : (A → Bool) → List A → Bool
  any_where p [] = false
  any_where p (x ∷ xs) = p x || any_where p xs

  abbrev pub All {κ} : (A → Type κ) → List A → Type κ
  All P [] = Unit
  All P (x ∷ xs) = P x × All P xs

pub true≢false : true ≡ false → ⊥
true≢false e = cc

module _ {ℓ κ} {A : Type ℓ} (P : A → Type κ) where
  pub All-append : (xs ys : List A) → All P xs → All P ys → All P (xs ++ ys)
  All-append [] ys hx hy = hy
  All-append (x ∷ xs) ys hx hy = (hx.0, All-append xs ys hx.1 hy)

  if_intro : (b : Bool) (x y : A) → (b ≡ true → P x) → P y → P (if b then x else y)
  if_intro true x y h k = h refl
  if_intro false x y h k = k

  pub All-update_where :
      (p : A → Bool) (f : A → A)
      → ((x : A) → P x → p x ≡ true → P (f x))
      → (xs : List A) → All P xs
      → All P (update_where p f xs)
  unfolding update_where
  All-update_where p f keep [] h = tt
  All-update_where p f keep (x ∷ xs) h =
      (if_intro (p x) (f x) x (keep x h.0) h.0, All-update_where p f keep xs h.1)

  pub All-select_where : (p : A → Bool) (xs : List A) → All P xs → All P (select_where p xs)
  unfolding select_where
  All-select_where p [] h = tt
  All-select_where p (x ∷ xs) h = go (p x) (All-select_where p xs h.1)
    where
      go :
          (b : Bool)
          → All P (select_where p xs)
          → All P (if b then x ∷ select_where p xs else select_where p xs)
      go true rest = (h.0, rest)
      go false rest = rest

  none≢some : {a : A} → none ≡ some a → ⊥
  none≢some e = cc

  -- A row that is found has every property that all rows have.
  pub All-find_where :
      (p : A → Bool) (xs : List A) (a : A) → All P xs → find_where p xs ≡ some a → P a
  unfolding find_where
  All-find_where p [] a h e = absurd (none≢some e)
  All-find_where p (x ∷ xs) a h e = elim (Bool-cases (p x)) [
    | inl px ↦ let q : some x ≡ some a = rw px at e in subst P (cc q) h.0
    | inr px ↦ All-find_where p xs a h.1 (rw px at e)
  ]
