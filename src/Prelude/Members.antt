-- ===== src/Prelude/Members.antt =====
-- A row of a table, and what it has in common with the rows around it.
use Prim.Native.Nat.{ℕ, zero, suc}
use mathlib.Core.Path.{◌≡◌, refl, sym, subst}
use mathlib.Core.Logic.{◌≢◌, ◌⊎◌, inl, inr}
use mathlib.Core.Bool.{Bool, true}
use mathlib.Core.List.{List, [], ◌∷◌}
use native.Mathlib.Omega.{arith}
use job_schedular.Prelude.Tests.{Bool-cases}
use job_schedular.Prelude.Table.{All, take, select_where, update_where, count_where}
use job_schedular.Prelude.Updates.{All-map, select_where-hit, select_where-miss}

module _ {A : Type 0} where
  abbrev pub Stored : A → List A → Type 0
  Stored x [] = ⊥
  Stored x (y ∷ ys) = (x ≡ y) ⊎ Stored x ys

  pub All-Stored : (xs : List A) → All (λ x. Stored x xs) xs
  All-Stored [] = tt
  All-Stored (x ∷ xs) = (
    inl refl,
    All-map (λ y. Stored y xs) (λ y. Stored y (x ∷ xs)) (λ y h. inr h) xs (All-Stored xs),
  )

  pub count_where-Stored :
      (p : A → Bool) (x : A) (xs : List A) → Stored x xs → p x ≡ true → count_where p xs ≢ 0
  unfolding count_where
  count_where-Stored p x [] h px = absurd h
  count_where-Stored p x (y ∷ ys) (inl e) px =
      rw (sym e, px) (λ none_left. omega (arith, none_left))
  count_where-Stored p x (y ∷ ys) (inr h) px =
      let rest = count_where-Stored p x ys h px in λ none_left. rest (ground (arith, none_left))

  pub Stored-update_where :
      (p : A → Bool) (f : A → A) (x : A) (xs : List A)
      → Stored x xs
      → p x ≡ true
      → Stored (f x) (update_where p f xs)
  unfolding update_where
  Stored-update_where p f x [] h px = absurd h
  Stored-update_where p f x (y ∷ ys) (inl e) px = inl (rw (sym e, px) refl)
  Stored-update_where p f x (y ∷ ys) (inr h) px = inr (Stored-update_where p f x ys h px)

  pub All-take {κ} : (P : A → Type κ) (n : ℕ) (xs : List A) → All P xs → All P (take n xs)
  All-take P zero xs h = tt
  All-take P (suc n) [] h = tt
  All-take P (suc n) (x ∷ xs) h = (h.0, All-take P n xs h.1)

  -- The rows of a SELECT … WHERE have what the test gives to rows of the table.
  pub All-selected {κ} :
      {P : A → Type κ} {Q : A → Type κ} (p : A → Bool)
      → ((x : A) → P x → p x ≡ true → Q x)
      → (xs : List A) → All P xs
      → All Q (select_where p xs)
  unfolding select_where
  All-selected p f [] h = tt
  All-selected {Q = Q} p f (x ∷ xs) h = elim (Bool-cases (p x)) [
    | inl px ↦ subst (All Q) (select_where-hit p x xs px) (f x h.0 px, All-selected p f xs h.1)
    | inr px ↦ subst (All Q) (select_where-miss p x xs px) (All-selected p f xs h.1)
  ]
