-- ===== src/Prelude/Counts.antt =====
-- Counting rows.
use Prim.Native.Nat.{◌+◌, ◌≤◌}
use mathlib.Core.Path.{◌≡◌, refl, sym, ◌∙◌}
use mathlib.Core.Logic.{inl, inr, ◌≢◌}
use mathlib.Core.Bool.{Bool, true, false}
use mathlib.Core.List.{List, [], ◌∷◌}
use native.Mathlib.Omega.{arith}
use job_schedular.Prelude.Tests.{Bool-cases}
use job_schedular.Prelude.Table.{All, count_where, update_where, true≢false}
use job_schedular.Prelude.Updates.{All-map}

module _ {ℓ} {A : Type ℓ} where
  pub count_where-zero :
      (p : A → Bool) (xs : List A) → All (λ x. p x ≡ false) xs → count_where p xs ≡ 0
  unfolding count_where
  count_where-zero p [] h = refl
  count_where-zero p (x ∷ xs) h = rw h.0 (omega (arith, count_where-zero p xs h.1))

  pub All-count_where_zero :
      (p : A → Bool) (xs : List A) → count_where p xs ≡ 0 → All (λ x. p x ≡ false) xs
  unfolding count_where
  All-count_where_zero p [] h = tt
  All-count_where_zero p (x ∷ xs) h = (ground arith, All-count_where_zero p xs (ground arith))

  -- An UPDATE adds to a count at most the rows that it hits.
  pub count_where-update_where :
      (c p : A → Bool) (f : A → A) (xs : List A)
      → count_where c (update_where p f xs) ≤ count_where c xs + count_where p xs
  unfolding count_where update_where
  count_where-update_where c p f [] = omega arith
  count_where-update_where c p f (x ∷ xs) = ground (arith, count_where-update_where c p f xs)

  pub count_where_mono :
      (p q : A → Bool)
      → ((x : A) → p x ≡ true → q x ≡ true)
      → (xs : List A) → count_where p xs ≤ count_where q xs
  unfolding count_where
  count_where_mono p q h [] = omega arith
  count_where_mono p q h (x ∷ xs) = elim (Bool-cases (p x)) [
    | inl e ↦ rw (e, h x e) (omega (arith, count_where_mono p q h xs))
    | inr e ↦ rw e (omega (arith, count_where_mono p q h xs))
  ]

  -- Of the rows that `q` singles out at most one, all pass a narrower test that one passes.
  pub only_row_passes :
      (p q : A → Bool)
      → ((x : A) → p x ≡ true → q x ≡ true)
      → (xs : List A) → count_where q xs ≤ 1
      → count_where p xs ≢ 0
      → All (λ x. q x ≡ true → p x ≡ true) xs
  unfolding count_where
  only_row_passes p q h [] one some_row = tt
  only_row_passes p q h (x ∷ xs) one some_row = elim (Bool-cases (p x)) [
    | inl e ↦
        let others : count_where q xs ≡ 0 = omega (arith, rw (h x e) at one) in
        (
          (λ _. e),
          All-map (λ y. q y ≡ false) _ (λ y no_q yes_q. absurd (true≢false (sym yes_q ∙ no_q))) xs
              (All-count_where_zero q xs others),
        )
    | inr e ↦
        let some_other : count_where p xs ≢ 0 = λ z. some_row (rw e (omega (arith, z))) in
        (
          λ yes. absurd (some_other (omega (arith, count_where_mono p q h xs, rw yes at one))),
          only_row_passes p q h xs (omega (arith, one)) some_other,
        )
  ]

  pub count_where-update_same :
      (p q : A → Bool) (f : A → A)
      → ((x : A) → p (f x) ≡ p x)
      → (xs : List A) → count_where p (update_where q f xs) ≡ count_where p xs
  unfolding count_where update_where
  count_where-update_same p q f same [] = refl
  count_where-update_same p q f same (x ∷ xs) = elim (Bool-cases (q x)) [
    | inl h ↦ rw (h, same x, count_where-update_same p q f same xs) refl
    | inr h ↦ rw (h, count_where-update_same p q f same xs) refl
  ]
