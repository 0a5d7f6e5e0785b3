-- ===== src/Prelude/Updates.antt =====
-- What UPDATE and SELECT make of a property of every row.
use mathlib.Core.Path.{◌≡◌, refl, sym, ap, ap₂, subst, ◌∙◌}
use mathlib.Core.Logic.{inl, inr}
use mathlib.Core.Bool.{Bool, true, false}
use mathlib.Core.List.{List, [], ◌∷◌, ◌++◌, map}
use job_schedular.Prelude.Tests.{Bool-cases}
use job_schedular.Prelude.Table.{All, select_where, update_where, true≢false}

module _ {ℓ} {A : Type ℓ} where
  -- An UPDATE establishes what its rows have after it and the others have anyway.
  pub All-update_where_of {κ} :
      (Q : A → Type κ) (p : A → Bool) (f : A → A)
      → ((x : A) → p x ≡ true → Q (f x))
      → ((x : A) → p x ≡ false → Q x)
      → (xs : List A) → All Q (update_where p f xs)
  unfolding update_where
  All-update_where_of Q p f hit miss [] = tt
  All-update_where_of Q p f hit miss (x ∷ xs) = (
    elim (Bool-cases (p x)) [ inl e ↦ rw e (hit x e) | inr e ↦ rw e (miss x e) ],
    All-update_where_of Q p f hit miss xs,
  )

  -- An UPDATE takes one property of all rows to another.
  pub All-update_where_to {κ μ} :
      (P : A → Type κ) (Q : A → Type μ) (p : A → Bool) (f : A → A)
      → ((x : A) → P x → p x ≡ true → Q (f x))
      → ((x : A) → P x → p x ≡ false → Q x)
      → (xs : List A) → All P xs
      → All Q (update_where p f xs)
  unfolding update_where
  All-update_where_to P Q p f hit miss [] h = tt
  All-update_where_to P Q p f hit miss (x ∷ xs) h = (
    elim (Bool-cases (p x)) [ inl e ↦ rw e (hit x h.0 e) | inr e ↦ rw e (miss x h.0 e) ],
    All-update_where_to P Q p f hit miss xs h.1,
  )

  pub All-map {κ μ} :
      (P : A → Type κ) (Q : A → Type μ)
      → ((x : A) → P x → Q x)
      → (xs : List A) → All P xs
      → All Q xs
  All-map P Q f [] h = tt
  All-map P Q f (x ∷ xs) h = (f x h.0, All-map P Q f xs h.1)

  pub select_where-hit :
      (p : A → Bool) (x : A) (xs : List A)
      → p x ≡ true
      → x ∷ select_where p xs ≡ select_where p (x ∷ xs)
  unfolding select_where
  select_where-hit p x xs e = rw e

  pub select_where-miss :
      (p : A → Bool) (x : A) (xs : List A)
      → p x ≡ false
      → select_where p xs ≡ select_where p (x ∷ xs)
  unfolding select_where
  select_where-miss p x xs e = rw e

  pub All-of_select_where {κ} :
      (P : A → Type κ) (p : A → Bool) (xs : List A)
      → All P (select_where p xs)
      → All (λ x. p x ≡ true → P x) xs
  unfolding select_where
  All-of_select_where P p [] h = tt
  All-of_select_where P p (x ∷ xs) h = elim (Bool-cases (p x)) [
    | inl e ↦
        let h' : P x × All P (select_where p xs) = rw e at h in
        ((λ _. h'.0), All-of_select_where P p xs h'.1)
    | inr e ↦ ((λ e'. absurd (true≢false (sym e' ∙ e))), All-of_select_where P p xs (rw e at h))
  ]

  -- Every row that is selected passes the test.
  pub select_where-passes : (p : A → Bool) (xs : List A) → All (λ x. p x ≡ true) (select_where p xs)
  unfolding select_where
  select_where-passes p [] = tt
  select_where-passes p (x ∷ xs) = elim (Bool-cases (p x)) [
    | inl e ↦
        subst (All (λ y. p y ≡ true)) (select_where-hit p x xs e) (e, select_where-passes p xs)
    | inr e ↦ subst (All (λ y. p y ≡ true)) (select_where-miss p x xs e) (select_where-passes p xs)
  ]

  -- An UPDATE that leaves a column alone.
  pub map-update_where {κ} :
      {B : Type κ} (g : A → B) (p : A → Bool) (f : A → A)
      → ((x : A) → g (f x) ≡ g x)
      → (xs : List A) → map g (update_where p f xs) ≡ map g xs
  unfolding update_where
  map-update_where g p f same [] = refl
  map-update_where g p f same (x ∷ xs) = elim (Bool-cases (p x)) [
    | inl e ↦ rw e (ap₂ ◌∷◌ (same x) (map-update_where g p f same xs))
    | inr e ↦ rw e (ap (◌∷◌ (g x)) (map-update_where g p f same xs))
  ]

  -- Two UPDATEs of the same rows are one.
  pub update_where-update_where :
      (p : A → Bool) (f g : A → A)
      → ((x : A) → p (f x) ≡ p x)
      → (xs : List A) → update_where p g (update_where p f xs) ≡ update_where p (λ x. g (f x)) xs
  unfolding update_where
  update_where-update_where p f g same [] = refl
  update_where-update_where p f g same (x ∷ xs) =
      ap₂ ◌∷◌ (elim (Bool-cases (p x)) [ inl e ↦ rw (e, same x, e) | inr e ↦ rw (e, e) ])
        (update_where-update_where p f g same xs)

  -- An UPDATE that brings no row into a selection and touches none that is in it.
  pub select_where-update_where :
      (s p : A → Bool) (f : A → A)
      → ((x : A) → s x ≡ false → p x ≡ true → s (f x) ≡ false)
      → (xs : List A) → All (λ x. s x ≡ true → p x ≡ false) xs
      → select_where s (update_where p f xs) ≡ select_where s xs
  unfolding update_where select_where
  select_where-update_where s p f out [] h = refl
  select_where-update_where s p f out (x ∷ xs) h =
      let rest = select_where-update_where s p f out xs h.1 in
      elim (Bool-cases (s x)) [
        | inl e ↦ rw (h.0 e, e) (ap (◌∷◌ x) rest)
        | inr e ↦ elim (Bool-cases (p x)) [
          | inl hit ↦ rw (hit, out x e hit, e) rest
          | inr miss ↦ rw (miss, e) rest
        ]
      ]

  -- An UPDATE that no row enters or leaves the selection by.
  pub select_where-update_where_within :
      (s p : A → Bool) (f : A → A)
      → ((x : A) → s (f x) ≡ s x)
      → (xs : List A) → select_where s (update_where p f xs) ≡ update_where p f (select_where s xs)
  unfolding update_where select_where
  select_where-update_where_within s p f same [] = refl
  select_where-update_where_within s p f same (x ∷ xs) =
      let rest = select_where-update_where_within s p f same xs in
      elim (Bool-cases (s x)) [
        | inl e ↦ elim (Bool-cases (p x)) [
          | inl hit ↦ rw (e, hit, same x, e) (ap (◌∷◌ (f x)) rest)
          | inr miss ↦ rw (e, miss, e) (ap (◌∷◌ x) rest)
        ]
        | inr e ↦ elim (Bool-cases (p x)) [
          | inl hit ↦ rw (e, hit, same x, e) rest
          | inr miss ↦ rw (e, miss, e) rest
        ]
      ]

  -- An INSERT of a row that a selection leaves out.
  pub select_where-append :
      (s : A → Bool) (xs : List A) (x : A)
      → s x ≡ false
      → select_where s (xs ++ x ∷ []) ≡ select_where s xs
  unfolding select_where
  select_where-append s [] x out = rw out refl
  select_where-append s (y ∷ ys) x out = rw (select_where-append s ys x out) refl

  -- A DELETE that spares every row of a selection.
  pub select_where-select_where :
      (s keep : A → Bool) (xs : List A)
      → All (λ x. s x ≡ true → keep x ≡ true) xs
      → select_where s (select_where keep xs) ≡ select_where s xs
  unfolding select_where
  select_where-select_where s keep [] h = refl
  select_where-select_where s keep (x ∷ xs) h =
      let rest = select_where-select_where s keep xs h.1 in
      elim (Bool-cases (s x)) [
        | inl e ↦ rw (h.0 e, e) (ap (◌∷◌ x) rest)
        | inr e ↦ elim (Bool-cases (keep x)) [
          | inl stays ↦ rw (stays, e) rest
          | inr goes ↦ rw (goes, e) rest
        ]
      ]
