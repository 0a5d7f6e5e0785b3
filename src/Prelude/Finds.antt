-- ===== src/Prelude/Finds.antt =====
-- Looking up a row: whether one is there, and what an INSERT at the end changes.
use mathlib.Core.Path.{◌≡◌, refl, ap, subst}
use mathlib.Core.Logic.{inl, inr}
use mathlib.Core.Bool.{Bool, true, false}
use mathlib.Core.Option.{none, some}
use mathlib.Core.List.{List, [], ◌∷◌, ◌++◌}
use native.Mathlib.Omega.{arith}
use job_schedular.Prelude.Tests.{is_some, Bool-cases}
use job_schedular.Prelude.Table.{find_where, update_where, any_where, All}

module _ {ℓ} {A : Type ℓ} (p : A → Bool) where
  pub any_where-find_where : (xs : List A) → any_where p xs ≡ is_some (find_where p xs)
  unfolding any_where find_where
  any_where-find_where [] = refl
  any_where-find_where (x ∷ xs) = elim (Bool-cases (p x)) [
    | inl px ↦ rw px refl
    | inr px ↦ rw px (any_where-find_where xs)
  ]

  pub find_where-absent : (xs : List A) → any_where p xs ≡ false → find_where p xs ≡ none
  unfolding any_where find_where
  find_where-absent [] h = refl
  find_where-absent (x ∷ xs) h = ground (arith, find_where-absent xs)

  pub find_where-insert :
      (xs : List A) (x : A)
      → find_where p xs ≡ none
      → p x ≡ true
      → find_where p (xs ++ x ∷ []) ≡ some x
  unfolding find_where
  find_where-insert [] x none_yet px = rw px refl
  find_where-insert (y ∷ ys) x none_yet px = elim (Bool-cases (p y)) [
    | inl py ↦ absurd (some≢none (rw py at none_yet))
    | inr py ↦ rw py (find_where-insert ys x (rw py at none_yet) px)
  ]
    where
      some≢none : some y ≡ none → ⊥
      some≢none e = cc

  pub any_where-append : (xs ys : List A) → any_where p xs ≡ true → any_where p (xs ++ ys) ≡ true
  unfolding any_where
  any_where-append (x ∷ xs) ys h = elim (Bool-cases (p x)) [
    | inl px ↦ rw px refl
    | inr px ↦ rw px (any_where-append xs ys (rw px at h))
  ]
  any_where-append [] ys h = absurd (false≢true h)
    where
      false≢true : false ≡ true → ⊥
      false≢true e = cc

  pub any_where-last : (xs : List A) (x : A) → p x ≡ true → any_where p (xs ++ x ∷ []) ≡ true
  unfolding any_where
  any_where-last [] x px = rw px refl
  any_where-last (y ∷ ys) x px = rw (any_where-last ys x px) (ground arith)

  pub find_where-none : (xs : List A) → All (λ x. p x ≡ false) xs → find_where p xs ≡ none
  unfolding find_where
  find_where-none [] h = refl
  find_where-none (x ∷ xs) h = rw h.0 (find_where-none xs h.1)

  pub find_where-passes : (xs : List A) (x : A) → find_where p xs ≡ some x → p x ≡ true
  unfolding find_where
  find_where-passes [] x e = absurd (none≢some e)
    where
      none≢some : none ≡ some x → ⊥
      none≢some h = cc
  find_where-passes (y ∷ ys) x e = elim (Bool-cases (p y)) [
    | inl py ↦ let q : some y ≡ some x = rw py at e in subst (λ z. p z ≡ true) (cc q) py
    | inr py ↦ find_where-passes ys x (rw py at e)
  ]

  -- The row that is found, after an UPDATE that hits it and keeps the test.
  pub find_where-update :
      (q : A → Bool) (f : A → A)
      → ((x : A) → p (f x) ≡ p x)
      → (xs : List A) (r : A) → find_where p xs ≡ some r
      → q r ≡ true
      → find_where p (update_where q f xs) ≡ some (f r)
  unfolding find_where update_where
  find_where-update q f same [] r e hit = absurd (none≢some e)
    where
      none≢some : none ≡ some r → ⊥
      none≢some h = cc
  find_where-update q f same (x ∷ xs) r e hit = elim (Bool-cases (p x)) [
    | inl px ↦
        let here : x ≡ r = let e' : some x ≡ some r = rw px at e in cc e' in
        let hx : q x ≡ true = rw here hit in rw (hx, same x, px) (ap (λ z. some (f z)) here)
    | inr px ↦
        let rest = find_where-update q f same xs r (rw px at e) hit in
        elim (Bool-cases (q x)) [ inl qx ↦ rw (qx, same x, px) rest | inr qx ↦ rw (qx, px) rest ]
  ]

  -- A row that is found and passes another test.
  pub any_where_found :
      (q : A → Bool) (xs : List A) (x : A)
      → find_where p xs ≡ some x
      → q x ≡ true
      → any_where q xs ≡ true
  unfolding find_where any_where
  any_where_found q [] x e hit = absurd (none≢some e)
    where
      none≢some : none ≡ some x → ⊥
      none≢some h = cc
  any_where_found q (y ∷ ys) x e hit = elim (Bool-cases (p y)) [
    | inl py ↦
        let same : y ≡ x = let e' : some y ≡ some x = rw py at e in cc e' in
        let qy : q y ≡ true = rw same hit in rw qy refl
    | inr py ↦ rw (any_where_found q ys x (rw py at e) hit) (ground arith)
  ]

  pub any_where_mono :
      (q : A → Bool)
      → ((x : A) → p x ≡ true → q x ≡ true)
      → (xs : List A) → any_where p xs ≡ true
      → any_where q xs ≡ true
  unfolding any_where
  any_where_mono q f [] h = absurd (false≢true h)
    where
      false≢true : false ≡ true → ⊥
      false≢true e = cc
  any_where_mono q f (x ∷ xs) h = elim (Bool-cases (p x)) [
    | inl px ↦ rw (f x px) refl
    | inr px ↦ rw (any_where_mono q f xs (rw px at h)) (ground arith)
  ]
