-- ===== src/Prelude/Sort.antt =====
-- ORDER BY: insertion sort by a test `before x y`, "x may stand before y".
use Prim.Native.Nat.{suc}
use mathlib.Core.Path.{◌≡◌, refl, ap, ◌∙◌}
use mathlib.Core.Bool.{Bool, true, false}
use mathlib.Core.List.{List, [], ◌∷◌, Perm}
use mathlib.Core.List.Perm
use mathlib.Core.Logic.{inl, inr}
use job_schedular.Prelude.Tests.{if◌then◌else◌, Bool-cases}
use job_schedular.Prelude.Table.{All, length}

module _ {ℓ} {A : Type ℓ} (before : A → A → Bool) where
  insert_by : A → List A → List A
  insert_by a [] = a ∷ []
  insert_by a (x ∷ xs) = let rest = x ∷ insert_by a xs in if before a x then a ∷ x ∷ xs else rest

  unfoldable pub sort_by : List A → List A
  unfolding insert_by
  sort_by [] = []
  sort_by (x ∷ xs) = insert_by x (sort_by xs)

  insert_by-perm : (a : A) (xs : List A) → Perm (insert_by a xs) (a ∷ xs)
  unfolding insert_by
  insert_by-perm a [] = Perm.refl _
  insert_by-perm a (x ∷ xs) = elim (Bool-cases (before a x)) [
    | inl h ↦ rw h (Perm.refl _)
    | inr h ↦ rw h (Perm.trans (Perm.cons x (insert_by-perm a xs)) (Perm.swap a x xs))
  ]

  pub sort_by-perm : (xs : List A) → Perm (sort_by xs) xs
  unfolding sort_by
  sort_by-perm [] = Perm.refl _
  sort_by-perm (x ∷ xs) = Perm.trans (insert_by-perm x (sort_by xs)) (Perm.cons x (sort_by-perm xs))

  length-insert_by : (a : A) (xs : List A) → length (insert_by a xs) ≡ suc (length xs)
  unfolding insert_by
  length-insert_by a [] = refl
  length-insert_by a (x ∷ xs) = elim (Bool-cases (before a x)) [
    | inl h ↦ rw h refl
    | inr h ↦ rw h (ap suc (length-insert_by a xs))
  ]

  pub length-sort_by : (xs : List A) → length (sort_by xs) ≡ length xs
  unfolding sort_by
  length-sort_by [] = refl
  length-sort_by (x ∷ xs) = rw (length-insert_by x (sort_by xs)) (ap suc (length-sort_by xs))

  -- Every row stands before the rows behind it.
  abbrev pub IsOrdered : List A → Type ℓ
  IsOrdered [] = Unit
  IsOrdered (x ∷ xs) = All (λ y. before x y ≡ true) xs × IsOrdered xs

module _ {ℓ κ} {A : Type ℓ} (P : A → Type κ) (before : A → A → Bool) where
  All-insert_by : (a : A) (xs : List A) → P a → All P xs → All P (insert_by before a xs)
  unfolding insert_by
  All-insert_by a [] pa h = (pa, tt)
  All-insert_by a (x ∷ xs) pa h = elim (Bool-cases (before a x)) [
    | inl e ↦ rw e (pa, h)
    | inr e ↦ rw e (h.0, All-insert_by a xs pa h.1)
  ]

  pub All-sort_by : (xs : List A) → All P xs → All P (sort_by before xs)
  unfolding sort_by
  All-sort_by [] h = tt
  All-sort_by (x ∷ xs) h = All-insert_by x (sort_by before xs) h.0 (All-sort_by xs h.1)

module _ {ℓ} {A : Type ℓ} (before : A → A → Bool)
    (total : (x y : A) → before x y ≡ false → before y x ≡ true)
    (trans : (x y z : A) → before x y ≡ true → before y z ≡ true → before x z ≡ true) where
  All-trans :
      (a x : A) (xs : List A)
      → before a x ≡ true
      → All (λ y. before x y ≡ true) xs
      → All (λ y. before a y ≡ true) xs
  All-trans a x [] h all = tt
  All-trans a x (y ∷ ys) h all = (trans a x y h all.0, All-trans a x ys h all.1)

  insert_by-IsOrdered :
      (a : A) (xs : List A) → IsOrdered before xs → IsOrdered before (insert_by before a xs)
  unfolding insert_by
  insert_by-IsOrdered a [] h = (tt, tt)
  insert_by-IsOrdered a (x ∷ xs) h = elim (Bool-cases (before a x)) [
    | inl e ↦ rw e ((e, All-trans a x xs e h.0), h)
    | inr e ↦ rw e (
      All-insert_by (λ y. before x y ≡ true) before a xs (total a x e) h.0,
      insert_by-IsOrdered a xs h.1,
    )
  ]

  -- The sorted table has every row before those behind it.
  pub sort_by-IsOrdered : (xs : List A) → IsOrdered before (sort_by before xs)
  unfolding sort_by
  sort_by-IsOrdered [] = tt
  sort_by-IsOrdered (x ∷ xs) = insert_by-IsOrdered x (sort_by before xs) (sort_by-IsOrdered xs)

module _ {ℓ κ} {A : Type ℓ} (P : A → Type κ) (before : A → A → Bool) where
  All-of_insert_by : (a : A) (xs : List A) → All P (insert_by before a xs) → P a × All P xs
  unfolding insert_by
  All-of_insert_by a [] h = (h.0, tt)
  All-of_insert_by a (x ∷ xs) h = elim (Bool-cases (before a x)) [
    | inl e ↦ let h' : P a × (P x × All P xs) = rw e at h in (h'.0, h'.1)
    | inr e ↦
        let h' : P x × All P (insert_by before a xs) = rw e at h in
        let rest = All-of_insert_by a xs h'.1 in (rest.0, (h'.0, rest.1))
  ]

  pub All-of_sort_by : (xs : List A) → All P (sort_by before xs) → All P xs
  unfolding sort_by
  All-of_sort_by [] h = tt
  All-of_sort_by (x ∷ xs) h =
      let rest = All-of_insert_by x (sort_by before xs) h in (rest.0, All-of_sort_by xs rest.1)

module _ {ℓ} {A : Type ℓ} (p q : A → A → Bool) where
  -- The two tests agree on every row and those behind it.
  abbrev pub Agree : List A → Type ℓ
  Agree [] = Unit
  Agree (x ∷ xs) = All (λ y. p x y ≡ q x y) xs × Agree xs

  insert_by-cong :
      (a : A) (xs : List A) → All (λ y. p a y ≡ q a y) xs → insert_by p a xs ≡ insert_by q a xs
  unfolding insert_by
  insert_by-cong a [] h = refl
  insert_by-cong a (x ∷ xs) h = elim (Bool-cases (q a x)) [
    | inl e ↦ rw (h.0, e) refl
    | inr e ↦ rw (h.0, e) (ap (◌∷◌ x) (insert_by-cong a xs h.1))
  ]

  pub sort_by-cong : (xs : List A) → Agree xs → sort_by p xs ≡ sort_by q xs
  unfolding sort_by
  sort_by-cong [] h = refl
  sort_by-cong (x ∷ xs) h =
      insert_by-cong x (sort_by p xs) (All-sort_by (λ y. p x y ≡ q x y) p xs h.0)
      ∙ ap (insert_by q x) (sort_by-cong xs h.1)
