-- ===== src/Services/Access/Pages.antt =====
-- Pagination: the pages together are the whole listing.
use job_schedular.Prelude.{
  ℕ, zero, suc, ◌+◌, ◌-◌, ◌*◌, ◌≤◌, ◌<◌, ◌≡◌, refl, sym, ap, ◌∙◌, List, [], ◌∷◌, ◌++◌, length, take,
  drop, arith, Bool-cases, inl, inr, ltb,
}
use mathlib.Core.List.{append_assoc, append-nil}
use native.Mathlib.Nat.{div-add-mod', mod-lt}
use job_schedular.Services.Access.{total_pages, page_of}

-- The pages `from + 1`, …, `from + count` one behind the other.
abbrev pub collect {ℓ} : {A : Type ℓ} → (ℕ → List A) → ℕ → ℕ → List A
collect page from zero = []
collect page from (suc count) = page (suc from) ++ collect page (suc from) count

abbrev pages_from {ℓ} : {A : Type ℓ} → ℕ → ℕ → ℕ → List A → List A
pages_from page_size from count rows = collect (λ k. page_of k page_size rows) from count

module _ {ℓ} {A : Type ℓ} where
  drop-nil : (n : ℕ) → drop {A = A} n [] ≡ []
  drop-nil zero = refl
  drop-nil (suc n) = refl

  drop-add : (m n : ℕ) (xs : List A) → drop n (drop m xs) ≡ drop (m + n) xs
  drop-add zero n xs = ap (λ k. drop k xs) (omega arith)
  drop-add (suc m) n [] = rw (drop-nil n, drop-nil (suc m + n)) refl
  drop-add (suc m) n (x ∷ xs) =
      let e : suc m + n ≡ suc (m + n) = omega arith in rw e (drop-add m n xs)

  take-drop : (n : ℕ) (xs : List A) → take n xs ++ drop n xs ≡ xs
  take-drop zero xs = refl
  take-drop (suc n) [] = refl
  take-drop (suc n) (x ∷ xs) = ap (λ ys. x ∷ ys) (take-drop n xs)

  drop-all : (n : ℕ) (xs : List A) → length xs ≤ n → drop n xs ≡ []
  drop-all zero [] h = refl
  drop-all zero (x ∷ xs) h = absurd (omega arith)
  drop-all (suc n) [] h = refl
  drop-all (suc n) (x ∷ xs) h = drop-all n xs (omega arith)

  pages_from-rest :
      (page_size from count : ℕ) (rows : List A)
      → pages_from page_size from count rows ++ drop ((from + count) * page_size) rows
        ≡ drop (from * page_size) rows
  unfolding page_of
  pages_from-rest page_size from zero rows = ap (λ k. drop (k * page_size) rows) (omega arith)
  pages_from-rest page_size from (suc count) rows =
      let here : suc from - 1 ≡ from = omega arith in
      let next : from + suc count ≡ suc from + count = omega arith in
      let step : from * page_size + page_size ≡ suc from * page_size = grind arith in
      rw (here, next)
        (append_assoc (take page_size (drop (from * page_size) rows))
            (pages_from page_size (suc from) count rows) _
          ∙ ap (λ l. take page_size (drop (from * page_size) rows) ++ l)
              (pages_from-rest page_size (suc from) count rows
                ∙ ap (λ k. drop k rows) (sym step)
                ∙ sym (drop-add (from * page_size) page_size rows))
          ∙ take-drop page_size (drop (from * page_size) rows))

-- There are pages enough for all rows.
total_pages-enough :
    (total page_size : ℕ) → 0 < page_size → total ≤ total_pages total page_size * page_size
unfolding total_pages
total_pages-enough total page_size h = elim (Bool-cases (ltb 0 total)) [
  | inl some_rows ↦ rw some_rows (
      let size = div-add-mod' (total + page_size - 1) page_size in
      let rest = mod-lt (total + page_size - 1) {m = page_size} h in omega (arith, size, rest))
  | inr no_rows ↦ ground arith
]

-- The pages 1 to `total_pages`, one behind the other, are all the rows in their order.
pub pages-listing :
    {A : Type 0} (page_size : ℕ) (rows : List A)
    → 0 < page_size
    → collect (λ k. page_of k page_size rows) 0 (total_pages (length rows) page_size) ≡ rows
pages-listing page_size rows h =
    let count = total_pages (length rows) page_size in
    let enough = total_pages-enough (length rows) page_size h in
    let same : 0 + count ≡ count = omega arith in
    let rest : drop ((0 + count) * page_size) rows ≡ [] =
      rw same (drop-all (count * page_size) rows enough) in
    sym (append-nil _)
    ∙ ap (λ l. pages_from page_size 0 count rows ++ l) (sym rest)
    ∙ pages_from-rest page_size 0 count rows
    ∙ ap (λ k. drop k rows) {x = 0 * page_size} {y = 0} (omega arith)
