-- ===== src/Services/Slugs/Shape.antt =====
-- The shape of a slug: words of letters, digits and the like, with single dashes between them.
use job_schedular.Prelude.{
  ◌≡◌, refl, ◌≤◌, ◌⊎◌, inl, inr, arith, String, Bool, true, false, not, ◌&&◌, if◌then◌else◌,
  Bool-cases,
}
use Prim.Native.Char.{Char, code}
use Prim.Native.String.{[], ◌∷◌}
use job_schedular.Services.Slugs.{
  CharTables, is_dash, is_empty, trim_start, trim_end, keep, squeeze, is_kept, is_separator, or_org,
  slugify,
}

abbrev AllChars : (Char → Bool) → String → Type 0
AllChars p [] = Unit
AllChars p (c ∷ s) = (p c ≡ true) × AllChars p s

-- The letters a to z are word characters and no spaces.
abbrev pub KnowsLetters : CharTables → Type 0
KnowsLetters tables =
    (c : Char)
    → 97 ≤ code c
    → code c ≤ 122
    → (tables.is_word c ≡ true) × (tables.is_space c ≡ false)

keep-AllChars : (p : Char → Bool) (s : String) → AllChars p (keep p s)
unfolding keep
keep-AllChars p [] = tt
keep-AllChars p (c ∷ s) = elim (Bool-cases (p c)) [
  | inl h ↦ rw h (h, keep-AllChars p s)
  | inr h ↦ rw h (keep-AllChars p s)
]

module _ (tables : CharTables) where
  open tables use {lower, is_word, is_space}

  -- What may stand behind a dash, or at the start, and what behind another character.
  abbrev pub fits : Bool → Char → Bool
  fits after_dash c = if is_dash c then not after_dash else is_word c && not (is_separator tables c)

  -- A text of which every character fits, and which does not end behind a dash.
  abbrev pub IsSlugFrom : Bool → String → Type 0
  IsSlugFrom after_dash [] = after_dash ≡ false
  IsSlugFrom after_dash (c ∷ s) = (fits after_dash c ≡ true) × IsSlugFrom (is_dash c) s

  abbrev pub IsSlug : String → Type 0
  IsSlug s = IsSlugFrom true s

  abbrev Fits : Bool → String → Type 0
  Fits after_dash [] = Unit
  Fits after_dash (c ∷ s) = (fits after_dash c ≡ true) × Fits (is_dash c) s

  word_fits :
      (after_dash : Bool) (c : Char)
      → is_kept tables c ≡ true
      → is_separator tables c ≡ false
      → (fits after_dash c ≡ true) × (is_dash c ≡ false)
  word_fits after_dash c kept sep = (ground arith, ground arith)

  squeeze-Fits :
      (in_run : Bool) (s : String)
      → AllChars (is_kept tables) s
      → Fits in_run (squeeze (is_separator tables) in_run s)
  unfolding squeeze
  squeeze-Fits in_run [] h = tt
  squeeze-Fits in_run (c ∷ s) h = elim (Bool-cases (is_separator tables c)) [
    | inl sep ↦ rw sep (run in_run (squeeze-Fits true s h.1))
    | inr other ↦
        let word = word_fits in_run c h.0 other in
        rw other (word.0, rw word.1 (squeeze-Fits false s h.1))
  ]
    where
      run :
          (b : Bool)
          → Fits true (squeeze (is_separator tables) true s)
          → Fits b (
              if b
              then squeeze (is_separator tables) true s
              else "-" ∷ squeeze (is_separator tables) true s)
      run true rest = rest
      run false rest = (refl, rest)

  trim_start-Fits_after : (s : String) → Fits true s → Fits true (trim_start is_dash s)
  unfolding trim_start
  trim_start-Fits_after [] h = tt
  trim_start-Fits_after (c ∷ s) h = elim (Bool-cases (is_dash c)) [
    | inl dash ↦ absurd (ground arith)
    | inr other ↦ rw other h
  ]

  trim_start-Fits : (s : String) → Fits false s → Fits true (trim_start is_dash s)
  unfolding trim_start
  trim_start-Fits [] h = tt
  trim_start-Fits (c ∷ s) h = elim (Bool-cases (is_dash c)) [
    | inl dash ↦ rw dash (trim_start-Fits_after s (rw dash at (h.1)))
    | inr other ↦ rw other (ground arith, h.1)
  ]

  trim_end-IsSlugFrom :
      (after_dash : Bool) (s : String)
      → Fits after_dash s
      → (is_empty (trim_end is_dash s) ≡ true) ⊎ IsSlugFrom after_dash (trim_end is_dash s)
  unfolding trim_end
  trim_end-IsSlugFrom after_dash [] h = inl refl
  trim_end-IsSlugFrom after_dash (c ∷ s) h =
      ends (trim_end is_dash s) (trim_end-IsSlugFrom (is_dash c) s h.1)
    where
      ends :
          (rest : String)
          → (is_empty rest ≡ true) ⊎ IsSlugFrom (is_dash c) rest
          → let r = if is_empty rest && is_dash c then [] else c ∷ rest in
            (is_empty r ≡ true) ⊎ IsSlugFrom after_dash r
      ends [] done = elim (Bool-cases (is_dash c)) [
        | inl dash ↦ rw dash (inl refl)
        | inr other ↦ rw other (inr (h.0, other))
      ]
      ends (d ∷ rest) (inr slug) = inr (h.0, slug)
      ends (d ∷ rest) (inl e) = absurd (cc)

  or_org-IsSlug :
      KnowsLetters tables → (s : String) → (is_empty s ≡ true) ⊎ IsSlug s → IsSlug (or_org tables s)
  or_org-IsSlug letters [] done =
      let o = letters "o" (omega arith) (omega arith) in
      let r = letters "r" (omega arith) (omega arith) in
      let g = letters "g" (omega arith) (omega arith) in
      (rw (o.0, o.1) refl, (rw (r.0, r.1) refl, (rw (g.0, g.1) refl, refl)))
  or_org-IsSlug letters (c ∷ s) (inr slug) = slug
  or_org-IsSlug letters (c ∷ s) (inl e) = absurd (cc)

  -- Where the letters a to z are word characters, every text has a slug with something in it, with
  -- only word characters other than the underscore and single dashes between them.
  pub slugify-IsSlug : KnowsLetters tables → (text : String) → IsSlug (slugify tables text)
  unfolding slugify
  slugify-IsSlug letters text =
      let kept = keep (is_kept tables) (trim_end is_space (trim_start is_space (lower text))) in
      let dashed = squeeze (is_separator tables) false kept in
      or_org-IsSlug letters (trim_end is_dash (trim_start is_dash dashed)) (
        trim_end-IsSlugFrom true (trim_start is_dash dashed)
          (trim_start-Fits dashed (squeeze-Fits false kept (keep-AllChars (is_kept tables) _))))
