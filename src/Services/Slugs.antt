-- ===== src/Services/Slugs.antt =====
-- `slugify` of backend/app/services/auth_service.py. What Python's tables say of characters
-- (lower case, \w and \s of `re`) is a parameter; the expressions themselves are run here.
pub mod Shape
use job_schedular.Prelude.{ℕ, String, Bool, true, false, not, ◌&&◌, ◌||◌, if◌then◌else◌, ◌==◌}
use Prim.Native.Char.{Char, code}
use Prim.Native.String.{[], ◌∷◌}

pub record CharTables : Type 0 where
  pub lower : String → String
  pub is_word : Char → Bool
  pub is_space : Char → Bool

abbrev pub is_dash : Char → Bool
is_dash c = code c == 45

abbrev pub is_underscore : Char → Bool
is_underscore c = code c == 95

abbrev pub is_empty : String → Bool
is_empty [] = true
is_empty (c ∷ s) = false

unfoldable pub trim_start : (Char → Bool) → String → String
trim_start p [] = []
trim_start p (c ∷ s) = if p c then trim_start p s else c ∷ s

unfoldable pub trim_end : (Char → Bool) → String → String
trim_end p [] = []
trim_end p (c ∷ s) = let rest = trim_end p s in if is_empty rest && p c then [] else c ∷ rest

-- re.sub(r"[^…]", "", text)
unfoldable pub keep : (Char → Bool) → String → String
keep p [] = []
keep p (c ∷ s) = let rest = keep p s in if p c then c ∷ rest else rest

-- re.sub(r"[…]+", "-", text), where the flag says that a run has been replaced already
unfoldable pub squeeze : (Char → Bool) → Bool → String → String
squeeze p in_run [] = []
squeeze p in_run (c ∷ s) =
    let inside = squeeze p true s in
    let outside = squeeze p false s in
    if p c then (if in_run then inside else "-" ∷ inside) else c ∷ outside

module _ (tables : CharTables) where
  open tables use {lower, is_word, is_space}

  abbrev pub is_kept : Char → Bool
  is_kept c = is_word c || is_space c || is_dash c

  abbrev pub is_separator : Char → Bool
  is_separator c = is_space c || is_underscore c || is_dash c

  -- text or "org"
  abbrev pub or_org : String → String
  or_org [] = "org"
  or_org (c ∷ s) = c ∷ s

  unfoldable pub slugify : String → String
  unfolding trim_start trim_end keep squeeze
  slugify text =
      let stripped = trim_end is_space (trim_start is_space (lower text)) in
      let dashed = squeeze is_separator false (keep is_kept stripped) in
      or_org (trim_end is_dash (trim_start is_dash dashed))
