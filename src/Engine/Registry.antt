-- ===== src/Engine/Registry.antt =====
-- worker/app/tasks/registry.py, TaskRegistry: the handlers by the names of the tasks. A handler is
-- of any type `H`.
use job_schedular.Prelude.{
  Bool-cases, String, str_eq, str_eq_refl, List, [], ◌∷◌, if◌then◌else◌, ◌≡◌, refl, inl, inr, false,
  ap, ◌∙◌, str_eq→≡,
}

module _ {ℓ} {H : Type ℓ} where
  -- dict[name] = handler: a key that is there keeps its place
  unfoldable put : String → H → List (String × H) → List (String × H)
  put name handler [] = (name, handler) ∷ []
  put name handler ((key, old) ∷ more) =
      let rest = put name handler more in
      if str_eq key name then (key, handler) ∷ more else (key, old) ∷ rest

  -- dict.get(name, default)
  unfoldable get_or : H → String → List (String × H) → H
  get_or default name [] = default
  get_or default name ((key, handler) ∷ more) =
      let rest = get_or default name more in if str_eq key name then handler else rest

  -- Registering a task replaces the handler of that name.
  get_or-put :
      (default handler : H) (name : String) (r : List (String × H))
      → get_or default name (put name handler r) ≡ handler
  unfolding put get_or
  get_or-put default handler name [] = rw (str_eq_refl name) refl
  get_or-put default handler name ((key, old) ∷ more) = elim (Bool-cases (str_eq key name)) [
    | inl same ↦ rw (same, same) refl
    | inr other ↦ rw (other, other) (get_or-put default handler name more)
  ]

  -- … and leaves every other task its handler, the default one if it has none.
  get_or-put-other :
      (default handler : H) (name other : String) (r : List (String × H))
      → str_eq name other ≡ false
      → get_or default other (put name handler r) ≡ get_or default other r
  unfolding put get_or
  get_or-put-other default handler name other [] h = rw h refl
  get_or-put-other default handler name other ((key, old) ∷ more) h =
      elim (Bool-cases (str_eq key name)) [
        | inl same ↦
            let passed : str_eq key other ≡ false =
              ap (λ k. str_eq k other) (str_eq→≡ key name same) ∙ h in
            rw (same, passed) refl
        | inr differs ↦ rw (differs, get_or-put-other default handler name other more h) refl
      ]
