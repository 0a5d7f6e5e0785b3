-- ===== src/Migrations/Types.antt =====
-- The enumerated types that an upgrade makes with its tables, and that no downgrade drops.
use job_schedular.Prelude.{
  String, Bool, true, false, ◌||◌, Option, none, some, List, [], ◌∷◌, ◌++◌, ◌≡◌, refl, sym, ap, ◌∙◌,
  inl, inr, Bool-cases, Option-cases, str_eq→≡, true≢false, any_where, any_where-append,
  any_where-last,
}
use job_schedular.Migrations.Schema.{
  Table, EnumType, Schema, Up, create_table, create_index, add_column, create_foreign_key,
  create_type, ◌>>=◌, named, add_named, type_name, table_name, add_types, add_if_missing, apply_up,
  run_up, run_down,
}
use job_schedular.Migrations.Undo.{then-some}
use job_schedular.Migrations.Downgrades.{initial, upgrade, downgrade, downgrade_restores}

abbrev is_type : String → EnumType → Bool
is_type n e = named type_name n e

-- whether a statement of a list makes a type of that name
abbrev makes : String → List Up → Bool
makes n [] = false
makes n (create_table es t ∷ os) = any_where (is_type n) es || makes n os
makes n (create_index tb i ∷ os) = makes n os
makes n (add_column tb c ∷ os) = makes n os
makes n (create_foreign_key tb r ∷ os) = makes n os
makes n (create_type e ∷ os) = makes n os

add-keeps :
    (n : String) (e : EnumType) (xs ys : List EnumType)
    → add_named type_name e xs ≡ some ys
    → any_where (is_type n) xs ≡ true
    → any_where (is_type n) ys ≡ true
unfolding add_named
add-keeps n e xs ys h there = elim (Bool-cases (any_where (named type_name e.name) xs)) [
  | inl taken ↦ let no : none ≡ some ys = rw taken at h in cc
  | inr free ↦
      let e' : some (xs ++ e ∷ []) ≡ some ys = rw free at h in
      let is : xs ++ e ∷ [] ≡ ys = cc e' in
      rw (sym is) (any_where-append (is_type n) xs (e ∷ []) there)
]

add-adds :
    (n : String) (e : EnumType) (xs ys : List EnumType)
    → add_named type_name e xs ≡ some ys
    → is_type n e ≡ true
    → (any_where (is_type n) xs ≡ false) × (any_where (is_type n) ys ≡ true)
unfolding add_named
add-adds n e xs ys h hit = elim (Bool-cases (any_where (named type_name e.name) xs)) [
  | inl taken ↦ let no : none ≡ some ys = rw taken at h in cc
  | inr free ↦
      let e' : some (xs ++ e ∷ []) ≡ some ys = rw free at h in
      let is : xs ++ e ∷ [] ≡ ys = cc e' in
      let same : e.name ≡ n = str_eq→≡ e.name n hit in
      (rw same at free, rw (sym is) (any_where-last (is_type n) xs e hit))
]

add_types-keeps :
    (n : String) (es xs ys : List EnumType)
    → add_types es xs ≡ some ys
    → any_where (is_type n) xs ≡ true
    → any_where (is_type n) ys ≡ true
unfolding add_types
add_types-keeps n [] xs ys h there = let is : xs ≡ ys = cc h in rw (sym is) there
add_types-keeps n (e ∷ es) xs ys h there =
    let first = then-some (add_named type_name e xs) _ ys h in
    add_types-keeps n es first.0 ys first.2 (add-keeps n e xs first.0 first.1 there)

add_types-adds :
    (n : String) (es xs ys : List EnumType)
    → add_types es xs ≡ some ys
    → any_where (is_type n) es ≡ true
    → (any_where (is_type n) xs ≡ false) × (any_where (is_type n) ys ≡ true)
unfolding add_types any_where
add_types-adds n [] xs ys h made = cc made
add_types-adds n (e ∷ es) xs ys h made =
    let first = then-some (add_named type_name e xs) _ ys h in
    elim (Bool-cases (is_type n e)) [
      | inl hit ↦
          let added = add-adds n e xs first.0 first.1 hit in
          (added.0, add_types-keeps n es first.0 ys first.2 added.1)
      | inr miss ↦
          let rest = add_types-adds n es first.0 ys first.2 (rw miss at made) in
          elim (Bool-cases (any_where (is_type n) xs)) [
            | inl there ↦
                absurd (true≢false (sym (add-keeps n e xs first.0 first.1 there) ∙ rest.0))
            | inr absent ↦ (absent, rest.1)
          ]
    ]

same_types :
    (n : String) (m : Option (List Table)) (s t : Schema)
    → (do ts ← m; some (record s { tables = ts })) ≡ some t
    → any_where (is_type n) s.types ≡ true
    → any_where (is_type n) t.types ≡ true
same_types n m s t h there =
    let found = then-some m _ t h in
    let is : record s { tables = found.0 } ≡ t = cc found.2 in rw (ap (λ x. x.types) (sym is)) there

apply-keeps :
    (n : String) (o : Up) (s t : Schema)
    → apply_up o s ≡ some t
    → any_where (is_type n) s.types ≡ true
    → any_where (is_type n) t.types ≡ true
unfolding apply_up add_if_missing
apply-keeps n (create_table es tb) s t h there =
    let made = then-some (add_types es s.types) _ t h in
    let found = then-some (add_named table_name tb s.tables) _ t made.2 in
    let is : record { tables = found.0; types = made.0 } ≡ t = cc found.2 in
    rw (ap (λ x. x.types) (sym is)) (add_types-keeps n es s.types made.0 made.1 there)
apply-keeps n (create_index tb i) s t h there = same_types n _ s t h there
apply-keeps n (add_column tb c) s t h there = same_types n _ s t h there
apply-keeps n (create_foreign_key tb r) s t h there = same_types n _ s t h there
apply-keeps n (create_type e) s t h there =
    let is : record s { types = add_if_missing e s.types } ≡ t = cc h in
    rw (ap (λ x. x.types) (sym is))
      (elim (Bool-cases (any_where (named type_name e.name) s.types)) [
        | inl old ↦ rw (old, add_if_missing) there
        | inr new ↦ rw (new, add_if_missing) (any_where-append (is_type n) s.types (e ∷ []) there)
      ])

run-keeps :
    (n : String) (os : List Up) (s t : Schema)
    → run_up os s ≡ some t
    → any_where (is_type n) s.types ≡ true
    → any_where (is_type n) t.types ≡ true
unfolding run_up
run-keeps n [] s t h there = let is : s ≡ t = cc h in rw (sym is) there
run-keeps n (o ∷ os) s t h there =
    let first = then-some (apply_up o s) _ t h in
    run-keeps n os first.0 t first.2 (apply-keeps n o s first.0 first.1 there)

not_before :
    (n : String) (o : Up) (s t : Schema)
    → apply_up o s ≡ some t
    → any_where (is_type n) t.types ≡ false
    → any_where (is_type n) s.types ≡ false
not_before n o s t h absent = elim (Bool-cases (any_where (is_type n) s.types)) [
  | inl there ↦ absurd (true≢false (sym (apply-keeps n o s t h there) ∙ absent))
  | inr fresh ↦ fresh
]

-- A type that the statements make was not there before, and is there after.
run-makes :
    (n : String) (os : List Up) (s t : Schema)
    → run_up os s ≡ some t
    → makes n os ≡ true
    → (any_where (is_type n) s.types ≡ false) × (any_where (is_type n) t.types ≡ true)
unfolding run_up apply_up
run-makes n [] s t h made = cc made
run-makes n (create_table es tb ∷ os) s t h made =
    let first = then-some (apply_up (create_table es tb) s) _ t h in
    let types = then-some (add_types es s.types) _ first.0 first.1 in
    let found = then-some (add_named table_name tb s.tables) _ first.0 types.2 in
    let is : record { tables = found.0; types = types.0 } ≡ first.0 = cc found.2 in
    elim (Bool-cases (any_where (is_type n) es)) [
      | inl here ↦
          let added = add_types-adds n es s.types types.0 types.1 here in
          (added.0, run-keeps n os first.0 t first.2 (rw (ap (λ x. x.types) (sym is)) added.1))
      | inr there ↦
          let rest = run-makes n os first.0 t first.2 (rw there at made) in
          (not_before n (create_table es tb) s first.0 first.1 rest.0, rest.1)
    ]
run-makes n (create_index tb i ∷ os) s t h made =
    let first = then-some (apply_up (create_index tb i) s) _ t h in
    let rest = run-makes n os first.0 t first.2 made in
    (not_before n (create_index tb i) s first.0 first.1 rest.0, rest.1)
run-makes n (add_column tb c ∷ os) s t h made =
    let first = then-some (apply_up (add_column tb c) s) _ t h in
    let rest = run-makes n os first.0 t first.2 made in
    (not_before n (add_column tb c) s first.0 first.1 rest.0, rest.1)
run-makes n (create_foreign_key tb r ∷ os) s t h made =
    let first = then-some (apply_up (create_foreign_key tb r) s) _ t h in
    let rest = run-makes n os first.0 t first.2 made in
    (not_before n (create_foreign_key tb r) s first.0 first.1 rest.0, rest.1)
run-makes n (create_type e ∷ os) s t h made =
    let first = then-some (apply_up (create_type e) s) (run_up os) t h in
    let rest = run-makes n os first.0 t first.2 made in
    (not_before n (create_type e) s first.0 first.1 rest.0, rest.1)

-- On whatever schema the first revision has been applied and taken back, it cannot be applied
-- again: its types are there still.
pub initial_only_once :
    (s t u : Schema)
    → run_up (upgrade initial) s ≡ some t
    → run_down (downgrade initial) t ≡ some u
    → run_up (upgrade initial) u ≡ none
initial_only_once s t u up down =
    let made : makes "workerstatus" (upgrade initial) ≡ true = unfold any_where in refl in
    let same : some (record { tables = s.tables; types = t.types }) ≡ some u =
      sym (downgrade_restores initial s t up) ∙ down in
    let is : record { tables = s.tables; types = t.types } ≡ u = cc same in
    let left : any_where (is_type "workerstatus") u.types ≡ true =
      rw (ap (λ x. x.types) (sym is)) (run-makes "workerstatus" (upgrade initial) s t up made).1 in
    elim (Option-cases (run_up (upgrade initial) u)) [
      | inl refused ↦ refused
      | inr (v, again) ↦
          absurd
            (true≢false (sym left ∙ (run-makes "workerstatus" (upgrade initial) u v again made).0))
    ]
