-- ===== src/Migrations/Undo.antt =====
-- Statements taken back in the opposite order lead back to the tables that were there.
use job_schedular.Prelude.{
  String, false, not, Option, none, some, List, [], ◌∷◌, ◌++◌, ◌≡◌, refl, sym, ap, ◌∙◌, inl, inr,
  Bool-cases, str_eq, str_eq_refl, true≢false, any_where, any_where-last, select_where,
  select_where-append,
}
use job_schedular.Migrations.Schema.{
  Table, EnumType, Schema, Index, Column, Reference, add_if_missing, Up, Down, create_table,
  create_index, add_column, create_foreign_key, create_type, drop_table, drop_index, drop_column,
  drop_constraint, drop_type, ◌>>=◌, named, add_named, drop_named, alter, table_name, index_name,
  column_name, reference_name, with_index, without_index, with_column, without_column,
  with_reference, without_reference, add_types, without_type, apply_up, apply_down, run_up,
  run_down,
}

-- What a chain of fallible steps gives comes from its first step.
pub then-some :
    {A B : Type 0} (m : Option A) (f : A → Option B) (b : B)
    → (m >>= f) ≡ some b
    → (a : A) × (m ≡ some a) × (f a ≡ some b)
then-some none f b h = cc
then-some (some a) f b h = (a, refl, h)

module _ {A : Type 0} (name : A → String) where
  all_kept :
      (n : String) (xs : List A)
      → any_where (named name n) xs ≡ false
      → select_where (λ x. not (named name n x)) xs ≡ xs
  unfolding any_where select_where
  all_kept n [] h = refl
  all_kept n (x ∷ xs) h = elim (Bool-cases (named name n x)) [
    | inl hit ↦ absurd (true≢false (sym (rw hit refl) ∙ h))
    | inr miss ↦ rw (miss, all_kept n xs (rw miss at h)) refl
  ]

  drop-add :
      (a : A) (xs ys : List A)
      → add_named name a xs ≡ some ys
      → drop_named name (name a) ys ≡ some xs
  unfolding add_named drop_named
  drop-add a xs ys h = elim (Bool-cases (any_where (named name (name a)) xs)) [
    | inl taken ↦ let no : none ≡ some ys = rw taken at h in cc
    | inr free ↦
        let e : some (xs ++ a ∷ []) ≡ some ys = rw free at h in
        let last : xs ++ a ∷ [] ≡ ys = cc e in
        rw
          (
            sym last,
            any_where-last (named name (name a)) xs a (str_eq_refl (name a)),
            select_where-append (λ x. not (named name (name a) x)) xs a
                (ap not (str_eq_refl (name a))),
            all_kept (name a) xs free,
          )
          refl
  ]

alter-back :
    (n : String) (f g : Table → Option Table)
    → ((x y : Table) → f x ≡ some y → (g y ≡ some x) × (y.name ≡ x.name))
    → (xs ys : List Table) → alter n f xs ≡ some ys
    → alter n g ys ≡ some xs
unfolding alter
alter-back n f g back [] ys h = cc
alter-back n f g back (x ∷ xs) ys h = elim (Bool-cases (str_eq x.name n)) [
  | inl here ↦
      let found = then-some (f x) (λ t. some (t ∷ xs)) ys (rw here at h) in
      let undone = back x found.0 found.1 in
      let is : found.0 ∷ xs ≡ ys = cc found.2 in rw (sym is, undone.1, here, undone.0) refl
  | inr there ↦
      let found = then-some (alter n f xs) (λ ts. some (x ∷ ts)) ys (rw there at h) in
      let is : x ∷ found.0 ≡ ys = cc found.2 in
      rw (sym is, there, alter-back n f g back xs found.0 found.1) refl
]

-- What each statement is taken back by.
abbrev pub undo : Up → Down
undo (create_table es t) = drop_table t.name
undo (create_index n i) = drop_index n i.name
undo (add_column n c) = drop_column n c.name
undo (create_foreign_key n r) = drop_constraint n r.name
undo (create_type e) = drop_type e.name

abbrev pub undo_all : List Up → List Down
undo_all [] = []
undo_all (o ∷ os) = undo_all os ++ undo o ∷ []

-- What statements of a downgrade do to the types alone.
abbrev pub types_after : List Down → List EnumType → List EnumType
types_after [] types = types
types_after (drop_type n ∷ os) types = types_after os (without_type n types)
types_after (drop_table n ∷ os) types = types_after os types
types_after (drop_index n i ∷ os) types = types_after os types
types_after (drop_column n c ∷ os) types = types_after os types
types_after (drop_constraint n r ∷ os) types = types_after os types

with_index-back :
    (i : Index) (x y : Table)
    → with_index i x ≡ some y
    → (without_index i.name y ≡ some x) × (y.name ≡ x.name)
with_index-back i x y h =
    let found = then-some (add_named index_name i x.indexes) _ y h in
    let is : record x { indexes = found.0 } ≡ y = cc found.2 in
    rw (sym is) (rw (drop-add index_name i x.indexes found.0 found.1) refl, refl)

with_column-back :
    (c : Column) (x y : Table)
    → with_column c x ≡ some y
    → (without_column c.name y ≡ some x) × (y.name ≡ x.name)
with_column-back c x y h =
    let found = then-some (add_named column_name c x.columns) _ y h in
    let is : record x { columns = found.0 } ≡ y = cc found.2 in
    rw (sym is) (rw (drop-add column_name c x.columns found.0 found.1) refl, refl)

with_reference-back :
    (r : Reference) (x y : Table)
    → with_reference r x ≡ some y
    → (without_reference r.name y ≡ some x) × (y.name ≡ x.name)
with_reference-back r x y h =
    let found = then-some (add_named reference_name r x.references) _ y h in
    let is : record x { references = found.0 } ≡ y = cc found.2 in
    rw (sym is) (rw (drop-add reference_name r x.references found.0 found.1) refl, refl)

abbrev typed : Schema → List EnumType → Schema
typed s types = record s { types = types }

alter_step :
    (n : String) (f g : Table → Option Table) (s t : Schema) (types : List EnumType)
    → ((x y : Table) → f x ≡ some y → (g y ≡ some x) × (y.name ≡ x.name))
    → (do ts ← alter n f s.tables; some (record s { tables = ts })) ≡ some t
    → (do ts ← alter n g t.tables; some (record { tables = ts; types = types }))
      ≡ some (typed s types)
alter_step n f g s t types back h =
    let found = then-some (alter n f s.tables) _ t h in
    let is : record s { tables = found.0 } ≡ t = cc found.2 in
    rw (sym is, alter-back n f g back s.tables found.0 found.1) refl

apply-undo :
    (o : Up) (s t : Schema) (types : List EnumType)
    → apply_up o s ≡ some t
    → apply_down (undo o) (typed t types) ≡ some (typed s (types_after (undo o ∷ []) types))
unfolding apply_up apply_down
apply-undo (create_table es tb) s t types h =
    let made = then-some (add_types es s.types) _ t h in
    let found = then-some (add_named table_name tb s.tables) _ t made.2 in
    let is : record { tables = found.0; types = made.0 } ≡ t = cc found.2 in
    rw (sym is, drop-add table_name tb s.tables found.0 found.1) refl
apply-undo (create_index n i) s t types h =
    alter_step n (with_index i) (without_index i.name) s t types (with_index-back i) h
apply-undo (add_column n c) s t types h =
    alter_step n (with_column c) (without_column c.name) s t types (with_column-back c) h
apply-undo (create_foreign_key n r) s t types h =
    alter_step n (with_reference r) (without_reference r.name) s t types (with_reference-back r) h
apply-undo (create_type e) s t types h =
    let is : record s { types = add_if_missing e s.types } ≡ t = cc h in rw (sym is) refl

types_after-append :
    (xs ys : List Down) (types : List EnumType)
    → types_after (xs ++ ys) types ≡ types_after ys (types_after xs types)
types_after-append [] ys types = refl
types_after-append (drop_type n ∷ xs) ys types = types_after-append xs ys (without_type n types)
types_after-append (drop_table n ∷ xs) ys types = types_after-append xs ys types
types_after-append (drop_index n i ∷ xs) ys types = types_after-append xs ys types
types_after-append (drop_column n c ∷ xs) ys types = types_after-append xs ys types
types_after-append (drop_constraint n r ∷ xs) ys types = types_after-append xs ys types

run_down-append :
    (xs ys : List Down) (s t : Schema)
    → run_down xs s ≡ some t
    → run_down (xs ++ ys) s ≡ run_down ys t
unfolding run_down
run_down-append [] ys s t h = let is : s ≡ t = cc h in rw is refl
run_down-append (o ∷ xs) ys s t h =
    let first = then-some (apply_down o s) _ t h in
    rw (first.1, run_down-append xs ys first.0 t first.2) refl

-- Statements that were all accepted, taken back from the last to the first, are all accepted, and
-- lead back to the tables that were there.
pub run-undo :
    (os : List Up) (s t : Schema) (types : List EnumType)
    → run_up os s ≡ some t
    → run_down (undo_all os) (record t { types = types })
      ≡ some (record s { types = types_after (undo_all os) types })
unfolding run_up run_down
run-undo [] s t types h = let is : s ≡ t = cc h in rw is refl
run-undo (o ∷ os) s t types h =
    let first = then-some (apply_up o s) _ t h in
    let rest = run-undo os first.0 t types first.2 in
    let back = apply-undo o s first.0 (types_after (undo_all os) types) first.1 in
    run_down-append (undo_all os) (undo o ∷ []) (typed t types) _ rest
    ∙ rw (back, types_after-append (undo_all os) (undo o ∷ []) types) refl
