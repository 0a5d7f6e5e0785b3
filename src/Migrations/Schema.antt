-- ===== src/Migrations/Schema.antt =====
-- A database schema, and what the statements of a revision do to it: `Up` are those of `upgrade`,
-- and `Down` those of `downgrade`. A statement that PostgreSQL refuses, because a name is taken or
-- missing, gives `none`; that a table or a type which others depend on cannot be dropped is left
-- out. A table carries its indexes, its constraints and its columns.
use job_schedular.Prelude.{
  ℕ, String, Bool, true, false, not, Option, none, some, List, [], ◌∷◌, ◌++◌, str_eq, any_where,
  select_where, if◌then◌else◌,
}

pub data SqlType : Type 0 where
  uuid text integer big_integer float boolean timestamp jsonb : SqlType
  string : ℕ → SqlType
  enum : String → SqlType

pub record Column : Type 0 where
  pub name : String
  pub kind : SqlType
  pub nullable : Bool
  pub server_default : Option String

-- sa.Column(…, nullable=False), sa.Column(…, nullable=True), and with a server_default
abbrev pub required : String → SqlType → Column
required name kind = record { name = name; kind = kind; nullable = false; server_default = none }

abbrev pub optional : String → SqlType → Column
optional name kind = record { name = name; kind = kind; nullable = true; server_default = none }

abbrev pub defaulted : String → SqlType → String → Column
defaulted name kind value = record {
  name = name;
  kind = kind;
  nullable = false;
  server_default = some value;
}

pub data OnDelete : Type 0 where
  cascade set_null : OnDelete

-- A foreign key; without a name PostgreSQL gives it one, which no revision uses.
pub record Reference : Type 0 where
  pub name : String
  pub columns : List String
  pub target : String
  pub on_delete : OnDelete

abbrev pub unnamed_reference : List String → String → OnDelete → Reference
unnamed_reference columns target on_delete = record {
  name = "";
  columns = columns;
  target = target;
  on_delete = on_delete;
}

pub record Index : Type 0 where
  pub name : String
  pub keys : List String
  pub unique : Bool
  pub condition : Option String

pub record Table : Type 0 where
  pub name : String
  pub columns : List Column
  pub primary_key : List String
  pub uniques : List (List String)
  pub references : List Reference
  pub indexes : List Index

pub record EnumType : Type 0 where
  pub name : String
  pub values : List String

pub record Schema : Type 0 where
  pub tables : List Table
  pub types : List EnumType

infixl 5 ◌>>=◌
abbrev pub ◌>>=◌ : {A B : Type 0} → Option A → (A → Option B) → Option B
none >>= f = none
some a >>= f = f a

-- Adding under a name that must be free, and removing by a name that must be there.
module _ {A : Type 0} (name : A → String) where
  abbrev pub named : String → A → Bool
  named n a = str_eq (name a) n

  unfoldable pub add_named : A → List A → Option (List A)
  add_named a xs = if any_where (named (name a)) xs then none else some (xs ++ a ∷ [])

  unfoldable pub drop_named : String → List A → Option (List A)
  drop_named n xs =
      if any_where (named n) xs then some (select_where (λ x. not (named n x)) xs) else none

-- ALTER of the table with that name
unfoldable pub alter : String → (Table → Option Table) → List Table → Option (List Table)
alter n f [] = none
alter n f (t ∷ ts) =
    let here = (do t' ← f t; some (t' ∷ ts)) in
    let there = (do ts' ← alter n f ts; some (t ∷ ts')) in if str_eq t.name n then here else there

-- `create_table` makes the types of its enumerated columns, too; `create_type` is the block that
-- makes a type if it is missing.
pub data Up : Type 0 where
  create_table : List EnumType → Table → Up
  create_index : String → Index → Up
  add_column : String → Column → Up
  create_foreign_key : String → Reference → Up
  create_type : EnumType → Up

-- `drop_type` is with `checkfirst=True`.
pub data Down : Type 0 where
  drop_table : String → Down
  drop_index : String → String → Down
  drop_column : String → String → Down
  drop_constraint : String → String → Down
  drop_type : String → Down

abbrev pub table_name : Table → String
table_name t = t.name

abbrev pub type_name : EnumType → String
type_name e = e.name

abbrev pub index_name : Index → String
index_name i = i.name

abbrev pub column_name : Column → String
column_name c = c.name

abbrev pub reference_name : Reference → String
reference_name r = r.name

abbrev pub with_index : Index → Table → Option Table
with_index i t = do is ← add_named index_name i t.indexes; some (record t { indexes = is })

abbrev pub without_index : String → Table → Option Table
without_index n t = do is ← drop_named index_name n t.indexes; some (record t { indexes = is })

abbrev pub with_column : Column → Table → Option Table
with_column c t = do cs ← add_named column_name c t.columns; some (record t { columns = cs })

abbrev pub without_column : String → Table → Option Table
without_column n t = do cs ← drop_named column_name n t.columns; some (record t { columns = cs })

abbrev pub with_reference : Reference → Table → Option Table
with_reference r t = do
  rs ← add_named reference_name r t.references
  some (record t { references = rs })

abbrev pub without_reference : String → Table → Option Table
without_reference n t = do
  rs ← drop_named reference_name n t.references
  some (record t { references = rs })

unfoldable pub add_types : List EnumType → List EnumType → Option (List EnumType)
add_types [] types = some types
add_types (e ∷ es) types = do more ← add_named type_name e types; add_types es more

unfoldable pub add_if_missing : EnumType → List EnumType → List EnumType
add_if_missing e types = if any_where (named type_name e.name) types then types else types ++ e ∷ []

unfoldable pub without_type : String → List EnumType → List EnumType
without_type n types = select_where (λ e. not (named type_name n e)) types

unfoldable pub apply_up : Up → Schema → Option Schema
unfolding add_named alter add_types add_if_missing
apply_up (create_table es t) s = do
  types ← add_types es s.types
  tables ← add_named table_name t s.tables
  some (record { tables = tables; types = types })
apply_up (create_index n i) s = do
  tables ← alter n (with_index i) s.tables
  some (record s { tables = tables })
apply_up (add_column n c) s = do
  tables ← alter n (with_column c) s.tables
  some (record s { tables = tables })
apply_up (create_foreign_key n r) s = do
  tables ← alter n (with_reference r) s.tables
  some (record s { tables = tables })
apply_up (create_type e) s = some (record s { types = add_if_missing e s.types })

unfoldable pub apply_down : Down → Schema → Option Schema
unfolding drop_named alter without_type
apply_down (drop_table n) s = do
  tables ← drop_named table_name n s.tables
  some (record s { tables = tables })
apply_down (drop_index n i) s = do
  tables ← alter n (without_index i) s.tables
  some (record s { tables = tables })
apply_down (drop_column n c) s = do
  tables ← alter n (without_column c) s.tables
  some (record s { tables = tables })
apply_down (drop_constraint n r) s = do
  tables ← alter n (without_reference r) s.tables
  some (record s { tables = tables })
apply_down (drop_type n) s = some (record s { types = without_type n s.types })

-- The statements of a revision are one transaction.
unfoldable pub run_up : List Up → Schema → Option Schema
unfolding apply_up
run_up [] s = some s
run_up (o ∷ os) s = do t ← apply_up o s; run_up os t

unfoldable pub run_down : List Down → Schema → Option Schema
unfolding apply_down
run_down [] s = some s
run_down (o ∷ os) s = do t ← apply_down o s; run_down os t
