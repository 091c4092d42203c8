-- ===== src/Migrations/Effect.antt =====
-- What the statements document to do to a schema. PostgreSQL, which executes them, is not part of the
-- repository.
use supportops_ai.Common.{
  Bool, true, false, not, ◌&&◌, ◌||◌, Option, none, some, List, [], ◌∷◌, ◌++◌, Text, text_eq,
  if◌then◌else◌, any, select, codes, leb,
}
use supportops_ai.Migrations.Schema.{
  ColumnType, Column, Constraint, Table, Entry, Schema, Statement, timestamp, varchar,
  varchar_array, text, timestamp_with_time_zone, enum, primary_key, unique, foreign_key, enum_type,
  table, create_type, create_table, create_index, add_column, drop_default, set_nullable, set_type,
  drop_column, drop_index, drop_table, drop_table_if_exists, drop_type_if_exists,
}
use supportops_ai.Migrations.Sound.{
  has_uuid, is_primary, is_name, is_sound_column, is_sound_type, is_sound,
}

-- tables and types share their names, and tables theirs with indexes
abbrev pub is_named : Text → Entry → Bool
is_named n (enum_type m _) = text_eq m n
is_named n (table t) = text_eq t.name n

abbrev pub is_table : Text → Entry → Bool
is_table n (enum_type m _) = false
is_table n (table t) = text_eq t.name n

abbrev pub is_type : Text → Entry → Bool
is_type n (enum_type m _) = text_eq m n
is_type n (table t) = false

-- primary keys and unique constraints make an index of their name
abbrev pub is_key : Text → Constraint → Bool
is_key n (primary_key m _) = text_eq m n
is_key n (unique m _) = text_eq m n
is_key n (foreign_key _ _ _) = false

abbrev pub has_index : Text → Entry → Bool
has_index n (enum_type _ _) = false
has_index n (table t) = any (λ i. text_eq i.name n) t.indexes || any (is_key n) t.constraints

abbrev pub is_enum : Text → ColumnType → Bool
is_enum n (enum m) = text_eq m n
is_enum n _ = false

abbrev pub of_type : Text → Column → Bool
of_type n c = is_enum n c.column_type

abbrev pub references : Text → Constraint → Bool
references n (foreign_key _ _ m) = text_eq m n
references n _ = false

-- another table refers to the table or the type
abbrev pub refers : Text → Entry → Bool
refers n (enum_type _ _) = false
refers n (table t) =
    not (text_eq t.name n) && (any (of_type n) t.columns || any (references n) t.constraints)

abbrev pub is_taken : Text → Schema → Bool
is_taken n s = any (is_named n) s || any (has_index n) s

-- what the columns and the constraints of a table need to be there
abbrev pub type_known : ColumnType → Schema → Bool
type_known (enum m) s = any (is_named m) s
type_known _ s = true

abbrev pub types_known : List Column → Schema → Bool
types_known [] s = true
types_known (c ∷ cs) s = type_known c.column_type s && types_known cs s

-- a table that a foreign key may refer to
abbrev pub is_keyed : Text → Entry → Bool
is_keyed n (enum_type _ _) = false
is_keyed n (table t) =
    text_eq t.name n
    && (has_uuid (codes "id") t.columns && any (is_primary (codes "id")) t.constraints)

abbrev pub reference_known : Constraint → Schema → Bool
reference_known (foreign_key _ _ m) s = any (is_keyed m) s
reference_known _ s = true

abbrev pub references_known : List Constraint → Schema → Bool
references_known [] s = true
references_known (c ∷ cs) s = reference_known c s && references_known cs s

-- the names of the indexes that the constraints make
abbrev pub key_names : List Constraint → List Text
key_names [] = []
key_names (primary_key n _ ∷ cs) = n ∷ key_names cs
key_names (unique n _ ∷ cs) = n ∷ key_names cs
key_names (foreign_key _ _ _ ∷ cs) = key_names cs

abbrev pub all_free : List Text → Schema → Bool
all_free [] s = true
all_free (n ∷ ns) s = not (is_taken n s) && all_free ns s

abbrev has_column : Text → List Column → Bool
has_column n = any (λ c. text_eq c.name n)

-- one column changed
abbrev change_column : Text → (Column → Column) → List Column → List Column
change_column n f [] = []
change_column n f (c ∷ cs) = (if text_eq c.name n then f c else c) ∷ change_column n f cs

abbrev changed : Text → (Column → Column) → Table → Option Table
changed c f t =
    if has_column c t.columns
    then some (record t { columns = change_column c f t.columns })
    else none

abbrev is_on : Text → Constraint → Bool
is_on c (primary_key _ d) = text_eq d c
is_on c (unique _ d) = text_eq d c
is_on c (foreign_key _ d _) = text_eq d c

-- an index or a constraint of the table is on the column
abbrev is_used_in : Text → Table → Bool
is_used_in c t = any (λ i. text_eq i.column c) t.indexes || any (is_on c) t.constraints

-- the types between which every value converts
abbrev is_timestamp : ColumnType → Bool
is_timestamp timestamp = true
is_timestamp timestamp_with_time_zone = true
is_timestamp _ = false

-- the types whose values all fit an index
abbrev is_indexed_whole : ColumnType → Bool
is_indexed_whole text = false
is_indexed_whole varchar_array = false
is_indexed_whole (varchar n) = leb n 600
is_indexed_whole _ = true

abbrev pub alter_table : Statement → Table → Option Table
alter_table (create_index i _ column) t =
    if any (λ c. text_eq c.name column && is_indexed_whole c.column_type) t.columns
    then some (record t { indexes = record { name = i; column = column } ∷ t.indexes })
    else none
alter_table (add_column _ c) t =
    if has_column c.name t.columns
    then none
    else some (record t { columns = t.columns ++ (c ∷ []) })
alter_table (drop_default _ c) t = changed c (λ col. record col { server_default = none }) t
alter_table (set_nullable _ c b) t =
    if any (is_primary c) t.constraints
    then none
    else changed c (λ col. record col { nullable = b }) t
alter_table (set_type _ c ty) t =
    if any (λ col. text_eq col.name c && is_timestamp col.column_type) t.columns && is_timestamp ty
    then changed c (λ col. record col { column_type = ty }) t
    else none
alter_table (drop_column _ c) t =
    if has_column c t.columns && not (is_used_in c t)
    then some (record t { columns = select (λ col. not (text_eq col.name c)) t.columns })
    else none
alter_table (drop_index i _) t =
    if any (λ x. text_eq x.name i) t.indexes
    then some (record t { indexes = select (λ x. not (text_eq x.name i)) t.indexes })
    else none
alter_table _ t = none

abbrev pub as_entry : Option Table → Option Entry
as_entry none = none
as_entry (some t) = some (table t)

abbrev pub alter_entry : Statement → Entry → Option Entry
alter_entry st (enum_type _ _) = none
alter_entry st (table t) = as_entry (alter_table st t)

abbrev pub keep_first : {A : Type 0} → A → Option (List A) → Option (List A)
keep_first a none = none
keep_first a (some l) = some (a ∷ l)

abbrev pub with_rest : {A : Type 0} → Option A → List A → Option (List A)
with_rest none l = none
with_rest (some a) l = some (a ∷ l)

-- the entry of a name, changed
abbrev pub alter : Text → Statement → Schema → Option Schema
alter n st [] = none
alter n st (e ∷ s) =
    let rest = alter n st s in
    if is_named n e then with_rest (alter_entry st e) s else keep_first e rest

-- what is left without the entry of a name; nothing else may refer to it
abbrev pub without : Text → Schema → Option Schema
without n s = if any (refers n) s then none else some (select (λ e. not (is_named n e)) s)

-- The schema after a statement that succeeds; none where it is refused for the schema, or where what
-- it drops with it is not described here.
unfoldable pub apply : Statement → Schema → Option Schema
apply (create_type n labels) s =
    if is_taken n s || not (is_sound_type n labels) then none else some (enum_type n labels ∷ s)
apply (create_table n columns constraints) s =
    if is_taken n s
      || not (
          is_sound n columns constraints
          && (all_free (key_names constraints) s
              && (types_known columns s && references_known constraints s)))
    then none
    else some (
        table (record { name = n; columns = columns; constraints = constraints; indexes = [] }) ∷ s)
apply (create_index i n column) s =
    if is_taken i s || not (is_name i) then none else alter n (create_index i n column) s
apply (drop_table n) s = if any (is_table n) s then without n s else none
apply (drop_table_if_exists n) s =
    if any (λ e. is_type n e || has_index n e) s then none else without n s
apply (drop_type_if_exists n) s = if any (is_table n) s then none else without n s
apply (add_column n c) s =
    if types_known (c ∷ []) s && is_sound_column c then alter n (add_column n c) s else none
apply (drop_default n c) s = alter n (drop_default n c) s
apply (set_nullable n c b) s = alter n (set_nullable n c b) s
apply (set_type n c ty) s = alter n (set_type n c ty) s
apply (drop_column n c) s = alter n (drop_column n c) s
apply (drop_index i n) s = alter n (drop_index i n) s

abbrev pub apply_then : (Schema → Option Schema) → Option Schema → Option Schema
apply_then f none = none
apply_then f (some s) = f s

unfoldable pub apply_all : List Statement → Schema → Option Schema
unfolding apply
apply_all [] s = some s
apply_all (st ∷ statements) s = apply_then (apply_all statements) (apply st s)
