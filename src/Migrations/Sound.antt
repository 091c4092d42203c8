-- ===== src/Migrations/Sound.antt =====
-- The columns and the constraints that PostgreSQL lets a table have, whatever else is in the schema.
use supportops_ai.Common.{
  Bool, true, false, not, ◌&&◌, ◌||◌, Option, none, some, List, [], ◌∷◌, Text, text_eq, any, codes,
  length, leb,
}
use supportops_ai.Migrations.Schema.{
  ColumnType, Column, Constraint, Default, timestamp, uuid, boolean, varchar, varchar_array, text,
  now, true_value, empty_text, empty_array, timestamp_with_time_zone, primary_key, unique,
  foreign_key,
}

abbrev is_uuid : Column → Bool
is_uuid c = is_uuid_type c.column_type
  where
    is_uuid_type : ColumnType → Bool
    is_uuid_type uuid = true
    is_uuid_type _ = false

-- a column of the type `uuid`
abbrev pub has_uuid : Text → List Column → Bool
has_uuid n = any (λ c. text_eq c.name n && is_uuid c)

abbrev pub is_primary : Text → Constraint → Bool
is_primary c (primary_key _ d) = text_eq d c
is_primary c _ = false

abbrev constraint_names : List Constraint → List Text
constraint_names [] = []
constraint_names (primary_key n _ ∷ cs) = n ∷ constraint_names cs
constraint_names (unique n _ ∷ cs) = n ∷ constraint_names cs
constraint_names (foreign_key n _ _ ∷ cs) = n ∷ constraint_names cs

abbrev distinct : List Text → Bool
distinct [] = true
distinct (n ∷ ns) = not (any (λ m. text_eq m n) ns) && distinct ns

abbrev at_most_one : List Constraint → Bool
at_most_one [] = true
at_most_one (primary_key _ _ ∷ cs) = not (any is_a_primary cs)
  where
    is_a_primary : Constraint → Bool
    is_a_primary (primary_key _ _) = true
    is_a_primary _ = false
at_most_one (_ ∷ cs) = at_most_one cs

-- A name is kept whole up to 63 bytes.
abbrev pub is_name : Text → Bool
is_name n = leb 1 (length n) && leb (length n) 63 && not (any (λ c. leb c 31 || leb 127 c) n)

-- the names of the columns that every table has of itself
abbrev system_columns : List Text
system_columns =
    codes "tableoid" ∷ codes "xmin" ∷ codes "cmin" ∷ codes "xmax" ∷ codes "cmax" ∷ codes "ctid" ∷ []

abbrev all_names_kept : List Text → Bool
all_names_kept [] = true
all_names_kept (n ∷ ns) = is_name n && all_names_kept ns

-- a default of the type of its column, and a length that a type may have
abbrev default_fits : ColumnType → Option Default → Bool
default_fits ty none = true
default_fits timestamp (some now) = true
default_fits timestamp_with_time_zone (some now) = true
default_fits boolean (some true_value) = true
default_fits text (some empty_text) = true
default_fits (varchar _) (some empty_text) = true
default_fits varchar_array (some empty_array) = true
default_fits _ (some _) = false

abbrev length_fits : ColumnType → Bool
length_fits (varchar n) = leb 1 n && leb n 10485760
length_fits _ = true

abbrev pub is_sound_column : Column → Bool
is_sound_column c =
    is_name c.name
    && (not (any (text_eq c.name) system_columns)
        && (length_fits c.column_type && default_fits c.column_type c.server_default))

abbrev all_sound : List Column → Bool
all_sound [] = true
all_sound (c ∷ cs) = is_sound_column c && all_sound cs

abbrev constraint_on : List Column → Constraint → Bool
constraint_on columns (primary_key _ c) = any (λ d. text_eq d.name c && not d.nullable) columns
constraint_on columns (unique _ c) = any (λ d. text_eq d.name c) columns
constraint_on columns (foreign_key _ c _) = has_uuid c columns

abbrev constraints_on : List Column → List Constraint → Bool
constraints_on columns [] = true
constraints_on columns (c ∷ cs) = constraint_on columns c && constraints_on columns cs

abbrev names_of : List Column → List Text
names_of [] = []
names_of (c ∷ cs) = c.name ∷ names_of cs

abbrev pub is_sound_type : Text → List Text → Bool
is_sound_type n labels = is_name n && (distinct labels && all_names_kept labels)

-- a table that can be made where its names, its types and the tables it refers to allow it
abbrev pub is_sound : Text → List Column → List Constraint → Bool
is_sound n columns constraints =
    let constrained = constraint_names constraints in
    is_name n
    && (all_names_kept constrained
        && (distinct (n ∷ constrained)
            && (distinct (names_of columns)
                && (all_sound columns
                    && (at_most_one constraints && constraints_on columns constraints)))))
