-- ===== src/Migrations/Values.antt =====
-- When a table takes a row, as PostgreSQL documents it. Foreign keys are left out, and so is the
-- character NUL, which no text may have.
use supportops_ai.Common.{
  ◌≤◌, ◌≡◌, Bool, true, false, ◌||◌, Option, none, some, List, [], ◌∷◌, Text, text_eq,
  if◌then◌else◌, In, length,
}
use supportops_ai.Migrations.Schema.{
  ColumnType, Default, Column, Table, Schema, uuid, text, timestamp, timestamp_with_time_zone,
  jsonb, boolean, varchar, varchar_array, enum, enum_type, table,
}

pub data Value : Type 0 where
  null uuid_value json_value time_value : Value
  text_value label : Text → Value
  bool_value : Bool → Value
  texts_value : List Text → Value

-- the columns that an insert gives, with their values
abbrev pub Values : Type 0
Values = List (Text × Value)

-- the labels of a type
abbrev pub labels_of : Text → Schema → List Text
labels_of n [] = []
labels_of n (enum_type m labels ∷ s) =
    let rest = labels_of n s in if text_eq m n then labels else rest
labels_of n (table _ ∷ s) = labels_of n s

abbrev pub table_named : Text → Schema → Option Table
table_named n [] = none
table_named n (enum_type _ _ ∷ s) = table_named n s
table_named n (table t ∷ s) =
    let rest = table_named n s in if text_eq t.name n then some t else rest

-- a value that a column may hold
abbrev pub Fits : Schema → ColumnType → Value → Type 0
Fits s uuid uuid_value = Unit {0}
Fits s text (text_value _) = Unit {0}
Fits s (varchar n) (text_value t) = length t ≤ n
Fits s (enum n) (label l) = In l (labels_of n s)
Fits s jsonb json_value = Unit {0}
Fits s boolean (bool_value _) = Unit {0}
Fits s varchar_array (texts_value _) = Unit {0}
Fits s timestamp time_value = Unit {0}
Fits s timestamp_with_time_zone time_value = Unit {0}
Fits s _ _ = ⊥

abbrev pub has_default : Option Default → Bool
has_default none = false
has_default (some _) = true

-- A column that is not given takes its default, or NULL where it may.
abbrev pub CellFits : Schema → Column → Option Value → Type 0
CellFits s c none = (c.nullable || has_default c.server_default) ≡ true
CellFits s c (some null) = c.nullable ≡ true
CellFits s c (some v) = Fits s c.column_type v

abbrev pub given : Text → Values → Option Value
given n [] = none
given n ((m, v) ∷ values) = let rest = given n values in if text_eq m n then some v else rest

abbrev pub CellsFit : Schema → List Column → Values → Type 0
CellsFit s [] values = Unit {0}
CellsFit s (c ∷ columns) values = CellFits s c (given c.name values) × CellsFit s columns values

-- every column that is given is one of the table's
abbrev pub has_column : Text → List Column → Bool
has_column n [] = false
has_column n (c ∷ columns) = if text_eq c.name n then true else has_column n columns

abbrev pub AreColumns : Values → List Column → Type 0
AreColumns [] columns = Unit {0}
AreColumns ((n, _) ∷ values) columns = (has_column n columns ≡ true) × AreColumns values columns

abbrev TakenBy : Schema → Option Table → Values → Type 0
TakenBy s none values = ⊥
TakenBy s (some t) values = AreColumns values t.columns × CellsFit s t.columns values

-- the schema has the table, and the table takes the row
abbrev pub Accepts : Schema → Text → Values → Type 0
Accepts s n values = TakenBy s (table_named n s) values
