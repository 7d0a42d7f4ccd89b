-- ===== src/Database/Statements.antt =====
-- database/DbMgr.py: the texts of the statements and their parameters. `V` is the type of a parameter.
pub mod Placeholders
use Prim.Native.Char.{code}
use Prim.Native.String.{String}
use snake_lab.Base.{
  ℕ, Bool, true, false, ◌&&◌, ◌||◌, not, Option, none, some, List, [], ◌∷◌, ◌++◌, map, leb, ◌==◌,
  if◌then◌else◌,
}
use snake_lab.Base.Texts.{concat}
use snake_lab.Base.Results.{Result, ok, err, ◌>>=◌, ◌>>◌, refuse}

-- The ValueErrors.
pub data SqlError : Type 0 where
  bad_identifier : String → SqlError
  no_value_in no_columns no_values no_conditions : SqlError

abbrev pub codes : String → List ℕ
codes String.[] = []
codes (String.◌∷◌ c s) = code c ∷ codes s

abbrev pub is_first : ℕ → Bool
is_first c = (leb b'a' c && leb c b'z') || ((leb b'A' c && leb c b'Z') || (c == b'_'))

abbrev pub is_rest : ℕ → Bool
is_rest c = is_first c || (leb b'0' c && leb c b'9')

abbrev pub all_rest : List ℕ → Bool
all_rest [] = true
all_rest (c ∷ cs) = is_rest c && all_rest cs

-- [A-Za-z_][A-Za-z0-9_]*
abbrev pub is_identifier : List ℕ → Bool
is_identifier [] = false
is_identifier (c ∷ cs) = is_first c && all_rest cs

-- `_identifier`
unfoldable pub identifier : String → Result SqlError String
identifier name =
    if is_identifier (codes name)
    then ok (concat "`" (concat name "`"))
    else err (bad_identifier name)

-- separator.join(texts)
abbrev pub join : String → List String → String
join separator [] = ""
join separator (t ∷ []) = t
join separator (t ∷ u ∷ ts) = concat t (concat separator (join separator (u ∷ ts)))

pub identifiers : List String → Result SqlError (List String)
identifiers [] = ok []
identifiers (name ∷ names) = do
  column ← identifier name
  columns ← identifiers names
  ok (column ∷ columns)

-- The value of a condition: None, a tuple or list, or another value.
pub data Condition (V : Type 0) : Type 0 where
  is_null : Condition V
  one_of : List V → Condition V
  equals : V → Condition V

-- A value to be stored: the time of the server, or a parameter.
pub data SqlValue (V : Type 0) : Type 0 where
  current_timestamp : SqlValue V
  param : V → SqlValue V

abbrev pub has_none : {A : Type 0} → List A → Bool
has_none [] = true
has_none (a ∷ xs) = false

-- The text of an update or a delete, once its parts are made.
unfoldable pub update_sql : String → String → String → Result SqlError String
update_sql table set clause = do
  name ← identifier table
  ok (concat "UPDATE " (concat name (concat " SET " (concat set (concat " WHERE " clause)))))

unfoldable pub delete_sql : String → String → Result SqlError String
delete_sql table clause = do
  name ← identifier table
  ok (concat "DELETE FROM " (concat name (concat " WHERE " clause)))

module _ {V : Type 0} where
  -- ['%s'] * len(values)
  abbrev pub placeholders : List V → List String
  placeholders vs = map (λ v. "%s") vs

  unfoldable pub condition : String → Condition V → Result SqlError (String × List V)
  condition column is_null = ok (concat column " IS NULL", [])
  condition column (one_of []) = err no_value_in
  condition column (one_of (v ∷ vs)) =
      ok (concat column (concat " IN (" (concat (join ", " (placeholders (v ∷ vs))) ")")), v ∷ vs)
  condition column (equals v) = ok (concat column " = %s", v ∷ [])

  -- The clauses of `_where`, and its parameters.
  unfoldable pub clauses : List (String × Condition V) → Result SqlError (List String × List V)
  clauses [] = ok ([], [])
  clauses ((name, value) ∷ conditions) = do
    column ← identifier name
    (text, parameters) ← condition column value
    (texts, others) ← clauses conditions
    ok (text ∷ texts, parameters ++ others)

  -- `_where`
  unfoldable pub where_clause : List (String × Condition V) → Result SqlError (String × List V)
  where_clause conditions = do
    (texts, parameters) ← clauses conditions
    ok (join " AND " texts, parameters)

  -- `_value`
  abbrev pub value_text : SqlValue V → String
  value_text current_timestamp = "CURRENT_TIMESTAMP(6)"
  value_text (param v) = "%s"

  abbrev pub value_parameters : List (SqlValue V) → List V
  value_parameters [] = []
  value_parameters (current_timestamp ∷ values) = value_parameters values
  value_parameters (param v ∷ values) = v ∷ value_parameters values

  abbrev pub names_of : List (String × SqlValue V) → List String
  names_of values = map (λ (item : String × SqlValue V). item.0) values

  abbrev pub values_of : List (String × SqlValue V) → List (SqlValue V)
  values_of values = map (λ (item : String × SqlValue V). item.1) values

  -- `if clause: sql += f" WHERE {clause}"`
  abbrev pub with_where : String → List (String × Condition V) → String → String
  with_where sql [] clause = sql
  with_where sql (c ∷ cs) clause = concat sql (concat " WHERE " clause)

  unfoldable pub select_sql :
      String
      → List String
      → List (String × Condition V)
      → Bool
      → Bool
      → Result SqlError (String × List V)
  select_sql table columns conditions one for_update = do
    refuse (has_none columns) no_columns
    quoted ← identifiers columns
    name ← identifier table
    (clause, parameters) ← where_clause conditions
    let start = concat "SELECT " (concat (join ", " quoted) (concat " FROM " name))
    let found = with_where start conditions clause
    let limited = if one then concat found " LIMIT 1" else found
    ok (if for_update then concat limited " FOR UPDATE" else limited, parameters)

  unfoldable pub sum_sql :
      String → String → List (String × Condition V) → Result SqlError (String × List V)
  sum_sql table column conditions = do
    (clause, parameters) ← where_clause conditions
    summed ← identifier column
    name ← identifier table
    let start = concat "SELECT COALESCE(SUM(" (concat summed (concat "), 0) AS total FROM " name))
    ok (with_where start conditions clause, parameters)

  unfoldable pub insert_sql :
      String → List (String × SqlValue V) → Result SqlError (String × List V)
  insert_sql table values = do
    refuse (has_none values) no_values
    columns ← identifiers (names_of values)
    name ← identifier table
    let marks = join ", " (map value_text (values_of values))
    ok (
      concat "INSERT INTO " (
          concat name
            (concat " (" (concat (join ", " columns) (concat ") VALUES (" (concat marks ")"))))),
      value_parameters (values_of values),
    )

  unfoldable pub assignments : List (String × SqlValue V) → Result SqlError (List String)
  assignments [] = ok []
  assignments ((name, value) ∷ values) = do
    column ← identifier name
    rest ← assignments values
    ok (concat column (concat " = " (value_text value)) ∷ rest)

  -- What `update` and `delete` make before they ask for a transaction.
  unfoldable pub update_parts :
      List (String × SqlValue V)
      → List (String × Condition V)
      → Result SqlError (String × String × List V)
  update_parts values conditions = do
    refuse (has_none values || has_none conditions) no_conditions
    set ← assignments values
    (clause, parameters) ← where_clause conditions
    ok (join ", " set, clause, value_parameters (values_of values) ++ parameters)

  unfoldable pub delete_parts : List (String × Condition V) → Result SqlError (String × List V)
  delete_parts conditions = do refuse (has_none conditions) no_conditions; where_clause conditions
