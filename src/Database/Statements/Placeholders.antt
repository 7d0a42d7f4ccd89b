-- ===== src/Database/Statements/Placeholders.antt =====
-- A statement has a place for each of its parameters, and no name brings in another.
use Prim.Native.Char.{code}
use Prim.Native.String.{String}
use mathlib.Core.Path.{subst}
use text.Mathlib.TextLemmas.{nil-append, cons-append}
use snake_lab.Base.{
  ℕ, ◌+◌, ◌≡◌, refl, ap, ◌∙◌, true, false, List, [], ◌∷◌, ◌++◌, map, length, length-append, arith,
  ◌==◌, if◌then◌else◌,
}
use snake_lab.Base.Texts.{concat}
use snake_lab.Base.Results.{Result, ok, err, ◌>>=◌, refuse, ok_unique}
use snake_lab.Database.Statements.{
  SqlError, codes, is_rest, all_rest, is_identifier, identifier, join, identifiers, Condition,
  is_null, one_of, equals, SqlValue, current_timestamp, param, placeholders, condition, clauses,
  where_clause, value_text, value_parameters, names_of, values_of, has_none, insert_sql,
}

-- How many percent signs a text has.
abbrev pub percents : String → ℕ
percents String.[] = 0
percents (String.◌∷◌ c s) = (if code c == 37 then 1 else 0) + percents s

percents-concat : (s t : String) → percents (concat s t) ≡ percents s + percents t
percents-concat String.[] t = rw (nil-append t) (omega arith)
percents-concat (String.◌∷◌ c s) t = rw (cons-append c s t) (omega (arith, percents-concat s t))

no_percent : (c : ℕ) → is_rest c ≡ true → (c == 37) ≡ false
no_percent c h = ground (arith, h)

all_rest-percents : (s : String) → all_rest (codes s) ≡ true → percents s ≡ 0
all_rest-percents String.[] h = refl
all_rest-percents (String.◌∷◌ c s) h = ground (arith, no_percent (code c), all_rest-percents s)

identified :
    (name column : String)
    → identifier name ≡ ok column
    → (is_identifier (codes name) ≡ true) × (column ≡ concat "`" (concat name "`"))
unfolding identifier
identified name column h = ground arith

is_identifier-percents : (s : String) → is_identifier (codes s) ≡ true → percents s ≡ 0
is_identifier-percents String.[] h = refl
is_identifier-percents (String.◌∷◌ c s) h = ground (arith, no_percent (code c), all_rest-percents s)

pub identifier-percents : (name column : String) → identifier name ≡ ok column → percents column ≡ 0
identifier-percents name column h =
    let (good, is) = identified name column h in
    ap percents is
    ∙ omega (
      arith,
      percents-concat "`" (concat name "`"),
      percents-concat name "`",
      is_identifier-percents name good,
    )

abbrev total : List String → ℕ
total [] = 0
total (t ∷ ts) = percents t + total ts

join-percents :
    (separator : String) (ts : List String)
    → percents separator ≡ 0
    → percents (join separator ts) ≡ total ts
join-percents separator [] h = refl
join-percents separator (t ∷ []) h = omega arith
join-percents separator (t ∷ u ∷ ts) h = omega (
  arith,
  h,
  percents-concat t (concat separator (join separator (u ∷ ts))),
  percents-concat separator (join separator (u ∷ ts)),
  join-percents separator (u ∷ ts) h,
)

-- A value that is returned has a property if the result has.
unfoldable pub Returns : {A : Type 0} → (A → Type 0) → Result SqlError A → Type 0
Returns Q (ok a) = Q a
Returns Q (err e) = Unit

pub Returns-bind :
    {A B : Type 0} (Q : B → Type 0) (m : Result SqlError A) (k : A → Result SqlError B)
    → ((a : A) → m ≡ ok a → Returns Q (k a))
    → Returns Q (m >>= k)
unfolding Returns
Returns-bind Q (ok a) k h = h a refl
Returns-bind Q (err e) k h = tt

pub Returns-ok :
    {A : Type 0} (Q : A → Type 0) (m : Result SqlError A) (a : A) → m ≡ ok a → Returns Q m → Q a
unfolding Returns
Returns-ok Q (ok b) a e h = subst Q (ok_unique (ok b) b a refl e) h
Returns-ok Q (err x) a e h = absurd (cc e)

pub Returns-here : {A : Type 0} (Q : A → Type 0) (a : A) → Q a → Returns Q (ok a)
unfolding Returns
Returns-here Q a h = h

Returns-err : {A : Type 0} (Q : A → Type 0) (e : SqlError) → Returns Q (err e)
unfolding Returns
Returns-err Q e = tt

identifiers-total :
    (names : List String) → Returns (λ columns. total columns ≡ 0) (identifiers names)
unfolding identifiers
identifiers-total [] = Returns-here _ [] refl
identifiers-total (name ∷ names) = Returns-bind _ (identifier name) _ (λ column e.
    Returns-bind _ (identifiers names) _ (λ others e'. Returns-here _ (column ∷ others) (
      omega (
        arith,
        identifier-percents name column e,
        Returns-ok _ (identifiers names) others e' (identifiers-total names),
      ))))

module _ {V : Type 0} where
  -- A text with a percent sign for each parameter.
  abbrev pub Placed : String × List V → Type 0
  Placed statement = percents statement.0 ≡ length statement.1

  placeholders-total : (vs : List V) → total (placeholders vs) ≡ length vs
  placeholders-total [] = refl
  placeholders-total (v ∷ vs) = omega (arith, placeholders-total vs)

  -- The parameters that conditions ask for, in their order.
  abbrev pub asked : List (String × Condition V) → List V
  asked [] = []
  asked ((name, is_null) ∷ conditions) = asked conditions
  asked ((name, one_of vs) ∷ conditions) = vs ++ asked conditions
  asked ((name, equals v) ∷ conditions) = v ∷ asked conditions

  -- The parts of an update: those of the new values have their places in the first, those of the
  -- conditions in the second, which stands behind it.
  pub record IsSplit (values : List (String × SqlValue V))
      (conditions : List (String × Condition V)) (parts : String × String × List V) : Type 0 where
    pub set_places : percents parts.0 ≡ length (value_parameters (values_of values))
    pub clause_places : percents parts.1 ≡ length (asked conditions)
    pub ordered : parts.2 ≡ value_parameters (values_of values) ++ asked conditions

  condition-Placed :
      (column : String) (c : Condition V)
      → percents column ≡ 0
      → Returns Placed (condition column c)
  unfolding condition
  condition-Placed column is_null plain =
      Returns-here Placed _ (omega (arith, plain, percents-concat column " IS NULL"))
  condition-Placed column (one_of []) plain = Returns-err Placed _
  condition-Placed column (one_of (v ∷ vs)) plain =
      let marks = join ", " (placeholders (v ∷ vs)) in
      Returns-here Placed _ (
        omega (
          arith,
          plain,
          percents-concat column (concat " IN (" (concat marks ")")),
          percents-concat " IN (" (concat marks ")"),
          percents-concat marks ")",
          join-percents ", " (placeholders (v ∷ vs)) refl,
          placeholders-total (v ∷ vs),
        ))
  condition-Placed column (equals v) plain =
      Returns-here Placed _ (omega (arith, plain, percents-concat column " = %s"))

  -- The clauses and parameters of some conditions.
  abbrev Matching : List String × List V → Type 0
  Matching found = total found.0 ≡ length found.1

  clauses-Matching :
      (conditions : List (String × Condition V)) → Returns Matching (clauses conditions)
  unfolding clauses
  clauses-Matching [] = Returns-here Matching _ refl
  clauses-Matching ((name, value) ∷ conditions) =
      Returns-bind Matching (identifier name) _ (λ column e.
        Returns-bind Matching (condition column value) _ (λ one e1.
          Returns-bind Matching (clauses conditions) _ (λ others e2. Returns-here Matching _ (
            omega (
              arith,
              Returns-ok Placed (condition column value) one e1
                  (condition-Placed column value (identifier-percents name column e)),
              Returns-ok Matching (clauses conditions) others e2 (clauses-Matching conditions),
              length-append one.1 others.1,
            )))))

  pub where_clause-Placed :
      (conditions : List (String × Condition V)) → Returns Placed (where_clause conditions)
  unfolding where_clause
  where_clause-Placed conditions = Returns-bind Placed (clauses conditions) _ (λ found e.
      Returns-here Placed _ (
        join-percents " AND " found.0 refl
        ∙ Returns-ok Matching (clauses conditions) found e (clauses-Matching conditions)))

  values-total :
      (values : List (SqlValue V))
      → total (map value_text values) ≡ length (value_parameters values)
  values-total [] = refl
  values-total (current_timestamp ∷ values) = omega (arith, values-total values)
  values-total (param v ∷ values) = omega (arith, values-total values)

  -- A statement that inserts a row has a place for each parameter, and a name brings in none: a column
  -- or table that is no identifier is an error.
  pub insert_sql-Placed :
      (table : String) (values : List (String × SqlValue V))
      → Returns Placed (insert_sql table values)
  unfolding insert_sql
  insert_sql-Placed table values = Returns-bind Placed (refuse (has_none values) _) _ (λ _ _.
      Returns-bind Placed (identifiers (names_of values)) _ (λ columns e1.
        Returns-bind Placed (identifier table) _ (λ name e2.
          let marks = join ", " (map value_text (values_of values)) in
          let listed = join ", " columns in
          Returns-here Placed _ (
            omega (
              arith,
              percents-concat "INSERT INTO " (
                  concat name
                    (concat " (" (concat listed (concat ") VALUES (" (concat marks ")"))))),
              percents-concat name
                  (concat " (" (concat listed (concat ") VALUES (" (concat marks ")")))),
              percents-concat " (" (concat listed (concat ") VALUES (" (concat marks ")"))),
              percents-concat listed (concat ") VALUES (" (concat marks ")")),
              percents-concat ") VALUES (" (concat marks ")"),
              percents-concat marks ")",
              identifier-percents table name e2,
              join-percents ", " columns refl,
              Returns-ok _ (identifiers (names_of values)) columns e1
                  (identifiers-total (names_of values)),
              join-percents ", " (map value_text (values_of values)) refl,
              values-total (values_of values),
            )))))

  -- An updating statement over its parts: it has a place for each parameter, and the parts are split.
  abbrev pub Updates :
      List (String × SqlValue V)
      → List (String × Condition V)
      → String × (String × String × List V)
      → Type 0
  Updates values conditions (sql, parts) =
      (percents sql ≡ length parts.2) × IsSplit values conditions parts
