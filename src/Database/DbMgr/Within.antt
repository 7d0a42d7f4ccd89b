-- ===== src/Database/DbMgr/Within.antt =====
-- What an operation does within a transaction: by itself it stores nothing, and the transaction stays open.
use Prim.Native.String.{String}
use mathlib.Core.Path.{subst}
use snake_lab.Base.{ℕ, ◌≡◌, refl, sym, ◌∙◌, true, false, List, if◌then◌else◌}
use snake_lab.Base.Results.{Result, ok, err, refuse}
use snake_lab.Database.Statements.{
  SqlError, Condition, SqlValue, identifier, identifiers, names_of, has_none, insert_sql,
  update_parts, update_sql, delete_parts, delete_sql,
}
use snake_lab.Database.Statements.Placeholders.{Returns, Returns-bind, Returns-ok, Returns-here}
use snake_lab.Database.DbMgr.{
  DriverError, Reply, IsRowStatement, inserts, updates, deletes, Driver, Raised, DbMgr, Action,
  give, continue, next, checked, transaction, operation, replied, execute, insert, update, delete,
}

insert_sql-IsRowStatement :
    {V : Type 0} (table : String) (values : List (String × SqlValue V))
    → Returns (λ made. IsRowStatement made.0) (insert_sql table values)
unfolding insert_sql
insert_sql-IsRowStatement table values = Returns-bind _ (refuse (has_none values) _) _ (λ _ _.
    Returns-bind _ (identifiers (names_of values)) _
      (λ columns _. Returns-bind _ (identifier table) _ (λ name _. Returns-here _ _ (inserts _))))

pub update_sql-IsRowStatement :
    (table set clause : String) → Returns IsRowStatement (update_sql table set clause)
unfolding update_sql
update_sql-IsRowStatement table set clause =
    Returns-bind _ (identifier table) _ (λ name _. Returns-here _ _ (updates _))

delete_sql-IsRowStatement :
    (table clause : String) → Returns IsRowStatement (delete_sql table clause)
unfolding delete_sql
delete_sql-IsRowStatement table clause =
    Returns-bind _ (identifier table) _ (λ name _. Returns-here _ _ (deletes _))

module _ {V Row : Type 0} (D : Driver V Row) where
  abbrev M : Type 0
  M = DbMgr D

  abbrev pub kept : M → D.Data
  kept m = D.committed m.connection

  -- From one manager to another, the database keeps what it had.
  pub record Same (m m' : M) : Type 0 where
    pub keeps : kept m' ≡ kept m
    pub in_transaction : m'.in_transaction ≡ m.in_transaction
    pub closed : m'.closed ≡ m.closed

  pub Same_refl : (m : M) → Same m m
  Same_refl m = record { keeps = refl; in_transaction = refl; closed = refl }

  pub Same_then : (m n o : M) → Same m n → Same n o → Same m o
  Same_then m n o h g = record {
    keeps = g.keeps ∙ h.keeps;
    in_transaction = g.in_transaction ∙ h.in_transaction;
    closed = g.closed ∙ h.closed;
  }

  -- A transaction is open still, unless there was an error.
  abbrev pub StaysOpen : {A : Type 0} → Result Raised A × M → Type 0
  StaysOpen (ok a, n) = D.is_open n.connection ≡ true
  StaysOpen (err e, n) = Unit

  -- An action within an open transaction: it stores nothing by itself, and ends no transaction unless it
  -- raises.
  abbrev pub IsWithin : {A : Type 0} → Action D A → Type 0
  IsWithin body =
      (m : M)
      → m.in_transaction ≡ true
      → D.is_open m.connection ≡ true
      → Same m (body m).1 × StaysOpen (body m)

  pub give-IsWithin : {A : Type 0} (a : A) → IsWithin (give D a)
  give-IsWithin a m h is_open = (Same_refl m, is_open)

  continue-Within :
      {A B : Type 0} (k : A → Action D B) (m : M) (x : Result Raised A × M)
      → m.in_transaction ≡ true
      → ((a : A) → x.0 ≡ ok a → IsWithin (k a))
      → Same m x.1
      → StaysOpen x
      → Same m (continue D k x).1 × StaysOpen (continue D k x)
  continue-Within k m (ok a, n) h f s is_open =
      let (same, still) = f a refl n (s.in_transaction ∙ h) is_open in
      (Same_then m n (k a n).1 s same, still)
  continue-Within k m (err e, n) h f s is_open = (s, tt)

  pub next-IsWithin :
      {A B : Type 0} (a : Action D A) (k : A → Action D B)
      → IsWithin a
      → ((x : A) → IsWithin (k x))
      → IsWithin (next D a k)
  next-IsWithin a k h f m is is_open =
      let (same, still) = h m is is_open in continue-Within k m (a m) is (λ x _. f x) same still

  -- After a statement that was made, of which something is known.
  checked_before :
      {A B : Type 0} (Q : A → Type 0) (r : Result SqlError A) (k : A → Action D B)
      → Returns Q r
      → ((a : A) → Q a → IsWithin (k a))
      → IsWithin (next D (checked D r) k)
  checked_before Q (ok a) k q f m is is_open = f a (Returns-ok Q (ok a) a refl q) m is is_open
  checked_before Q (err e) k q f m is is_open = (Same_refl m, tt)

  replied-Within :
      (r : Result DriverError (Reply Row) × D.Connection) (m : M)
      → D.committed r.1 ≡ kept m
      → ((reply : Reply Row) → r.0 ≡ ok reply → D.is_open r.1 ≡ true)
      → Same m (replied D r m).1 × StaysOpen (replied D r m)
  replied-Within (ok r, c) m h f =
      (record { keeps = h; in_transaction = refl; closed = refl }, f r refl)
  replied-Within (err e, c) m h f = (record { keeps = h; in_transaction = refl; closed = refl }, tt)

  execute-IsWithin : (sql : String) (vs : List V) → IsRowStatement sql → IsWithin (execute D sql vs)
  unfolding execute
  execute-IsWithin sql vs rows m h is_open =
      replied-Within (D.execute sql vs m.connection) m
        (D.execute_keeps sql vs m.connection rows is_open)
        (λ r e. D.execute_open sql vs m.connection r rows is_open e)

  pub operation-IsWithin :
      {A : Type 0} (body : Action D A) → IsWithin body → IsWithin (operation D body)
  unfolding operation
  operation-IsWithin body h m is is_open =
      subst
        (λ b.
          Same m (if b then body m else transaction D false body m).1
          × StaysOpen (if b then body m else transaction D false body m))
        (sym is) (h m is is_open)

  ran-IsWithin :
      {A : Type 0} (sql : String) (vs : List V) (f : Reply Row → A)
      → IsRowStatement sql
      → IsWithin (next D (execute D sql vs) (λ r. give D (f r)))
  ran-IsWithin sql vs f rows =
      next-IsWithin (execute D sql vs) (λ r. give D (f r)) (execute-IsWithin sql vs rows)
        (λ r. give-IsWithin (f r))

  pub insert-IsWithin :
      (table : String) (values : List (String × SqlValue V)) → IsWithin (insert D table values)
  unfolding insert
  insert-IsWithin table values =
      checked_before (λ made. IsRowStatement made.0) (insert_sql table values) _
        (insert_sql-IsRowStatement table values)
        (λ made rows.
          operation-IsWithin (next D (execute D made.0 made.1) (λ r. give D r.lastrowid))
            (ran-IsWithin made.0 made.1 (λ r. r.lastrowid) rows))

  -- A statement whose text is made within its transaction.
  abbrev pub late : Result SqlError String → List V → Action D ℕ
  late text vs = next D (checked D text) (λ sql. next D (execute D sql vs) (λ r. give D r.rowcount))

  pub late-IsWithin :
      (text : Result SqlError String) (vs : List V)
      → Returns IsRowStatement text
      → IsWithin (late text vs)
  late-IsWithin text vs made =
      checked_before IsRowStatement text (λ sql. next D (execute D sql vs) (λ r. give D r.rowcount))
        made (λ sql rows. ran-IsWithin sql vs (λ r. r.rowcount) rows)

  always : {A : Type 0} (r : Result SqlError A) → Returns (λ _. Unit {0}) r
  unfolding Returns
  always (ok a) = tt
  always (err e) = tt

  pub update-IsWithin :
      (table : String) (values : List (String × SqlValue V))
      (conditions : List (String × Condition V))
      → IsWithin (update D table values conditions)
  unfolding update
  update-IsWithin table values conditions =
      checked_before (λ _. Unit) (update_parts values conditions) _
        (always (update_parts values conditions))
        (λ made _. operation-IsWithin (late (update_sql table made.0 made.1) made.2) (
          late-IsWithin (update_sql table made.0 made.1) made.2
            (update_sql-IsRowStatement table made.0 made.1)))

  pub delete-IsWithin :
      (table : String) (conditions : List (String × Condition V))
      → IsWithin (delete D table conditions)
  unfolding delete
  delete-IsWithin table conditions =
      checked_before (λ _. Unit) (delete_parts conditions) _ (always (delete_parts conditions))
        (λ made _.
          operation-IsWithin (late (delete_sql table made.0) made.1) (
            late-IsWithin (delete_sql table made.0) made.1
              (delete_sql-IsRowStatement table made.0)))
