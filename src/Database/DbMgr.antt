-- ===== src/Database/DbMgr.antt =====
-- database/DbMgr.py: one connection, its transactions and its operations. The connection of the driver is
-- a parameter; the lock, which one thread holds, is left out.
pub mod Within
pub mod Transactions
pub mod Operations
use Prim.Native.String.{String}
use snake_lab.Base.{
  ℕ, zero, ◌≡◌, Bool, true, false, ◌&&◌, ◌||◌, not, Option, none, some, List, [], ◌∷◌, ◌++◌, take,
  if◌then◌else◌,
}
use snake_lab.Base.Texts.{concat}
use snake_lab.Base.Int.{ℤ, pos, eqb_ℤ}
use snake_lab.Base.Results.{Result, ok, err, ◌>>=◌}
use snake_lab.Database.Statements.{
  SqlError, no_columns, Condition, SqlValue, select_sql, sum_sql, insert_sql, update_parts,
  update_sql, delete_parts, delete_sql,
}

-- A pymysql.Error: whether it is an OperationalError or an InterfaceError, and its first argument.
pub record DriverError : Type 0 where
  pub is_connection_error : Bool
  pub code : ℤ

pub record Reply (Row : Type 0) : Type 0 where
  pub rows : List Row
  pub lastrowid : ℕ
  pub rowcount : ℕ

-- The statements that read and write rows. Others, which would commit what is open, are never made.
pub data IsRowStatement : String → Type 0 where
  inserts : (rest : String) → IsRowStatement (concat "INSERT INTO " rest)
  updates : (rest : String) → IsRowStatement (concat "UPDATE " rest)
  deletes : (rest : String) → IsRowStatement (concat "DELETE FROM " rest)
  selects : (rest : String) → IsRowStatement (concat "SELECT " rest)

-- A connection of pymysql to MariaDB. `begin` is told whether the transaction only reads, and `connect`
-- opens the connection again. `committed` is what the database keeps, `is_open` whether a transaction is
-- open and `working` what it sees. To begin where one is open would commit it, so nothing is said of
-- that; an error may end the transaction, and a rollback that fails may leave it open.
pub record Driver (V Row : Type 0) : Type 1 where
  pub Connection : Type 0
  pub Data : Type 0
  pub begin : Bool → Connection → Option DriverError × Connection
  pub connect : Connection → Option DriverError × Connection
  pub execute : String → List V → Connection → Result DriverError (Reply Row) × Connection
  pub commit : Connection → Option DriverError × Connection
  pub rollback : Connection → Option DriverError × Connection
  pub close : Connection → Option DriverError × Connection
  pub committed : Connection → Data
  pub working : Connection → Data
  pub is_open : Connection → Bool
  pub begin_keeps :
      (b : Bool) (c : Connection) → is_open c ≡ false → committed (begin b c).1 ≡ committed c
  pub begin_opens :
      (b : Bool) (c : Connection)
      → is_open c ≡ false
      → (begin b c).0 ≡ none
      → (is_open (begin b c).1 ≡ true) × (working (begin b c).1 ≡ committed c)
  pub connect_keeps : (c : Connection) → committed (connect c).1 ≡ committed c
  pub connect_fresh : (c : Connection) → (connect c).0 ≡ none → is_open (connect c).1 ≡ false
  pub execute_keeps :
      (sql : String) (vs : List V) (c : Connection)
      → IsRowStatement sql
      → is_open c ≡ true
      → committed (execute sql vs c).1 ≡ committed c
  pub execute_open :
      (sql : String) (vs : List V) (c : Connection) (r : Reply Row)
      → IsRowStatement sql
      → is_open c ≡ true
      → (execute sql vs c).0 ≡ ok r
      → is_open (execute sql vs c).1 ≡ true
  pub rollback_keeps : (c : Connection) → committed (rollback c).1 ≡ committed c
  pub rollback_ends : (c : Connection) → (rollback c).0 ≡ none → is_open (rollback c).1 ≡ false
  pub commit_stores :
      (c : Connection)
      → is_open c ≡ true
      → (commit c).0 ≡ none
      → (committed (commit c).1 ≡ working c) × (is_open (commit c).1 ≡ false)

-- What an operation raises.
pub data Raised : Type 0 where
  driver_error : DriverError → Raised
  database_error runtime_error key_error : String → Raised
  value_error : SqlError → Raised
  json_error : Raised

module _ {V Row : Type 0} (D : Driver V Row) where
  pub record DbMgr : Type 0 where
    pub connection : D.Connection
    pub in_transaction : Bool
    pub closed : Bool

  -- What runs on the manager: a value or an error, and the manager after it.
  abbrev pub Action : Type 0 → Type 0
  Action A = DbMgr → Result Raised A × DbMgr

module _ {V Row : Type 0} (D : Driver V Row) where
  abbrev M : Type 0
  M = DbMgr D

  abbrev pub give : {A : Type 0} → A → Action D A
  give a m = (ok a, m)

  abbrev pub raise : {A : Type 0} → Raised → Action D A
  raise e m = (err e, m)

  abbrev pub continue :
      {A B : Type 0} → (A → Action D B) → Result Raised A × M → Result Raised B × M
  continue k (ok a, m) = k a m
  continue k (err e, m) = (err e, m)

  -- One action, and then another.
  abbrev pub next : {A B : Type 0} → Action D A → (A → Action D B) → Action D B
  next a k m = continue k (a m)

  -- A statement that may be none.
  abbrev pub checked : {A : Type 0} → Result SqlError A → Action D A
  checked (ok a) m = (ok a, m)
  checked (err e) m = (err (value_error e), m)

  abbrev connected : D.Connection → M → M
  connected c m = record m { connection = c }

  -- CR_SERVER_GONE_ERROR and CR_SERVER_LOST, or 0.
  unfoldable pub is_expired : DriverError → Bool
  is_expired e =
      e.is_connection_error
      && (eqb_ℤ e.code (pos 0) || (eqb_ℤ e.code (pos 2006) || eqb_ℤ e.code (pos 2013)))

  -- `_begin_transaction`
  unfoldable pub begin_transaction : Bool → M → Option DriverError × M
  begin_transaction read_only m = let (e, c) = D.begin read_only m.connection in (e, connected c m)

  abbrev pub reopened : Bool → Option DriverError × D.Connection → M → Option DriverError × M
  reopened read_only (some e, c) m = (some e, connected c m)
  reopened read_only (none, c) m = begin_transaction read_only (connected c m)

  abbrev pub retried : Bool → Option DriverError × M → Option DriverError × M
  retried read_only (none, m) = (none, m)
  retried read_only (some e, m) =
      if is_expired e then reopened read_only (D.connect m.connection) m else (some e, m)

  -- An expired connection is opened again, once.
  unfoldable pub begin_retried : Bool → M → Option DriverError × M
  begin_retried read_only m = retried read_only (begin_transaction read_only m)

  -- `except BaseException`: an error of the rollback is dropped.
  abbrev pub wrapped : Raised → Raised
  wrapped (driver_error e) = database_error "MariaDB transaction failed"
  wrapped e = e

  pub fail : {A : Type 0} → Raised → M → Result Raised A × M
  fail e m = (
    err (wrapped e),
    record m { connection = (D.rollback m.connection).1; in_transaction = false },
  )

  abbrev pub after_commit :
      {A : Type 0} → A → Option DriverError × D.Connection → M → Result Raised A × M
  after_commit a (none, c) m = (ok a, record m { connection = c; in_transaction = false })
  after_commit a (some e, c) m = fail (driver_error e) (connected c m)

  abbrev pub after_body : {A : Type 0} → Result Raised A × M → Result Raised A × M
  after_body (ok a, m) = after_commit a (D.commit m.connection) m
  after_body (err e, m) = fail e m

  abbrev pub after_begin : {A : Type 0} → Action D A → Option DriverError × M → Result Raised A × M
  after_begin body (none, m) = after_body (body m)
  after_begin body (some e, m) = fail (driver_error e) m

  -- `transaction`, around the body of the with statement.
  unfoldable pub transaction : {A : Type 0} → Bool → Action D A → Action D A
  transaction read_only body m =
      if m.closed
      then (err (runtime_error "Database manager is closed"), m)
      else if m.in_transaction
      then (err (runtime_error "Nested transactions are not supported"), m)
      else after_begin body (begin_retried read_only (record m { in_transaction = true }))

  -- `_operation`
  unfoldable pub operation : {A : Type 0} → Action D A → Action D A
  operation body m = if m.in_transaction then body m else transaction false body m

  abbrev pub replied :
      Result DriverError (Reply Row) × D.Connection → M → Result Raised (Reply Row) × M
  replied (ok r, c) m = (ok r, connected c m)
  replied (err e, c) m = (err (driver_error e), connected c m)

  -- cursor.execute(sql, parameters)
  unfoldable pub execute : String → List V → Action D (Reply Row)
  execute sql parameters m = replied (D.execute sql parameters m.connection) m

  -- `one` gives the first row, if there is one.
  unfoldable pub select :
      String → List String → List (String × Condition V) → Bool → Bool → Action D (List Row)
  select table columns conditions one for_update =
      next (checked (select_sql table columns conditions one for_update)) (λ (sql, parameters) m.
        if for_update && not m.in_transaction
        then raise (runtime_error "Row locking requires an explicit transaction") m
        else operation
            (next (execute sql parameters) (λ r. give (if one then take 1 r.rows else r.rows))) m)

  -- `read` takes the total out of the row.
  unfoldable pub sum : (Row → ℕ) → String → String → List (String × Condition V) → Action D (List ℕ)
  sum read table column conditions =
      next (checked (sum_sql table column conditions))
        (λ (sql, parameters). operation (next (execute sql parameters) (λ r. give (totals r.rows))))
    where
      totals : List Row → List ℕ
      totals [] = []
      totals (row ∷ rows) = read row ∷ []

  pub insert : String → List (String × SqlValue V) → Action D ℕ
  insert table values =
      next (checked (insert_sql table values))
        (λ (sql, parameters). operation (next (execute sql parameters) (λ r. give r.lastrowid)))

  unfoldable pub update :
      String → List (String × SqlValue V) → List (String × Condition V) → Action D ℕ
  update table values conditions =
      next (checked (update_parts values conditions)) (λ (set, clause, parameters). operation (
        next (checked (update_sql table set clause))
          (λ sql. next (execute sql parameters) (λ r. give r.rowcount))))

  pub delete : String → List (String × Condition V) → Action D ℕ
  delete table conditions = next (checked (delete_parts conditions)) (λ (clause, parameters).
      operation (
        next (checked (delete_sql table clause))
          (λ sql. next (execute sql parameters) (λ r. give r.rowcount))))

  abbrev pub closing : Option DriverError × D.Connection → M → Result Raised (Unit {0}) × M
  closing (none, c) m = (ok tt, record m { connection = c; closed = true })
  closing (some e, c) m = (
    err (database_error "Could not close MariaDB connection"),
    record m { connection = c; closed = true },
  )

  unfoldable pub close : Action D (Unit {0})
  close m =
      if m.in_transaction
      then (err (runtime_error "Cannot close an active transaction"), m)
      else if m.closed
      then (ok tt, m)
      else closing (D.close m.connection) m
