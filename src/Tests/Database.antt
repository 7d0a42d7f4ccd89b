-- ===== src/Tests/Database.antt =====
-- The store on a database that counts the statements it was given.
use Prim.Native.String.{String}
use snake_lab.Base.{ℕ, ◌+◌, ◌≡◌, refl, Bool, true, false, Option, none, some, List, [], ◌∷◌}
use snake_lab.Base.Results.{ok}
use snake_lab.Json.{Json, str, Fields}
use snake_lab.Database.Statements.{
  Condition, SqlValue, equals, param, identifier, assignments, condition, clauses, where_clause,
  update_parts, update_sql,
}
use snake_lab.Database.DbMgr.{
  Driver, DbMgr, insert, transaction, begin_transaction, begin_retried, operation, execute, update,
}
use snake_lab.Database.DbMgr.Within.{insert-IsWithin}
use snake_lab.Database.DbMgr.Transactions.{Ended, transaction-Ended}
use snake_lab.Database.SnakeDb.{mark_started}
use snake_lab.Database.SnakeDb.Atomicity.{starts, perform, statements, perform-Ended}

-- What is committed, what the open transaction sees, and whether one is open.
abbrev counting_driver : Driver (Json ℕ) (Fields ℕ)
counting_driver = record {
  Connection = ℕ × ℕ × Bool;
  Data = ℕ;
  begin = λ b c. (none, (c.0, c.0, true));
  connect = λ c. (none, (c.0, c.0, false));
  execute =
      λ sql vs c. (ok (record { rows = []; lastrowid = 0; rowcount = 1 }), (c.0, c.1 + 1, c.2));
  commit = λ c. (none, (c.1, c.1, false));
  rollback = λ c. (none, (c.0, c.0, false));
  close = λ c. (none, c);
  committed = λ c. c.0;
  working = λ c. c.1;
  is_open = λ c. c.2;
  begin_keeps = λ b c over. refl;
  begin_opens = λ b c over h. (refl, refl);
  connect_keeps = λ c. refl;
  connect_fresh = λ c h. refl;
  execute_keeps = λ sql vs c rows h. refl;
  execute_open = λ sql vs c r rows h e. h;
  rollback_keeps = λ c. refl;
  rollback_ends = λ c h. refl;
  commit_stores = λ c h e. (refl, refl);
}

abbrev manager : DbMgr counting_driver
manager = record { connection = (3, 3, false); in_transaction = false; closed = false }

abbrev dumped : Json ℕ → Option String
dumped j = some "{}"

abbrev digest : String → String
digest s = s

perform-Ended_example :
    Ended counting_driver
      (statements counting_driver dumped dumped digest (starts "a"))
      manager
      (perform counting_driver dumped dumped digest (starts "a") manager)
perform-Ended_example =
    perform-Ended counting_driver dumped dumped digest (starts "a") manager refl refl refl

transaction-Ended_example :
    Ended counting_driver
      (insert counting_driver "runs" (("status", param (str "queued")) ∷ []))
      manager
      (transaction counting_driver false
        (insert counting_driver "runs" (("status", param (str "queued")) ∷ []))
        manager)
transaction-Ended_example =
    transaction-Ended counting_driver false
      (insert counting_driver "runs" (("status", param (str "queued")) ∷ [])) manager
      (insert-IsWithin counting_driver "runs" (("status", param (str "queued")) ∷ [])) refl refl
      refl

abbrev new_values : List (String × SqlValue ℕ)
new_values = ("status", param 1) ∷ []

abbrev one_run : List (String × Condition ℕ)
one_run = ("run_id", equals 2) ∷ []

-- A statement outside a transaction is committed.
marked :
    (perform counting_driver dumped dumped digest (starts "a") manager).1.connection ≡ (4, 4, false)
unfolding mark_started update update_parts assignments identifier where_clause clauses condition
    operation transaction begin_retried begin_transaction update_sql execute
marked = refl
