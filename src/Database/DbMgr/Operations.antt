-- ===== src/Database/DbMgr/Operations.antt =====
-- Outside a transaction, a statement is a transaction by itself.
use Prim.Native.String.{String}
use mathlib.Core.Path.{subst}
use snake_lab.Base.{◌≡◌, refl, sym, ◌∙◌, true, false, List, if◌then◌else◌}
use snake_lab.Base.Results.{Result, ok, err}
use snake_lab.Database.Statements.{SqlError, Condition, SqlValue, update_parts, update_sql}
use snake_lab.Database.DbMgr.{
  Driver, DbMgr, Raised, Action, next, checked, operation, transaction, update,
}
use snake_lab.Database.DbMgr.Within.{IsWithin, update_sql-IsRowStatement, late, late-IsWithin}
use snake_lab.Database.DbMgr.Transactions.{
  IsSettled, Outcome, stored, undone, in_doubt, Ended, transaction-Ended,
}

module _ {V Row : Type 0} (D : Driver V Row) where
  entered-operation :
      {A : Type 0} (body : Action D A) (n : DbMgr D)
      → n.in_transaction ≡ true
      → operation D body n ≡ body n
  unfolding operation
  entered-operation body n is =
      subst (λ b. (if b then body n else transaction D false body n) ≡ body n) (sym is) refl

  operation-Outcome :
      {A : Type 0} (body : Action D A) (m : DbMgr D) (r : Result Raised A × DbMgr D)
      → Outcome D body m r
      → Outcome D (operation D body) m r
  operation-Outcome body m r (stored started worked began returned keeps) =
      stored started worked began
        (entered-operation body started began.same.in_transaction ∙ returned) keeps
  operation-Outcome body m r (undone keeps) = undone keeps
  operation-Outcome body m r (in_doubt c x failed) = in_doubt c x failed

  operation-Ended :
      {A : Type 0} (body : Action D A) (m : DbMgr D)
      → IsWithin D body
      → m.closed ≡ false
      → m.in_transaction ≡ false
      → D.is_open m.connection ≡ false
      → Ended D (operation D body) m (operation D body m)
  unfolding operation
  operation-Ended body m within opened free over =
      let ended = transaction-Ended D false body m within opened free over in
      subst (λ b. Ended D (operation D body) m (if b then body m else transaction D false body m))
        (sym free)
        (record {
          outcome = operation-Outcome body m (transaction D false body m) ended.outcome;
          free = ended.free;
          closed = ended.closed;
          settled = ended.settled;
        })

  checked-Ended :
      {A B : Type 0} (r : Result SqlError A) (k : A → Action D B) (m : DbMgr D)
      → ((a : A) → IsWithin D (k a))
      → m.closed ≡ false
      → m.in_transaction ≡ false
      → D.is_open m.connection ≡ false
      → Ended D
          (next D (checked D r) (λ a. operation D (k a)))
          m
          (next D (checked D r) (λ a. operation D (k a)) m)
  checked-Ended (ok a) k m within opened free over =
      let ended = operation-Ended (k a) m (within a) opened free over in
      record {
        outcome = ended.outcome;
        free = ended.free;
        closed = ended.closed;
        settled = ended.settled;
      }
  checked-Ended (err e) k m within opened free over = record {
    outcome = undone refl;
    free = free;
    closed = refl;
    settled = IsSettled.ended over;
  }

  pub update-Ended :
      (table : String) (values : List (String × SqlValue V))
      (conditions : List (String × Condition V)) (m : DbMgr D)
      → m.closed ≡ false
      → m.in_transaction ≡ false
      → D.is_open m.connection ≡ false
      → Ended D (update D table values conditions) m (update D table values conditions m)
  unfolding update
  update-Ended table values conditions m opened free over =
      checked-Ended (update_parts values conditions)
        (λ made. late D (update_sql table made.0 made.1) made.2) m
        (λ made.
          late-IsWithin D (update_sql table made.0 made.1) made.2
            (update_sql-IsRowStatement table made.0 made.1))
        opened free over
