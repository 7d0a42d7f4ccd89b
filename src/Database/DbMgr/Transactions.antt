-- ===== src/Database/DbMgr/Transactions.antt =====
-- A transaction is stored as a whole or not at all.

use mathlib.Core.Path.{subst}
use snake_lab.Base.{
  ◌≡◌, refl, sym, ap, ◌∙◌, Bool, true, false, Option, none, some, if-either, if◌then◌else◌,
}
use snake_lab.Base.Results.{Result, ok, err}
use snake_lab.Database.DbMgr.{
  DriverError, Driver, Raised, DbMgr, Action, is_expired, begin_transaction, reopened, retried,
  begin_retried, fail, after_commit, after_body, after_begin, transaction, driver_error,
  runtime_error,
}
use snake_lab.Database.DbMgr.Within.{StaysOpen, kept, Same, Same_then, IsWithin}

module _ {V Row : Type 0} (D : Driver V Row) where
  abbrev M : Type 0
  M = DbMgr D

  abbrev pub entered : M → M
  entered m = record m { in_transaction = true }

  -- What a body begins on: the transaction is open and sees what the database keeps.
  pub record Started (m n : M) : Type 0 where
    pub same : Same D (entered m) n
    pub opened : D.is_open n.connection ≡ true
    pub sees : D.working n.connection ≡ kept D m

  -- How a transaction of a body ends, from a manager `m`.
  pub data Outcome {A : Type 0} (body : Action D A) (m : M) : Result Raised A × M → Type 0 where
    -- The body began on what the database kept, it returned, and what it left is kept.
    stored :
        {a : A} {m' : M} (started worked : M)
        → Started m started
        → body started ≡ (ok a, worked)
        → kept D m' ≡ D.working worked.connection
        → Outcome body m (ok a, m')
    -- The database keeps what it had.
    undone : {e : Raised} {m' : M} → kept D m' ≡ kept D m → Outcome body m (err e, m')
    -- The driver reported an error of the commit itself.
    in_doubt :
        {e : Raised} {m' : M} (c : D.Connection) (x : DriverError)
        → (D.commit c).0 ≡ some x
        → Outcome body m (err e, m')

  -- No transaction is open, or the driver reported that the rollback failed.
  pub data IsSettled (m : M) : Type 0 where
    ended : D.is_open m.connection ≡ false → IsSettled m
    broken : (c : D.Connection) (x : DriverError) → (D.rollback c).0 ≡ some x → IsSettled m

  -- The manager is in no transaction, and neither is its connection.
  pub record Ended {A : Type 0} (body : Action D A) (m : M) (r : Result Raised A × M) : Type 0 where
    pub outcome : Outcome body m r
    pub free : r.1.in_transaction ≡ false
    pub closed : r.1.closed ≡ m.closed
    pub settled : IsSettled r.1

  fail-IsSettled :
      (A : Type 0) (e : Raised) (n : M) (o : Option DriverError)
      → (D.rollback n.connection).0 ≡ o
      → IsSettled (fail D {A = A} e n).1
  unfolding fail
  fail-IsSettled A e n none h = ended (D.rollback_ends n.connection h)
  fail-IsSettled A e n (some x) h = broken n.connection x h

  fail-Ended :
      {A : Type 0} (body : Action D A) (e : Raised) (m n : M)
      → Outcome body m (fail D e n)
      → n.closed ≡ m.closed
      → Ended body m (fail D e n)
  unfolding fail
  fail-Ended {A} body e m n outcome closed = record {
    outcome = outcome;
    free = refl;
    closed = closed;
    settled = fail-IsSettled A e n (D.rollback n.connection).0 refl;
  }

  fail-undone :
      {A : Type 0} (body : Action D A) (e : Raised) (m n : M)
      → kept D n ≡ kept D m
      → n.closed ≡ m.closed
      → Ended body m (fail D e n)
  unfolding fail
  fail-undone body e m n same closed =
      fail-Ended body e m n (undone (D.rollback_keeps n.connection ∙ same)) closed

  fail-in_doubt :
      {A : Type 0} (body : Action D A) (e : Raised) (m n : M) (c : D.Connection) (x : DriverError)
      → (D.commit c).0 ≡ some x
      → n.closed ≡ m.closed
      → Ended body m (fail D e n)
  unfolding fail
  fail-in_doubt body e m n c x failed closed = fail-Ended body e m n (in_doubt c x failed) closed

  after_commit-Ended :
      {A : Type 0} (body : Action D A) (a : A) (m started n : M)
      (o : Option DriverError × D.Connection)
      → D.commit n.connection ≡ o
      → Started m started
      → body started ≡ (ok a, n)
      → D.is_open n.connection ≡ true
      → n.closed ≡ m.closed
      → Ended body m (after_commit D a o n)
  after_commit-Ended body a m started n (none, c) done began returned is_open closed =
      let (keeps, over) = D.commit_stores n.connection is_open (ap (λ p. p.0) done) in
      record {
        outcome = stored started n began returned (ap (λ p. D.committed p.1) (sym done) ∙ keeps);
        free = refl;
        closed = closed;
        settled = ended (ap (λ p. D.is_open p.1) (sym done) ∙ over);
      }
  after_commit-Ended body a m started n (some e, c) done began returned is_open closed =
      fail-in_doubt body (driver_error e) m (record n { connection = c }) n.connection e
        (ap (λ p. p.0) done) closed

  after_body-Ended :
      {A : Type 0} (body : Action D A) (m started : M) (r : Result Raised A × M)
      → Started m started
      → body started ≡ r
      → kept D r.1 ≡ kept D m
      → StaysOpen D r
      → r.1.closed ≡ m.closed
      → Ended body m (after_body D r)
  after_body-Ended body m started (ok a, n) began returned same still closed =
      after_commit-Ended body a m started n (D.commit n.connection) refl began returned still closed
  after_body-Ended body m started (err e, n) began returned same still closed =
      fail-undone body e m n same closed

  -- Beginning, also a second time, changes nothing that the database keeps.
  record Begun (m : M) (r : Option DriverError × M) : Type 0 where
    pub same : Same D m r.1
    pub opened :
        r.0 ≡ none → (D.is_open r.1.connection ≡ true) × (D.working r.1.connection ≡ kept D m)

  begin_transaction-Begun :
      (read_only : Bool) (m : M)
      → D.is_open m.connection ≡ false
      → Begun m (begin_transaction D read_only m)
  unfolding begin_transaction
  begin_transaction-Begun read_only m over = record {
    same = record {
      keeps = D.begin_keeps read_only m.connection over;
      in_transaction = refl;
      closed = refl;
    };
    opened = λ h. D.begin_opens read_only m.connection over h;
  }

  through_Begun : (m n : M) (r : Option DriverError × M) → Same D m n → Begun n r → Begun m r
  through_Begun m n r h g = record {
    same = Same_then D m n r.1 h g.same;
    opened = λ none_raised. let (is_open, sees) = g.opened none_raised in (is_open, sees ∙ h.keeps);
  }

  reopened-Begun :
      (read_only : Bool) (o : Option DriverError × D.Connection) (m : M)
      → D.committed o.1 ≡ kept D m
      → (o.0 ≡ none → D.is_open o.1 ≡ false)
      → Begun m (reopened D read_only o m)
  reopened-Begun read_only (some e, c) m h fresh = record {
    same = record { keeps = h; in_transaction = refl; closed = refl };
    opened = λ is. absurd (cc is);
  }
  reopened-Begun read_only (none, c) m h fresh =
      through_Begun m (record m { connection = c }) _
        (record { keeps = h; in_transaction = refl; closed = refl })
        (begin_transaction-Begun read_only (record m { connection = c }) (fresh refl))

  retried-Begun :
      (read_only : Bool) (m : M) (r : Option DriverError × M)
      → Begun m r
      → Begun m (retried D read_only r)
  retried-Begun read_only m (none, n) h = h
  retried-Begun read_only m (some e, n) h =
      if-either (Begun m) (is_expired D e)
        (through_Begun m n _ h.same (
          reopened-Begun read_only (D.connect n.connection) n (D.connect_keeps n.connection)
            (D.connect_fresh n.connection)))
        h

  after_begin-Ended :
      {A : Type 0} (body : Action D A) (m : M) (r : Option DriverError × M)
      → IsWithin D body
      → Begun (entered m) r
      → Ended body m (after_begin D body r)
  after_begin-Ended body m (none, n) within h =
      let (is_open, sees) = h.opened refl in
      let (same, still) = within n h.same.in_transaction is_open in
      let began : Started m n = record { same = h.same; opened = is_open; sees = sees } in
      after_body-Ended body m n (body n) began refl (same.keeps ∙ h.same.keeps) still
        (same.closed ∙ h.same.closed)
  after_begin-Ended body m (some e, n) within h =
      fail-undone body (driver_error e) m n h.same.keeps h.same.closed

  begun-Ended :
      {A : Type 0} (read_only : Bool) (body : Action D A) (m : M)
      → IsWithin D body
      → D.is_open m.connection ≡ false
      → Ended body m (after_begin D body (begin_retried D read_only (entered m)))
  unfolding begin_retried
  begun-Ended read_only body m within over =
      after_begin-Ended body m (retried D read_only (begin_transaction D read_only (entered m)))
        within
        (retried-Begun read_only (entered m) (begin_transaction D read_only (entered m))
          (begin_transaction-Begun read_only (entered m) over))

  -- A transaction of an open manager that is in none, nor its connection, and whose body by itself stores
  -- nothing and ends no transaction: either the body began on what the database kept and returned, and
  -- the database keeps what the body left, or the transaction raises and the database keeps what it
  -- had, or the driver reports that the commit itself failed. However it ends, also on a connection
  -- that was opened again, the manager is in no transaction, and none is left open on the connection,
  -- unless the driver reports that the rollback failed.
  pub transaction-Ended :
      {A : Type 0} (read_only : Bool) (body : Action D A) (m : M)
      → IsWithin D body
      → m.closed ≡ false
      → m.in_transaction ≡ false
      → D.is_open m.connection ≡ false
      → Ended body m (transaction D read_only body m)
  unfolding transaction
  transaction-Ended read_only body m within opened free over =
      let refused : Result Raised _ × M = (err (runtime_error "Database manager is closed"), m) in
      let nested : Result Raised _ × M =
        (err (runtime_error "Nested transactions are not supported"), m) in
      let begun = after_begin D body (begin_retried D read_only (entered m)) in
      subst
        (λ b. Ended body m (if b then refused else (if m.in_transaction then nested else begun)))
        (sym opened)
        (subst (λ b. Ended body m (if b then nested else begun)) (sym free)
          (begun-Ended read_only body m within over))
