-- ===== src/Postgres/Statements.antt =====
-- Laws of statements and transactions: what a success, and what any answer, says of the tables.
use authlier.Common.{◌⊎◌, suc, ◌≡◌, refl, arith, Bool-cases, inl, inr}
use authlier.Exec.{Result, ok, err, Fault, unavailable, Exec, rethrow}
use authlier.Postgres.{Tables, Server, Db, statement, transaction, begun, finished}

-- The database after a successful BEGIN.
abbrev pub after_begin : Db → Db
after_begin db = record db { statements = suc db.statements }

module _ (server : Server) {A : Type 0} where
  pub statement-ok :
      (body : Tables → Result Fault A × Tables) (db : Db) {a : A}
      → (statement server body db).0 ≡ ok a
      → ((body db.tables).0 ≡ ok a) × ((statement server body db).1.tables ≡ (body db.tables).1)
  statement-ok body db h = ground arith

pub rethrow-ok :
    {W E F A : Type 0} (g : E → F) (m : Exec W E A) (w : W) {a : A}
    → (rethrow g m w).0 ≡ ok a
    → (m w).0 ≡ ok a
rethrow-ok g m w h = ground arith

module _ (server : Server) {E A : Type 0} (wrap : Fault → E) where
  finished-ok :
      (before : Tables) (r : Result E A) (db : Db) {a : A}
      → (finished server wrap before r db).0 ≡ ok a
      → (r ≡ ok a) × ((finished server wrap before r db).1.tables ≡ db.tables)
  unfolding finished
  finished-ok before (ok a) db h = ground arith
  finished-ok before (err e) db h = absurd (ground arith)

  -- A transaction that succeeds has run its body from the tables that it found, and keeps what the
  -- body wrote.
  pub transaction-ok :
      (body : Exec Db E A) (db : Db) {a : A}
      → (transaction server wrap body db).0 ≡ ok a
      → ((body (after_begin db)).0 ≡ ok a)
        × ((transaction server wrap body db).1.tables ≡ (body (after_begin db)).1.tables)
  unfolding transaction begun
  transaction-ok body db h = elim (Bool-cases (server.fails db.statements)) [
    | inl lost ↦ absurd (ground arith)
    | inr sent ↦ let (r, db') = body (after_begin db) in ground (arith, finished-ok db.tables r db')
  ]

  finished-left :
      (before : Tables) (r : Result E A) (db : Db)
      → ((finished server wrap before r db).1.tables ≡ before)
        ⊎ ((a : A) × (r ≡ ok a) × ((finished server wrap before r db).1.tables ≡ db.tables))
  unfolding finished
  finished-left before (ok a) db = elim (Bool-cases (server.fails db.statements)) [
    | inl refused ↦ inl (ground arith)
    | inr sent ↦ inr (a, refl, ground arith)
  ]
  finished-left before (err e) db = inl refl

  -- Whatever a transaction returned, the tables are as they were, or its body has succeeded and they
  -- are what the body left: with an error too, when the answer of COMMIT is lost.
  pub transaction-left :
      (body : Exec Db E A) (db : Db)
      → ((transaction server wrap body db).1.tables ≡ db.tables)
        ⊎ ((a : A) × ((body (after_begin db)).0 ≡ ok a)
            × ((transaction server wrap body db).1.tables ≡ (body (after_begin db)).1.tables))
  unfolding transaction begun
  transaction-left body db = elim (Bool-cases (server.fails db.statements)) [
    | inl refused ↦ inl (ground arith)
    | inr sent ↦ elim (Bool-cases (server.loses db.statements)) [
      | inl lost ↦ inl (ground arith)
      | inr answered ↦
          let (r, db') = body (after_begin db) in ground (arith, finished-left db.tables r db')
    ]
  ]

  finished-err :
      (before : Tables) (r : Result E A) (db : Db) (e : E)
      → (finished server wrap before r db).0 ≡ err e
      → ((f : Fault) × (e ≡ wrap f)) ⊎ (r ≡ err e)
  unfolding finished
  finished-err before (ok a) db e h = inl (unavailable, ground arith)
  finished-err before (err x) db e h = inr h

  -- The error of a transaction is the server's, wrapped, or its body's.
  pub transaction-err :
      (body : Exec Db E A) (db : Db) (e : E)
      → (transaction server wrap body db).0 ≡ err e
      → ((f : Fault) × (e ≡ wrap f)) ⊎ ((body (after_begin db)).0 ≡ err e)
  unfolding transaction begun
  transaction-err body db e h = elim (Bool-cases (server.fails db.statements)) [
    | inl refused ↦ inl (unavailable, ground arith)
    | inr sent ↦ elim (Bool-cases (server.loses db.statements)) [
      | inl lost ↦ inl (unavailable, ground arith)
      | inr answered ↦
          let (r, db') = body (after_begin db) in finished-err db.tables r db' e (ground arith)
    ]
  ]
