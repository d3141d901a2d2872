-- ===== src/Postgres/Preserving.antt =====
-- A relation between the tables before and after an operation, carried through the operation's code:
-- one rule for each way to build a call. The relation holds whatever the call returned.
use authlier.Common.{◌≡◌, refl, Bool, true, false, arith, Bool-cases, inl, inr, if◌then◌else◌}
use authlier.Exec.{Result, ok, err, Fault, Exec, pure, raise, rethrow, continue, ◌>>=◌}
use authlier.Postgres.{Tables, Server, Db, statement, transaction}
use authlier.Postgres.Statements.{transaction-left, after_begin}

-- The relation holds where nothing has changed, and can be chained.
pub record IsHistory (P : Tables → Tables → Type 0) : Type 0 where
  pub same : (t t' : Tables) → t' ≡ t → P t t'
  pub trans : (t t' t'' : Tables) → P t t' → P t' t'' → P t t''

pub record Preserves {E A : Type 0} (P : Tables → Tables → Type 0) (m : Exec Db E A) : Type 0 where
  pub keeps : (db : Db) → P db.tables (m db).1.tables

module _ {P : Tables → Tables → Type 0} (history : IsHistory P) where
  pub pure-Preserves : {E A : Type 0} (a : A) → Preserves {E = E} P (pure a)
  pure-Preserves a = record { keeps = λ db. history.same db.tables db.tables refl }

  pub raise-Preserves : {E A : Type 0} (e : E) → Preserves {A = A} P (raise e)
  raise-Preserves e = record { keeps = λ db. history.same db.tables db.tables refl }

  pub statement-Preserves :
      {A : Type 0} (server : Server) (body : Tables → Result Fault A × Tables)
      → ((t : Tables) → P t (body t).1)
      → Preserves P (statement server body)
  statement-Preserves server body keeps = record {
    keeps = λ db. elim (Bool-cases (server.fails db.statements)) [
      | inl lost ↦ history.same db.tables _ (ground arith)
      | inr sent ↦ rw sent (keeps db.tables)
    ];
  }

  -- A statement that only reads.
  pub read-Preserves :
      {A : Type 0} (server : Server) (body : Tables → Result Fault A × Tables)
      → ((t : Tables) → (body t).1 ≡ t)
      → Preserves P (statement server body)
  read-Preserves server body reads =
      statement-Preserves server body (λ t. history.same t (body t).1 (reads t))

  continue-keeps :
      {E A B : Type 0} (r : Result E A) (f : A → Exec Db E B) (before : Tables) (db : Db)
      → P before db.tables
      → ((a : A) → Preserves P (f a))
      → P before (continue r f db).1.tables
  continue-keeps (ok a) f before db h keeps =
      history.trans before db.tables (f a db).1.tables h ((keeps a).keeps db)
  continue-keeps (err e) f before db h keeps = h

  pub bind-Preserves :
      {E A B : Type 0} (m : Exec Db E A) (f : A → Exec Db E B)
      → Preserves P m
      → ((a : A) → Preserves P (f a))
      → Preserves P (m >>= f)
  bind-Preserves m f first rest = record {
    keeps = λ db. continue-keeps (m db).0 f db.tables (m db).1 (first.keeps db) rest;
  }

  pub if-Preserves :
      {E A : Type 0} (b : Bool) (m n : Exec Db E A)
      → Preserves P m
      → Preserves P n
      → Preserves P (if b then m else n)
  if-Preserves true m n a b = a
  if-Preserves false m n a b = b

  -- Committed or rolled back: a transaction needs looking at only where its body succeeds.
  pub committed-Preserves :
      {E A : Type 0} (server : Server) (wrap : Fault → E) (body : Exec Db E A)
      → ((db : Db) (a : A) → (body db).0 ≡ ok a → P db.tables (body db).1.tables)
      → Preserves P (transaction server wrap body)
  committed-Preserves server wrap body kept = record {
    keeps = λ db. elim (transaction-left server wrap body db) [
      | inl e ↦ history.same db.tables _ e
      | inr (a, ran, e) ↦ rw e (kept (after_begin db) a ran)
    ];
  }

  pub transaction-Preserves :
      {E A : Type 0} (server : Server) (wrap : Fault → E) (body : Exec Db E A)
      → Preserves P body
      → Preserves P (transaction server wrap body)
  transaction-Preserves server wrap body kept =
      committed-Preserves server wrap body (λ db a ran. kept.keeps db)

pub rethrow-Preserves :
    {P : Tables → Tables → Type 0} {E F A : Type 0} (g : E → F) (m : Exec Db E A)
    → Preserves P m
    → Preserves P (rethrow g m)
rethrow-Preserves g m kept = record { keeps = kept.keeps }
