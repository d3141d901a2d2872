-- ===== src/Postgres.antt =====
-- storage/postgres: the tables behind the adapter, its statements and its transactions.
-- A database server may refuse any statement (`fails`), or run it and never answer, or answer what
-- cannot be read (`loses`): a cancelled context, a lost connection, an error of Scan or rows.Err. This
-- goes for BEGIN and COMMIT too: after a lost COMMIT the caller has an error and the tables are changed.
pub mod Schema
pub mod Statements
pub mod Preserving
pub mod Sessions
pub mod RefreshTokens
pub mod AccessSessions
pub mod Totp
pub mod Accounts
use authlier.Common.{ℕ, suc, String, Bool, true, false, Option, List, Bytes, if◌then◌else◌}
use authlier.Clock.{Time}
use authlier.Exec.{Result, ok, err, Fault, unavailable, Exec}
use authlier.SessionToken
use authlier.RefreshToken
pub use Schema.*

-- authlier.AccessSession of storage.go: a row of authlier_access_sessions
pub record AccessSession : Type 0 where
  pub id : String
  pub subject_id : String
  pub created_at : Time
  pub expires_at : Time
  pub revoked_at : Option Time

pub record Tables : Type 0 where
  pub sessions : List SessionToken.Record
  pub access_sessions : List AccessSession
  pub refresh_tokens : List RefreshToken.Record
  pub accounts : AccountTables
  pub totp : TotpTables

pub record Server : Type 0 where
  -- the n-th statement is refused, and has no effect
  pub fails : ℕ → Bool
  -- the n-th statement takes effect, and its answer is lost
  pub loses : ℕ → Bool
  -- CURRENT_TIMESTAMP at the n-th statement
  pub current_timestamp : ℕ → Time
  -- uuid.NewV7().String() and rand.Read, as called just before the n-th statement; `none` is an error
  pub new_uuid : ℕ → Option String
  pub rand_read : ℕ → ℕ → Option Bytes
  -- time.Now, as called just before the n-th statement
  pub now : ℕ → Time

pub record Db : Type 0 where
  pub tables : Tables
  pub statements : ℕ

module _ (server : Server) where
  -- One statement: its answer, and the tables that it leaves.
  abbrev pub statement : {A : Type 0} → (Tables → Result Fault A × Tables) → Exec Db Fault A
  statement body db =
      if server.fails db.statements
      then (err unavailable, record db { statements = suc db.statements })
      else (let (r, t) = body db.tables in
          (
            if server.loses db.statements then err unavailable else r,
            record { tables = t; statements = suc db.statements },
          ))

  -- BEGIN
  abbrev pub bare : Exec Db Fault (Unit {0})
  bare = statement (λ t. (ok tt, t))

  -- COMMIT of a transaction that began at the given tables: a refused one rolls it back.
  abbrev pub commit : Tables → Exec Db Fault (Unit {0})
  commit before db =
      if server.fails db.statements
      then (err unavailable, record { tables = before; statements = suc db.statements })
      else bare db

  module _ {E A : Type 0} (wrap : Fault → E) where
    committed : A → Result Fault (Unit {0}) → Db → Result E A × Db
    committed a (ok _) db = (ok a, db)
    committed a (err f) db = (err (wrap f), db)

    finished : Tables → Result E A → Db → Result E A × Db
    unfolding committed
    finished before (ok a) db = let (r, db') = commit before db in committed a r db'
    finished before (err e) db = (err e, record db { tables = before })

    begun : Tables → Exec Db E A → Result Fault (Unit {0}) → Db → Result E A × Db
    unfolding finished
    begun before body (ok _) db = let (r, db') = body db in finished before r db'
    begun before body (err f) db = (err (wrap f), db)

    -- tx := Begin; defer tx.Rollback; body; return tx.Commit
    unfoldable pub transaction : Exec Db E A → Exec Db E A
    unfolding begun
    transaction body db = let (r, db') = bare db in begun db.tables body r db'
