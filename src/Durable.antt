-- ===== src/Durable.antt =====
-- The session manager of sessiontoken/sessiontoken.go over the store of storage/postgres/sessions.go,
-- with no cache configured, as sessionManager of authlier.go builds it from a database alone.
pub mod Revocation
pub mod Rotation
use authlier.Common.{Option, none}
use authlier.SessionToken.{Settings, Manager, World}
use authlier.Postgres.{Db, Server}
use authlier.Postgres.Sessions.{session_store}

abbrev pub durable : Server → Settings → Manager Db (Unit {0})
durable server settings = record { store = session_store server; cache = none; settings = settings }

abbrev pub DurableWorld : Type 0
DurableWorld = World Db (Unit {0})
