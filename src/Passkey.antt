-- ===== src/Passkey.antt =====
-- passkey/passkey.go: the errors and the records that its store is given.
use authlier.Common.{String, Bytes, Option}
use authlier.Clock.{Time}
use authlier.Exec.{Fault}
use authlier.Host.{Hash}

-- The package's errors, as far as the store returns them.
pub data Error : Type 0 where
  conflict inactive_ceremony last_credential not_found : Error
  other : Fault → Error

pub data CeremonyType : Type 0 where
  registration authentication : CeremonyType

-- Ceremony, over the library's SessionData
pub record Ceremony (S : Type 0) : Type 0 where
  pub ceremony_type : CeremonyType
  pub token_hash : Hash
  pub subject_id : String
  pub session : S
  pub created_at : Time
  pub expires_at : Time

-- The library's Credential and SessionData: the ID of a credential, and what json.Marshal makes of the
-- two, as the value that a jsonb column holds; `none` is an error.
pub record WebAuthn (C S : Type 0) : Type 0 where
  pub credential_id : C → Bytes
  pub marshal_credential : C → Option Bytes
  pub marshal_session : S → Option Bytes
