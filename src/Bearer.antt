-- ===== src/Bearer.antt =====
-- token_session.go: bearer sessions. The manager composes the refresh-token manager, the access-token
-- issuer and verifier, and the store of access sessions.
pub mod Config
pub mod Methods
pub mod Active
use authlier.Common.{ℕ, String, List, Bytes}
use authlier.Clock.{Time, Duration}
use authlier.Exec.{Fault, Exec}
use authlier.RefreshToken
use authlier.AccessToken
use authlier.AccessToken.{Session}
use authlier.AccessToken.Issuing.{Issuer}
use authlier.AccessToken.Verifying.{Verifier}
use authlier.Postgres.{AccessSession}

-- The errors that the manager passes on, by the package that returned them; `missing_subject` is the
-- manager's own, `driver` an error of the store or of the random source.
pub data Error : Type 0 where
  refresh_error : RefreshToken.Error → Error
  access_error : AccessToken.Error → Error
  driver : Fault → Error
  missing_subject invalid_config : Error

-- AccessSessionStore of storage.go, over a state `S`
pub record AccessSessionStore (S : Type 0) : Type 0 where
  pub resolve_session : String → Exec S Fault Session
  pub create_session : AccessSession → RefreshToken.Record → Exec S Fault (Unit {0})
  pub list_by_subject : String → Exec S Fault (List AccessSession)
  pub revoke : String → Time → Exec S Fault (Unit {0})
  pub revoke_all : String → Time → Exec S Fault (Unit {0})

pub record Manager (S : Type 0) : Type 0 where
  pub store : AccessSessionStore S
  pub issuer : Issuer
  pub verifier : Verifier S
  pub refresh_tokens : RefreshToken.Manager S
  pub refresh_lifetime : Duration

pub record Issued : Type 0 where
  pub session : Session
  pub access_token : Bytes
  pub access_token_expires_at : Time
  pub refresh_token : Bytes
  pub refresh_token_expires_at : Time
