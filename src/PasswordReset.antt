-- ===== src/PasswordReset.antt =====
-- passwordreset/passwordreset.go: recovery of a password with an emailed token.
pub mod Methods
pub mod Soundness
use authlier.Common.{String, Bytes, Option}
use authlier.Clock.{Time, Duration}
use authlier.Exec.{Fault, Exec}
use authlier.Host.{Hash}
pub use authlier.Service.{World}

-- The package's errors, as far as `errors.Is` tells them apart.
pub data Error : Type 0 where
  attempt_blocked conflict inactive_token invalid_config invalid_password invalid_record : Error
  invalid_token not_found : Error
  other : Fault → Error

pub record User : Type 0 where
  pub id : String
  pub email : String

pub record Record : Type 0 where
  pub user_id : String
  pub email : String
  pub token_hash : Hash
  pub created_at : Time
  pub expires_at : Time

pub record Store (S : Type 0) : Type 0 where
  pub find_user_by_email : String → Exec S Error User
  pub issue : Record → Exec S Error (Unit {0})
  pub reset_password : Hash → String → Time → Exec S Error User

-- The URL field is not set by this package.
pub record Message : Type 0 where
  pub user_id : String
  pub email : String
  pub token : Bytes
  pub expires_at : Time

pub data Operation : Type 0 where
  request_operation reset_operation : Operation

pub record Attempt : Type 0 where
  pub operation : Operation
  pub email : String
  pub source_key : String

pub data EventType : Type 0 where
  message_sent reset_failed reset_done : EventType

pub record SecurityEvent : Type 0 where
  pub event_type : EventType
  pub subject_id : String
  pub source_key : String
  pub occurred_at : Time

-- The manager, over the state `S` of the store and the state `O` of what else it calls: the sender,
-- the password hash, the attempt guard and the sink of security events.
pub record Manager (S O : Type 0) : Type 0 where
  pub store : Store S
  pub send_password_reset : Message → Exec O Fault (Unit {0})
  pub hash_password : String → Exec O Fault String
  pub validate_password : Option (String → Option Fault)
  pub attempt_guard : Option (Attempt → Exec O Error (Unit {0}))
  pub security_events : Option (SecurityEvent → O → O)
  pub normalize_email : String → Option String
  pub lifetime : Duration

pub record RequestInput : Type 0 where
  pub email : String
  pub source_key : String

pub record ResetInput : Type 0 where
  pub token : Bytes
  pub new_password : String
  pub source_key : String
