-- ===== src/EmailVerification.antt =====
-- emailverification/emailverification.go: proof that an account owns its email address, with an
-- emailed token or a code.
pub mod Codes
pub mod Methods
pub mod RoundTrip
use authlier.Common.{ℕ, ◌≡◌, ◌<◌, String, Bool, Bytes, Option}
use authlier.Clock.{Time, Duration}
use authlier.Exec.{ok, Fault, Exec}
use authlier.Host.{Hash, Reads}

-- The package's errors, as far as `errors.Is` tells them apart.
pub data Error : Type 0 where
  already_verified attempt_blocked conflict inactive_token invalid_config invalid_record : Error
  invalid_token not_found : Error
  other : Fault → Error

pub record User : Type 0 where
  pub id : String
  pub email : String
  pub verified : Bool

pub record Record : Type 0 where
  pub user_id : String
  pub email : String
  pub token_hash : Hash
  pub created_at : Time
  pub expires_at : Time

pub record Store (S : Type 0) : Type 0 where
  pub find_user_by_email : String → Exec S Error User
  pub issue : Record → Exec S Error (Unit {0})
  pub verify : Hash → Time → Exec S Error User

-- DeliveryMethod; the empty text stands for the link.
pub data DeliveryMethod : Type 0 where
  link otp : DeliveryMethod

-- The standard library: rand.Int below a bound, the bytes of a text, and HMAC with SHA-256 of a key
-- and a message.
pub record Keyed : Type 0 where
  pub rand_int : ℕ → Exec Reads Fault ℕ
  pub bytes_of : String → Bytes
  pub hmac_sha256 : Bytes → Bytes → Hash

-- rand.Int answers a number below its bound, which is positive.
abbrev pub DrawsBelow : Keyed → Type 0
DrawsBelow keyed =
    (bound value : ℕ) (r : Reads)
    → 0 < bound
    → (keyed.rand_int bound r).0 ≡ ok value
    → value < bound

-- The URL field is not set by this package.
pub record Message : Type 0 where
  pub user_id : String
  pub email : String
  pub token : Bytes
  pub code : Bytes
  pub expires_at : Time

pub data Operation : Type 0 where
  request_operation verify_operation : Operation

pub record Attempt : Type 0 where
  pub operation : Operation
  pub email : String
  pub source_key : String

pub data EventType : Type 0 where
  message_sent email_verified verify_failed : EventType

pub record SecurityEvent : Type 0 where
  pub event_type : EventType
  pub subject_id : String
  pub source_key : String
  pub occurred_at : Time

-- Config, with the defaults of its nil fields put in.
pub record Settings (O : Type 0) : Type 0 where
  pub delivery : DeliveryMethod
  pub otp_secret : Bytes
  pub lifetime : Duration
  pub attempt_guard : Option (Attempt → Exec O Error (Unit {0}))
  pub security_events : Option (SecurityEvent → O → O)
  pub normalize_email : String → Option String

pub record Manager (S O : Type 0) : Type 0 where
  pub store : Store S
  pub send_verification : Message → Exec O Fault (Unit {0})
  pub settings : Settings O

pub record RequestInput : Type 0 where
  pub email : String
  pub source_key : String

pub record VerifyInput : Type 0 where
  pub token : Bytes
  pub email : String
  pub code : Bytes
  pub source_key : String
