-- ===== src/Totp.antt =====
-- totp/totp.go: authenticator-app MFA and recovery codes. The one-time-password library and the
-- generation of keys are parameters. The children hold the codes, the methods and the proofs.
pub mod Codes
pub mod Methods
pub mod Soundness
use authlier.Common.{ℕ, String, Bool, Option, List, Bytes, not, ◌&&◌, ◌==◌, string_eq, bytes_eq}
use authlier.Text.{is_blank}
use authlier.Clock.{Time, Duration, after, is_zero}
use authlier.Exec.{Fault, Exec}
use authlier.Host.{Hash, Reads}

-- The package's errors, as far as `errors.Is` tells them apart. `spinning` is no error of the package:
-- it stands for a call that has not returned within the fuel of the model's one open loop.
pub data Error : Type 0 where
  already_enabled attempt_blocked conflict inactive_challenge inactive_enrollment : Error
  invalid_challenge invalid_code invalid_config invalid_input invalid_record not_found : Error
  spinning : Error
  other : Fault → Error

pub record Enrollment : Type 0 where
  pub subject_id : String
  pub secret : String
  pub created_at : Time
  pub expires_at : Time

-- `last_used_counter` is LastUsedCounter where HasLastUsedCounter is set.
pub record Credential : Type 0 where
  pub subject_id : String
  pub secret : String
  pub enabled_at : Time
  pub last_used_counter : Option ℕ

pub record Challenge : Type 0 where
  pub subject_id : String
  pub token_hash : Hash
  pub created_at : Time
  pub expires_at : Time

pub record Store (S : Type 0) : Type 0 where
  pub is_enabled : String → Exec S Error Bool
  pub begin_enrollment : Enrollment → Exec S Error (Unit {0})
  pub find_enrollment : String → Exec S Error Enrollment
  pub enable : String → ℕ → List Hash → Time → Exec S Error (Unit {0})
  pub disable : String → Time → Exec S Error (Unit {0})
  pub create_challenge : Challenge → Exec S Error (Unit {0})
  pub find_challenge : Hash → Exec S Error (Challenge × Credential)
  pub complete_code : Hash → ℕ → Time → Exec S Error String
  pub complete_recovery : Hash → Hash → Time → Exec S Error String

pub data Operation : Type 0 where
  confirm_operation verify_operation recovery_operation : Operation

pub record Attempt : Type 0 where
  pub operation : Operation
  pub subject_id : String
  pub source_key : String

pub data EventType : Type 0 where
  enabled_event disabled_event failed_event verified_event recovery_used_event : EventType

pub record SecurityEvent : Type 0 where
  pub event_type : EventType
  pub subject_id : String
  pub source_key : String
  pub occurred_at : Time

-- A key of the library: Secret() and URL().
pub record Key : Type 0 where
  pub secret : String
  pub url : String

-- github.com/pquerna/otp
pub record Otp : Type 0 where
  -- totp.Generate with an issuer, an account name and a secret of 20 bytes
  pub generate : String → String → Exec Reads Fault Key
  -- hotp.ValidateCustom of a code, a counter and a secret, six digits, SHA-1; `none` is an error
  pub validate_custom : Bytes → ℕ → String → Option Bool

pub record Settings : Type 0 where
  pub issuer : String
  pub enrollment_lifetime : Duration
  pub challenge_lifetime : Duration
  pub recovery_code_count : ℕ

pub record Manager (S O : Type 0) : Type 0 where
  pub store : Store S
  pub settings : Settings
  pub open settings use *
  pub attempt_guard : Option (Attempt → Exec O Error (Unit {0}))
  pub security_events : Option (SecurityEvent → O → O)

pub record EnrollmentStarted : Type 0 where
  pub secret : String
  pub uri : String
  pub expires_at : Time

pub record ChallengeStarted : Type 0 where
  pub token : Bytes
  pub expires_at : Time

pub record VerifyInput : Type 0 where
  pub challenge_token : Bytes
  pub code : Bytes
  pub source_key : String

pub record Authentication : Type 0 where
  pub subject_id : String
  pub used_recovery_code : Bool

-- validEnrollment
unfoldable pub valid_enrollment : Enrollment → String → Bool
valid_enrollment enrollment subject_id =
    enrollment.subject_id == subject_id
    && not (is_blank enrollment.secret)
    && not (is_zero enrollment.created_at)
    && after enrollment.expires_at enrollment.created_at

-- validChallenge
unfoldable pub valid_challenge : Challenge → Hash → Bool
valid_challenge challenge expected_hash =
    not (is_blank challenge.subject_id)
    && challenge.token_hash == expected_hash
    && not (is_zero challenge.created_at)
    && after challenge.expires_at challenge.created_at

-- validCredential
unfoldable pub valid_credential : Credential → String → Bool
valid_credential credential subject_id =
    credential.subject_id == subject_id
    && not (is_blank credential.secret)
    && not (is_zero credential.enabled_at)
