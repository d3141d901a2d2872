-- ===== src/Postgres/Schema.antt =====
-- Rows of the tables of storage/postgres/migrations that no package's record describes.
use authlier.Common.{ℕ, String, Bool, Option, List, Bytes}
use authlier.Clock.{Time}
use authlier.Host.{Hash}
use authlier.Passkey.{CeremonyType}

-- authlier_users
pub record UserRow : Type 0 where
  pub id : String
  pub email : String
  pub email_verified : Bool
  pub webauthn_handle : Bytes
  pub created_at : Time

-- authlier_password_credentials
pub record PasswordRow : Type 0 where
  pub user_id : String
  pub password_hash : String
  pub updated_at : Time

-- authlier_email_verifications and authlier_password_resets
pub record TokenRow : Type 0 where
  pub user_id : String
  pub email : String
  pub token_hash : Hash
  pub created_at : Time
  pub expires_at : Time

-- authlier_google_identities
pub record IdentityRow : Type 0 where
  pub provider_subject : String
  pub user_id : String
  pub email : String
  pub linked_at : Time

-- authlier_google_challenges
pub record GoogleChallengeRow : Type 0 where
  pub state_hash : Hash
  pub nonce : Bytes
  pub code_verifier : Bytes
  pub subject_id : String
  pub created_at : Time
  pub expires_at : Time

-- authlier_passkey_credentials
pub record PasskeyRow : Type 0 where
  pub credential_id : Bytes
  pub subject_id : String
  pub credential : Bytes
  pub created_at : Time
  pub updated_at : Time

-- authlier_passkey_ceremonies
pub record CeremonyRow : Type 0 where
  pub token_hash : Hash
  pub ceremony_type : CeremonyType
  pub subject_id : String
  pub session_data : Bytes
  pub created_at : Time
  pub expires_at : Time
  pub consumed_at : Option Time

pub record AccountTables : Type 0 where
  pub users : List UserRow
  pub password_credentials : List PasswordRow
  pub email_verifications : List TokenRow
  pub password_resets : List TokenRow
  pub google_identities : List IdentityRow
  pub google_challenges : List GoogleChallengeRow
  pub passkeys : List PasskeyRow
  pub passkey_ceremonies : List CeremonyRow

-- authlier_totp_enrollments
pub record EnrollmentRow : Type 0 where
  pub subject_id : String
  pub encrypted_secret : Bytes
  pub created_at : Time
  pub expires_at : Time

-- authlier_totp_credentials; counters stay below 2^63, so that bigint holds them as they are.
pub record CredentialRow : Type 0 where
  pub subject_id : String
  pub encrypted_secret : Bytes
  pub enabled_at : Time
  pub last_used_counter : Option ℕ
  pub disabled_at : Option Time

-- authlier_totp_recovery_codes
pub record RecoveryRow : Type 0 where
  pub subject_id : String
  pub code_hash : Hash
  pub used_at : Option Time

-- authlier_totp_challenges
pub record ChallengeRow : Type 0 where
  pub token_hash : Hash
  pub subject_id : String
  pub created_at : Time
  pub expires_at : Time
  pub consumed_at : Option Time

pub record TotpTables : Type 0 where
  pub enrollments : List EnrollmentRow
  pub credentials : List CredentialRow
  pub recovery_codes : List RecoveryRow
  pub challenges : List ChallengeRow
