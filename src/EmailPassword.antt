-- ===== src/EmailPassword.antt =====
-- emailpassword/emailpassword.go: accounts with an email address and a password. The store, the
-- password hash and the event sink are interfaces that the methods go through.
pub mod Methods
pub mod Changing
pub mod Login
pub mod Soundness
pub mod Disclosure
use authlier.Common.{String, Bool, Option, not, ◌&&◌, ◌==◌, string_eq}
use authlier.Text.{is_blank}
use authlier.Clock.{Time}
use authlier.Exec.{Fault, Exec}

-- The package's errors, as far as `errors.Is` tells them apart.
pub data Error : Type 0 where
  attempt_blocked conflict invalid_config invalid_credentials invalid_input invalid_password : Error
  invalid_record last_credential not_found password_unchanged registration_unavailable : Error
  other : Fault → Error

pub record User : Type 0 where
  pub id : String
  pub email : String

pub record PasswordCredential : Type 0 where
  pub user_id : String
  pub password_hash : String

pub record Registration : Type 0 where
  pub email : String
  pub password_hash : String
  pub created_at : Time

pub record Store (S : Type 0) : Type 0 where
  pub register : Registration → Exec S Error User
  pub find_by_email : String → Exec S Error (User × PasswordCredential)
  pub replace_password_hash : String → String → String → Time → Exec S Error (Unit {0})

pub record CredentialStore (S : Type 0) : Type 0 where
  pub find_by_subject : String → Exec S Error (User × PasswordCredential)
  pub add_password : String → String → Time → Exec S Error User
  pub replace_password_hash : String → String → String → Time → Exec S Error (Unit {0})
  pub remove_password : String → String → Time → Exec S Error (Unit {0})

-- Verification of the password package
pub record Verification : Type 0 where
  pub matches : Bool
  pub needs_rehash : Bool

pub record Passwords (O : Type 0) : Type 0 where
  pub hash : String → Exec O Fault String
  pub verify : String → String → Exec O Fault Verification

pub data Operation : Type 0 where
  register_operation login_operation add_operation change_operation remove_operation : Operation

pub record Attempt : Type 0 where
  pub operation : Operation
  pub email : String
  pub subject_id : String
  pub source_key : String

pub data EventType : Type 0 where
  registration_rejected registration_succeeded login_failed login_succeeded : EventType
  password_added password_change_failed password_changed : EventType
  password_removal_failed password_removed password_rehashed : EventType

pub record SecurityEvent : Type 0 where
  pub event_type : EventType
  pub subject_id : String
  pub source_key : String
  pub occurred_at : Time

-- Config, with the defaults of its nil fields put in.
pub record Settings (O : Type 0) : Type 0 where
  pub passwords : Passwords O
  pub validate_password : Option (String → Option Fault)
  pub attempt_guard : Option (Attempt → Exec O Error (Unit {0}))
  pub security_events : Option (SecurityEvent → O → O)
  pub normalize_email : String → Option String

pub record Manager (S O : Type 0) : Type 0 where
  pub store : Store S
  pub credentials : Option (CredentialStore S)
  pub settings : Settings O
  pub dummy_hash : String

pub record LoginInput : Type 0 where
  pub email : String
  pub password : String
  pub source_key : String

-- RegisterInput has the same fields.
abbrev pub RegisterInput : Type 0
RegisterInput = LoginInput

pub record LoginResult : Type 0 where
  pub user : User
  pub password_rehashed : Bool

pub record ChangePasswordInput : Type 0 where
  pub subject_id : String
  pub current_password : String
  pub new_password : String
  pub source_key : String

pub record AddPasswordInput : Type 0 where
  pub subject_id : String
  pub password : String
  pub source_key : String

pub record RemovePasswordInput : Type 0 where
  pub subject_id : String
  pub current_password : String
  pub source_key : String

-- validUser
unfoldable pub valid_user : User → Bool
valid_user user = not (is_blank user.id) && not (is_blank user.email)

-- validCredential
unfoldable pub valid_credential : User → PasswordCredential → Bool
valid_credential user credential =
    credential.user_id == user.id && not (is_blank credential.password_hash)
