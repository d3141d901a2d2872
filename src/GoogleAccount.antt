-- ===== src/GoogleAccount.antt =====
-- googleoauth/googleoauth.go: a sign-in with Google, by a one-time challenge and an exchange of a code
-- for a verified identity, and the link between that identity and an account.
pub mod Methods
pub mod Soundness
use authlier.Common.{String, Bool, Bytes, Option, List}
use authlier.Clock.{Time, Duration}
use authlier.Exec.{Fault, Exec}
use authlier.Host.{Hash}

-- The package's errors, as far as `errors.Is` tells them apart.
pub data Error : Type 0 where
  conflict invalid_config invalid_input invalid_record invalid_state last_credential : Error
  link_required not_found unverified : Error
  other : Fault → Error

pub record Challenge : Type 0 where
  pub state_hash : Hash
  pub nonce : Bytes
  pub code_verifier : Bytes
  pub subject_id : String
  pub created_at : Time
  pub expires_at : Time

pub record User : Type 0 where
  pub id : String

pub record IdentityResolution : Type 0 where
  pub provider_subject : String
  pub email : String
  pub subject_id : String

pub record Store (S : Type 0) : Type 0 where
  pub create_challenge : Challenge → Exec S Error (Unit {0})
  pub consume_challenge : Hash → Time → Exec S Error Challenge
  pub resolve_identity : IdentityResolution → Exec S Error User

pub record IdentityStore (S : Type 0) : Type 0 where
  pub unlink_identity : String → Time → Exec S Error (Unit {0})

pub record Identity : Type 0 where
  pub provider_subject : String
  pub email : String
  pub email_verified : Bool
  pub nonce : Bytes

pub record ExchangeInput : Type 0 where
  pub code : Bytes
  pub code_verifier : Bytes
  pub redirect_url : String
  pub audience : String

-- EventUnlinked is the one type of event.
pub record SecurityEvent : Type 0 where
  pub subject_id : String
  pub source_key : String
  pub occurred_at : Time

-- net/url
pub record Urls (U : Type 0) : Type 0 where
  pub parse : String → Option U
  pub host : U → String
  pub has_user : U → Bool
  pub fragment : U → String
  pub scheme : U → String
  pub string : U → String
  -- Query, Set for each of these in turn, Encode, String
  pub with_query : U → List (String × Bytes) → String

pub record Settings : Type 0 where
  pub client_id : String
  pub authorization_url : String
  pub redirect_url : String
  pub state_lifetime : Duration

-- The bytes of a text are those of its UTF-8 encoding.
pub record Manager (S O U : Type 0) : Type 0 where
  pub store : Store S
  pub identities : Option (IdentityStore S)
  pub exchange : ExchangeInput → Exec O Error Identity
  pub client_id : String
  pub authorization_url : U
  pub redirect_url : String
  pub lifetime : Duration
  pub security_events : Option (SecurityEvent → O → O)

pub record Started : Type 0 where
  pub authorization_url : String
  pub state : Bytes
