-- ===== src/AccessToken.antt =====
-- accesstoken/accesstoken.go: short-lived signed access tokens. The JWT library signs and parses: it
-- is a parameter. The children hold the issuer, the verifier, and the proofs about each.
pub mod Issuing
pub mod Verifying
pub mod Expiry
pub mod Soundness
pub mod Revoked
use authlier.Common.{◌≡◌, ℕ, String, Bool, Option, List, Bytes}
use authlier.Clock.{truncate_second, Time, before, Duration}
use authlier.Exec.{Fault, Exec}
use authlier.Host.{Reads}

-- The package's errors, as far as `errors.Is` tells them apart.
pub data Error : Type 0 where
  inactive_session invalid_config invalid_token : Error
  other : Fault → Error

-- A time that the token does not have is `none`.
pub record Claims : Type 0 where
  pub session_id : String
  pub issuer : String
  pub subject : String
  pub audience : List String
  pub expires_at : Option Time
  pub not_before : Option Time
  pub issued_at : Option Time
  pub id : String

pub record Issued : Type 0 where
  pub token : Bytes
  pub expires_at : Time

pub record Session : Type 0 where
  pub id : String
  pub subject_id : String
  pub created_at : Time
  pub expires_at : Time

-- Session.ActiveAt
unfoldable pub active_at : Session → Time → Bool
active_at session at = before at session.expires_at

-- What the verifier's key function looks at: the signing method and the key ID of a token's header.
pub record Header : Type 0 where
  pub is_eddsa : Bool
  pub kid : Option String

-- The options that the verifier passes to the parser.
pub record Options : Type 0 where
  pub issuer : String
  pub audience : String
  pub leeway : Duration

-- github.com/golang-jwt/jwt/v5
pub record Jwt : Type 0 where
  -- NewWithClaims, the "kid" header, and SignedString with a private key
  pub signed_string : Bytes → String → Claims → Option Bytes
  -- ParseWithClaims of a raw token with a key function, the options and the time function; it
  -- answers the claims of a token that is valid
  pub parse_with_claims :
      (Header → Option Bytes) → Options → Exec Reads Fault Time → Bytes → Exec Reads Fault Claims
  -- the text of a generated token, as a claim holds it
  pub text : Bytes → String
  -- NewNumericDate, and the time that it holds
  pub new_numeric_date : Time → Time

-- NewNumericDate cuts the time to TimePrecision, which is one second and which the program leaves so.
abbrev pub TruncatesDates : Jwt → Type 0
TruncatesDates jwt = (t : Time) → jwt.new_numeric_date t ≡ truncate_second t
