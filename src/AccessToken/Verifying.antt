-- ===== src/AccessToken/Verifying.antt =====
-- The verifier of accesstoken/accesstoken.go.
use authlier.Common.{
  ℕ, String, Bool, true, false, not, ◌||◌, Option, none, some, List, [], Bytes, length, any, find?,
  ◌==◌, string_eq, nat_beq, ltb, is_set, if◌then◌else◌,
}
use mathlib.Core.Option
use authlier.Text.{is_blank}
use authlier.Clock.{Duration, neg_part}
use authlier.Exec.{Result, ok, err, Fault, Exec, pure, raise, rethrow, ◌>>=◌}
use authlier.Host.{Host, Reads, read_clock}
use authlier.AccessToken.{
  Error, inactive_session, invalid_config, invalid_token, Claims, Session, active_at, Header, Jwt,
}

abbrev pub maximum_token_length : ℕ
maximum_token_length = 8192

-- VerifierConfig; a map is the list of its entries.
pub record Config : Type 0 where
  pub issuer : String
  pub audience : String
  pub public_keys : List (String × Bytes)
  pub leeway : Duration

-- SessionResolver, over a state `S`
abbrev pub Resolver : Type 0 → Type 0
Resolver S = String → Exec S Fault Session

pub record Verifier (S : Type 0) : Type 0 where
  pub config : Config
  pub resolver : Resolver S

pub record World (S : Type 0) : Type 0 where
  pub stored : S
  pub reads : Reads

abbrev bad_key : String × Bytes → Bool
bad_key (key_id, public_key) = is_blank key_id || not (nat_beq (length public_key) 32)

abbrev no_keys : List (String × Bytes) → Bool
no_keys [] = true
no_keys _ = false

-- NewVerifier
unfoldable pub new_verifier :
    {S : Type 0} → Option (Resolver S) → Config → Result Error (Verifier S)
new_verifier none config = err invalid_config
new_verifier (some resolver) config =
    if is_blank config.issuer
      || is_blank config.audience
      || no_keys config.public_keys
      || not (nat_beq (neg_part config.leeway) 0)
      || any bad_key config.public_keys
    then err invalid_config
    else ok (record { config = config; resolver = resolver })

abbrev key_of : List (String × Bytes) → Option String → Option Bytes
key_of public_keys none = none
key_of public_keys (some key_id) =
    Option.map (λ entry. entry.1) (find? (λ entry. entry.0 == key_id) public_keys)

-- The key function that VerifySession gives to the parser.
unfoldable pub key_function : List (String × Bytes) → Header → Option Bytes
key_function public_keys header =
    if not header.is_eddsa then none else key_of public_keys header.kid

unfoldable pub lacks_claims : Claims → Bool
lacks_claims claims =
    is_blank claims.subject
    || is_blank claims.session_id
    || is_blank claims.id
    || not (is_set claims.issued_at)
    || not (is_set claims.not_before)

module _ {S : Type 0} (jwt : Jwt) (host : Host) (verifier : Verifier S) where
  open verifier use {config, resolver}

  abbrev pub Act : Type 0 → Type 0
  Act A = Exec (World S) Error A

  abbrev on_host : {A : Type 0} → Exec Reads Error A → Act A
  on_host m w = let (r, reads) = m w.reads in (r, record w { reads = reads })

  abbrev on_store : {A : Type 0} → Exec S Error A → Act A
  on_store m w = let (r, s) = m w.stored in (r, record w { stored = s })

  abbrev pub parse : Bytes → Exec Reads Fault Claims
  parse =
      jwt.parse_with_claims (key_function config.public_keys)
        (record { issuer = config.issuer; audience = config.audience; leeway = config.leeway })
        (read_clock host)

  -- The durable session of a token's claims.
  unfoldable pub session_of : Claims → Act Session
  session_of claims = do
    session ← on_store (rethrow (λ _. inactive_session) (resolver claims.session_id))
    if not (session.id == claims.session_id) || not (session.subject_id == claims.subject)
        then raise inactive_session
        else (do
          now ← on_host (read_clock host)
          if not (active_at session now) then raise inactive_session else pure session)

  -- VerifySession
  unfoldable pub verify_session : Bytes → Act (Claims × Session)
  unfolding session_of
  verify_session raw_token =
      if nat_beq (length raw_token) 0 || ltb maximum_token_length (length raw_token)
      then raise invalid_token
      else do
        claims ← on_host (rethrow (λ _. invalid_token) (parse raw_token))
        if lacks_claims claims
            then raise invalid_token
            else (do session ← session_of claims; pure (claims, session))

  -- Verify
  unfoldable pub verify : Bytes → Act Claims
  unfolding verify_session
  verify raw_token = do (claims, _) ← verify_session raw_token; pure claims
