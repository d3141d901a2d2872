-- ===== src/Bearer/Config.antt =====
-- newBearerSessionManager of token_session.go.
use mathlib.Core.Option
use authlier.Common.{
  String, not, ◌&&◌, Option, some, List, ◌∷◌, Bytes, length, ◌==◌, string_eq, select, nat_beq,
  if◌then◌else◌,
}
use authlier.Text.{is_blank}
use authlier.Clock.{Duration, shorter}
use authlier.Exec.{Result, ok, err}
use authlier.RefreshToken
use authlier.RefreshToken.Methods
use authlier.AccessToken.Issuing.{Issuer, new_issuer}
use authlier.AccessToken.Verifying.{Verifier, new_verifier}
use authlier.Bearer.{Error, invalid_config, AccessSessionStore, Manager}

-- BearerSessionConfig
pub record Config : Type 0 where
  pub issuer : String
  pub audience : String
  pub key_id : String
  pub private_key : Bytes
  pub public_keys : List (String × Bytes)
  pub access_token_lifetime : Duration
  pub refresh_token_lifetime : Duration
  pub leeway : Duration

-- The public keys, with the one of the signing key under its ID; `public` is PrivateKey.Public.
unfoldable pub verification_keys : (Bytes → Bytes) → Config → List (String × Bytes)
verification_keys public config =
    if nat_beq (length config.private_key) 64 && not (is_blank config.key_id)
    then (config.key_id, public config.private_key)
      ∷ select (λ entry. not (entry.0 == config.key_id)) config.public_keys
    else config.public_keys

module _ {S : Type 0} (store : Option (AccessSessionStore S)) (config : Config) where
  -- Every error of the parts is passed on as ErrInvalidConfig.
  assembled :
      {E F G : Type 0}
      → Option (AccessSessionStore S)
      → Result E Issuer
      → Result F (Verifier S)
      → Result G (RefreshToken.Manager S)
      → Result Error (Manager S)
  assembled (some s) (ok issuer) (ok verifier) (ok refresh_tokens) = ok (record {
    store = s;
    issuer = issuer;
    verifier = verifier;
    refresh_tokens = refresh_tokens;
    refresh_lifetime = config.refresh_token_lifetime;
  })
  assembled _ _ _ _ = err invalid_config

  unfoldable pub new_bearer_session_manager :
      (Bytes → Bytes) → Option (RefreshToken.Store S) → Result Error (Manager S)
  unfolding assembled verification_keys
  new_bearer_session_manager public refresh_store =
      if not (shorter config.access_token_lifetime config.refresh_token_lifetime)
      then err invalid_config
      else assembled store
          (new_issuer (record {
            issuer = config.issuer;
            audience = config.audience;
            lifetime = config.access_token_lifetime;
            key_id = config.key_id;
            private_key = config.private_key;
          }))
          (new_verifier (Option.map (λ s. s.resolve_session) store) (record {
            issuer = config.issuer;
            audience = config.audience;
            public_keys = verification_keys public config;
            leeway = config.leeway;
          }))
          (RefreshToken.Methods.new_manager refresh_store config.refresh_token_lifetime)
