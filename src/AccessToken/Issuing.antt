-- ===== src/AccessToken/Issuing.antt =====
-- The issuer of accesstoken/accesstoken.go.
use authlier.Common.{
  String, not, ◌&&◌, ◌||◌, Option, none, some, [], ◌∷◌, Bytes, length, nat_beq, if◌then◌else◌,
}
use authlier.Text.{is_blank}
use authlier.Clock.{Time, zero_time, after, is_zero, Duration, is_positive, add_to, truncate_second}
use authlier.Exec.{Result, ok, err, unavailable, Exec, raise, lift, rethrow, ◌>>=◌}
use authlier.Host.{Host, Reads, read_clock}
use authlier.Token
use authlier.AccessToken.{
  Error, inactive_session, invalid_config, invalid_token, other, Claims, Issued, Jwt,
}

-- Issuer, and IssuerConfig with it; `Now` is the host's clock.
pub record Issuer : Type 0 where
  pub issuer : String
  pub audience : String
  pub lifetime : Duration
  pub key_id : String
  pub private_key : Bytes

-- NewIssuer
unfoldable pub new_issuer : Issuer → Result Error Issuer
new_issuer config =
    if is_blank config.issuer
      || is_blank config.audience
      || is_blank config.key_id
      || not (is_positive config.lifetime)
      || not (nat_beq (length config.private_key) 64)
    then err invalid_config
    else ok config

-- The expiry of a token issued now: the lifetime, cut to `maximum_expiry` unless that is zero.
unfoldable pub bounded_expiry : Duration → Time → Time → Time
bounded_expiry lifetime maximum_expiry now =
    if not (is_zero maximum_expiry) && after (add_to now lifetime) maximum_expiry
    then truncate_second maximum_expiry
    else add_to now lifetime

unfoldable pub signed_result : Option Bytes → Time → Result Error Issued
signed_result none expires_at = err (other unavailable)
signed_result (some raw_token) expires_at =
    ok (record { token = raw_token; expires_at = expires_at })

module _ (jwt : Jwt) (host : Host) (issuer : Issuer) where
  open issuer use {audience, lifetime, key_id, private_key}

  abbrev pub claims_at : String → String → Bytes → Time → Time → Claims
  claims_at subject_id session_id token_id now expires_at = record {
    session_id = session_id;
    issuer = issuer.issuer;
    subject = subject_id;
    audience = audience ∷ [];
    expires_at = some (jwt.new_numeric_date expires_at);
    not_before = some (jwt.new_numeric_date now);
    issued_at = some (jwt.new_numeric_date now);
    id = jwt.text token_id;
  }

  -- The part of `issue` from the time on.
  unfoldable pub issue_at : String → String → Time → Bytes → Time → Result Error Issued
  unfolding signed_result bounded_expiry
  issue_at subject_id session_id maximum_expiry token_id now =
      let expires_at = bounded_expiry lifetime maximum_expiry now in
      if not (after expires_at now)
      then err inactive_session
      else signed_result
          (jwt.signed_string private_key key_id
            (claims_at subject_id session_id token_id now expires_at))
          expires_at

  -- issue; `IssueUntil` is this with a maximum, and `Issue` with the zero time
  unfoldable pub issue_until : String → String → Time → Exec Reads Error Issued
  unfolding issue_at
  issue_until subject_id session_id maximum_expiry =
      if is_blank subject_id || is_blank session_id then raise invalid_token else do
        (token_id, _) ← rethrow other (Token.generate host)
        now ← read_clock host
        lift (issue_at subject_id session_id maximum_expiry token_id (truncate_second now))

  unfoldable pub issue : String → String → Exec Reads Error Issued
  unfolding issue_until
  issue subject_id session_id = issue_until subject_id session_id zero_time
