-- ===== src/Tests/Access.antt =====
-- Access tokens, with a signature scheme that writes the expiry as the token.
use authlier.Common.{◌≡◌, ◌≢◌, refl, Bool, true, none, some, [], ◌∷◌}
use authlier.Clock.{pos, truncate_second}
use authlier.Exec.{ok}
use authlier.Token
use authlier.Text.{is_blank}
use authlier.AccessToken.{Claims, Issued, Jwt, Session, active_at}
use authlier.AccessToken.Issuing.{Issuer, issue_until, issue_at, bounded_expiry, signed_result}
use authlier.AccessToken.Expiry.{IsBounded, issue_until-IsBounded}
use authlier.AccessToken.Verifying.{Config, World, verify_session, session_of, lacks_claims}
use authlier.AccessToken.Soundness.{IsVerified, verify_session-IsVerified}
use authlier.AccessToken.Revoked.{durable_verifier, verify_session-revoke}
use authlier.Postgres.{AccessSession, Db, transaction}
use authlier.Postgres.AccessSessions
use authlier.Postgres.RefreshTokens.{revoke_access_session}
use authlier.Tests.Samples.{test_host, test_server, empty_db, start}

abbrev laptop_claims : Claims
laptop_claims = record {
  session_id = "laptop";
  issuer = "authlier";
  subject = "alice";
  audience = "api" ∷ [];
  expires_at = some 9000000;
  not_before = some 1;
  issued_at = some 1;
  id = "token";
}

abbrev pub test_jwt : Jwt
test_jwt = record {
  signed_string = λ private_key key_id claims. some (7 ∷ []);
  parse_with_claims = λ keys options clock raw_token reads. (ok laptop_claims, reads);
  text = λ bytes. "token";
  new_numeric_date = truncate_second;
}

abbrev pub test_issuer : Issuer
test_issuer = record {
  issuer = "authlier";
  audience = "api";
  lifetime = pos 900000000;
  key_id = "k";
  private_key = [];
}

abbrev pub config : Config
config = record { issuer = "authlier"; audience = "api"; public_keys = []; leeway = pos 0 }

abbrev pub laptop : AccessSession
laptop = record {
  id = "laptop";
  subject_id = "alice";
  created_at = 1;
  expires_at = 5000000;
  revoked_at = none;
}

abbrev pub with_laptop : Db
with_laptop = record empty_db { tables = record empty_db.tables { access_sessions = laptop ∷ [] } }

abbrev world : World Db
world = record { stored = with_laptop; reads = start.reads }

abbrev pub laptop_session : Session
laptop_session = AccessSessions.to_session laptop

abbrev capped : Issued
capped = record { token = 7 ∷ []; expires_at = 5000000 }

-- What a run looks into.
runs : Bool
unfolding issue_until issue_at bounded_expiry signed_result Token.generate is_blank verify_session
    session_of lacks_claims active_at AccessSessions.resolve_session AccessSessions.select_live
    AccessSessions.revoke revoke_access_session transaction
runs = true

issues :
    (issue_until test_jwt test_host test_issuer "alice" "laptop" 5500000 start.reads).0 ≡ ok capped
unfolding runs
issues = refl

issue_until-IsBounded_example :
    IsBounded test_jwt test_host test_issuer "alice" "laptop" 5500000
      (truncate_second (test_host.now start.reads.clock))
      capped
issue_until-IsBounded_example =
    issue_until-IsBounded test_jwt test_host test_issuer "alice" "laptop" 5500000 start.reads capped
      (λ t. refl) issues

verifies :
    (verify_session test_jwt test_host (durable_verifier test_server config) (7 ∷ []) world).0
    ≡ ok (laptop_claims, laptop_session)
unfolding runs
verifies = refl

verify_session-IsVerified_example :
    IsVerified test_jwt test_host
      (durable_verifier test_server config)
      (7 ∷ [])
      laptop_claims
      laptop_session
      world
verify_session-IsVerified_example =
    verify_session-IsVerified test_jwt test_host (durable_verifier test_server config) (7 ∷ [])
      laptop_claims laptop_session world verifies

revokes : (AccessSessions.revoke test_server "laptop" 1000 with_laptop).0 ≡ ok tt
unfolding runs
revokes = refl

verify_session-revoke_example :
    (verify_session test_jwt test_host (durable_verifier test_server config) (7 ∷ []) (record {
      stored = (AccessSessions.revoke test_server "laptop" 1000 with_laptop).1;
      reads = start.reads;
    })).0
    ≢ ok (laptop_claims, laptop_session)
verify_session-revoke_example =
    verify_session-revoke test_jwt test_host test_server config "laptop" 1000 with_laptop
      start.reads (7 ∷ []) laptop_claims laptop_session revokes refl
