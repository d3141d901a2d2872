-- ===== src/Tests/Bearers.antt =====
-- A refresh of a bearer session over the durable stores.
use authlier.Common.{◌≡◌, refl, Bool, true, none, [], ◌∷◌}
use authlier.Clock.{pos}
use authlier.Exec.{ok}
use authlier.Text.{is_blank}
use authlier.Token
use authlier.Token.Base64.{encode_to_string, decode_string, decode_char}
use authlier.RefreshToken
use authlier.RefreshToken.{Record, World, valid_record}
use authlier.RefreshToken.Methods
use authlier.AccessToken
use authlier.AccessToken.Issuing.{issue_until, issue_at, bounded_expiry, signed_result}
use authlier.AccessToken.Revoked.{durable_verifier}
use authlier.Postgres.{Db, transaction}
use authlier.Postgres.RefreshTokens
use authlier.Postgres.AccessSessions
use authlier.Bearer.{Manager, Issued}
use authlier.Bearer.Methods.{
  refresh, refresh_resolved, refresh_active, durable_session, resolve_token,
}
use authlier.Bearer.Active.{refresh-active}
use authlier.Tests.Samples.{replicate, test_host, test_server, start, alice_hash, alice_token}
use authlier.Tests.Access.{test_jwt, test_issuer, config, laptop_session, with_laptop}

abbrev current : Record
current = record {
  session_id = "laptop";
  token_hash = alice_hash;
  created_at = 1;
  expires_at = 5000000;
  rotated_at = none;
  revoked_at = none;
}

abbrev world : World Db
world = record {
  stored = record with_laptop {
    tables = record with_laptop.tables { refresh_tokens = current ∷ [] };
  };
  reads = start.reads;
}

abbrev bearers : Manager Db
bearers = record {
  store = record {
    resolve_session = AccessSessions.resolve_session test_server;
    create_session = AccessSessions.create_session test_server;
    list_by_subject = AccessSessions.list_by_subject test_server;
    revoke = AccessSessions.revoke test_server;
    revoke_all = AccessSessions.revoke_all test_server;
  };
  issuer = test_issuer;
  verifier = durable_verifier test_server config;
  refresh_tokens = record {
    store = RefreshTokens.refresh_store test_server;
    lifetime = pos 5000000;
  };
  refresh_lifetime = pos 5000000;
}

abbrev refreshed : Issued
refreshed = record {
  session = laptop_session;
  access_token = 7 ∷ [];
  access_token_expires_at = 5000000;
  refresh_token = encode_to_string (replicate 32 2);
  refresh_token_expires_at = 5000000;
}

-- What a run looks into.
runs : Bool
unfolding refresh refresh_resolved refresh_active durable_session RefreshToken.Methods.resolve
    RefreshToken.Methods.lookup RefreshToken.Methods.rotate RefreshToken.Methods.rotate_loop
    RefreshToken.Methods.issue_attempt RefreshToken.Methods.new_issued valid_record
    RefreshToken.active_at AccessToken.active_at issue_until issue_at bounded_expiry signed_result
    Token.generate Token.hash_token encode_to_string decode_string decode_char is_blank transaction
    AccessSessions.resolve_session AccessSessions.select_live RefreshTokens.find_by_token_hash
    RefreshTokens.rotate RefreshTokens.rotate_transaction RefreshTokens.rotate_body
    RefreshTokens.select_token RefreshTokens.insert_token RefreshTokens.set_rotated
runs = true

refreshes : (refresh test_jwt test_host bearers alice_token world).0 ≡ ok refreshed
unfolding runs
refreshes = refl

refresh-active_example :
    let (answer, w') = resolve_token test_jwt test_host bearers alice_token world in
    (r : Record) × (answer ≡ ok r)
    × ((AccessSessions.resolve_session test_server r.session_id w'.stored).0 ≡ ok laptop_session)
    × (laptop_session.id ≡ r.session_id)
    × (AccessToken.active_at laptop_session (test_host.now w'.reads.clock) ≡ true)
refresh-active_example =
    refresh-active test_jwt test_host bearers alice_token refreshed world refreshes
