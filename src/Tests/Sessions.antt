-- ===== src/Tests/Sessions.antt =====
-- The session manager over the durable store.
use authlier.Common.{
  ◌≡◌, arith, ◌≢◌, refl, Bool, true, false, none, some, [], ◌∷◌, ◌==◌, bytes_eq, if◌then◌else◌,
}
use mathlib.Core.Option
use authlier.Exec.{ok}
use authlier.Host.{Hash}
use authlier.Token.Base64.{encode_to_string, decode_string, decode_char}
use authlier.Token
use authlier.Text.{is_blank}
use authlier.SessionToken.{Record, valid_record, active_at}
use authlier.SessionToken.Methods.{
  new_issued, create, create_loop, create_with, populate_cache, delete_cached, forget_cached,
}
use authlier.SessionToken.Lookup.{
  resolve, resolve_hash, resolve_with, resolve_durable, resolve_found, consult_cache, extend_if_due,
  extend_with,
}
use authlier.SessionToken.Lookup.Soundness.{IsCurrent, resolve-IsCurrent}
use authlier.SessionToken.Ending.{
  rotate, rotate_hash, rotate_found, rotate_loop, rotate_with, revoke, revoke_hash, Rotated,
}
use authlier.Postgres.{Db, transaction}
use authlier.Postgres.Sessions
use authlier.Postgres.Sessions.{has_hash, revoke_now, extendable, extended_row}
use authlier.Postgres.Sessions.View.{view, view-create, view-rotate}
use authlier.Postgres.Sessions.Extending.{IsUnique, view-extend}
use authlier.Clock.{before, after}
use authlier.Postgres.Sessions.Life.{
  Later, here, next, revokes, extends, Reach-Later, revoked_forever,
}
use authlier.Durable.{durable, DurableWorld}
use authlier.Durable.Revocation.{resolve-revoke}
use authlier.Durable.Rotation.{Rotates, rotate-Rotates, resolve-rotate}
use authlier.Tests.Samples.{
  replicate, test_host, test_server, one_hour, with_alice, alice, alice_hash, alice_token,
  test_host-FillsBuffer,
}

-- What a run of the manager looks into.
runs : Bool
unfolding revoke revoke_hash delete_cached Sessions.revoke Token.hash_token encode_to_string
    decode_string decode_char resolve resolve_hash resolve_with resolve_durable resolve_found
    consult_cache extend_if_due extend_with populate_cache forget_cached rotate rotate_hash
    rotate_found rotate_loop rotate_with new_issued Token.generate transaction Sessions.rotate
    Sessions.find_by_token_hash Sessions.extend Sessions.create Sessions.revoke_all valid_record
    is_blank active_at create create_loop create_with
runs = true

abbrev after_revoke : DurableWorld
after_revoke = (revoke test_host (durable test_server one_hour) alice_token with_alice).1

alice_revoked : (revoke test_host (durable test_server one_hour) alice_token with_alice).0 ≡ ok tt
unfolding runs
alice_revoked = refl

resolve-revoke_example :
    (resolve test_host (durable test_server one_hour) alice_token after_revoke).0 ≢ ok alice
resolve-revoke_example =
    resolve-revoke test_host test_server one_hour alice_token with_alice after_revoke alice_revoked
      here alice

-- The second token of the test host's random source.
abbrev rotated_alice : Rotated
rotated_alice = record {
  replacement = record {
    token = encode_to_string (replicate 32 1);
    issued_record = record {
      id = "s0";
      subject_id = "alice";
      token_hash = replicate 32 1;
      created_at = 1001;
      expires_at = 4601;
      extended_at = none;
      revoked_at = none;
    };
  };
  sync_error = none;
}

abbrev after_rotate : DurableWorld
after_rotate = (rotate test_host (durable test_server one_hour) alice_token with_alice).1

alice_rotated :
    (rotate test_host (durable test_server one_hour) alice_token with_alice).0 ≡ ok rotated_alice
unfolding runs
alice_rotated = refl

rotate-Rotates_example :
    (h : Hash) × (Token.hash_token test_host alice_token ≡ ok h)
    × Rotates test_host test_server one_hour test_host-FillsBuffer h rotated_alice with_alice
        after_rotate
rotate-Rotates_example =
    rotate-Rotates test_host test_server one_hour test_host-FillsBuffer alice_token with_alice
      rotated_alice alice_rotated

resolve-rotate_example :
    (resolve test_host (durable test_server one_hour) alice_token after_rotate).0 ≢ ok alice
resolve-rotate_example =
    resolve-rotate test_host test_server one_hour test_host-FillsBuffer alice_token with_alice
      after_rotate rotated_alice alice_rotated here alice

alice_resolved :
    (resolve test_host (durable test_server one_hour) alice_token with_alice).0 ≡ ok alice
unfolding runs
alice_resolved = refl

resolve-IsCurrent_example :
    (h : Hash) × (Token.hash_token test_host alice_token ≡ ok h) × IsCurrent h 1000 alice
resolve-IsCurrent_example =
    resolve-IsCurrent test_host (durable test_server one_hour) alice_token alice with_alice
      alice_resolved

abbrev ended_db : Db
ended_db = record with_alice.stored {
  tables = record with_alice.stored.tables {
    sessions = record alice { revoked_at = some 1000 } ∷ [];
  };
}

abbrev extended_db : Db
extended_db = (Sessions.extend test_server alice_hash 1200 9000 ended_db).1

revoked_forever_example :
    (r : Record) × (view extended_db.tables alice_hash ≡ some r)
    × (r.revoked_at ≡ some 1000)
    × (active_at r 2000 ≡ false)
revoked_forever_example =
    revoked_forever test_server ended_db extended_db alice_hash
      (record alice { revoked_at = some 1000 }) 1000 2000
      (next here (extends alice_hash 1200 9000 ended_db)) refl refl

Reach-Later_example :
    Later with_alice.stored.tables
      (Sessions.revoke test_server alice_hash 1000 with_alice.stored).1.tables
Reach-Later_example =
    Reach-Later test_server (next here (revokes alice_hash 1000 with_alice.stored))

abbrev bob : Record
bob = record alice { id = "b"; subject_id = "bob"; token_hash = replicate 32 8 }

bob_created : (Sessions.create test_server bob with_alice.stored).0 ≡ ok tt
unfolding runs
bob_created = refl

view-create_example :
    (view with_alice.stored.tables bob.token_hash ≡ none)
    × ((h : Hash)
        → view (Sessions.create test_server bob with_alice.stored).1.tables h
          ≡ (if bob.token_hash == h then some bob else view with_alice.stored.tables h))
view-create_example = view-create test_server bob with_alice.stored bob_created

bob_rotated : (Sessions.rotate test_server alice_hash bob 1000 with_alice.stored).0 ≡ ok tt
unfolding runs
bob_rotated = refl

view-rotate_example :
    (row : Record) × (view with_alice.stored.tables alice_hash ≡ some row)
    × (active_at row 1000 ≡ true)
    × (view with_alice.stored.tables bob.token_hash ≡ none)
    × ((h : Hash)
        → view (Sessions.rotate test_server alice_hash bob 1000 with_alice.stored).1.tables h ≡ (
            if bob.token_hash == h
            then some bob
            else Option.map
                (λ r. if has_hash alice_hash r then revoke_now 1000 r else r)
                (view with_alice.stored.tables h)))
view-rotate_example = view-rotate test_server alice_hash bob 1000 with_alice.stored bob_rotated

abbrev alice_extended : Record
alice_extended = record alice { extended_at = some 1200; expires_at = 9000 }

extends_alice :
    (Sessions.extend test_server alice_hash 1200 9000 with_alice.stored).0 ≡ ok alice_extended
unfolding runs
extends_alice = refl

with_alice-IsUnique : IsUnique with_alice.stored.tables
with_alice-IsUnique h = ground arith

view-extend_example :
    (row : Record) × (view with_alice.stored.tables alice_hash ≡ some row)
    × (row.revoked_at ≡ none)
    × (after row.expires_at 1200 ≡ true)
    × (before row.expires_at 9000 ≡ true)
    × (alice_extended ≡ record {
      id = row.id;
      subject_id = row.subject_id;
      token_hash = row.token_hash;
      created_at = row.created_at;
      expires_at = 9000;
      extended_at = some 1200;
      revoked_at = none;
    })
    × ((h : Hash)
        → view (Sessions.extend test_server alice_hash 1200 9000 with_alice.stored).1.tables h
          ≡ (if alice_hash == h then some alice_extended else view with_alice.stored.tables h))
view-extend_example =
    view-extend test_server alice_hash 1200 9000 with_alice.stored alice_extended
      with_alice-IsUnique extends_alice
