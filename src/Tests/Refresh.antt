-- ===== src/Tests/Refresh.antt =====
-- The refresh-token store, at a session with one active and one rotated token.
use authlier.Common.{◌≡◌, ◌≢◌, refl, Bool, true, false, none, some, [], ◌∷◌}
use authlier.Exec.{ok, err}
use authlier.Host.{Hash}
use authlier.RefreshToken.{Record, reuse_detected, active_at}
use authlier.Postgres.{AccessSession, Db, transaction}
use authlier.Postgres.RefreshTokens
use authlier.Postgres.RefreshTokens.Outcomes.{rotate-detects, rotate-succeeds}
use authlier.Postgres.RefreshTokens.Life.{Later}
use authlier.Postgres.RefreshTokens.Life.Steps.{here, next, rotates, tokens-Later}
use authlier.Postgres.RefreshTokens.Life.Reuse.{rotate_once, family_dead}
use authlier.Tests.Samples.{replicate, test_server, empty_db}

-- What a run of the store looks into.
runs : Bool
unfolding transaction RefreshTokens.rotate RefreshTokens.rotate_transaction
    RefreshTokens.rotate_body RefreshTokens.select_token RefreshTokens.insert_token
    RefreshTokens.set_rotated RefreshTokens.update_session RefreshTokens.update_tokens
    RefreshTokens.revoke_access_session active_at
runs = true

abbrev first_hash : Hash
first_hash = replicate 32 1

abbrev second_hash : Hash
second_hash = replicate 32 2

abbrev third_hash : Hash
third_hash = replicate 32 3

abbrev first : Record
first = record {
  session_id = "laptop";
  token_hash = first_hash;
  created_at = 800;
  expires_at = 5000;
  rotated_at = some 900;
  revoked_at = none;
}

abbrev second : Record
second = record first { token_hash = second_hash; created_at = 900; rotated_at = none }

abbrev third : Record
third = record second { token_hash = third_hash; created_at = 1000 }

abbrev laptop : AccessSession
laptop = record {
  id = "laptop";
  subject_id = "alice";
  created_at = 800;
  expires_at = 5000;
  revoked_at = none;
}

abbrev with_laptop : Db
with_laptop = record empty_db {
  tables = record empty_db.tables {
    access_sessions = laptop ∷ [];
    refresh_tokens = second ∷ first ∷ [];
  };
}

abbrev after_rotation : Db
after_rotation = (RefreshTokens.rotate test_server second_hash third 1000 with_laptop).1

abbrev after_reuse : Db
after_reuse = (RefreshTokens.rotate test_server first_hash third 1000 with_laptop).1

rotated : (RefreshTokens.rotate test_server second_hash third 1000 with_laptop).0 ≡ ok tt
unfolding runs
rotated = refl

detected :
    (RefreshTokens.rotate test_server first_hash third 1000 with_laptop).0 ≡ err reuse_detected
unfolding runs
detected = refl

first_ended : active_at first 1000 ≡ false
unfolding active_at
first_ended = refl

second_active : active_at second 1000 ≡ true
unfolding active_at
second_active = refl

rotate-detects_example :
    (RefreshTokens.rotate test_server first_hash third 1000 with_laptop).0 ≡ err reuse_detected
rotate-detects_example =
    rotate-detects test_server first_hash third first 1000 with_laptop (λ n. refl) refl first_ended

rotate-succeeds_example :
    (RefreshTokens.rotate test_server second_hash third 1000 with_laptop).0 ≡ ok tt
rotate-succeeds_example =
    rotate-succeeds test_server second_hash third second 1000 with_laptop (λ n. refl) refl
      second_active refl refl

tokens-Later_example : Later with_laptop.tables after_rotation.tables
tokens-Later_example =
    tokens-Later test_server (next here (rotates second_hash third 1000 with_laptop))

rotate_once_example :
    (RefreshTokens.rotate test_server second_hash first 1001 after_rotation).0 ≢ ok tt
rotate_once_example =
    rotate_once test_server second_hash third first 1000 1001 with_laptop after_rotation rotated
      here

family_dead_example :
    (RefreshTokens.rotate test_server second_hash third 1001 after_reuse).0 ≢ ok tt
family_dead_example =
    family_dead test_server first_hash second_hash third third first second 1000 1001 with_laptop
      after_reuse detected refl refl refl here
