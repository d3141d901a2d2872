-- ===== src/Tests/Totp.antt =====
-- Codes of an authenticator app: a library that accepts six times the digit of the counter, and a
-- clock that starts two periods after the start of Unix time and ticks by one period.
use authlier.Common.{
  ℕ, ◌+◌, ◌*◌, ◌%◌, ◌≢◌, ◌≤◌, arith, ◌≡◌, refl, Bool, true, false, Option, none, some, List, [],
  ◌∷◌, Bytes, ◌==◌, bytes_eq,
}
use authlier.Clock.{pos, second}
use authlier.Exec.{ok}
use authlier.Host.{Host, Hash}
use authlier.Token
use authlier.Token.Base64.{encode_to_string, decode_string, decode_char}
use authlier.Service.{World}
use authlier.Totp.{Otp, Manager, VerifyInput, Authentication, valid_challenge, valid_credential}
use authlier.Totp.Codes.{unix_epoch, match_counter, hash_recovery_code, generate_recovery_codes}
use authlier.Totp.Codes.Recovery.{IsRecovery, fresh_draws, generate_recovery_codes-returns}
use authlier.Totp.Methods.{verify}
use authlier.Totp.Soundness.{IsVerified, verify-IsVerified}
use authlier.Text.{trim_space, is_blank}
use authlier.Text.Trim.{trim_bytes}
use authlier.Postgres.{Db, transaction}
use authlier.Postgres.Totp.{
  Codec, totp_store, find_challenge, complete_code, complete_recovery, complete_code_body,
  complete_recovery_body, disable,
}
use authlier.Postgres.Totp.Life.Steps.{Reach, here, next, finds_challenge}
use authlier.Postgres.Totp.Replay.{counter_once, recovery_once, challenge_once}
use authlier.Postgres.Totp.Later.{verify-later}
use authlier.Tests.Samples.{
  replicate, test_host, test_server, empty_db, start, alice_hash, alice_token,
}

abbrev app_host : Host
app_host = record test_host { now = λ k. (unix_epoch + 60 + 30 * k) * second }

abbrev app : Otp
app = record {
  generate = λ issuer account reads. (ok (record { secret = "S"; url = "u" }), reads);
  validate_custom = λ code counter secret. some (code == replicate 6 (48 + counter));
}

abbrev code_of : ℕ → Bytes
code_of counter = replicate 6 (48 + counter)

-- What a run looks into.
runs : Bool
unfolding match_counter generate_recovery_codes fresh_draws hash_recovery_code trim_bytes
    complete_code complete_recovery disable verify find_challenge valid_challenge valid_credential
    trim_space Token.hash_token encode_to_string decode_string decode_char is_blank transaction
    complete_code_body complete_recovery_body
runs = true

drawn : fresh_draws app_host (λ k. replicate 16 ((k + 1) % 256)) 3 0 [] ≡ 3
unfolding runs
drawn = refl

generate_recovery_codes-returns_example :
    (codes : List Bytes) × (hashes : List Hash) × ((generate_recovery_codes app_host 3 2
        start.reads).0
      ≡ ok (some (codes, hashes)))
    × IsRecovery app_host 2 codes hashes
generate_recovery_codes-returns_example =
    generate_recovery_codes-returns app_host (λ k. replicate 16 ((k + 1) % 256)) (λ k. refl) 3 2
      start.reads (rw drawn (omega arith))

abbrev codec : Option Codec
codec = some (record { encrypt = λ n s. some []; decrypt = λ n b. some "S" })

abbrev other_hash : Hash
other_hash = replicate 32 8

abbrev spare : Hash
spare = replicate 32 4

-- Alice with an authenticator app, one recovery code and two challenges.
abbrev enrolled : Db
enrolled = record empty_db {
  tables = record empty_db.tables {
    totp = record {
      enrollments = [];
      credentials =
          record {
            subject_id = "alice";
            encrypted_secret = [];
            enabled_at = 500;
            last_used_counter = some 2;
            disabled_at = none;
          }
          ∷ [];
      recovery_codes = record { subject_id = "alice"; code_hash = spare; used_at = none } ∷ [];
      challenges =
          record {
            token_hash = alice_hash;
            subject_id = "alice";
            created_at = 500;
            expires_at = app_host.now 10;
            consumed_at = none;
          }
          ∷ record {
            token_hash = other_hash;
            subject_id = "alice";
            created_at = 500;
            expires_at = app_host.now 10;
            consumed_at = none;
          }
          ∷ [];
    };
  };
}

taken : (complete_code test_server codec alice_hash 3 (app_host.now 1) enrolled).0 ≡ ok "alice"
unfolding runs
taken = refl

used :
    (complete_recovery test_server codec alice_hash spare (app_host.now 1) enrolled).0 ≡ ok "alice"
unfolding runs
used = refl

abbrev after_code : Db
after_code = (complete_code test_server codec alice_hash 3 (app_host.now 1) enrolled).1

abbrev after_recovery : Db
after_recovery = (complete_recovery test_server codec alice_hash spare (app_host.now 1) enrolled).1

asked :
    (db : Db)
    → Reach test_server codec "alice" db (find_challenge test_server codec other_hash db).1
asked db = next here (finds_challenge other_hash db)

counter_once_example :
    (complete_code test_server codec other_hash 3
      (app_host.now 2)
      (find_challenge test_server codec other_hash after_code).1).0
    ≢ ok "alice"
counter_once_example =
    counter_once test_server codec "alice" alice_hash other_hash 3 3 (app_host.now 1)
      (app_host.now 2) enrolled _ taken (asked after_code) (omega arith)

recovery_once_example :
    (complete_recovery test_server codec other_hash spare
      (app_host.now 2)
      (find_challenge test_server codec other_hash after_recovery).1).0
    ≢ ok "alice"
recovery_once_example =
    recovery_once test_server codec "alice" alice_hash other_hash spare (app_host.now 1)
      (app_host.now 2) enrolled _ used (asked after_recovery)

challenge_once_example :
    ((complete_code test_server codec alice_hash 4
        (app_host.now 2)
        (find_challenge test_server codec other_hash after_code).1).0
      ≢ ok "alice")
    × ((complete_recovery test_server codec alice_hash spare
          (app_host.now 2)
          (find_challenge test_server codec other_hash after_code).1).0
        ≢ ok "alice")
challenge_once_example =
    challenge_once test_server codec "alice" "alice" alice_hash spare 3 4 (app_host.now 1)
      (app_host.now 2) enrolled _ taken (asked after_code) (omega arith)

abbrev manager : Manager Db ℕ
manager = record {
  store = totp_store test_server codec;
  settings = record {
    issuer = "Authlier";
    enrollment_lifetime = pos 600;
    challenge_lifetime = pos 600;
    recovery_code_count = 2;
  };
  attempt_guard = none;
  security_events = none;
}

abbrev world : World Db ℕ
world = record { stored = enrolled; outside = 0; reads = start.reads }

abbrev first : VerifyInput
first = record { challenge_token = alice_token; code = code_of 3; source_key = "1" }

abbrev second_try : VerifyInput
second_try = record {
  challenge_token = encode_to_string other_hash;
  code = code_of 4;
  source_key = "1";
}

abbrev accepted : Authentication
accepted = record { subject_id = "alice"; used_recovery_code = false }

verified : (verify app_host app 5 manager first world).0 ≡ ok accepted
unfolding runs
verified = refl

verify-IsVerified_example :
    IsVerified app_host app 5 manager first accepted world
      (verify app_host app 5 manager first world).1.stored
verify-IsVerified_example = verify-IsVerified app_host app 5 manager first accepted world verified

abbrev later_world : World Db ℕ
later_world = (verify app_host app 5 manager first world).1

verified_again : (verify app_host app 5 manager second_try later_world).0 ≡ ok accepted
unfolding runs
verified_again = refl

verify-later_example :
    (v : IsVerified app_host app 5 manager first accepted world later_world.stored)
    × (v' : IsVerified app_host app 5 manager second_try accepted later_world
        (verify app_host app 5 manager second_try later_world).1.stored)
    × (v.accepted.counter + 1 ≤ v'.accepted.counter)
verify-later_example =
    verify-later test_server codec app_host app 5 manager refl first second_try accepted accepted
      world later_world verified here verified_again refl
