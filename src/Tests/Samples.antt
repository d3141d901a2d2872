-- ===== src/Tests/Samples.antt =====
-- A host and a database server for the tests: a clock that starts at 1000 and ticks at each reading,
-- random bytes that count the draws, and a server that answers every statement.
use authlier.Common.{
  ℕ, zero, suc, ◌+◌, ◌%◌, ◌≡◌, refl, false, none, some, [], ◌∷◌, Bytes, arith, subst, All, length,
  nat_beq, if◌then◌else◌,
}
use mathlib.Core.Option.{some-injective}
use authlier.Clock.{pos}
use authlier.Host.{Host, Hash, IsByte, FillsBuffer}
use authlier.SessionToken.{Record, Settings}
use authlier.Token.Base64.{encode_to_string}
use authlier.Postgres.{Server, Db}
use authlier.Durable.{DurableWorld}

abbrev pub replicate : ℕ → ℕ → Bytes
replicate zero b = []
replicate (suc n) b = b ∷ replicate n b

replicate-fills : (n b : ℕ) → IsByte b → (length (replicate n b) ≡ n) × All IsByte (replicate n b)
replicate-fills zero b h = (refl, tt)
replicate-fills (suc n) b h =
    let (sized, bytes) = replicate-fills n b h in (omega arith, (h, bytes))

-- The identity stands for SHA-256: the tests only need different tokens to have different hashes.
abbrev pub test_host : Host
test_host = record {
  now = λ k. 1000 + k;
  rand_read = λ k n. some (replicate n ((k + 1) % 256));
  new_uuid = λ k. some (if nat_beq k 0 then "s0" else "s1");
  sum256 = λ bytes. bytes;
}

pub test_host-FillsBuffer : FillsBuffer test_host
test_host-FillsBuffer k n random e =
    subst (λ bytes. (length bytes ≡ n) × All IsByte bytes) (some-injective _ _ e)
      (replicate-fills n ((k + 1) % 256) (omega arith))

abbrev pub test_server : Server
test_server = record {
  fails = λ n. false;
  loses = λ n. false;
  current_timestamp = λ n. 1000;
  new_uuid = λ n. some "u";
  rand_read = λ n size. some (replicate size 9);
  now = λ n. 1000;
}

abbrev pub one_hour : Settings
one_hour = record { lifetime = pos 3600; cache_ttl = pos 0; extension = none }

abbrev pub empty_db : Db
empty_db = record {
  tables = record {
    sessions = [];
    access_sessions = [];
    refresh_tokens = [];
    accounts = record {
      users = [];
      password_credentials = [];
      email_verifications = [];
      password_resets = [];
      google_identities = [];
      google_challenges = [];
      passkeys = [];
      passkey_ceremonies = [];
    };
    totp = record { enrollments = []; credentials = []; recovery_codes = []; challenges = [] };
  };
  statements = 0;
}

abbrev pub start : DurableWorld
start = record {
  stored = empty_db;
  cached = tt;
  reads = record { clock = 0; draws = 0; uuids = 0 };
}

-- Alice's session: its token encodes 32 bytes with the value 7.
abbrev pub alice_hash : Hash
alice_hash = replicate 32 7

abbrev pub alice_token : Bytes
alice_token = encode_to_string alice_hash

abbrev pub alice : Record
alice = record {
  id = "a";
  subject_id = "alice";
  token_hash = alice_hash;
  created_at = 900;
  expires_at = 4500;
  extended_at = none;
  revoked_at = none;
}

abbrev pub with_alice : DurableWorld
with_alice = record start {
  stored = record empty_db { tables = record empty_db.tables { sessions = alice ∷ [] } };
}
