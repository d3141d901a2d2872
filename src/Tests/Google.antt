-- ===== src/Tests/Google.antt =====
-- A first sign-in with Google over the PostgreSQL store.
use authlier.Common.{◌≡◌, refl, true, false, none, some, String, Bytes, [], ◌∷◌, string_eq}
use authlier.Clock.{pos}
use authlier.Exec.{ok}
use authlier.Service.{World}
use authlier.Text.{trim_space, is_blank}
use authlier.Text.Trim.{trim_bytes}
use authlier.EmailAddress.{Mail, valid, byte_length, normalize}
use authlier.GoogleAccount.{Urls, Manager, User}
use authlier.GoogleAccount.Methods.{valid_challenge, complete}
use authlier.GoogleAccount.Soundness.{IsCompleted, complete-IsCompleted}
use authlier.Postgres.{Db, transaction}
use authlier.Postgres.Accounts.{insert_user, draw_user}
use authlier.Postgres.Accounts.Identities.{
  google_store, identity_store, consume_challenge, resolve_identity, resolve_body, resolve_found,
  resolve_new, link_target, unless_found, insert_identity,
}
use authlier.Tests.Samples.{test_host, test_server, empty_db, start}

abbrev test_mail : Mail
test_mail = record { to_lower = λ s. s; parse_address = λ s. some s }

-- A URL is its text.
abbrev test_urls : Urls String
test_urls = record {
  parse = λ s. some s;
  host = λ s. s;
  has_user = λ s. false;
  fragment = λ s. "";
  scheme = λ s. "https";
  string = λ s. s;
  with_query = λ s pairs. s;
}

abbrev manager : Manager Db (Unit {0}) String
manager = record {
  store = google_store test_server;
  identities = some (identity_store test_server);
  exchange = λ input o. (
    ok (record {
      provider_subject = "g";
      email = "alice@example.com";
      email_verified = true;
      nonce = 78 ∷ [];
    }),
    o,
  );
  client_id = "authlier";
  authorization_url = "https://accounts.example.com";
  redirect_url = "https://example.com";
  lifetime = pos 600;
  security_events = none;
}

abbrev started : Db
started = record empty_db {
  tables = record empty_db.tables {
    accounts = record empty_db.tables.accounts {
      google_challenges =
          record {
            state_hash = 65 ∷ [];
            nonce = 78 ∷ [];
            code_verifier = 86 ∷ [];
            subject_id = "";
            created_at = 900;
            expires_at = 1500;
          }
          ∷ [];
    };
  };
}

abbrev world : World Db (Unit {0})
world = record { stored = started; outside = tt; reads = start.reads }

abbrev no_bytes : String → Bytes
no_bytes s = []

abbrev alice : User
alice = record { id = "u" }

completed :
    (complete test_host test_mail test_urls no_bytes manager (65 ∷ []) (67 ∷ []) world).0 ≡ ok alice
unfolding complete valid_challenge trim_bytes trim_space is_blank normalize valid byte_length
    consume_challenge resolve_identity resolve_body resolve_found resolve_new link_target
    unless_found insert_identity insert_user draw_user transaction
completed = refl

complete-IsCompleted_example :
    IsCompleted test_host test_mail test_urls no_bytes manager (65 ∷ []) (67 ∷ []) alice world
complete-IsCompleted_example =
    complete-IsCompleted test_host test_mail test_urls no_bytes manager (65 ∷ []) (67 ∷ []) alice
      world completed
