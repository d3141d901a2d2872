-- ===== src/Tests/Accounts.antt =====
-- Accounts: a registration, a sign-in, a removal of a password and a reset, over the PostgreSQL store.
-- The password hash of the tests is the text itself.
use authlier.Common.{
  ℕ, Bytes, ◌∷◌, [], some, ℕ, suc, ◌≡◌, ◌≢◌, refl, Bool, true, false, none, some, ◌==◌, string_eq,
}
use authlier.Exec.{err, ok, err}
use authlier.Service.{World}
use authlier.Text.{trim_space, is_blank}
use authlier.EmailAddress.{Mail, valid, byte_length, normalize}
use authlier.EmailPassword
use authlier.EmailPassword.{
  Manager, LoginInput, LoginResult, Registration, PasswordCredential, not_found,
  invalid_credentials, valid_user, valid_credential,
}
use authlier.EmailPassword.Methods.{normalized}
use authlier.EmailPassword.Login.{lookup, login}
use authlier.EmailPassword.Soundness.{IsSignedIn, login-IsSignedIn}
use authlier.EmailPassword.Disclosure.{unknown, login-refused}
use authlier.PasswordReset
use authlier.Passkey.{WebAuthn, last_credential}
use authlier.Postgres.{PasskeyRow, Db, transaction}
use authlier.Postgres.Accounts.{lock_user, select_user, draw_user}
use authlier.Postgres.Accounts.Passwords
use authlier.Postgres.Accounts.Resets
use authlier.Postgres.Accounts.Methods.{HasMethod, IsKeyed, keyed}
use authlier.Postgres.Accounts.Passkeys
use authlier.Postgres.Accounts.Steps.{here, next, removes, deletes_passkey, Reach-HasMethod}
use authlier.Postgres.Accounts.Outcomes.{register-find_by_email}
use authlier.Postgres.Accounts.Once
use authlier.Postgres.Accounts.Once.{reset_once}
use authlier.Tests.Samples.{test_host, test_server, empty_db, start, alice_hash}

abbrev test_mail : Mail
test_mail = record { to_lower = λ s. s; parse_address = λ s. some s }

-- What a run looks into.
runs : Bool
unfolding transaction Passwords.register Passwords.register_body Passwords.find_by_email
    Passwords.select_by_email Resets.issue Resets.reset_password Resets.reset_body draw_user login
    normalized normalize valid byte_length trim_space is_blank valid_user valid_credential keyed
    Passwords.remove_password Passwords.remove_body Passkeys.delete_credential Passkeys.delete_body
    lock_user select_user
runs = true

abbrev alice_user : EmailPassword.User
alice_user = record { id = "u"; email = "alice@example.com" }

abbrev registration : Registration
registration = record { email = "alice@example.com"; password_hash = "secret"; created_at = 900 }

registered : (Passwords.register test_server registration empty_db).0 ≡ ok alice_user
unfolding runs
registered = refl

abbrev with_account : Db
with_account = (Passwords.register test_server registration empty_db).1

register-find_by_email_example :
    (Passwords.find_by_email test_server "alice@example.com" with_account).0
    ≡ ok (alice_user, record { user_id = "u"; password_hash = "secret" })
register-find_by_email_example =
    register-find_by_email test_server registration alice_user empty_db registered refl

-- Keys of one byte, which are what is stored of them.
abbrev webauthn : WebAuthn Bytes Bytes
webauthn = record {
  credential_id = λ key. key;
  marshal_credential = λ key. some key;
  marshal_session = λ session. some session;
}

abbrev key : ℕ → PasskeyRow
key n = record {
  credential_id = n ∷ [];
  subject_id = "u";
  credential = n ∷ [];
  created_at = 900;
  updated_at = 900;
}

-- The account with two passkeys beside its password.
abbrev with_keys : Db
with_keys = record with_account {
  tables = record with_account.tables {
    accounts = record with_account.tables.accounts { passkeys = key 1 ∷ key 2 ∷ [] };
  };
}

abbrev without_password : Db
without_password = (Passwords.remove_password test_server "u" "secret" 1000 with_keys).1

abbrev with_one_key : Db
with_one_key = (Passkeys.delete_credential test_server "u" (1 ∷ []) 1000 without_password).1

removes_password : (Passwords.remove_password test_server "u" "secret" 1000 with_keys).0 ≡ ok tt
unfolding runs
removes_password = refl

deletes_key : (Passkeys.delete_credential test_server "u" (1 ∷ []) 1000 without_password).0 ≡ ok tt
unfolding runs
deletes_key = refl

-- The other passkey is the last method.
keeps_key :
    (Passkeys.delete_credential test_server "u" (2 ∷ []) 1000 with_one_key).0 ≡ err last_credential
unfolding runs
keeps_key = refl

has_method : HasMethod "u" with_keys.tables
unfolding runs
has_method = refl

different_keys : IsKeyed with_keys.tables
unfolding runs
different_keys = refl

Reach-HasMethod_example : HasMethod "u" with_one_key.tables × IsKeyed with_one_key.tables
Reach-HasMethod_example = Reach-HasMethod test_server webauthn "u" different_keys has_method (
    next (next here (removes "u" "secret" 1000 with_keys))
      (deletes_passkey "u" (1 ∷ []) 1000 without_password))

abbrev token : PasswordReset.Record
token = record {
  user_id = "u";
  email = "alice@example.com";
  token_hash = alice_hash;
  created_at = 900;
  expires_at = 4500;
}

abbrev with_token : Db
with_token = (Resets.issue test_server token with_account).1

abbrev alice_reset : PasswordReset.User
alice_reset = record { id = "u"; email = "alice@example.com" }

reset : (Resets.reset_password test_server alice_hash "new" 1000 with_token).0 ≡ ok alice_reset
unfolding runs
reset = refl

abbrev after_reset : Db
after_reset = (Resets.reset_password test_server alice_hash "new" 1000 with_token).1

reset_once_example :
    (Resets.reset_password test_server alice_hash "newer" 1001 after_reset).0 ≢ ok alice_reset
reset_once_example =
    reset_once test_server alice_hash alice_hash "new" "newer" 1000 1001 alice_reset alice_reset
      with_token after_reset reset Once.here refl

-- The outside counts the verifications of passwords.
abbrev test_manager : Manager Db ℕ
test_manager = record {
  store = Passwords.password_store test_server;
  credentials = some (Passwords.credential_store test_server);
  settings = record {
    passwords = record {
      hash = λ password n. (ok password, n);
      verify = λ password encoded_hash n.
          (ok (record { matches = password == encoded_hash; needs_rehash = false }), suc n);
    };
    validate_password = none;
    attempt_guard = none;
    security_events = none;
    normalize_email = normalize test_mail;
  };
  dummy_hash = "dummy";
}

abbrev world : World Db ℕ
world = record { stored = with_account; outside = 0; reads = start.reads }

abbrev right : LoginInput
right = record { email = " alice@example.com"; password = "secret"; source_key = "1" }

abbrev signed_in : LoginResult
signed_in = record { user = alice_user; password_rehashed = false }

logged_in : (login test_host test_mail test_manager right world).0 ≡ ok signed_in
unfolding runs
logged_in = refl

login-IsSignedIn_example : IsSignedIn test_host test_mail test_manager right signed_in world
login-IsSignedIn_example =
    login-IsSignedIn test_host test_mail test_manager right signed_in world logged_in

abbrev nobody : LoginInput
nobody = record { email = "nobody@example.com"; password = "secret"; source_key = "1" }

looked_up :
    (lookup test_host test_mail test_manager
      (normalized test_host test_mail test_manager "nobody@example.com")
      world).0
    ≡ ok (err not_found)
unfolding runs
looked_up = refl

login-refused_example :
    ((login test_host test_mail test_manager nobody world).0 ≡ err invalid_credentials)
    × ((login test_host test_mail test_manager nobody world).1.outside ≡ 1)
login-refused_example =
    login-refused test_host test_mail test_manager nobody (err not_found) world refl refl looked_up
      unknown
