-- ===== src/EmailPassword/Login.antt =====
-- Login of emailpassword/emailpassword.go.
use authlier.Common.{
  String, Bool, true, false, not, ◌||◌, Option, none, some, ◌==◌, string_eq, if◌then◌else◌,
}
use authlier.Exec.{Result, ok, err, Fault, pure, raise, attempt, ◌>>=◌, ◌>>◌}
use authlier.Host.{Host}
use authlier.Service.{on_store}
use authlier.EmailAddress.{Mail}
use authlier.EmailPassword.{
  Error, invalid_credentials, invalid_record, not_found, User, PasswordCredential, Verification,
  login_operation, login_failed, login_succeeded, password_rehashed, Manager, LoginInput,
  LoginResult, valid_user, valid_credential,
}
use authlier.EmailPassword.Methods.{
  check_attempt, record_event, refuse, hash_password, read_now, normalized, settled,
  verify_password, Act, is_not_found,
}

abbrev pub is_address : String → Option String → Bool
is_address email none = false
is_address email (some address) = email == address

module _ {S O : Type 0} (host : Host) (mail : Mail) (manager : Manager S O) where
  open manager use {store, settings}

  -- Login, once the password is known to match
  unfoldable pub signed_in : User → Bool → String → Act S O LoginResult
  unfolding record_event
  signed_in user rehashed source_key = do
    record_event host mail manager login_succeeded user.id source_key
    pure (record { user = user; password_rehashed = rehashed })

  -- Login, with a hash that is due for a new one
  unfoldable pub rehash : User → PasswordCredential → LoginInput → Act S O LoginResult
  unfolding settled record_event signed_in
  rehash user credential input = do
    replacement_hash ← hash_password host mail manager input.password
    now ← read_now host mail manager
    settled host mail manager login_failed user.id input.source_key (
        on_store
          (store.replace_password_hash user.id credential.password_hash replacement_hash now))
    record_event host mail manager password_rehashed user.id input.source_key
    signed_in user true input.source_key

  -- Login, by what the password's Verify answered, for an identity or none
  unfoldable pub login_verified :
      Option (User × PasswordCredential)
      → LoginInput
      → Result Fault Verification
      → Act S O LoginResult
  unfolding refuse rehash signed_in
  login_verified none input (err f) = raise invalid_credentials
  login_verified none input (ok v) = refuse host mail manager login_failed "" input.source_key
  login_verified (some (user, credential)) input (err f) =
      refuse host mail manager login_failed user.id input.source_key
  login_verified (some (user, credential)) input (ok v) =
      if not v.matches
      then refuse host mail manager login_failed user.id input.source_key
      else if v.needs_rehash
      then rehash user credential input
      else signed_in user false input.source_key

  -- Login, by what the lookup of the address answered
  unfoldable pub login_found :
      Option String → LoginInput → Result Error (User × PasswordCredential) → Act S O LoginResult
  unfolding login_verified
  login_found address input (ok (user, credential)) =
      if not (valid_user user)
        || not (is_address user.email address)
        || not (valid_credential user credential)
      then raise invalid_record
      else (do
        verification ← verify_password host mail manager input.password credential.password_hash
        login_verified (some (user, credential)) input verification)
  login_found address input (err e) = if not (is_not_found e) then raise e else (do
    verification ← verify_password host mail manager input.password manager.dummy_hash
    login_verified none input verification)

  abbrev pub lookup : Option String → Act S O (Result Error (User × PasswordCredential))
  lookup none = pure (err not_found)
  lookup (some address) = attempt (on_store (store.find_by_email address))

  abbrev pub text_of : Option String → String
  text_of none = ""
  text_of (some address) = address

  -- Login
  unfoldable pub login : LoginInput → Act S O LoginResult
  unfolding login_found normalized
  login input =
      let address = normalized host mail manager input.email in
      do
        check_attempt host mail manager (record {
          operation = login_operation;
          email = text_of address;
          subject_id = "";
          source_key = input.source_key;
        })
        found ← lookup address
        login_found address input found
