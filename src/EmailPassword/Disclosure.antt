-- ===== src/EmailPassword/Disclosure.antt =====
-- What a refused sign-in keeps to itself.
use authlier.Common.{◌≡◌, refl, true, Option, none, some, String}
use authlier.Exec.{Result, ok, err, Fault, ok-injective, ◌>>=◌}
use authlier.Host.{Host}
use authlier.Service.{World}
use authlier.EmailAddress.{Mail}
use authlier.EmailPassword.{
  Error, invalid_credentials, not_found, User, PasswordCredential, Verification, EventType,
  login_failed, login_operation, Attempt, Manager, LoginInput,
}
use authlier.EmailPassword.Methods.{
  Act, check_attempt, record_event, refuse, normalized, is_rejected,
}
use authlier.EmailPassword.Login.{login_verified, login_found, lookup, text_of, login}
use authlier.EmailPassword.Soundness.{IsAccount}

module _ {S O : Type 0} (host : Host) (mail : Mail) (manager : Manager S O) where
  -- The hash that a password is compared with: that of the account, or the dummy's.
  abbrev pub checked_hash : Result Error (User × PasswordCredential) → String
  checked_hash (ok (user, credential)) = credential.password_hash
  checked_hash (err e) = manager.dummy_hash

  -- Why a sign-in is refused, by what the store answered: there is no such account, or the password
  -- hash does not accept the password.
  pub data IsRefused (address : Option String) (password : String) (o : O)
      : Result Error (User × PasswordCredential) → Type 0 where
    unknown : IsRefused address password o (err not_found)
    wrong :
        (user : User) (credential : PasswordCredential)
        → IsAccount host mail manager address user credential
        → is_rejected host mail manager
            (manager.settings.passwords.verify password credential.password_hash o).0
          ≡ true
        → IsRefused address password o (ok (user, credential))

  silent_refuse :
      {A : Type 0} (event_type : EventType) (subject_id source_key : String) (w : World S O)
      → manager.settings.security_events ≡ none
      → (let answer : Act S O A = refuse host mail manager event_type subject_id source_key in
          answer w ≡ (err invalid_credentials, w))
  unfolding refuse record_event
  silent_refuse event_type subject_id source_key w silent = rw silent refl

  verified-refused :
      (identity : Option (User × PasswordCredential)) (input : LoginInput)
      (answer : Result Fault Verification) (w : World S O)
      → manager.settings.security_events ≡ none
      → is_rejected host mail manager answer ≡ true
      → login_verified host mail manager identity input answer w ≡ (err invalid_credentials, w)
  unfolding login_verified
  verified-refused none input (err f) w silent bad = refl
  verified-refused none input (ok v) w silent bad =
      silent_refuse login_failed "" input.source_key w silent
  verified-refused (some (user, credential)) input (err f) w silent bad =
      silent_refuse login_failed user.id input.source_key w silent
  verified-refused (some (user, credential)) input (ok v) w silent bad =
      rw bad (silent_refuse login_failed user.id input.source_key w silent)

  unknown-refused :
      (input : LoginInput) (answer : Result Fault Verification) (w : World S O)
      → manager.settings.security_events ≡ none
      → login_verified host mail manager none input answer w ≡ (err invalid_credentials, w)
  unfolding login_verified
  unknown-refused input (err f) w silent = refl
  unknown-refused input (ok v) w silent = silent_refuse login_failed "" input.source_key w silent

  found-refused :
      (address : Option String) (input : LoginInput)
      (answer : Result Error (User × PasswordCredential)) (w : World S O)
      → manager.settings.security_events ≡ none
      → IsRefused address input.password w.outside answer
      → login_found host mail manager address input answer w ≡ (
        err invalid_credentials,
        record w {
          outside =
              (manager.settings.passwords.verify input.password (checked_hash answer) w.outside).1;
        },
      )
  unfolding login_found
  found-refused address input answer w silent unknown = unknown-refused input _ _ silent
  found-refused address input answer w silent (wrong user credential account bad) =
      rw (account.named, account.same_address, account.owned)
        (verified-refused (some (user, credential)) input _ _ silent bad)

  check-open :
      (a : Attempt) (w : World S O)
      → manager.settings.attempt_guard ≡ none
      → check_attempt host mail manager a w ≡ (ok tt, w)
  check-open a w open_guard = rw open_guard refl

  lookup-refused :
      (address : Option String) (input : LoginInput)
      (answer : Result Error (User × PasswordCredential)) (w : World S O)
      → manager.settings.security_events ≡ none
      → (lookup host mail manager address w).0 ≡ ok answer
      → IsRefused address input.password w.outside answer
      → let r =
          (lookup host mail manager address >>= λ found.
          login_found host mail manager address input found)
            w in
        (r.0 ≡ err invalid_credentials)
        × (r.1.outside
            ≡ (manager.settings.passwords.verify input.password (checked_hash answer) w.outside).1)
  lookup-refused none input answer w silent looked refused =
      let same = ok-injective looked in
      rw (found-refused none input (err not_found) w silent (rw (← same) at refused))
        (refl, rw (← same) refl)
  lookup-refused (some text) input answer w silent looked refused =
      let same = ok-injective looked in
      let (found, s) = manager.store.find_by_email text w.stored in
      rw
        (found-refused (some text) input found (record w { stored = s }) silent
          (rw (← same) at refused))
        (refl, rw (← same) refl)

  -- Where no attempt guard and no event sink are configured: a sign-in with an unknown address and one
  -- with a wrong password both answer ErrInvalidCredentials, and both have run one verification of the
  -- password, with the dummy hash in the one case and the account's in the other.
  pub login-refused :
      (input : LoginInput) (answer : Result Error (User × PasswordCredential)) (w : World S O)
      → manager.settings.attempt_guard ≡ none
      → manager.settings.security_events ≡ none
      → let address = normalized host mail manager input.email in
        (lookup host mail manager address w).0 ≡ ok answer
        → IsRefused address input.password w.outside answer
        → ((login host mail manager input w).0 ≡ err invalid_credentials)
          × ((login host mail manager input w).1.outside
              ≡ (manager.settings.passwords.verify input.password
                  (checked_hash answer)
                  w.outside).1)
  unfolding login
  login-refused input answer w open_guard silent looked refused =
      let address = normalized host mail manager input.email in
      let attempted : Attempt = record {
        operation = login_operation;
        email = text_of host mail manager address;
        subject_id = "";
        source_key = input.source_key;
      } in
      rw (check-open attempted w open_guard)
        (lookup-refused address input answer w silent looked refused)
