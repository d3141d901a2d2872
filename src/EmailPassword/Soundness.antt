-- ===== src/EmailPassword/Soundness.antt =====
-- What a sign-in with an email address and a password stands on, over any store and password hash.
use authlier.Common.{
  ◌≡◌, ◌≢◌, refl, Bool, true, false, not, ◌||◌, Option, none, some, String, arith, string_eq,
  Bool-cases, Option-cases, inl, inr,
}
use authlier.Exec.{Result, ok, err, Fault, bind-ok, Answers, bind-Answers, ◌>>=◌}
use authlier.Host.{Host}
use authlier.Service.{World, on_store}
use authlier.EmailAddress.{Mail}
use authlier.EmailPassword.{
  Error, not_found, User, PasswordCredential, Verification, EventType, Attempt, login_operation,
  login_failed, login_succeeded, password_rehashed, Manager, LoginInput, LoginResult, valid_user,
  valid_credential,
}
use authlier.EmailPassword.Methods.{
  check_attempt, record_event, refuse, normalized, settled, hash_password, read_now, is_not_found,
}
use authlier.EmailPassword.Login.{
  signed_in, rehash, login_verified, is_address, login_found, lookup, text_of, login,
}

module _ {S O : Type 0} (host : Host) (mail : Mail) (manager : Manager S O) where
  record_event-kept :
      (event_type : EventType) (subject_id source_key : String) (w : World S O)
      → ((record_event host mail manager event_type subject_id source_key w).0 ≡ ok tt)
        × ((record_event host mail manager event_type subject_id source_key w).1.stored ≡ w.stored)
  unfolding record_event
  record_event-kept event_type subject_id source_key w =
      elim (Option-cases manager.settings.security_events) [
        | inl e ↦ rw e (refl, refl)
        | inr (sink, e) ↦ rw e (refl, refl)
      ]

  refuse-failed :
      {A : Type 0} (event_type : EventType) (subject_id source_key : String) (a : A) (w : World S O)
      → (refuse host mail manager event_type subject_id source_key w).0 ≢ ok a
  unfolding refuse
  refuse-failed event_type subject_id source_key a w e =
      let (recorded, _) = record_event-kept event_type subject_id source_key w in
      absurd (ground (arith, recorded))

  signed_in-Answers :
      (user : User) (rehashed : Bool) (source_key : String)
      → Answers
          (λ (r : LoginResult). r.user ≡ user)
          (signed_in host mail manager user rehashed source_key)
  unfolding signed_in
  signed_in-Answers user rehashed source_key =
      bind-Answers (record_event host mail manager login_succeeded user.id source_key) _
        (λ _. record { holds = λ w a e. ground arith })

  rehash-Answers :
      (user : User) (credential : PasswordCredential) (input : LoginInput)
      → Answers
          (λ (r : LoginResult). r.user ≡ user)
          (rehash host mail manager user credential input)
  unfolding rehash
  rehash-Answers user credential input =
      let source_key = input.source_key in
      bind-Answers (hash_password host mail manager input.password) _ (λ hash.
        bind-Answers (read_now host mail manager) _ (λ now.
          bind-Answers
            (settled host mail manager login_failed user.id source_key (
              on_store
                (manager.store.replace_password_hash user.id credential.password_hash hash now)))
            _
            (λ _.
              bind-Answers (record_event host mail manager password_rehashed user.id source_key) _
                (λ _. signed_in-Answers user true source_key))))

  -- A valid account with this address, and its password hash.
  pub record IsAccount (address : Option String) (user : User) (credential : PasswordCredential)
      : Type 0 where
    pub named : valid_user user ≡ true
    pub same_address : is_address user.email address ≡ true
    pub owned : valid_credential user credential ≡ true

  -- The password hash has accepted this password.
  pub record IsChecked (password encoded_hash : String) (o : O) : Type 0 where
    pub verification : Verification
    pub answered : (manager.settings.passwords.verify password encoded_hash o).0 ≡ ok verification
    pub matched : verification.matches ≡ true

  login_verified-ok :
      (user : User) (credential : PasswordCredential) (input : LoginInput)
      (answer : Result Fault Verification) (result : LoginResult) (w : World S O)
      → (login_verified host mail manager (some (user, credential)) input answer w).0 ≡ ok result
      → (v : Verification) × (answer ≡ ok v) × (v.matches ≡ true) × (result.user ≡ user)
  unfolding login_verified
  login_verified-ok user credential input (err f) result w e =
      absurd (refuse-failed login_failed user.id input.source_key result w e)
  login_verified-ok user credential input (ok v) result w e = elim (Bool-cases v.matches) [
    | inl matched ↦ elim (Bool-cases v.needs_rehash) [
      | inl due ↦ (
        v,
        refl,
        matched,
        (rehash-Answers user credential input).holds w result (rw (matched, due) at e),
      )
      | inr fresh ↦ (
        v,
        refl,
        matched,
        (signed_in-Answers user false input.source_key).holds w result (rw (matched, fresh) at e),
      )
    ]
    | inr wrong ↦
        absurd (refuse-failed login_failed user.id input.source_key result w (rw wrong at e))
  ]

  -- What a sign-in has found.
  pub record IsSignedIn (input : LoginInput) (result : LoginResult) (w : World S O) : Type 0 where
    pub address : String
    pub credential : PasswordCredential
    pub normal : normalized host mail manager input.email ≡ some address
    pub stored : (manager.store.find_by_email address w.stored).0 ≡ ok (result.user, credential)
    pub account : IsAccount (some address) result.user credential
    pub outside : O
    pub checked : IsChecked input.password credential.password_hash outside

  unknown-failed :
      (input : LoginInput) (answer : Result Fault Verification) (result : LoginResult)
      (w : World S O)
      → (login_verified host mail manager none input answer w).0 ≢ ok result
  unfolding login_verified
  unknown-failed input (err f) result w e = absurd (ground arith)
  unknown-failed input (ok v) result w e = refuse-failed login_failed "" input.source_key result w e

  login_found-ok :
      (address : Option String) (input : LoginInput)
      (answer : Result Error (User × PasswordCredential)) (result : LoginResult) (w : World S O)
      → (login_found host mail manager address input answer w).0 ≡ ok result
      → (credential : PasswordCredential) × (answer ≡ ok (result.user, credential))
        × IsAccount address result.user credential
        × IsChecked input.password credential.password_hash w.outside
  unfolding login_found
  login_found-ok address input (ok (user, credential)) result w e =
      elim (Bool-cases (
        not (valid_user user)
        || not (is_address user.email address)
        || not (valid_credential user credential))) [
          | inl bad ↦ absurd (ground arith)
          | inr good ↦
              let (answer, o) =
                manager.settings.passwords.verify input.password credential.password_hash
                  w.outside in
              let (v, answered, matched, same) =
                login_verified-ok user credential input answer result (record w { outside = o })
                  (rw good at e) in
              (
                credential,
                rw same refl,
                rw same (record {
                  named = ground arith;
                  same_address = ground arith;
                  owned = ground arith;
                }),
                record { verification = v; answered = answered; matched = matched },
              )
        ]
  login_found-ok address input (err x) result w e = elim (Bool-cases (is_not_found x)) [
    | inl unknown ↦
        let (answer, o) =
          manager.settings.passwords.verify input.password manager.dummy_hash w.outside in
        absurd (unknown-failed input answer result (record w { outside = o }) (rw unknown at e))
    | inr broken ↦ absurd (ground arith)
  ]

  lookup-ok :
      (address : Option String) (input : LoginInput) (result : LoginResult) (w : World S O)
      → ((lookup host mail manager address >>= λ found.
            login_found host mail manager address input found)
          w).0
        ≡ ok result
      → (text : String) × (credential : PasswordCredential) × (address ≡ some text)
        × ((manager.store.find_by_email text w.stored).0 ≡ ok (result.user, credential))
        × IsAccount (some text) result.user credential
        × IsChecked input.password credential.password_hash w.outside
  lookup-ok none input result w e =
      let (credential, missing, _, _) = login_found-ok none input (err not_found) result w e in
      absurd cc
  lookup-ok (some text) input result w e =
      let (answer, s) = manager.store.find_by_email text w.stored in
      let (credential, found, account, checked) =
        login_found-ok (some text) input answer result (record w { stored = s }) e in
      (text, credential, refl, found, account, checked)

  check_attempt-kept :
      (a : Attempt) (w : World S O) → (check_attempt host mail manager a w).1.stored ≡ w.stored
  check_attempt-kept a w = elim (Option-cases manager.settings.attempt_guard) [
    | inl e ↦ rw e refl
    | inr (guard, e) ↦ rw e refl
  ]

  -- Over any store and any password hash, whatever they answer: when a sign-in succeeds, the store
  -- returned the user under the normalized address with a valid credential, and the password hash
  -- accepted the password for the stored hash.
  pub login-IsSignedIn :
      (input : LoginInput) (result : LoginResult) (w : World S O)
      → (login host mail manager input w).0 ≡ ok result
      → IsSignedIn input result w
  unfolding login
  login-IsSignedIn input result w e =
      let address = normalized host mail manager input.email in
      let attempted : Attempt = record {
        operation = login_operation;
        email = text_of host mail manager address;
        subject_id = "";
        source_key = input.source_key;
      } in
      let checking = check_attempt host mail manager attempted in
      let (_, _, rest, _) = bind-ok checking _ w e in
      let kept = check_attempt-kept attempted w in
      let (text, credential, normal, stored, account, checked) =
        lookup-ok address input result (checking w).1 rest in
      record {
        address = text;
        credential = credential;
        normal = normal;
        stored = rw kept at stored;
        account = account;
        outside = (checking w).1.outside;
        checked = checked;
      }
