-- ===== src/EmailVerification/Methods.antt =====
-- NewManager, Request, Verify and IsVerified of emailverification/emailverification.go.
use authlier.Common.{
  ℕ, zero, suc, String, Bool, true, false, not, ◌&&◌, ◌||◌, Option, none, some, length, ltb, ◌==◌,
  string_eq, if◌then◌else◌,
}
use authlier.Text.{is_blank}
use authlier.Clock.{Time, is_positive, add_to}
use authlier.Exec.{Result, ok, err, Fault, Exec, pure, raise, attempt, rethrow, ◌>>=◌, ◌>>◌}
use authlier.Host.{Host, Hash, read_clock}
use authlier.Service.{World, on_store, on_outside, on_host, check, notify}
use authlier.EmailAddress.{Mail, valid}
use authlier.EmailVerification.{
  Error, already_verified, conflict, inactive_token, invalid_config, invalid_record, invalid_token,
  not_found, other, User, Store, DeliveryMethod, link, otp, Keyed, Message, request_operation,
  verify_operation, Attempt, EventType, message_sent, email_verified, verify_failed, SecurityEvent,
  Settings, Manager, RequestInput, VerifyInput,
}
use authlier.EmailVerification.Codes.{Credential, generate_credential, hash_verification_input}

abbrev pub issue_attempts : ℕ
issue_attempts = 3

abbrev pub minimum_otp_secret_size : ℕ
minimum_otp_secret_size = 32

abbrev pub Act : Type 0 → Type 0 → Type 0 → Type 0
Act S O A = Exec (World S O) Error A

abbrev pub is_otp : DeliveryMethod → Bool
is_otp otp = true
is_otp link = false

abbrev absent : {A : Type 0} → Option A → Bool
absent none = true
absent (some a) = false

-- NewManager, of a store and a sender that may be nil. A delivery method that is neither empty nor one
-- of the two is refused by the source too; the type has none.
unfoldable pub new_manager :
    {S O : Type 0}
    → Option (Store S)
    → Option (Message → Exec O Fault (Unit {0}))
    → Settings O
    → Result Error (Manager S O)
new_manager none sender settings = err invalid_config
new_manager (some store) none settings = err invalid_config
new_manager (some store) (some sender) settings =
    if not (is_positive settings.lifetime)
    then err invalid_config
    else if is_otp settings.delivery && absent settings.attempt_guard
    then err invalid_config
    else if is_otp settings.delivery && ltb (length settings.otp_secret) minimum_otp_secret_size
    then err invalid_config
    else ok (record { store = store; send_verification = sender; settings = settings })

module _ {S O : Type 0} (host : Host) (mail : Mail) (keyed : Keyed) (manager : Manager S O) where
  open manager use {store, send_verification, settings}

  abbrev pub check_attempt : Attempt → Act S O (Unit {0})
  check_attempt a = check settings.attempt_guard a

  recorded : Option (SecurityEvent → O → O) → EventType → String → String → Act S O (Unit {0})
  recorded none event_type subject_id source_key = pure tt
  recorded (some sink) event_type subject_id source_key = do
    now ← on_host (read_clock host)
    notify sink (record {
      event_type = event_type;
      subject_id = subject_id;
      source_key = source_key;
      occurred_at = now;
    })

  -- record
  unfoldable pub record_event : EventType → String → String → Act S O (Unit {0})
  unfolding recorded
  record_event event_type subject_id source_key =
      recorded settings.security_events event_type subject_id source_key

  -- validUser(user, expected) == nil
  unfoldable pub valid_user : User → String → Bool
  valid_user user expected =
      not (is_blank user.id) && user.email == expected && valid mail user.email

  abbrev known : Option String → String
  known none = ""
  known (some address) = if not (valid mail address) then "" else address

  -- The address of an input, or the empty text.
  unfoldable pub normalized : String → String
  normalized raw_email = known (settings.normalize_email raw_email)

  -- After a call of the store's Issue: the message, another attempt, an account that is verified
  -- already, or the error.
  unfoldable pub after_issue :
      Act S O (Unit {0})
      → User
      → Credential
      → Time
      → String
      → Result Error (Unit {0})
      → Act S O (Unit {0})
  unfolding record_event
  after_issue rest user credential expires_at source_key (ok _) = do
    on_outside (
        rethrow other (
          send_verification (record {
            user_id = user.id;
            email = user.email;
            token = credential.token;
            code = credential.code;
            expires_at = expires_at;
          })))
    record_event message_sent user.id source_key
  after_issue rest user credential expires_at source_key (err conflict) = rest
  after_issue rest user credential expires_at source_key (err already_verified) = pure tt
  after_issue rest user credential expires_at source_key (err e) = raise e

  unfoldable pub issue_loop : ℕ → String → User → String → Act S O (Unit {0})
  unfolding after_issue
  issue_loop zero address user source_key = raise conflict
  issue_loop (suc n) address user source_key =
      let rest = issue_loop n address user source_key in
      do
        (credential, token_hash) ← on_host (
            rethrow other
              (generate_credential host keyed settings.delivery settings.otp_secret address))
        now ← on_host (read_clock host)
        let expires_at = add_to now settings.lifetime
        stored ← attempt (
            on_store (
              store.issue (record {
                user_id = user.id;
                email = user.email;
                token_hash = token_hash;
                created_at = now;
                expires_at = expires_at;
              })))
        after_issue rest user credential expires_at source_key stored

  -- Request, by what FindUserByEmail answered
  unfoldable pub request_found : String → String → Result Error User → Act S O (Unit {0})
  unfolding issue_loop valid_user
  request_found address source_key (ok user) =
      if not (valid_user user address)
      then raise invalid_record
      else if user.verified
      then pure tt
      else issue_loop issue_attempts address user source_key
  request_found address source_key (err not_found) = pure tt
  request_found address source_key (err e) = raise e

  -- Request
  unfoldable pub request : RequestInput → Act S O (Unit {0})
  unfolding request_found normalized
  request input =
      let address = normalized input.email in
      do
        check_attempt (record {
          operation = request_operation;
          email = address;
          source_key = input.source_key;
        })
        if address == "" then pure tt else (do
          found ← attempt (on_store (store.find_user_by_email address))
          request_found address input.source_key found)

  -- Verify, by what the store's Verify answered
  unfoldable pub verify_result : String → Result Error User → Act S O User
  unfolding record_event
  verify_result source_key (ok user) =
      if is_blank user.id || not (valid mail user.email) || not user.verified
      then raise invalid_record
      else (do record_event email_verified user.id source_key; pure user)
  verify_result source_key (err not_found) = do
    record_event verify_failed "" source_key
    raise invalid_token
  verify_result source_key (err inactive_token) = do
    record_event verify_failed "" source_key
    raise invalid_token
  verify_result source_key (err e) = raise e

  -- Verify, by what hashVerificationInput answered
  unfoldable pub verify_hash : String → Result Error Hash → Act S O User
  unfolding verify_result
  verify_hash source_key (err _) = do record_event verify_failed "" source_key; raise invalid_token
  verify_hash source_key (ok token_hash) = do
    now ← on_host (read_clock host)
    answer ← attempt (on_store (store.verify token_hash now))
    verify_result source_key answer

  -- The address of a verification: looked at for a code only.
  unfoldable pub verify_address : VerifyInput → String
  unfolding normalized
  verify_address input = if is_otp settings.delivery then normalized input.email else ""

  -- Verify
  unfoldable pub verify : VerifyInput → Act S O User
  unfolding verify_address verify_hash
  verify input =
      let address = verify_address input in
      do
        check_attempt (record {
          operation = verify_operation;
          email = address;
          source_key = input.source_key;
        })
        verify_hash input.source_key
            (hash_verification_input host keyed settings.delivery settings.otp_secret input address)

  -- IsVerified, by what FindUserByEmail answered
  unfoldable pub verified_status : String → Result Error User → Act S O Bool
  unfolding valid_user
  verified_status address (ok user) =
      if not (valid_user user address) then raise invalid_record else pure user.verified
  verified_status address (err not_found) = pure false
  verified_status address (err e) = raise e

  status_of : Option String → Act S O Bool
  unfolding verified_status
  status_of none = pure false
  status_of (some address) = if not (valid mail address) then pure false else (do
    found ← attempt (on_store (store.find_user_by_email address))
    verified_status address found)

  -- IsVerified
  unfoldable pub is_verified : String → Act S O Bool
  unfolding status_of
  is_verified email = status_of (settings.normalize_email email)
