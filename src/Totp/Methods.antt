-- ===== src/Totp/Methods.antt =====
-- The methods of the manager of totp/totp.go.
use authlier.Common.{
  ℕ, zero, suc, String, Bool, true, false, not, ◌||◌, Option, none, some, List, Bytes, leb, ◌==◌,
  string_eq, if◌then◌else◌,
}
use authlier.Text.{trim_space}
use authlier.Clock.{Time, before, is_positive, add_to}
use authlier.Exec.{Result, ok, err, Exec, pure, raise, lift, attempt, rethrow, map_err, ◌>>=◌, ◌>>◌}
use authlier.Host.{Host, Hash, read_clock}
use authlier.Token
use authlier.Service.{World, on_store, on_host, check, notify}
use authlier.Totp.{
  Error, conflict, inactive_challenge, inactive_enrollment, invalid_challenge, invalid_code,
  invalid_config, invalid_input, invalid_record, not_found, spinning, other, Enrollment, Credential,
  Challenge, Store, Operation, confirm_operation, verify_operation, recovery_operation, Attempt,
  EventType, enabled_event, disabled_event, failed_event, verified_event, recovery_used_event,
  SecurityEvent, Otp, Settings, Manager, EnrollmentStarted, ChallengeStarted, VerifyInput,
  Authentication, valid_enrollment, valid_challenge, valid_credential,
}
use authlier.Totp.Codes.{match_counter, hash_recovery_code, generate_recovery_codes}

abbrev pub challenge_attempts : ℕ
challenge_attempts = 3

abbrev pub Act : Type 0 → Type 0 → Type 0 → Type 0
Act S O A = Exec (World S O) Error A

-- NewManager, of a store that may be nil, the settings as configured, and the optional parts.
unfoldable pub new_manager :
    {S O : Type 0}
    → Option (Store S)
    → Settings
    → Option (Attempt → Exec O Error (Unit {0}))
    → Option (SecurityEvent → O → O)
    → Result Error (Manager S O)
new_manager none settings attempt_guard security_events = err invalid_config
new_manager (some store) settings attempt_guard security_events =
    let issuer = trim_space settings.issuer in
    if issuer == ""
    then err invalid_config
    else if not (is_positive settings.enrollment_lifetime)
        || not (is_positive settings.challenge_lifetime)
    then err invalid_config
    else if leb settings.recovery_code_count 0
    then err invalid_config
    else ok (record {
      store = store;
      settings = record settings { issuer = issuer };
      attempt_guard = attempt_guard;
      security_events = security_events;
    })

-- errors.Is(err, ErrNotFound) || errors.Is(err, ErrInactiveEnrollment)
abbrev pub is_no_enrollment : Error → Bool
is_no_enrollment not_found = true
is_no_enrollment inactive_enrollment = true
is_no_enrollment _ = false

-- errors.Is(err, ErrNotFound) || errors.Is(err, ErrInactiveChallenge)
abbrev pub is_no_challenge : Error → Bool
is_no_challenge not_found = true
is_no_challenge inactive_challenge = true
is_no_challenge _ = false

abbrev pub is_conflict : Error → Bool
is_conflict conflict = true
is_conflict _ = false

abbrev pub is_invalid_code : Error → Bool
is_invalid_code invalid_code = true
is_invalid_code _ = false

-- completionError
abbrev pub completion_error : Error → Error
completion_error e = if is_no_challenge e then invalid_challenge else e

-- credential.HasLastUsedCounter && counter <= credential.LastUsedCounter
abbrev pub is_replayed : Option ℕ → ℕ → Bool
is_replayed none counter = false
is_replayed (some used) counter = leb counter used

-- A challenge that was found, with its credential and its hash.
pub record Found : Type 0 where
  pub challenge : Challenge
  pub credential : Credential
  pub challenge_hash : Hash

module _ {S O : Type 0} (host : Host) (otp : Otp) (fuel : ℕ) (manager : Manager S O) where
  open manager use {store, settings}

  abbrev pub read_now : Act S O Time
  read_now = on_host (read_clock host)

  -- checkAttempt
  abbrev pub check_attempt : Operation → String → String → Act S O (Unit {0})
  check_attempt operation subject_id source_key =
      check manager.attempt_guard
        (record { operation = operation; subject_id = subject_id; source_key = source_key })

  recorded : Option (SecurityEvent → O → O) → EventType → String → String → Act S O (Unit {0})
  recorded none event_type subject_id source_key = pure tt
  recorded (some sink) event_type subject_id source_key = do
    now ← read_now
    notify sink (record {
      event_type = event_type;
      subject_id = subject_id;
      source_key = source_key;
      occurred_at = now;
    })

  -- record
  unfoldable pub record_event : EventType → String → String → Act S O (Unit {0})
  unfolding recorded
  record_event event_type subject_id source_key =
      recorded manager.security_events event_type subject_id source_key

  -- `manager.record(…, EventFailed, …); return ErrInvalidCode`
  unfoldable pub refuse : {A : Type 0} → String → String → Act S O A
  unfolding record_event
  refuse subject_id source_key = do
    record_event failed_event subject_id source_key
    raise invalid_code

  -- BeginEnrollment, of a trimmed subject and account
  unfoldable pub enroll : String → String → Act S O EnrollmentStarted
  enroll subject_id account_name = do
    key ← on_host (rethrow other (otp.generate settings.issuer account_name))
    now ← read_now
    let expires_at = add_to now settings.enrollment_lifetime
    on_store (
        store.begin_enrollment (record {
          subject_id = subject_id;
          secret = key.secret;
          created_at = now;
          expires_at = expires_at;
        }))
    pure (record { secret = key.secret; uri = key.url; expires_at = expires_at })

  -- BeginEnrollment
  unfoldable pub begin_enrollment : String → String → Act S O EnrollmentStarted
  unfolding enroll
  begin_enrollment raw_subject raw_account =
      let subject_id = trim_space raw_subject in
      let account_name = trim_space raw_account in
      if subject_id == "" || account_name == ""
      then raise invalid_input
      else enroll subject_id account_name

  -- IsEnabled
  unfoldable pub is_enabled : String → Act S O Bool
  is_enabled raw_subject =
      let subject_id = trim_space raw_subject in
      if subject_id == "" then raise invalid_input else on_store (store.is_enabled subject_id)

  -- ConfirmEnrollment, after a code matched
  abbrev enable_error : Error → Error
  enable_error e = if is_no_enrollment e then invalid_code else e

  unfoldable pub enable_with :
      String → String → ℕ → Time → Option (List Bytes × List Hash) → Act S O (List Bytes)
  unfolding record_event
  enable_with subject_id source_key counter now none = raise spinning
  enable_with subject_id source_key counter now (some (codes, hashes)) = do
    rethrow enable_error (on_store (store.enable subject_id counter hashes now))
    record_event enabled_event subject_id source_key
    pure codes

  -- ConfirmEnrollment, by what matchCounter answered
  unfoldable pub confirm_matched : String → String → Time → Option (Option ℕ) → Act S O (List Bytes)
  unfolding enable_with refuse
  confirm_matched subject_id source_key now none = raise invalid_record
  confirm_matched subject_id source_key now (some none) = refuse subject_id source_key
  confirm_matched subject_id source_key now (some (some counter)) = do
    generated ←
        on_host (rethrow other (generate_recovery_codes host fuel settings.recovery_code_count))
    enable_with subject_id source_key counter now generated

  -- ConfirmEnrollment, by what FindEnrollment answered
  unfoldable pub confirm_found :
      String → Bytes → String → Result Error Enrollment → Act S O (List Bytes)
  unfolding confirm_matched refuse
  confirm_found subject_id code source_key (err e) =
      if is_no_enrollment e then refuse subject_id source_key else raise e
  confirm_found subject_id code source_key (ok enrollment) = do
    now ← read_now
    if not (valid_enrollment enrollment subject_id)
        then raise invalid_record
        else if not (before now enrollment.expires_at)
        then refuse subject_id source_key
        else confirm_matched subject_id source_key now
            (match_counter otp enrollment.secret code now)

  -- ConfirmEnrollment
  unfoldable pub confirm_enrollment : String → Bytes → String → Act S O (List Bytes)
  unfolding confirm_found
  confirm_enrollment raw_subject code source_key =
      let subject_id = trim_space raw_subject in
      if subject_id == "" then raise invalid_input else do
        check_attempt confirm_operation subject_id source_key
        found ← attempt (on_store (store.find_enrollment subject_id))
        confirm_found subject_id code source_key found

  -- After CreateChallenge: the challenge, another attempt, or the error.
  unfoldable pub after_challenge :
      Act S O ChallengeStarted
      → ChallengeStarted
      → Result Error (Unit {0})
      → Act S O ChallengeStarted
  after_challenge rest started (ok _) = pure started
  after_challenge rest started (err e) = if is_conflict e then rest else raise e

  unfoldable pub challenge_loop : ℕ → String → Act S O ChallengeStarted
  unfolding after_challenge
  challenge_loop zero subject_id = raise conflict
  challenge_loop (suc n) subject_id =
      let rest = challenge_loop n subject_id in
      do
        (raw_token, token_hash) ← on_host (rethrow other (Token.generate host))
        now ← read_now
        let expires_at = add_to now settings.challenge_lifetime
        stored ← attempt (
            on_store (
              store.create_challenge (record {
                subject_id = subject_id;
                token_hash = token_hash;
                created_at = now;
                expires_at = expires_at;
              })))
        after_challenge rest (record { token = raw_token; expires_at = expires_at }) stored

  -- BeginChallenge
  unfoldable pub begin_challenge : String → Act S O ChallengeStarted
  unfolding challenge_loop
  begin_challenge raw_subject =
      let subject_id = trim_space raw_subject in
      if subject_id == "" then raise invalid_input else challenge_loop challenge_attempts subject_id

  -- findChallenge, from the hash on
  unfoldable pub find_by_hash : Hash → Act S O Found
  find_by_hash challenge_hash = do
    (challenge, credential) ←
        rethrow completion_error (on_store (store.find_challenge challenge_hash))
    now ← read_now
    if not (valid_challenge challenge challenge_hash)
          || not (valid_credential credential challenge.subject_id)
        then raise invalid_record
        else if not (before now challenge.expires_at)
        then raise invalid_challenge
        else pure (record {
          challenge = challenge;
          credential = credential;
          challenge_hash = challenge_hash;
        })

  -- findChallenge
  unfoldable pub find_challenge : Bytes → Act S O Found
  unfolding find_by_hash
  find_challenge raw_token = do
    challenge_hash ← lift (map_err (λ _. invalid_challenge) (Token.hash_token host raw_token))
    find_by_hash challenge_hash

  -- After CompleteCode or CompleteRecovery: the subject, if it is that of the challenge.
  unfoldable pub completed :
      String → String → EventType → Bool → Result Error String → Act S O Authentication
  unfolding record_event
  completed expected source_key event_type used_recovery_code (err e) =
      let failure = completion_error e in
      if is_invalid_code failure
      then (do record_event failed_event expected source_key; raise failure)
      else raise failure
  completed expected source_key event_type used_recovery_code (ok subject_id) =
      if not (subject_id == expected) then raise invalid_record else (do
        record_event event_type subject_id source_key
        pure (record { subject_id = subject_id; used_recovery_code = used_recovery_code }))

  -- Verify, by what matchCounter answered
  unfoldable pub verify_matched : Found → String → Time → Option (Option ℕ) → Act S O Authentication
  unfolding completed refuse
  verify_matched found source_key now none = raise invalid_record
  verify_matched found source_key now (some none) = refuse found.challenge.subject_id source_key
  verify_matched found source_key now (some (some counter)) =
      if is_replayed found.credential.last_used_counter counter
      then refuse found.challenge.subject_id source_key
      else (do
        answer ← attempt (on_store (store.complete_code found.challenge_hash counter now))
        completed found.challenge.subject_id source_key verified_event false answer)

  -- Verify
  unfoldable pub verify : VerifyInput → Act S O Authentication
  unfolding find_challenge verify_matched
  verify input = do
    found ← find_challenge input.challenge_token
    check_attempt verify_operation found.challenge.subject_id input.source_key
    now ← read_now
    verify_matched found input.source_key now
        (match_counter otp found.credential.secret input.code now)

  -- Recover, by what HashRecoveryCode answered
  unfoldable pub recover_hashed : Found → String → Result Error Hash → Act S O Authentication
  unfolding completed refuse
  recover_hashed found source_key (err _) = refuse found.challenge.subject_id source_key
  recover_hashed found source_key (ok recovery_hash) = do
    now ← read_now
    answer ← attempt (on_store (store.complete_recovery found.challenge_hash recovery_hash now))
    completed found.challenge.subject_id source_key recovery_used_event true answer

  -- Recover
  unfoldable pub recover : VerifyInput → Act S O Authentication
  unfolding find_challenge recover_hashed
  recover input = do
    found ← find_challenge input.challenge_token
    check_attempt recovery_operation found.challenge.subject_id input.source_key
    recover_hashed found input.source_key (hash_recovery_code host input.code)

  -- Disable
  unfoldable pub disable : String → String → Act S O (Unit {0})
  unfolding record_event
  disable raw_subject source_key =
      let subject_id = trim_space raw_subject in
      if subject_id == "" then raise invalid_input else (do
        now ← read_now
        on_store (store.disable subject_id now)
        record_event disabled_event subject_id source_key)
