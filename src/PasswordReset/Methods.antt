-- ===== src/PasswordReset/Methods.antt =====
-- `Request` and `Reset` of passwordreset/passwordreset.go.
use authlier.Common.{
  ℕ, zero, suc, String, Bool, true, false, not, ◌||◌, Option, none, some, Bytes, ◌==◌, string_eq,
  if◌then◌else◌,
}
use authlier.Text.{is_blank}
use authlier.Clock.{is_positive, add_to}
use authlier.Exec.{Result, ok, err, Fault, Exec, pure, raise, attempt, rethrow, ◌>>=◌, ◌>>◌}
use authlier.Host.{Host, Hash, read_clock}
use authlier.Token
use authlier.Service.{on_store, on_outside, on_host, check, notify}
use authlier.EmailAddress.{Mail, valid}
use authlier.PasswordReset.{
  Error, conflict, inactive_token, invalid_config, invalid_password, invalid_record, invalid_token,
  not_found, other, User, Record, Store, Message, request_operation, reset_operation, Attempt,
  EventType, message_sent, reset_failed, reset_done, SecurityEvent, Manager, World, RequestInput,
  ResetInput,
}

abbrev pub issue_attempts : ℕ
issue_attempts = 3

abbrev pub Act : Type 0 → Type 0 → Type 0 → Type 0
Act S O A = Exec (World S O) Error A

-- NewManager, of a store and a sender that may be nil, and the manager that the rest of the
-- configuration makes of them.
unfoldable pub new_manager :
    {S O : Type 0}
    → Option (Store S)
    → Option (Message → Exec O Fault (Unit {0}))
    → (Store S → (Message → Exec O Fault (Unit {0})) → Manager S O)
    → Result Error (Manager S O)
new_manager none sender config = err invalid_config
new_manager (some store) none config = err invalid_config
new_manager (some store) (some sender) config =
    let manager = config store sender in
    if not (is_positive manager.lifetime) then err invalid_config else ok manager

module _ {S O : Type 0} (host : Host) (mail : Mail) (manager : Manager S O) where
  open manager use {store, send_password_reset, hash_password, lifetime}

  -- checkAttempt
  unfoldable pub check_attempt : Attempt → Act S O (Unit {0})
  check_attempt a = check manager.attempt_guard a

  recorded : Option (SecurityEvent → O → O) → EventType → String → String → Act S O (Unit {0})
  recorded none event_type subject_id source_key = pure tt
  recorded (some sink) event_type subject_id source_key = do
    now ← on_host (read_clock host)
    notify sink (record {
      event_type = event_type;
      subject_id = subject_id;
      source_key = source_key;
      occurred_at = now;
    })

  -- record
  unfoldable pub record_event : EventType → String → String → Act S O (Unit {0})
  unfolding recorded
  record_event event_type subject_id source_key =
      recorded manager.security_events event_type subject_id source_key

  -- validUser(user, expected) == nil
  unfoldable pub valid_user : User → String → Bool
  valid_user user expected =
      if is_blank user.id || not (user.email == expected) || not (valid mail user.email)
      then false
      else true

  abbrev known : Option String → String
  known none = ""
  known (some address) = if not (valid mail address) then "" else address

  -- The address of a request, or the empty text.
  unfoldable pub normalized : String → String
  normalized raw_email = known (manager.normalize_email raw_email)

  -- After a call of the store's Issue: the message, another attempt, or the error.
  unfoldable pub after_issue :
      Act S O (Unit {0})
      → User
      → Bytes
      → Record
      → String
      → Result Error (Unit {0})
      → Act S O (Unit {0})
  unfolding record_event
  after_issue rest user raw_token issued source_key (ok _) = do
    on_outside (
        rethrow other (
          send_password_reset (record {
            user_id = user.id;
            email = user.email;
            token = raw_token;
            expires_at = issued.expires_at;
          })))
    record_event message_sent user.id source_key
  after_issue rest user raw_token issued source_key (err conflict) = rest
  after_issue rest user raw_token issued source_key (err e) = raise e

  unfoldable pub issue_loop : ℕ → User → String → Act S O (Unit {0})
  unfolding after_issue
  issue_loop zero user source_key = raise conflict
  issue_loop (suc n) user source_key =
      let rest = issue_loop n user source_key in
      do
        (raw_token, token_hash) ← on_host (rethrow other (Token.generate host))
        now ← on_host (read_clock host)
        let issued : Record = record {
          user_id = user.id;
          email = user.email;
          token_hash = token_hash;
          created_at = now;
          expires_at = add_to now lifetime;
        }
        stored ← attempt (on_store (store.issue issued))
        after_issue rest user raw_token issued source_key stored

  -- Request, by what FindUserByEmail answered
  unfoldable pub request_found : String → String → Result Error User → Act S O (Unit {0})
  unfolding issue_loop valid_user
  request_found address source_key (ok user) =
      if not (valid_user user address)
      then raise invalid_record
      else issue_loop issue_attempts user source_key
  request_found address source_key (err not_found) = pure tt
  request_found address source_key (err e) = raise e

  -- Request
  unfoldable pub request : RequestInput → Act S O (Unit {0})
  unfolding check_attempt request_found normalized
  request input =
      let address = normalized input.email in
      do
        check_attempt (record {
          operation = request_operation;
          email = address;
          source_key = input.source_key;
        })
        if address == "" then pure tt else (do
          found ← attempt (on_store (store.find_user_by_email address))
          request_found address input.source_key found)

  -- Reset, by what ResetPassword answered
  unfoldable pub reset_result : String → Result Error User → Act S O User
  unfolding record_event
  reset_result source_key (ok user) =
      if is_blank user.id || not (valid mail user.email)
      then raise invalid_record
      else (do record_event reset_done user.id source_key; pure user)
  reset_result source_key (err not_found) = do
    record_event reset_failed "" source_key
    raise invalid_token
  reset_result source_key (err inactive_token) = do
    record_event reset_failed "" source_key
    raise invalid_token
  reset_result source_key (err e) = raise e

  -- Reset, by what HashToken answered
  unfoldable pub reset_token : ResetInput → Result Token.Error Hash → Act S O User
  unfolding reset_result
  reset_token input (err _) = do record_event reset_failed "" input.source_key; raise invalid_token
  reset_token input (ok token_hash) = do
    encoded_hash ← on_outside (rethrow other (hash_password input.new_password))
    now ← on_host (read_clock host)
    answer ← attempt (on_store (store.reset_password token_hash encoded_hash now))
    reset_result input.source_key answer

  refuses : Option (String → Option Fault) → String → Bool
  refuses none new_password = false
  refuses (some validate) new_password = elim (validate new_password) [
    | none ↦ false
    | some f ↦ true
  ]

  -- Reset
  unfoldable pub reset : ResetInput → Act S O User
  unfolding check_attempt refuses reset_token
  reset input = do
    check_attempt
        (record { operation = reset_operation; email = ""; source_key = input.source_key })
    if input.new_password == "" || refuses manager.validate_password input.new_password
        then raise invalid_password
        else reset_token input (Token.hash_token host input.token)
