-- ===== src/EmailPassword/Methods.antt =====
-- NewManager, AddPassword, Register and the shared helpers of emailpassword/emailpassword.go.
use authlier.Common.{
  String, Bool, true, false, not, ◌||◌, Option, none, some, ◌==◌, string_eq, if◌then◌else◌,
}
use authlier.Text.{trim_space, is_blank}
use authlier.Clock.{Time}
use authlier.Exec.{Result, ok, err, Fault, Exec, pure, raise, attempt, rethrow, ◌>>=◌, ◌>>◌}
use authlier.Host.{Host, read_clock}
use authlier.Service.{World, on_store, on_outside, on_host, check, notify}
use authlier.EmailAddress.{Mail, valid}
use authlier.EmailPassword.{
  Error, conflict, invalid_config, invalid_credentials, invalid_input, invalid_password,
  invalid_record, last_credential, not_found, registration_unavailable, other, User, Store,
  CredentialStore, Verification, register_operation, add_operation, Attempt, EventType,
  registration_rejected, registration_succeeded, password_added, SecurityEvent, Settings, Manager,
  RegisterInput, AddPasswordInput, valid_user,
}

abbrev pub Act : Type 0 → Type 0 → Type 0 → Type 0
Act S O A = Exec (World S O) Error A

abbrev pub dummy_password : String
dummy_password = "authlier dummy password for unknown identities"

abbrev either : {A : Type 0} → Option A → Option A → Option A
either none b = b
either (some a) b = some a

-- NewManager, of a store that may be nil, the credential store that the store is too, the one that is
-- configured, and the settings.
unfoldable pub new_manager :
    {S O : Type 0}
    → Option (Store S)
    → Option (CredentialStore S)
    → Option (CredentialStore S)
    → Settings O
    → Exec O Error (Manager S O)
new_manager none own configured settings = raise invalid_config
new_manager (some store) own configured settings = do
  dummy_hash ← rethrow (λ _. invalid_config) (settings.passwords.hash dummy_password)
  if is_blank dummy_hash
      then raise invalid_config
      else pure (record {
        store = store;
        credentials = either configured own;
        settings = settings;
        dummy_hash = dummy_hash;
      })

abbrev pub is_not_found : Error → Bool
is_not_found not_found = true
is_not_found _ = false

abbrev pub is_conflict : Error → Bool
is_conflict conflict = true
is_conflict _ = false

abbrev pub is_last : Error → Bool
is_last last_credential = true
is_last _ = false

module _ {S O : Type 0} (host : Host) (mail : Mail) (manager : Manager S O) where
  open manager use {store, settings}

  abbrev pub read_now : Act S O Time
  read_now = on_host (read_clock host)

  -- normalizeAndValidateEmail; `none` is ErrInvalidInput
  abbrev accepted : Option String → Option String
  accepted none = none
  accepted (some address) = if not (valid mail address) then none else some address

  unfoldable pub normalized : String → Option String
  normalized raw_email = accepted (settings.normalize_email raw_email)

  validated : Option (String → Option Fault) → String → Act S O (Unit {0})
  validated none password = pure tt
  validated (some validate) password = elim (validate password) [
    | none ↦ pure tt
    | some f ↦ raise invalid_password
  ]

  -- validate
  unfoldable pub validate : String → Act S O (Unit {0})
  unfolding validated
  validate password = validated settings.validate_password password

  -- checkAttempt
  abbrev pub check_attempt : Attempt → Act S O (Unit {0})
  check_attempt a = check settings.attempt_guard a

  recorded : Option (SecurityEvent → O → O) → EventType → String → String → Act S O (Unit {0})
  recorded none event_type subject_id source_key = pure tt
  recorded (some sink) event_type subject_id source_key = do
    now ← read_now
    notify sink (record {
      event_type = event_type;
      subject_id = subject_id;
      source_key = source_key;
      occurred_at = now;
    })

  -- record
  unfoldable pub record_event : EventType → String → String → Act S O (Unit {0})
  unfolding recorded
  record_event event_type subject_id source_key =
      recorded settings.security_events event_type subject_id source_key

  -- An event of a failure, and ErrInvalidCredentials.
  unfoldable pub refuse : {A : Type 0} → EventType → String → String → Act S O A
  unfolding record_event
  refuse event_type subject_id source_key = do
    record_event event_type subject_id source_key
    raise invalid_credentials

  abbrev pub hash_password : String → Act S O String
  hash_password password = on_outside (rethrow other (settings.passwords.hash password))

  -- err != nil || !verification.Matches
  abbrev pub is_rejected : Result Fault Verification → Bool
  is_rejected (ok v) = not v.matches
  is_rejected (err f) = true

  abbrev pub verify_password : String → String → Act S O (Result Fault Verification)
  verify_password password encoded_hash w =
      let (r, o) = settings.passwords.verify password encoded_hash w.outside in
      (ok r, record w { outside = o })

  -- AddPassword, of a credential store and a trimmed subject
  unfoldable pub add_with : CredentialStore S → String → AddPasswordInput → Act S O User
  unfolding validate record_event
  add_with credentials subject_id input = do
    validate input.password
    check_attempt (record {
      operation = add_operation;
      email = "";
      subject_id = subject_id;
      source_key = input.source_key;
    })
    encoded_hash ← hash_password input.password
    now ← read_now
    user ← on_store (credentials.add_password subject_id encoded_hash now)
    if not (valid_user user) || not (user.id == subject_id)
        then raise invalid_record
        else (do record_event password_added subject_id input.source_key; pure user)

  adding : Option (CredentialStore S) → AddPasswordInput → Act S O User
  unfolding add_with
  adding none input = raise invalid_config
  adding (some credentials) input =
      let subject_id = trim_space input.subject_id in
      if subject_id == "" || input.password == ""
      then raise invalid_input
      else add_with credentials subject_id input

  -- AddPassword
  unfoldable pub add_password : AddPasswordInput → Act S O User
  unfolding adding
  add_password input = adding manager.credentials input

  -- Register, by what the store's Register answered
  unfoldable pub registered : String → String → Result Error User → Act S O User
  unfolding record_event
  registered address source_key (err e) =
      if is_conflict e
      then (do record_event registration_rejected "" source_key; raise registration_unavailable)
      else raise e
  registered address source_key (ok user) =
      if not (valid_user user) || not (user.email == address)
      then raise invalid_record
      else (do record_event registration_succeeded user.id source_key; pure user)

  -- Register, by what normalizeAndValidateEmail answered
  unfoldable pub register_address : Option String → RegisterInput → Act S O User
  unfolding validate registered
  register_address none input = raise invalid_input
  register_address (some address) input = if input.password == "" then raise invalid_input else (do
    validate input.password
    check_attempt (record {
      operation = register_operation;
      email = address;
      subject_id = "";
      source_key = input.source_key;
    })
    encoded_hash ← hash_password input.password
    now ← read_now
    answer ← attempt (
        on_store (
          store.register
            (record { email = address; password_hash = encoded_hash; created_at = now })))
    registered address input.source_key answer)

  -- Register
  unfoldable pub register : RegisterInput → Act S O User
  unfolding register_address normalized
  register input = register_address (normalized input.email) input

  -- `errors.Is(err, ErrConflict) || errors.Is(err, ErrNotFound)` of the last store call: a refusal.
  unfoldable pub settled : EventType → String → String → Act S O (Unit {0}) → Act S O (Unit {0})
  unfolding refuse
  settled event_type subject_id source_key call = do
    answer ← attempt call
    elim answer [
      | ok _ ↦ pure tt
      | err e ↦
          if is_conflict e || is_not_found e
          then refuse event_type subject_id source_key
          else raise e
    ]
