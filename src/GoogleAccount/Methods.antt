-- ===== src/GoogleAccount/Methods.antt =====
-- The manager of googleoauth/googleoauth.go: NewManager, Begin, Complete and Unlink.
use authlier.Common.{
  String, Bool, true, false, not, ◌&&◌, ◌||◌, Option, none, some, List, [], ◌∷◌, Bytes, ◌==◌,
  string_eq, bytes_eq, if◌then◌else◌,
}
use authlier.Text.{trim_space, is_blank}
use authlier.Text.Trim.{trim_bytes}
use authlier.Clock.{Time, is_positive, is_zero, before, after, add_to}
use authlier.Exec.{Result, ok, err, Exec, pure, raise, attempt, rethrow, ◌>>=◌, ◌>>◌}
use authlier.Host.{Host, Hash, read_clock, read_random}
use authlier.Token.Base64.{encode_to_string}
use authlier.Service.{World, on_store, on_outside, on_host, notify}
use authlier.EmailAddress.{Mail, normalize}
use authlier.GoogleAccount.{
  Error, invalid_config, invalid_input, invalid_record, invalid_state, not_found, unverified, other,
  Challenge, User, Identity, Store, IdentityStore, ExchangeInput, SecurityEvent, Urls, Settings,
  Manager, Started,
}

abbrev pub Act : Type 0 → Type 0 → Type 0 → Type 0
Act S O A = Exec (World S O) Error A

abbrev pub is_none : Bytes → Bool
is_none [] = true
is_none _ = false

module _ {U : Type 0} (urls : Urls U) where
  checked_url : Bool → Option U → Option U
  checked_url require_https none = none
  checked_url require_https (some url) =
      if urls.host url == "" || urls.has_user url || not (urls.fragment url == "")
      then none
      else if require_https && not (urls.scheme url == "https")
      then none
      else if not require_https
          && not (urls.scheme url == "https")
          && not (urls.scheme url == "http")
      then none
      else some url

  -- parseURL; `none` is ErrInvalidConfig
  unfoldable pub parse_url : String → Bool → Option U
  unfolding checked_url
  parse_url raw_url require_https = checked_url require_https (urls.parse (trim_space raw_url))

abbrev either : {A : Type 0} → Option A → Option A → Option A
either none b = b
either (some a) b = some a

-- NewManager, of a store and a provider that may be nil, the identity store that the store is too, the
-- one that is configured, and the settings.
unfoldable pub new_manager :
    {S O U : Type 0}
    → Urls U
    → Option (Store S)
    → Option (ExchangeInput → Exec O Error Identity)
    → Option (IdentityStore S)
    → Option (IdentityStore S)
    → Settings
    → Option (SecurityEvent → O → O)
    → Result Error (Manager S O U)
unfolding parse_url
new_manager urls none provider own configured settings security_events = err invalid_config
new_manager urls (some store) none own configured settings security_events = err invalid_config
new_manager urls (some store) (some exchange) own configured settings security_events =
    let client_id = trim_space settings.client_id in
    if client_id == ""
    then err invalid_config
    else elim (parse_url urls settings.authorization_url true) [
      | none ↦ err invalid_config
      | some authorization_url ↦ elim (parse_url urls settings.redirect_url false) [
        | none ↦ err invalid_config
        | some redirect_url ↦
            if not (is_positive settings.state_lifetime)
            then err invalid_config
            else ok (record {
              store = store;
              identities = either configured own;
              exchange = exchange;
              client_id = client_id;
              authorization_url = authorization_url;
              redirect_url = urls.string redirect_url;
              lifetime = settings.state_lifetime;
              security_events = security_events;
            })
      ]
    ]

-- validChallenge
unfoldable pub valid_challenge : Challenge → Hash → Time → Bool
valid_challenge challenge state_hash now =
    challenge.state_hash == state_hash
    && not (is_none (trim_bytes challenge.nonce))
    && not (is_none (trim_bytes challenge.code_verifier))
    && not (is_zero challenge.created_at)
    && after challenge.expires_at challenge.created_at
    && before now challenge.expires_at

abbrev pub is_lost : Error → Bool
is_lost not_found = true
is_lost invalid_state = true
is_lost _ = false

module _ {S O U : Type 0} (host : Host) (mail : Mail) (urls : Urls U) (bytes_of : String → Bytes)
    (manager : Manager S O U) where
  open manager use {store}

  recorded : Option (SecurityEvent → O → O) → String → String → Act S O (Unit {0})
  recorded none subject_id source_key = pure tt
  recorded (some sink) subject_id source_key = do
    now ← on_host (read_clock host)
    notify sink (record { subject_id = subject_id; source_key = source_key; occurred_at = now })

  -- record, of EventUnlinked
  unfoldable pub record_event : String → String → Act S O (Unit {0})
  unfolding recorded
  record_event subject_id source_key = recorded manager.security_events subject_id source_key

  unlinking : Option (IdentityStore S) → String → String → Act S O (Unit {0})
  unfolding record_event
  unlinking none raw_subject source_key = raise invalid_config
  unlinking (some identities) raw_subject source_key =
      let subject_id = trim_space raw_subject in
      if subject_id == "" then raise invalid_input else (do
        now ← on_host (read_clock host)
        on_store (identities.unlink_identity subject_id now)
        record_event subject_id source_key)

  -- Unlink
  unfoldable pub unlink : String → String → Act S O (Unit {0})
  unfolding unlinking
  unlink raw_subject source_key = unlinking manager.identities raw_subject source_key

  -- randomString
  unfoldable pub random_string : Act S O Bytes
  random_string = do
    random ← on_host (rethrow other (read_random host 32))
    pure (encode_to_string random)

  -- pkceChallenge
  unfoldable pub pkce_challenge : Bytes → Bytes
  pkce_challenge code_verifier = encode_to_string (host.sum256 code_verifier)

  -- The query of the authorization URL.
  unfoldable pub query : Bytes → Bytes → Bytes → List (String × Bytes)
  unfolding pkce_challenge
  query state nonce code_verifier =
      ("client_id", bytes_of manager.client_id)
      ∷ ("redirect_uri", bytes_of manager.redirect_url)
      ∷ ("response_type", bytes_of "code")
      ∷ ("scope", bytes_of "openid email profile")
      ∷ ("state", state)
      ∷ ("nonce", nonce)
      ∷ ("code_challenge", pkce_challenge code_verifier)
      ∷ ("code_challenge_method", bytes_of "S256")
      ∷ []

  -- Begin
  unfoldable pub begin : String → Act S O Started
  unfolding random_string query
  begin raw_subject = do
    state ← random_string
    nonce ← random_string
    code_verifier ← random_string
    now ← on_host (read_clock host)
    on_store (
        store.create_challenge (record {
          state_hash = host.sum256 state;
          nonce = nonce;
          code_verifier = code_verifier;
          subject_id = trim_space raw_subject;
          created_at = now;
          expires_at = add_to now manager.lifetime;
        }))
    pure (record {
      authorization_url =
          urls.with_query manager.authorization_url (query state nonce code_verifier);
      state = state;
    })

  -- Complete, by what the exchange answered for a challenge
  unfoldable pub resolve : Challenge → Identity → Act S O User
  resolve challenge identity =
      let provider_subject = trim_space identity.provider_subject in
      if not (identity.nonce == challenge.nonce)
      then raise invalid_state
      else if provider_subject == ""
      then raise invalid_record
      else if not identity.email_verified
      then raise unverified
      else elim (normalize mail identity.email) [
        | none ↦ raise invalid_record
        | some address ↦ (do
          user ← on_store (
              store.resolve_identity (record {
                provider_subject = provider_subject;
                email = address;
                subject_id = challenge.subject_id;
              }))
          if is_blank user.id then raise invalid_record else pure user)
      ]

  -- Complete, by what ConsumeChallenge answered
  unfoldable pub complete_with : Hash → Time → Bytes → Result Error Challenge → Act S O User
  unfolding resolve
  complete_with state_hash now code (err e) = if is_lost e then raise invalid_state else raise e
  complete_with state_hash now code (ok challenge) =
      if not (valid_challenge challenge state_hash now) then raise invalid_record else (do
        identity ← on_outside (
            manager.exchange (record {
              code = code;
              code_verifier = challenge.code_verifier;
              redirect_url = manager.redirect_url;
              audience = manager.client_id;
            }))
        resolve challenge identity)

  -- Complete
  unfoldable pub complete : Bytes → Bytes → Act S O User
  unfolding complete_with
  complete raw_state raw_code =
      let state = trim_bytes raw_state in
      let code = trim_bytes raw_code in
      if is_none state || is_none code then raise invalid_state else (do
        let state_hash = host.sum256 state
        now ← on_host (read_clock host)
        found ← attempt (on_store (store.consume_challenge state_hash now))
        complete_with state_hash now code found)
