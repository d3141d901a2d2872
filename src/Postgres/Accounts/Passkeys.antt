-- ===== src/Postgres/Accounts/Passkeys.antt =====
-- PasskeyStore of storage/postgres/passkeys.go, its operations that write: the rows of
-- authlier_passkey_credentials, whose primary key is the credential's ID, and of
-- authlier_passkey_ceremonies.
use authlier.Common.{
  ℕ, ◌+◌, String, Bool, true, false, not, ◌&&◌, Option, none, some, ◌∷◌, Bytes, ◌==◌, bytes_eq,
  string_eq, any, select, update_where, length, nat_beq, is_set, if◌then◌else◌,
}
use authlier.Clock.{Time, after}
use authlier.Exec.{
  Result, ok, err, Fault, no_rows, unique_violation, foreign_key_violation, unavailable, Exec, pure,
  raise, rethrow, ◌>>=◌, ◌>>◌,
}
use authlier.Host.{Hash}
use authlier.Passkey.{
  Error, conflict, inactive_ceremony, last_credential, not_found, other, CeremonyType, registration,
  authentication, Ceremony, WebAuthn,
}
use authlier.Postgres.{PasskeyRow, CeremonyRow, Tables, Db, Server, statement, transaction}
use authlier.Postgres.Accounts.{has_id, of_user, identity_of, passkey_of, lock_user}

abbrev pub has_credential : Bytes → PasskeyRow → Bool
has_credential credential_id r = r.credential_id == credential_id

abbrev pub has_token : Hash → CeremonyRow → Bool
has_token token_hash r = r.token_hash == token_hash

abbrev pub same_type : CeremonyType → CeremonyType → Bool
same_type registration registration = true
same_type authentication authentication = true
same_type _ _ = false

-- INSERT INTO authlier_passkey_ceremonies
unfoldable pub insert_ceremony : CeremonyRow → Tables → Result Fault (Unit {0}) × Tables
insert_ceremony row t =
    if any (has_token row.token_hash) t.accounts.passkey_ceremonies
    then (err unique_violation, t)
    else (
      ok tt,
      record t {
        accounts = record t.accounts { passkey_ceremonies = row ∷ t.accounts.passkey_ceremonies };
      },
    )

-- A ceremony that can be consumed at `at`.
abbrev pub open_at : Hash → String → CeremonyType → Time → CeremonyRow → Bool
open_at token_hash subject_id ceremony_type at r =
    has_token token_hash r
    && same_type r.ceremony_type ceremony_type
    && r.subject_id == subject_id
    && not (is_set r.consumed_at)
    && after r.expires_at at

abbrev pub consumed_row : Time → CeremonyRow → CeremonyRow
consumed_row at r = record r { consumed_at = some at }

-- UPDATE authlier_passkey_ceremonies SET consumed_at = $1 WHERE …: was a row affected?
unfoldable pub update_consumed :
    Hash → String → CeremonyType → Time → Tables → Result Fault Bool × Tables
update_consumed token_hash subject_id ceremony_type at t =
    let p = open_at token_hash subject_id ceremony_type at in
    (
      ok (any p t.accounts.passkey_ceremonies),
      record t {
        accounts = record t.accounts {
          passkey_ceremonies = update_where p (consumed_row at) t.accounts.passkey_ceremonies;
        };
      },
    )

-- INSERT INTO authlier_passkey_credentials
unfoldable pub insert_passkey : PasskeyRow → Tables → Result Fault (Unit {0}) × Tables
insert_passkey row t =
    if any (has_credential row.credential_id) t.accounts.passkeys
    then (err unique_violation, t)
    else if any (has_id row.subject_id) t.accounts.users
    then (ok tt, record t { accounts = record t.accounts { passkeys = row ∷ t.accounts.passkeys } })
    else (err foreign_key_violation, t)

abbrev pub is_version : Bytes → String → Bytes → PasskeyRow → Bool
is_version credential_id subject_id credential r =
    has_credential credential_id r && passkey_of subject_id r && r.credential == credential

abbrev pub new_version : Bytes → Time → PasskeyRow → PasskeyRow
new_version credential at r = record r { credential = credential; updated_at = at }

-- UPDATE authlier_passkey_credentials SET credential = $1, updated_at = $2 WHERE …
unfoldable pub update_credential :
    Bytes → String → Bytes → Bytes → Time → Tables → Result Fault Bool × Tables
update_credential credential_id subject_id previous updated at t =
    let p = is_version credential_id subject_id previous in
    (
      ok (any p t.accounts.passkeys),
      record t {
        accounts = record t.accounts {
          passkeys = update_where p (new_version updated at) t.accounts.passkeys;
        };
      },
    )

-- SELECT of the counts of passkeys, passwords and Google identities
unfoldable pub select_counts : String → Tables → Result Fault (ℕ × ℕ × ℕ) × Tables
select_counts subject_id t = (
  ok (
    length (select (passkey_of subject_id) t.accounts.passkeys),
    length (select (of_user subject_id) t.accounts.password_credentials),
    length (select (identity_of subject_id) t.accounts.google_identities),
  ),
  t,
)

abbrev pub passkey_is : String → Bytes → PasskeyRow → Bool
passkey_is subject_id credential_id r = passkey_of subject_id r && has_credential credential_id r

-- DELETE FROM authlier_passkey_credentials WHERE subject_id = $1 AND credential_id = $2
unfoldable pub delete_passkey : String → Bytes → Tables → Result Fault Bool × Tables
delete_passkey subject_id credential_id t = (
  ok (any (passkey_is subject_id credential_id) t.accounts.passkeys),
  record t {
    accounts = record t.accounts {
      passkeys = select (λ r. not (passkey_is subject_id credential_id r)) t.accounts.passkeys;
    };
  },
)

abbrev pub conflict_if_unique : Fault → Error
conflict_if_unique unique_violation = conflict
conflict_if_unique f = other f

abbrev pub not_found_if_none : Fault → Error
not_found_if_none no_rows = not_found
not_found_if_none f = other f

-- json.Marshal, with its error
abbrev pub marshalled : {A : Type 0} → Option A → Exec Db Error A
marshalled none = raise (other unavailable)
marshalled (some encoded) = pure encoded

module _ (server : Server) where
  -- consumePasskeyCeremony
  unfoldable pub consume_ceremony : Hash → String → CeremonyType → Time → Exec Db Error (Unit {0})
  unfolding update_consumed
  consume_ceremony token_hash subject_id ceremony_type at = do
    affected ←
        rethrow other (statement server (update_consumed token_hash subject_id ceremony_type at))
    if affected then pure tt else raise inactive_ceremony

  -- CompleteRegistration, between Begin and Commit
  unfoldable pub registration_body : Hash → String → PasskeyRow → Time → Exec Db Error (Unit {0})
  unfolding consume_ceremony insert_passkey
  registration_body token_hash subject_id row at = do
    consume_ceremony token_hash subject_id registration at
    rethrow conflict_if_unique (statement server (insert_passkey row))

  -- CompleteAuthentication, between Begin and Commit
  unfoldable pub authentication_body :
      Hash → String → Bytes → Bytes → Bytes → Time → Exec Db Error (Unit {0})
  unfolding consume_ceremony update_credential
  authentication_body token_hash subject_id credential_id previous updated at = do
    consume_ceremony token_hash subject_id authentication at
    affected ←
        rethrow other
          (statement server (update_credential credential_id subject_id previous updated at))
    if affected then pure tt else raise conflict

  -- DeleteCredential, between Begin and Commit
  unfoldable pub delete_body : String → Bytes → Exec Db Error (Unit {0})
  unfolding lock_user select_counts delete_passkey
  delete_body subject_id credential_id = do
    rethrow not_found_if_none (lock_user server subject_id)
    (passkeys, passwords, google_identities) ←
        rethrow other (statement server (select_counts subject_id))
    if nat_beq passkeys 1 && nat_beq (passwords + google_identities) 0
        then raise last_credential
        else (do
          affected ← rethrow other (statement server (delete_passkey subject_id credential_id))
          if affected then pure tt else raise not_found)

  -- DeleteCredential
  unfoldable pub delete_credential : String → Bytes → Time → Exec Db Error (Unit {0})
  delete_credential subject_id credential_id deleted_at =
      transaction server other (delete_body subject_id credential_id)

  module _ {C S : Type 0} (webauthn : WebAuthn C S) where
    open webauthn use {credential_id, marshal_credential, marshal_session}

    -- CreateCeremony
    unfoldable pub create_ceremony : Ceremony S → Exec Db Error (Unit {0})
    unfolding insert_ceremony
    create_ceremony c = do
      session_data ← marshalled (marshal_session c.session)
      rethrow conflict_if_unique (
          statement server (
            insert_ceremony (record {
              token_hash = c.token_hash;
              ceremony_type = c.ceremony_type;
              subject_id = c.subject_id;
              session_data = session_data;
              created_at = c.created_at;
              expires_at = c.expires_at;
              consumed_at = none;
            })))

    -- CompleteRegistration
    unfoldable pub complete_registration : Hash → String → C → Time → Exec Db Error (Unit {0})
    complete_registration token_hash subject_id credential completed_at = do
      encoded ← marshalled (marshal_credential credential)
      transaction server other (
          registration_body token_hash subject_id
            (record {
              credential_id = credential_id credential;
              subject_id = subject_id;
              credential = encoded;
              created_at = completed_at;
              updated_at = completed_at;
            })
            completed_at)

    -- CompleteAuthentication
    unfoldable pub complete_authentication : Hash → String → C → C → Time → Exec Db Error (Unit {0})
    complete_authentication token_hash subject_id previous updated completed_at = do
      previous_json ← marshalled (marshal_credential previous)
      updated_json ← marshalled (marshal_credential updated)
      transaction server other (
          authentication_body token_hash subject_id (credential_id previous) previous_json
            updated_json completed_at)
