-- ===== src/Postgres/Totp.antt =====
-- TOTPStore of storage/postgres/totp.go. Secrets are encrypted at rest by the application's codec,
-- which is a parameter.
pub mod Life
pub mod Replay
pub mod Later
use authlier.Common.{
  ℕ, String, Bool, true, not, ◌&&◌, ◌||◌, Option, none, some, List, [], ◌∷◌, Bytes, ◌==◌, bytes_eq,
  string_eq, any, find?, select, update_where, is_set, ltb, if◌then◌else◌,
}
use authlier.Clock.{Time, before, after}
use authlier.Exec.{
  Result, ok, err, Fault, no_rows, unique_violation, foreign_key_violation, unavailable, Exec, pure,
  raise, lift, rethrow, ◌>>=◌, ◌>>◌,
}
use authlier.Host.{Hash}
use authlier.Totp.{
  Error, conflict, inactive_challenge, inactive_enrollment, invalid_code, not_found, other,
  Enrollment, Credential, Challenge, Store,
}
use authlier.Postgres.{
  EnrollmentRow, CredentialRow, RecoveryRow, ChallengeRow, Tables, Db, Server, statement,
  transaction,
}
use authlier.Postgres.Sessions.{scanned}

-- SecretCodec of storage/postgres/postgres.go; the number tells the calls apart.
pub record Codec : Type 0 where
  pub encrypt : ℕ → String → Option Bytes
  pub decrypt : ℕ → Bytes → Option String

abbrev pub enrolls : String → EnrollmentRow → Bool
enrolls subject_id r = r.subject_id == subject_id

abbrev pub owns : String → CredentialRow → Bool
owns subject_id r = r.subject_id == subject_id

abbrev pub recovers : String → RecoveryRow → Bool
recovers subject_id r = r.subject_id == subject_id

-- WHERE subject_id = $2 AND code_hash = $3 AND used_at IS NULL
abbrev pub usable : String → Hash → RecoveryRow → Bool
usable subject_id code_hash r =
    r.subject_id == subject_id && r.code_hash == code_hash && not (is_set r.used_at)

abbrev pub has_hash : Hash → ChallengeRow → Bool
has_hash token_hash r = r.token_hash == token_hash

-- WHERE token_hash = $2 AND consumed_at IS NULL AND expires_at > $1
abbrev pub consumable : Hash → Time → ChallengeRow → Bool
consumable token_hash at r =
    r.token_hash == token_hash && not (is_set r.consumed_at) && after r.expires_at at

abbrev pub is_later : Option ℕ → ℕ → Bool
is_later none counter = true
is_later (some used) counter = ltb used counter

-- WHERE subject_id = $2 AND disabled_at IS NULL AND (last_used_counter IS NULL OR … < $1)
abbrev pub advances : String → ℕ → CredentialRow → Bool
advances subject_id counter r =
    r.subject_id == subject_id && not (is_set r.disabled_at) && is_later r.last_used_counter counter

abbrev pub use_counter : ℕ → CredentialRow → CredentialRow
use_counter counter r = record r { last_used_counter = some counter }

abbrev pub use_code : Time → RecoveryRow → RecoveryRow
use_code at r = record r { used_at = some at }

abbrev pub consume : Time → ChallengeRow → ChallengeRow
consume at r = record r { consumed_at = some at }

-- SELECT EXISTS (… WHERE subject_id = $1 AND disabled_at IS NULL)
unfoldable pub select_enabled : String → Tables → Result Fault Bool × Tables
select_enabled subject_id t =
    (ok (any (λ r. owns subject_id r && not (is_set r.disabled_at)) t.totp.credentials), t)

-- INSERT INTO authlier_totp_enrollments … ON CONFLICT (subject_id) DO UPDATE
unfoldable pub upsert_enrollment : EnrollmentRow → Tables → Result Fault (Unit {0}) × Tables
upsert_enrollment row t = (
  ok tt,
  record t {
    totp = record t.totp {
      enrollments =
          if any (enrolls row.subject_id) t.totp.enrollments
          then update_where (enrolls row.subject_id) (λ r. row) t.totp.enrollments
          else row ∷ t.totp.enrollments;
    };
  },
)

unfoldable pub select_enrollment : String → Tables → Result Fault EnrollmentRow × Tables
select_enrollment subject_id t = (scanned (find? (enrolls subject_id) t.totp.enrollments), t)

-- INSERT INTO authlier_totp_credentials … ON CONFLICT (subject_id) DO UPDATE … disabled_at = NULL
unfoldable pub upsert_credential : CredentialRow → Tables → Result Fault (Unit {0}) × Tables
upsert_credential row t = (
  ok tt,
  record t {
    totp = record t.totp {
      credentials =
          if any (owns row.subject_id) t.totp.credentials
          then update_where (owns row.subject_id) (λ r. row) t.totp.credentials
          else row ∷ t.totp.credentials;
    };
  },
)

-- DELETE FROM authlier_totp_recovery_codes WHERE subject_id = $1
unfoldable pub delete_codes : String → Tables → Result Fault (Unit {0}) × Tables
delete_codes subject_id t = (
  ok tt,
  record t {
    totp = record t.totp {
      recovery_codes = select (λ r. not (recovers subject_id r)) t.totp.recovery_codes;
    };
  },
)

-- INSERT INTO authlier_totp_recovery_codes
unfoldable pub insert_code : String → Hash → Tables → Result Fault (Unit {0}) × Tables
insert_code subject_id code_hash t =
    if any (λ r. r.subject_id == subject_id && r.code_hash == code_hash) t.totp.recovery_codes
    then (err unique_violation, t)
    else if any (owns subject_id) t.totp.credentials
    then (
      ok tt,
      record t {
        totp = record t.totp {
          recovery_codes =
              record { subject_id = subject_id; code_hash = code_hash; used_at = none }
              ∷ t.totp.recovery_codes;
        };
      },
    )
    else (err foreign_key_violation, t)

-- DELETE FROM authlier_totp_enrollments WHERE subject_id = $1
unfoldable pub delete_enrollment : String → Tables → Result Fault (Unit {0}) × Tables
delete_enrollment subject_id t = (
  ok tt,
  record t {
    totp = record t.totp {
      enrollments = select (λ r. not (enrolls subject_id r)) t.totp.enrollments;
    };
  },
)

abbrev pub disable_now : Time → CredentialRow → CredentialRow
disable_now at r = record r {
  disabled_at = elim r.disabled_at [ none ↦ some at | some u ↦ some u ];
}

-- UPDATE … SET disabled_at = COALESCE(disabled_at, $1) WHERE subject_id = $2: was a row affected?
unfoldable pub update_disabled : String → Time → Tables → Result Fault Bool × Tables
update_disabled subject_id at t = (
  ok (any (owns subject_id) t.totp.credentials),
  record t {
    totp = record t.totp {
      credentials = update_where (owns subject_id) (disable_now at) t.totp.credentials;
    };
  },
)

-- INSERT INTO authlier_totp_challenges
unfoldable pub insert_challenge : Challenge → Tables → Result Fault (Unit {0}) × Tables
insert_challenge c t =
    if any (has_hash c.token_hash) t.totp.challenges then (err unique_violation, t) else (
      ok tt,
      record t {
        totp = record t.totp {
          challenges =
              record {
                token_hash = c.token_hash;
                subject_id = c.subject_id;
                created_at = c.created_at;
                expires_at = c.expires_at;
                consumed_at = none;
              }
              ∷ t.totp.challenges;
        };
      },
    )

-- The row of the join: a challenge and the credential of its subject.
abbrev joined : List CredentialRow → Option ChallengeRow → Option (ChallengeRow × CredentialRow)
joined credentials none = none
joined credentials (some c) =
    elim (find? (λ r. owns c.subject_id r && not (is_set r.disabled_at)) credentials) [
      | none ↦ none
      | some r ↦ some (c, r)
    ]

-- SELECT … JOIN … WHERE c.token_hash = $1 AND c.consumed_at IS NULL AND t.disabled_at IS NULL
unfoldable pub select_challenge :
    Hash → Tables → Result Fault (ChallengeRow × CredentialRow) × Tables
select_challenge token_hash t = (
  scanned (
      joined t.totp.credentials
        (find? (λ c. has_hash token_hash c && not (is_set c.consumed_at)) t.totp.challenges)),
  t,
)

abbrev subject_of : Option ChallengeRow → Option String
subject_of none = none
subject_of (some c) = some c.subject_id

-- UPDATE … SET consumed_at = $1 WHERE … RETURNING subject_id
unfoldable pub update_consumed : Hash → Time → Tables → Result Fault String × Tables
update_consumed token_hash at t = (
  scanned (subject_of (find? (consumable token_hash at) t.totp.challenges)),
  record t {
    totp = record t.totp {
      challenges = update_where (consumable token_hash at) (consume at) t.totp.challenges;
    };
  },
)

-- UPDATE … SET last_used_counter = $1 WHERE …: was a row affected?
unfoldable pub update_counter : String → ℕ → Tables → Result Fault Bool × Tables
update_counter subject_id counter t = (
  ok (any (advances subject_id counter) t.totp.credentials),
  record t {
    totp = record t.totp {
      credentials =
          update_where (advances subject_id counter) (use_counter counter) t.totp.credentials;
    };
  },
)

-- UPDATE … SET used_at = $1 WHERE …: was a row affected?
unfoldable pub update_used : String → Hash → Time → Tables → Result Fault Bool × Tables
update_used subject_id code_hash at t = (
  ok (any (usable subject_id code_hash) t.totp.recovery_codes),
  record t {
    totp = record t.totp {
      recovery_codes =
          update_where (usable subject_id code_hash) (use_code at) t.totp.recovery_codes;
    };
  },
)

abbrev pub conflict_if_unique : Fault → Error
conflict_if_unique unique_violation = conflict
conflict_if_unique f = other f

abbrev pub not_found_if_none : Fault → Error
not_found_if_none no_rows = not_found
not_found_if_none f = other f

abbrev pub inactive_if_none : Fault → Error
inactive_if_none no_rows = inactive_challenge
inactive_if_none f = other f

abbrev coded : {A : Type 0} → Option A → Result Error A
coded none = err (other unavailable)
coded (some a) = ok a

module _ (server : Server) (secrets : Option Codec) where
  -- encrypt: without a codec, the error is one of the adapter's configuration.
  encrypt_with : Option Codec → String → Exec Db Error Bytes
  encrypt_with none secret db = (err (other unavailable), db)
  encrypt_with (some codec) secret db = (coded (codec.encrypt db.statements secret), db)

  unfoldable pub encrypt : String → Exec Db Error Bytes
  unfolding encrypt_with
  encrypt secret = encrypt_with secrets secret

  decrypt_with : Option Codec → Bytes → Exec Db Error String
  decrypt_with none encrypted db = (err (other unavailable), db)
  decrypt_with (some codec) encrypted db = (coded (codec.decrypt db.statements encrypted), db)

  unfoldable pub decrypt : Bytes → Exec Db Error String
  unfolding decrypt_with
  decrypt encrypted = decrypt_with secrets encrypted

  -- TOTPStore.IsEnabled
  unfoldable pub is_enabled : String → Exec Db Error Bool
  unfolding select_enabled
  is_enabled subject_id = rethrow other (statement server (select_enabled subject_id))

  -- TOTPStore.BeginEnrollment
  unfoldable pub begin_enrollment : Enrollment → Exec Db Error (Unit {0})
  unfolding encrypt upsert_enrollment
  begin_enrollment enrollment = do
    secret ← encrypt enrollment.secret
    rethrow other (
        statement server (
          upsert_enrollment (record {
            subject_id = enrollment.subject_id;
            encrypted_secret = secret;
            created_at = enrollment.created_at;
            expires_at = enrollment.expires_at;
          })))

  -- TOTPStore.FindEnrollment
  unfoldable pub find_enrollment : String → Exec Db Error Enrollment
  unfolding decrypt select_enrollment
  find_enrollment subject_id = do
    row ← rethrow not_found_if_none (statement server (select_enrollment subject_id))
    secret ← decrypt row.encrypted_secret
    pure (record {
      subject_id = row.subject_id;
      secret = secret;
      created_at = row.created_at;
      expires_at = row.expires_at;
    })

  -- for _, code := range recoveryCodes
  unfoldable pub insert_codes : String → List Hash → Exec Db Error (Unit {0})
  unfolding insert_code
  insert_codes subject_id [] = pure tt
  insert_codes subject_id (code ∷ codes) = do
    rethrow other (statement server (insert_code subject_id code))
    insert_codes subject_id codes

  unfoldable pub enable_body : String → ℕ → List Hash → Time → Exec Db Error (Unit {0})
  unfolding select_enrollment upsert_credential delete_codes insert_codes delete_enrollment
  enable_body subject_id counter recovery_codes enabled_at = do
    row ← rethrow not_found_if_none (statement server (select_enrollment subject_id))
    if not (before enabled_at row.expires_at) then raise inactive_enrollment else (do
      rethrow other (
          statement server (
            upsert_credential (record {
              subject_id = subject_id;
              encrypted_secret = row.encrypted_secret;
              enabled_at = enabled_at;
              last_used_counter = some counter;
              disabled_at = none;
            })))
      rethrow other (statement server (delete_codes subject_id))
      insert_codes subject_id recovery_codes
      rethrow other (statement server (delete_enrollment subject_id)))

  -- TOTPStore.Enable
  unfoldable pub enable : String → ℕ → List Hash → Time → Exec Db Error (Unit {0})
  unfolding enable_body
  enable subject_id counter recovery_codes enabled_at =
      transaction server other (enable_body subject_id counter recovery_codes enabled_at)

  unfoldable pub disable_body : String → Time → Exec Db Error (Unit {0})
  unfolding update_disabled delete_codes
  disable_body subject_id disabled_at = do
    affected ← rethrow other (statement server (update_disabled subject_id disabled_at))
    if not affected
        then raise not_found
        else rethrow other (statement server (delete_codes subject_id))

  -- TOTPStore.Disable
  unfoldable pub disable : String → Time → Exec Db Error (Unit {0})
  unfolding disable_body
  disable subject_id disabled_at = transaction server other (disable_body subject_id disabled_at)

  -- TOTPStore.CreateChallenge
  unfoldable pub create_challenge : Challenge → Exec Db Error (Unit {0})
  unfolding insert_challenge
  create_challenge challenge =
      rethrow conflict_if_unique (statement server (insert_challenge challenge))

  -- TOTPStore.FindChallenge
  unfoldable pub find_challenge : Hash → Exec Db Error (Challenge × Credential)
  unfolding select_challenge decrypt
  find_challenge token_hash = do
    (c, r) ← rethrow not_found_if_none (statement server (select_challenge token_hash))
    secret ← decrypt r.encrypted_secret
    pure (
      record {
        subject_id = c.subject_id;
        token_hash = c.token_hash;
        created_at = c.created_at;
        expires_at = c.expires_at;
      },
      record {
        subject_id = c.subject_id;
        secret = secret;
        enabled_at = r.enabled_at;
        last_used_counter = r.last_used_counter;
      },
    )

  -- consumeTOTPChallenge, inside a transaction
  unfoldable pub consume_challenge : Hash → Time → Exec Db Error String
  unfolding update_consumed
  consume_challenge token_hash at =
      rethrow inactive_if_none (statement server (update_consumed token_hash at))

  unfoldable pub complete_code_body : Hash → ℕ → Time → Exec Db Error String
  unfolding consume_challenge update_counter
  complete_code_body token_hash counter completed_at = do
    subject_id ← consume_challenge token_hash completed_at
    affected ← rethrow other (statement server (update_counter subject_id counter))
    if not affected then raise invalid_code else pure subject_id

  -- TOTPStore.CompleteCode
  unfoldable pub complete_code : Hash → ℕ → Time → Exec Db Error String
  complete_code token_hash counter completed_at =
      transaction server other (complete_code_body token_hash counter completed_at)

  unfoldable pub complete_recovery_body : Hash → Hash → Time → Exec Db Error String
  unfolding consume_challenge update_used
  complete_recovery_body token_hash recovery_code completed_at = do
    subject_id ← consume_challenge token_hash completed_at
    affected ← rethrow other (statement server (update_used subject_id recovery_code completed_at))
    if not affected then raise invalid_code else pure subject_id

  -- TOTPStore.CompleteRecovery
  unfoldable pub complete_recovery : Hash → Hash → Time → Exec Db Error String
  complete_recovery token_hash recovery_code completed_at =
      transaction server other (complete_recovery_body token_hash recovery_code completed_at)

  -- The adapter's TOTP() as a totp.Store.
  abbrev pub totp_store : Store Db
  totp_store = record {
    is_enabled = is_enabled;
    begin_enrollment = begin_enrollment;
    find_enrollment = find_enrollment;
    enable = enable;
    disable = disable;
    create_challenge = create_challenge;
    find_challenge = find_challenge;
    complete_code = complete_code;
    complete_recovery = complete_recovery;
  }
