-- ===== src/Postgres/Accounts/Identities.antt =====
-- GoogleStore of storage/postgres/accounts.go: one-time challenges, and the Google identity of an
-- account.
use authlier.Common.{
  String, Bool, true, not, ◌&&◌, ◌||◌, ◌∷◌, any, find?, select, update_where, ◌==◌, string_eq,
  bytes_eq, if◌then◌else◌,
}
use authlier.Clock.{Time, before}
use authlier.Exec.{
  Result, ok, err, Fault, no_rows, unique_violation, foreign_key_violation, Exec, pure, raise,
  rethrow, ◌>>=◌, ◌>>◌,
}
use authlier.Host.{Hash}
use authlier.GoogleAccount.{
  Error, conflict, invalid_state, last_credential, link_required, not_found, other, Challenge, User,
  IdentityResolution, Store, IdentityStore,
}
use authlier.Postgres.{GoogleChallengeRow, IdentityRow, Tables, Db, Server, statement, transaction}
use authlier.Postgres.Sessions.{scanned}
use authlier.Postgres.Accounts.{
  has_id, of_user, identity_of, passkey_of, select_email, lock_user, insert_user,
}

abbrev pub conflict_if_unique : Fault → Error
conflict_if_unique unique_violation = conflict
conflict_if_unique f = other f

abbrev pub not_found_if_none : Fault → Error
not_found_if_none no_rows = not_found
not_found_if_none f = other f

-- `if uniqueViolation(err) { return ErrLinkRequired }`
abbrev pub link_if_unique : Fault → Error
link_if_unique unique_violation = link_required
link_if_unique f = other f

abbrev pub has_state : Hash → GoogleChallengeRow → Bool
has_state state_hash r = r.state_hash == state_hash

abbrev pub has_subject : String → IdentityRow → Bool
has_subject provider_subject r = r.provider_subject == provider_subject

-- INSERT INTO authlier_google_challenges
unfoldable pub insert_challenge : Challenge → Tables → Result Fault (Unit {0}) × Tables
insert_challenge c t =
    if any (has_state c.state_hash) t.accounts.google_challenges
    then (err unique_violation, t)
    else (
      ok tt,
      record t {
        accounts = record t.accounts {
          google_challenges =
              record {
                state_hash = c.state_hash;
                nonce = c.nonce;
                code_verifier = c.code_verifier;
                subject_id = c.subject_id;
                created_at = c.created_at;
                expires_at = c.expires_at;
              }
              ∷ t.accounts.google_challenges;
        };
      },
    )

-- DELETE FROM authlier_google_challenges WHERE state_hash = $1 RETURNING …
unfoldable pub delete_challenge : Hash → Tables → Result Fault GoogleChallengeRow × Tables
delete_challenge state_hash t = (
  scanned (find? (has_state state_hash) t.accounts.google_challenges),
  record t {
    accounts = record t.accounts {
      google_challenges = select (λ r. not (has_state state_hash r)) t.accounts.google_challenges;
    };
  },
)

-- SELECT user_id FROM authlier_google_identities WHERE provider_subject = $1 FOR UPDATE
unfoldable pub select_identity : String → Tables → Result Fault IdentityRow × Tables
select_identity provider_subject t =
    (scanned (find? (has_subject provider_subject) t.accounts.google_identities), t)

-- SELECT provider_subject FROM authlier_google_identities WHERE user_id = $1
unfoldable pub select_linked : String → Tables → Result Fault IdentityRow × Tables
select_linked user_id t = (scanned (find? (identity_of user_id) t.accounts.google_identities), t)

abbrev pub set_email : String → IdentityRow → IdentityRow
set_email email r = record r { email = email }

-- UPDATE authlier_google_identities SET email = $1 WHERE provider_subject = $2
unfoldable pub update_email : String → String → Tables → Result Fault (Unit {0}) × Tables
update_email email provider_subject t = (
  ok tt,
  record t {
    accounts = record t.accounts {
      google_identities =
          update_where (has_subject provider_subject) (set_email email)
            t.accounts.google_identities;
    };
  },
)

abbrev pub linked_twice : IdentityRow → IdentityRow → Bool
linked_twice row r = has_subject row.provider_subject r || identity_of row.user_id r

-- INSERT INTO authlier_google_identities
unfoldable pub insert_identity : IdentityRow → Tables → Result Fault (Unit {0}) × Tables
insert_identity row t =
    if any (linked_twice row) t.accounts.google_identities
    then (err unique_violation, t)
    else if any (has_id row.user_id) t.accounts.users
    then (
      ok tt,
      record t {
        accounts = record t.accounts { google_identities = row ∷ t.accounts.google_identities };
      },
    )
    else (err foreign_key_violation, t)

-- The counts of passwords and passkeys: is their sum above 0?
unfoldable pub select_methods : String → Tables → Result Fault Bool × Tables
select_methods subject_id t = (
  ok (
      any (of_user subject_id) t.accounts.password_credentials
      || any (passkey_of subject_id) t.accounts.passkeys),
  t,
)

-- DELETE FROM authlier_google_identities WHERE user_id = $1
unfoldable pub delete_identity : String → Tables → Result Fault (Unit {0}) × Tables
delete_identity user_id t = (
  ok tt,
  record t {
    accounts = record t.accounts {
      google_identities = select (λ r. not (identity_of user_id r)) t.accounts.google_identities;
    };
  },
)

module _ (server : Server) where
  -- CreateChallenge
  unfoldable pub create_challenge : Challenge → Exec Db Error (Unit {0})
  unfolding insert_challenge
  create_challenge c = rethrow conflict_if_unique (statement server (insert_challenge c))

  -- ConsumeChallenge: a challenge that has expired is gone too.
  unfoldable pub consume_challenge : Hash → Time → Exec Db Error Challenge
  unfolding delete_challenge
  consume_challenge state_hash consumed_at = do
    r ← rethrow not_found_if_none (statement server (delete_challenge state_hash))
    if not (before consumed_at r.expires_at)
        then raise invalid_state
        else pure (record {
          state_hash = r.state_hash;
          nonce = r.nonce;
          code_verifier = r.code_verifier;
          subject_id = r.subject_id;
          created_at = r.created_at;
          expires_at = r.expires_at;
        })

  -- ResolveIdentity, where the identity is linked already
  unfoldable pub resolve_linked : IdentityResolution → IdentityRow → Exec Db Error User
  unfolding update_email
  resolve_linked resolution row =
      if not (resolution.subject_id == "") && not (row.user_id == resolution.subject_id)
      then raise conflict
      else (do
        rethrow other (statement server (update_email resolution.email resolution.provider_subject))
        pure (record { id = row.user_id }))

  -- The account of the subject to link, if it has no Google identity: `taken` is the error where the
  -- query finds one.
  unfoldable pub unless_found : {A : Type 0} → Error → Result Fault A → Exec Db Error (Unit {0})
  unless_found taken (ok row) = raise taken
  unless_found taken (err no_rows) = pure tt
  unless_found taken (err f) = raise (other f)

  -- The query's answer as a value.
  abbrev pub answered :
      {A : Type 0} → (Tables → Result Fault A × Tables) → Exec Db Error (Result Fault A)
  answered body db = let (r, db') = statement server body db in (ok r, db')

  -- The user to link: the subject, or a new user with the address of the identity.
  unfoldable pub link_target : IdentityResolution → Exec Db Error String
  unfolding lock_user select_linked select_email insert_user unless_found
  link_target resolution =
      if not (resolution.subject_id == "")
      then (do
        rethrow not_found_if_none (lock_user server resolution.subject_id)
        existing ← answered (select_linked resolution.subject_id)
        unless_found conflict existing
        pure resolution.subject_id)
      else (do
        owner ← answered (select_email resolution.email)
        unless_found link_required owner
        (λ db.
            rethrow link_if_unique
              (insert_user server resolution.email true (server.now db.statements)) db))

  -- ResolveIdentity, where the identity is not linked
  unfoldable pub resolve_new : IdentityResolution → Exec Db Error User
  unfolding link_target insert_identity
  resolve_new resolution = do
    user_id ← link_target resolution
    (λ db.
        rethrow conflict_if_unique
          (statement server (
            insert_identity (record {
              provider_subject = resolution.provider_subject;
              user_id = user_id;
              email = resolution.email;
              linked_at = server.current_timestamp db.statements;
            })))
          db)
    pure (record { id = user_id })

  -- ResolveIdentity, by what the lookup of the identity answered
  unfoldable pub resolve_found : IdentityResolution → Result Fault IdentityRow → Exec Db Error User
  unfolding resolve_linked resolve_new
  resolve_found resolution (ok row) = resolve_linked resolution row
  resolve_found resolution (err no_rows) = resolve_new resolution
  resolve_found resolution (err f) = raise (other f)

  unfoldable pub resolve_body : IdentityResolution → Exec Db Error User
  unfolding select_identity resolve_found
  resolve_body resolution = do
    linked ← answered (select_identity resolution.provider_subject)
    resolve_found resolution linked

  -- ResolveIdentity
  unfoldable pub resolve_identity : IdentityResolution → Exec Db Error User
  unfolding resolve_body
  resolve_identity resolution = transaction server other (resolve_body resolution)

  -- UnlinkIdentity, between Begin and Commit
  unfoldable pub unlink_body : String → Exec Db Error (Unit {0})
  unfolding lock_user select_linked select_methods delete_identity
  unlink_body subject_id = do
    rethrow not_found_if_none (lock_user server subject_id)
    rethrow not_found_if_none (statement server (select_linked subject_id))
    methods ← rethrow other (statement server (select_methods subject_id))
    if not methods
        then raise last_credential
        else rethrow other (statement server (delete_identity subject_id))

  -- UnlinkIdentity
  unfoldable pub unlink_identity : String → Time → Exec Db Error (Unit {0})
  unfolding unlink_body
  unlink_identity subject_id unlinked_at = transaction server other (unlink_body subject_id)

  abbrev pub google_store : Store Db
  google_store = record {
    create_challenge = create_challenge;
    consume_challenge = consume_challenge;
    resolve_identity = resolve_identity;
  }

  abbrev pub identity_store : IdentityStore Db
  identity_store = record { unlink_identity = unlink_identity }
