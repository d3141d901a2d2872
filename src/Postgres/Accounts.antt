-- ===== src/Postgres/Accounts.antt =====
-- storage/postgres/accounts.go: the tables of accounts, and the statements that its stores share. The
-- children hold the stores.
pub mod Passwords
pub mod Resets
pub mod Verifications
pub mod Identities
pub mod Passkeys
pub mod Methods
pub mod Outcomes
pub mod Resetting
pub mod Once
pub mod Keys
pub mod Keeping
pub mod Steps
use authlier.Common.{
  ℕ, String, Bool, true, false, not, ◌&&◌, ◌||◌, Option, none, some, List, [], ◌∷◌, Bytes, ◌==◌,
  bytes_eq, string_eq, any, find?, select, update_where, ◌+◌, length, if◌then◌else◌,
}
use authlier.Clock.{Time}
use authlier.Exec.{
  Result, ok, err, Fault, no_rows, unique_violation, foreign_key_violation, unavailable, Exec,
  ◌>>=◌, ◌>>◌, pure,
}
use authlier.Host.{Hash}
use authlier.Postgres.{
  UserRow, PasswordRow, TokenRow, IdentityRow, PasskeyRow, Tables, Db, Server, statement,
}
use authlier.Postgres.Sessions.{scanned}

abbrev pub has_id : String → UserRow → Bool
has_id id u = u.id == id

abbrev pub has_email : String → UserRow → Bool
has_email email u = u.email == email

abbrev pub of_user : String → PasswordRow → Bool
of_user user_id r = r.user_id == user_id

abbrev pub token_of : String → TokenRow → Bool
token_of user_id r = r.user_id == user_id

abbrev pub has_token : Hash → TokenRow → Bool
has_token token_hash r = r.token_hash == token_hash

abbrev pub identity_of : String → IdentityRow → Bool
identity_of user_id r = r.user_id == user_id

abbrev pub passkey_of : String → PasskeyRow → Bool
passkey_of subject_id r = r.subject_id == subject_id

-- A row of authlier_users that would repeat a unique column of this one.
abbrev pub clashes : UserRow → UserRow → Bool
clashes row u = u.id == row.id || u.email == row.email || u.webauthn_handle == row.webauthn_handle

-- INSERT INTO authlier_users
unfoldable pub insert_user_row : UserRow → Tables → Result Fault (Unit {0}) × Tables
insert_user_row row t =
    if any (clashes row) t.accounts.users
    then (err unique_violation, t)
    else (ok tt, record t { accounts = record t.accounts { users = row ∷ t.accounts.users } })

-- SELECT id FROM authlier_users WHERE id = $1 FOR UPDATE, with its other columns
unfoldable pub select_user : String → Tables → Result Fault UserRow × Tables
select_user subject_id t = (scanned (find? (has_id subject_id) t.accounts.users), t)

-- SELECT … FROM authlier_users WHERE email = $1
unfoldable pub select_email : String → Tables → Result Fault UserRow × Tables
select_email email t = (scanned (find? (has_email email) t.accounts.users), t)

-- INSERT INTO authlier_password_credentials
unfoldable pub insert_password : PasswordRow → Tables → Result Fault (Unit {0}) × Tables
insert_password row t =
    if any (of_user row.user_id) t.accounts.password_credentials
    then (err unique_violation, t)
    else if any (has_id row.user_id) t.accounts.users
    then (
      ok tt,
      record t {
        accounts = record t.accounts {
          password_credentials = row ∷ t.accounts.password_credentials;
        };
      },
    )
    else (err foreign_key_violation, t)

-- INSERT INTO authlier_password_credentials … ON CONFLICT (user_id) DO UPDATE
unfoldable pub upsert_password : PasswordRow → Tables → Result Fault (Unit {0}) × Tables
upsert_password row t =
    if any (of_user row.user_id) t.accounts.password_credentials
    then (
      ok tt,
      record t {
        accounts = record t.accounts {
          password_credentials =
              update_where (of_user row.user_id) (λ r. row) t.accounts.password_credentials;
        };
      },
    )
    else if any (has_id row.user_id) t.accounts.users
    then (
      ok tt,
      record t {
        accounts = record t.accounts {
          password_credentials = row ∷ t.accounts.password_credentials;
        };
      },
    )
    else (err foreign_key_violation, t)

abbrev pub other_token : TokenRow → TokenRow → Bool
other_token row r = has_token row.token_hash r && not (token_of row.user_id r)

-- The rows after INSERT … (user_id, email, token_hash, created_at, expires_at) … ON CONFLICT (user_id)
-- DO UPDATE, for a table of tokens that refers to the users.
unfoldable pub upserted : TokenRow → List UserRow → List TokenRow → Result Fault (List TokenRow)
upserted row users rows =
    if any (other_token row) rows
    then err unique_violation
    else if any (token_of row.user_id) rows
    then ok (update_where (token_of row.user_id) (λ r. row) rows)
    else if any (has_id row.user_id) users
    then ok (row ∷ rows)
    else err foreign_key_violation

abbrev row_of_user : List UserRow → Option TokenRow → Option (UserRow × TokenRow)
row_of_user users none = none
row_of_user users (some r) = elim (find? (has_id r.user_id) users) [
  | none ↦ none
  | some u ↦ some (u, r)
]

-- SELECT … FROM tokens v JOIN authlier_users u ON u.id = v.user_id WHERE v.token_hash = $1
unfoldable pub joined_token :
    Hash → List UserRow → List TokenRow → Result Fault (UserRow × TokenRow)
joined_token token_hash users rows = scanned (row_of_user users (find? (has_token token_hash) rows))

module _ (server : Server) where
  -- lockUser
  unfoldable pub lock_user : String → Exec Db Fault UserRow
  unfolding select_user
  lock_user subject_id = statement server (select_user subject_id)

  -- uuid.NewV7().String(); rand.Read(handle), 64 bytes
  unfoldable pub draw_user : Exec Db Fault (String × Bytes)
  draw_user db = elim (server.new_uuid db.statements) [
    | none ↦ (err unavailable, db)
    | some user_id ↦ elim (server.rand_read db.statements 64) [
      | none ↦ (err unavailable, db)
      | some handle ↦ (ok (user_id, handle), db)
    ]
  ]

  -- insertUser
  unfoldable pub insert_user : String → Bool → Time → Exec Db Fault String
  unfolding draw_user insert_user_row
  insert_user email verified created_at = do
    (user_id, handle) ← draw_user
    statement server (
        insert_user_row (record {
          id = user_id;
          email = email;
          email_verified = verified;
          webauthn_handle = handle;
          created_at = created_at;
        }))
    pure user_id
