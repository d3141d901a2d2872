-- ===== src/Postgres/Accounts/Passwords.antt =====
-- EmailPasswordStore of storage/postgres/accounts.go.
use authlier.Common.{
  String, Bool, false, not, ◌&&◌, ◌||◌, Option, none, some, List, ◌==◌, string_eq, any, find?,
  select, update_where, if◌then◌else◌,
}
use authlier.Clock.{Time}
use authlier.Exec.{
  Result, ok, Fault, no_rows, unique_violation, Exec, pure, raise, rethrow, ◌>>=◌, ◌>>◌,
}
use authlier.EmailPassword.{
  Error, conflict, last_credential, not_found, other, User, PasswordCredential, Registration, Store,
  CredentialStore,
}
use authlier.Postgres.{UserRow, PasswordRow, Tables, Db, Server, statement, transaction}
use authlier.Postgres.Sessions.{scanned}
use authlier.Postgres.Accounts.{
  has_id, has_email, of_user, identity_of, passkey_of, insert_user_row, insert_password, lock_user,
  draw_user,
}

abbrev pub conflict_if_unique : Fault → Error
conflict_if_unique unique_violation = conflict
conflict_if_unique f = other f

abbrev pub not_found_if_none : Fault → Error
not_found_if_none no_rows = not_found
not_found_if_none f = other f

abbrev with_password : List PasswordRow → Option UserRow → Option (UserRow × PasswordRow)
with_password passwords none = none
with_password passwords (some u) = elim (find? (of_user u.id) passwords) [
  | none ↦ none
  | some p ↦ some (u, p)
]

-- SELECT … FROM authlier_users u JOIN authlier_password_credentials p … WHERE u.email = $1
unfoldable pub select_by_email : String → Tables → Result Fault (UserRow × PasswordRow) × Tables
select_by_email email t = (
  scanned
      (with_password t.accounts.password_credentials (find? (has_email email) t.accounts.users)),
  t,
)

-- The same with WHERE u.id = $1
unfoldable pub select_by_id : String → Tables → Result Fault (UserRow × PasswordRow) × Tables
select_by_id id t = (
  scanned (with_password t.accounts.password_credentials (find? (has_id id) t.accounts.users)),
  t,
)

abbrev pub has_hash : String → String → PasswordRow → Bool
has_hash user_id current_hash r = of_user user_id r && r.password_hash == current_hash

abbrev pub new_hash : String → Time → PasswordRow → PasswordRow
new_hash replacement_hash updated_at r = record r {
  password_hash = replacement_hash;
  updated_at = updated_at;
}

-- UPDATE … WHERE user_id = $3 AND password_hash = $4: was a row affected?
unfoldable pub update_hash : String → String → String → Time → Tables → Result Fault Bool × Tables
update_hash user_id current_hash replacement_hash updated_at t = (
  ok (any (has_hash user_id current_hash) t.accounts.password_credentials),
  record t {
    accounts = record t.accounts {
      password_credentials =
          update_where (has_hash user_id current_hash) (new_hash replacement_hash updated_at)
            t.accounts.password_credentials;
    };
  },
)

-- SELECT password_hash FROM authlier_password_credentials WHERE user_id = $1
unfoldable pub select_hash : String → Tables → Result Fault PasswordRow × Tables
select_hash user_id t = (scanned (find? (of_user user_id) t.accounts.password_credentials), t)

-- The two counts of otherCredentialCount: is their sum above 0?
unfoldable pub select_others : String → Tables → Result Fault Bool × Tables
select_others subject_id t = (
  ok (
      any (identity_of subject_id) t.accounts.google_identities
      || any (passkey_of subject_id) t.accounts.passkeys),
  t,
)

-- DELETE FROM authlier_password_credentials WHERE user_id = $1
unfoldable pub delete_password : String → Tables → Result Fault (Unit {0}) × Tables
delete_password user_id t = (
  ok tt,
  record t {
    accounts = record t.accounts {
      password_credentials = select (λ r. not (of_user user_id r)) t.accounts.password_credentials;
    };
  },
)

abbrev pub of_rows : UserRow × PasswordRow → User × PasswordCredential
of_rows (u, p) = (
  record { id = u.id; email = u.email },
  record { user_id = u.id; password_hash = p.password_hash },
)

module _ (server : Server) where
  -- Register, between Begin and Commit
  unfoldable pub register_body : Registration → Exec Db Error User
  unfolding draw_user insert_user_row insert_password
  register_body registration = do
    (user_id, handle) ← rethrow other (draw_user server)
    rethrow conflict_if_unique (
        statement server (
          insert_user_row (record {
            id = user_id;
            email = registration.email;
            email_verified = false;
            webauthn_handle = handle;
            created_at = registration.created_at;
          })))
    rethrow other (
        statement server (
          insert_password (record {
            user_id = user_id;
            password_hash = registration.password_hash;
            updated_at = registration.created_at;
          })))
    pure (record { id = user_id; email = registration.email })

  -- Register. No constraint is deferred, so that a refused COMMIT is no unique violation.
  unfoldable pub register : Registration → Exec Db Error User
  unfolding register_body
  register registration = transaction server other (register_body registration)

  -- FindByEmail
  unfoldable pub find_by_email : String → Exec Db Error (User × PasswordCredential)
  unfolding select_by_email
  find_by_email email = do
    rows ← rethrow not_found_if_none (statement server (select_by_email email))
    pure (of_rows rows)

  -- FindBySubject
  unfoldable pub find_by_subject : String → Exec Db Error (User × PasswordCredential)
  unfolding select_by_id
  find_by_subject subject_id = do
    rows ← rethrow not_found_if_none (statement server (select_by_id subject_id))
    pure (of_rows rows)

  -- AddPassword
  unfoldable pub add_body : String → String → Time → Exec Db Error User
  unfolding lock_user insert_password
  add_body subject_id password_hash added_at = do
    u ← rethrow not_found_if_none (lock_user server subject_id)
    rethrow conflict_if_unique (
        statement server (
          insert_password (record {
            user_id = subject_id;
            password_hash = password_hash;
            updated_at = added_at;
          })))
    pure (record { id = u.id; email = u.email })

  unfoldable pub add_password : String → String → Time → Exec Db Error User
  unfolding add_body
  add_password subject_id password_hash added_at =
      transaction server other (add_body subject_id password_hash added_at)

  -- ReplacePasswordHash
  unfoldable pub replace_password_hash : String → String → String → Time → Exec Db Error (Unit {0})
  unfolding update_hash
  replace_password_hash user_id current_hash replacement_hash updated_at = do
    affected ←
        rethrow other
          (statement server (update_hash user_id current_hash replacement_hash updated_at))
    if not affected then raise conflict else pure tt

  -- RemovePassword
  unfoldable pub remove_body : String → String → Exec Db Error (Unit {0})
  unfolding lock_user select_hash select_others delete_password
  remove_body subject_id current_hash = do
    rethrow not_found_if_none (lock_user server subject_id)
    row ← rethrow not_found_if_none (statement server (select_hash subject_id))
    if not (row.password_hash == current_hash) then raise conflict else (do
      others ← rethrow other (statement server (select_others subject_id))
      if not others
          then raise last_credential
          else rethrow other (statement server (delete_password subject_id)))

  unfoldable pub remove_password : String → String → Time → Exec Db Error (Unit {0})
  unfolding remove_body
  remove_password subject_id current_hash removed_at =
      transaction server other (remove_body subject_id current_hash)

  abbrev pub password_store : Store Db
  password_store = record {
    register = register;
    find_by_email = find_by_email;
    replace_password_hash = replace_password_hash;
  }

  abbrev pub credential_store : CredentialStore Db
  credential_store = record {
    find_by_subject = find_by_subject;
    add_password = add_password;
    replace_password_hash = replace_password_hash;
    remove_password = remove_password;
  }
