-- ===== src/Postgres/Accounts/Outcomes.antt =====
-- What the stores of accounts.go leave for one another.
use authlier.Common.{
  ◌≡◌, refl, false, ◌∷◌, ◌||◌, arith, string_eq, bytes_eq, eq_iff, Option-cases, inl, inr,
}
use authlier.Exec.{ok}
use authlier.EmailPassword
use authlier.EmailPassword.{Registration, PasswordCredential}
use authlier.Postgres.{UserRow, PasswordRow, Tables, Db, Server}
use authlier.Postgres.Statements.{transaction-ok, after_begin}
use authlier.Postgres.Accounts.{insert_user_row, insert_password, draw_user}
use authlier.Postgres.Accounts.Passwords

module _ (server : Server) where
  -- The rows that a registration adds.
  record IsRegistered (r : Registration) (user : EmailPassword.User) (t t' : Tables) : Type 0 where
    user_row : UserRow
    password_row : PasswordRow
    same_id : user.id ≡ user_row.id
    same_email : user_row.email ≡ r.email
    of_registration : user.email ≡ r.email
    owner : password_row.user_id ≡ user_row.id
    hashed : password_row.password_hash ≡ r.password_hash
    users : t'.accounts.users ≡ user_row ∷ t.accounts.users
    passwords : t'.accounts.password_credentials ≡ password_row ∷ t.accounts.password_credentials

  register_body-IsRegistered :
      (r : Registration) (user : EmailPassword.User) (db : Db)
      → (Passwords.register_body server r db).0 ≡ ok user
      → IsRegistered r user db.tables (Passwords.register_body server r db).1.tables
  unfolding Passwords.register_body insert_user_row insert_password draw_user
  register_body-IsRegistered r user db e = elim (Option-cases (server.new_uuid db.statements)) [
    | inl failed ↦ absurd (ground arith)
    | inr (user_id, drawn) ↦ elim (Option-cases (server.rand_read db.statements 64)) [
      | inl failed ↦ absurd (ground arith)
      | inr (handle, read) ↦ record {
        user_row = record {
          id = user_id;
          email = r.email;
          email_verified = false;
          webauthn_handle = handle;
          created_at = r.created_at;
        };
        password_row = record {
          user_id = user_id;
          password_hash = r.password_hash;
          updated_at = r.created_at;
        };
        same_id = ground arith;
        same_email = refl;
        of_registration = ground arith;
        owner = refl;
        hashed = refl;
        users = ground arith;
        passwords = ground arith;
      }
    ]
  ]

  find_registered :
      (r : Registration) (user : EmailPassword.User) (t : Tables) (db : Db)
      → IsRegistered r user t db.tables
      → server.fails db.statements || server.loses db.statements ≡ false
      → (Passwords.find_by_email server r.email db).0
        ≡ ok (user, record { user_id = user.id; password_hash = r.password_hash })
  unfolding Passwords.find_by_email Passwords.select_by_email
  find_registered r user t db i sent =
      rw (i.users, i.passwords)
        (ground (
          arith,
          sent,
          i.same_id,
          i.same_email,
          i.of_registration,
          i.owner,
          i.hashed,
          eq_iff i.user_row.email r.email,
          eq_iff i.password_row.user_id i.user_row.id,
        ))

  -- After a successful `Register`, `FindByEmail` of the address returns the user that `Register`
  -- returned, and a credential of that user with the hash that was given, if the server answers it.
  pub register-find_by_email :
      (r : Registration) (user : EmailPassword.User) (db : Db)
      → (Passwords.register server r db).0 ≡ ok user
      → let after = (Passwords.register server r db).1 in
        server.fails after.statements || server.loses after.statements ≡ false
        → (Passwords.find_by_email server r.email after).0
          ≡ ok (user, record { user_id = user.id; password_hash = r.password_hash })
  unfolding Passwords.register
  register-find_by_email r user db e sent =
      let (ran, kept) =
        transaction-ok server EmailPassword.other (Passwords.register_body server r) db e in
      let i = register_body-IsRegistered r user (after_begin db) ran in
      find_registered r user db.tables _ (rw kept i) sent
